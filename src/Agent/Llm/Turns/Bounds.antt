-- ===== src/Agent/Llm/Turns/Bounds.antt =====
-- How often a run of the agent calls tools and the model (agent/gemini_agent.py).
use wso2_teamspace_demo.Base.{ℕ, zero, suc, ◌+◌, ◌≤◌, String, List, [], ◌∷◌, arith, inl, inr}
use wso2_teamspace_demo.Base.Json.{Json, Fields}
use wso2_teamspace_demo.Base.Run.{Run, Result-cases}
use wso2_teamspace_demo.Agent.Llm.Turns.{
  function_call, text, unexpected, Content, Response, tool_loop, run_gemini_tool_loop,
  dispatch_tool_and_refetch, append_tool_call_messages,
}

-- The world with the number of tool calls and of requests to the model so far.
pub record Counted (W : Type 0) : Type 0 where
  pub world : W
  pub tool_calls : ℕ
  pub requests : ℕ

-- A tool call, and a request, that is counted when it is made.
abbrev pub count_tool : {W A : Type 0} → Run W A → Run (Counted W) A
count_tool m s =
    let (r, w) = m s.world in
    (r, record { world = w; tool_calls = s.tool_calls + 1; requests = s.requests })

abbrev pub count_request : {W A : Type 0} → Run W A → Run (Counted W) A
count_request m s =
    let (r, w) = m s.world in
    (r, record { world = w; tool_calls = s.tool_calls; requests = s.requests + 1 })

module _ {W : Type 0} (generate_content : List Content → Run W Response)
    (dispatch_tool : String → Fields → String → Run W Json) where
  abbrev generate : List Content → Run (Counted W) Response
  generate messages = count_request (generate_content messages)

  abbrev dispatch : String → Fields → String → Run (Counted W) Json
  dispatch name args thread = count_tool (dispatch_tool name args thread)

  -- At most so many tool calls more, and no more requests than tool calls.
  abbrev IsWithin : ℕ → Counted W → Counted W → Type 0
  IsWithin n s t =
      (s.tool_calls ≤ t.tool_calls)
      × (t.tool_calls ≤ s.tool_calls + n)
      × (t.requests + s.tool_calls ≤ s.requests + t.tool_calls)

  tool_loop-IsWithin :
      (n : ℕ) (messages : List Content) (response : Response) (thread : String) (s : Counted W)
      → IsWithin n s (tool_loop generate dispatch n messages response thread s).1
  unfolding tool_loop dispatch_tool_and_refetch
  tool_loop-IsWithin zero messages response thread s = omega arith
  tool_loop-IsWithin (suc n) messages [] thread s = omega arith
  tool_loop-IsWithin (suc n) messages ([] ∷ _) thread s = omega arith
  tool_loop-IsWithin (suc n) messages ((text t ∷ _) ∷ _) thread s = omega arith
  tool_loop-IsWithin (suc n) messages ((unexpected ∷ _) ∷ _) thread s = omega arith
  tool_loop-IsWithin (suc n) messages ((function_call name args ∷ _) ∷ _) thread s =
      elim (Result-cases (dispatch_tool name args thread s.world).0) [
        | inr (e, failed) ↦ rw failed (omega arith)
        | inl (v, got) ↦
            let extended = append_tool_call_messages messages name args v in
            let after = (dispatch_tool name args thread s.world).1 in
            elim (Result-cases (generate_content extended after).0) [
              | inr (e, failed) ↦ rw (got, failed) (omega arith)
              | inl (next, answered) ↦
                  let rest = tool_loop-IsWithin n extended next thread (record {
                    world = (generate_content extended after).1;
                    tool_calls = s.tool_calls + 1;
                    requests = s.requests + 1;
                  }) in
                  rw (got, answered) (omega (arith, rest.0, rest.1, rest.2))
            ]
      ]

  -- The counts at the end of a run, whether it returned or raised.
  unfoldable pub counts_of : ℕ → List Content → String → W → Counted W
  counts_of max messages thread w =
      (run_gemini_tool_loop generate dispatch max messages thread
        (record { world = w; tool_calls = 0; requests = 0 })).1

  -- For one question the loop around the model calls at most as many tools as its maximum says, and
  -- the model at most once more than it called tools, whatever the model answers.
  pub run_gemini_tool_loop_bounds :
      (max : ℕ) (messages : List Content) (thread : String) (w : W)
      → ((counts_of max messages thread w).tool_calls ≤ max)
        × ((counts_of max messages thread w).requests
            ≤ (counts_of max messages thread w).tool_calls + 1)
  unfolding run_gemini_tool_loop counts_of
  run_gemini_tool_loop_bounds max messages thread w =
      let asked : Counted W = record {
        world = (generate_content messages w).1;
        tool_calls = 0;
        requests = 1;
      } in
      elim (Result-cases (generate_content messages w).0) [
        | inr (e, failed) ↦ rw (counts_of, failed) (omega arith)
        | inl (response, answered) ↦
            let rest = tool_loop-IsWithin max messages response thread asked in
            rw (counts_of, answered) (omega (arith, rest.0, rest.1, rest.2))
      ]
