-- ===== src/Agent/Llm/Turns.antt =====
-- agent/gemini_agent.py: the conversation with the model, and the loop over its tool calls.
-- The model behind the Gemini client is a parameter, and so is the dispatch of a tool call.
pub mod Bounds
use wso2_teamspace_demo.Base.{
  ℕ, zero, suc, String, ◌<>◌, Bool, true, false, Option, none, some, List, [], ◌∷◌, ◌++◌, map, ◌==◌,
  nonempty, drop, if◌then◌else◌,
}
use wso2_teamspace_demo.Base.Json.{Json, str, Fields, end, field}
use wso2_teamspace_demo.Base.Run.{Result, ok, err, Run, pure, lift, ◌>>=◌, ◌>>◌}
use wso2_teamspace_demo.Base.Values.{◌>>?◌}
use wso2_teamspace_demo.Agent.Llm.Html.{html_escape}

-- A part of what the model answers: a call with a name and arguments, a text, or anything else.
pub data Part : Type 0 where
  function_call : String → Fields → Part
  text : String → Part
  unexpected : Part

-- A turn of the conversation: a text of the user or of the model, the model's call, or a tool's result.
pub data Content : Type 0 where
  user model : String → Content
  call : Part → Content
  function_response : String → Json → Content

-- The parts of each candidate.
abbrev pub Response : Type 0
Response = List (List Part)

-- `response.candidates[0].content.parts`, empty without a candidate
abbrev pub first_parts : Response → List Part
first_parts [] = []
first_parts (parts ∷ _) = parts

-- A message of the transcript, by its role.
abbrev pub content_of : String × String → Content
content_of (role, content) = if role == "user" then user content else model content

-- `_history_to_contents`
unfoldable pub history_to_contents : List (String × String) → String → List Content
history_to_contents history message = map content_of history ++ (user message ∷ [])

-- `_append_tool_call_messages`
unfoldable pub append_tool_call_messages : List Content → String → Fields → Json → List Content
append_tool_call_messages messages name args result =
    messages
    ++ (call (function_call name args)
        ∷ function_response name (Json.obj (field "result" result end))
        ∷ [])

abbrev pub apology : String
apology = "I couldn't process that request. Could you try again?"

module _ {W : Type 0} (generate_content : List Content → Run W Response)
    (dispatch_tool : String → Fields → String → Run W Json) where
  -- `_dispatch_tool_and_refetch`
  unfoldable pub dispatch_tool_and_refetch :
      List Content → String → Fields → String → Run W (List Content × Response)
  dispatch_tool_and_refetch messages name args thread = do
    tool_result ← dispatch_tool name args thread
    let extended = append_tool_call_messages messages name args tool_result
    response ← generate_content extended
    pure (extended, response)

  -- The `for` loop, with the iterations that are left.
  unfoldable pub tool_loop : ℕ → List Content → Response → String → Run W String
  tool_loop zero messages response thread = pure apology
  tool_loop (suc n) messages response thread = elim (first_parts response) [
    | [] ↦ pure apology
    | function_call name args ∷ _ ↦ (do
      (extended, next) ← dispatch_tool_and_refetch messages name args thread
      tool_loop n extended next thread)
    | text s ∷ _ ↦ pure (if nonempty s then s else apology)
    | unexpected ∷ _ ↦ pure apology
  ]

  -- `_run_gemini_tool_loop`
  unfoldable pub run_gemini_tool_loop : ℕ → List Content → String → Run W String
  run_gemini_tool_loop max_iterations messages thread = do
    response ← generate_content messages
    tool_loop max_iterations messages response thread
