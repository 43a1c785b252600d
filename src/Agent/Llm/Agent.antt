-- ===== src/Agent/Llm/Agent.antt =====
-- agent/gemini_agent.py: `run_agent` and `run_agent_stream`.
use wso2_teamspace_demo.Base.{String, Bool, Option, none, some, List, [], ◌∷◌, Dict, if◌then◌else◌}
use wso2_teamspace_demo.Base.Json.{Json, Fields}
use wso2_teamspace_demo.Base.Run.{Result, ok, err, Run, pure, lift, ◌>>=◌}
use wso2_teamspace_demo.Agent.Store.Interface.{KeyValueStore}
use wso2_teamspace_demo.Agent.World.{AgentWorld}
use wso2_teamspace_demo.Agent.Llm.Html.{strip_tags}
use wso2_teamspace_demo.Agent.Llm.Mock.{mock_response}
use wso2_teamspace_demo.Agent.Llm.Authorized.{handle_authorization_callback}
use wso2_teamspace_demo.Agent.Llm.Prompt.{build_system_instruction, select_gemini_client}
use wso2_teamspace_demo.Agent.Llm.Turns.{
  Content, Response, history_to_contents, run_gemini_tool_loop,
}
use wso2_teamspace_demo.Agent.Llm.Stream.{Streaming, stream_loop, stream_text_in_chunks}

-- What a run is asked.
pub record Question : Type 0 where
  pub message : String
  pub thread_id : String
  pub org_name : String
  -- the role and the content of each message
  pub history : List (String × String)
  pub gemini_api_key : String
  pub custom_prompt : String
  pub language : String
  pub agent_name : String

-- The settings, and what is outside: `str(value)`, `str.format`, today's date and weekday, and the model
-- under a client's key and an instruction.
pub record Outer (W : Type 0) : Type 0 where
  pub mock_llm : Bool
  pub default_key : String
  pub show : Json → String
  pub format : String → Dict String → Result String
  pub date : String
  pub weekday : String
  pub generate_content : String → String → List Content → Run W Response
  pub generate_content_stream :
      String → String → List Content → Run W (List Response × Result (Unit {0}))

module _ (K : KeyValueStore) (o : Outer (AgentWorld K))
    (dispatch_tool : String → Fields → String → Run (AgentWorld K) Json) where
  -- The instruction for a question.
  abbrev instruction : Question → Result String
  instruction q =
      build_system_instruction o.format q.custom_prompt q.org_name q.agent_name q.language o.date
        o.weekday

  -- The model's part of a run, with the client's key.
  with_model : Question → Option String → Run (AgentWorld K) String
  with_model q none =
      pure
        "No Gemini API key configured for this organization. Ask an admin to register an AI Agent with an API key."
  with_model q (some key) = do
    system_instruction ← lift (instruction q)
    run_gemini_tool_loop (o.generate_content key system_instruction) dispatch_tool 5
        (history_to_contents q.history q.message) q.thread_id

  unfoldable pub run_agent : Question → Run (AgentWorld K) String
  unfolding with_model
  run_agent q = do
    intercepted ←
        handle_authorization_callback K dispatch_tool o.show q.message q.thread_id q.language
    elim intercepted [
      | some response_text ↦ pure (strip_tags response_text)
      | none ↦
          if o.mock_llm
          then mock_response dispatch_tool o.show q.message q.thread_id q.agent_name q.language
          else with_model q (select_gemini_client o.default_key q.gemini_api_key)
    ]

  -- A text that is yielded in chunks.
  abbrev in_chunks : Result String × AgentWorld K → List String × Result (Unit {0}) × AgentWorld K
  in_chunks (ok response_text, w) = (stream_text_in_chunks response_text, ok tt, w)
  in_chunks (err e, w) = ([], err e, w)

  -- The model's part of a streamed run.
  stream_with_model : Question → Option String → Streaming (AgentWorld K)
  stream_with_model q none w = (
    "<p>No Gemini API key configured for this organization. Ask an admin to register an AI Agent with an API key.</p>"
        ∷ [],
    ok tt,
    w,
  )
  stream_with_model q (some key) w = elim (instruction q) [
    | err e ↦ ([], err e, w)
    | ok system_instruction ↦
        stream_loop (o.generate_content_stream key system_instruction) dispatch_tool 5
          (history_to_contents q.history q.message) q.thread_id w
  ]

  unfoldable pub run_agent_stream : Question → Streaming (AgentWorld K)
  unfolding stream_with_model
  run_agent_stream q w =
      let (intercepted, w₁) =
        handle_authorization_callback K dispatch_tool o.show q.message q.thread_id q.language w in
      elim intercepted [
        | err e ↦ ([], err e, w₁)
        | ok (some response_text) ↦ (stream_text_in_chunks response_text, ok tt, w₁)
        | ok none ↦
            if o.mock_llm
            then in_chunks (
                mock_response dispatch_tool o.show q.message q.thread_id q.agent_name q.language w₁)
            else stream_with_model q (select_gemini_client o.default_key q.gemini_api_key) w₁
      ]
