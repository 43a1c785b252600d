-- ===== src/Agent/Chat.antt =====
-- agent/main.py: what /chat and /chat/stream do around the agent's run, and the routes that show and
-- clear a thread.
-- The run itself (agent/gemini_agent.py) is a parameter: it may change the world, and may raise.
pub mod Laws
mod Tests
use wso2_teamspace_demo.Base.{
  ℕ, String, Bool, true, false, not, ◌&&◌, Option, none, some, List, [], ◌∷◌, nonempty, or_empty,
  if◌then◌else◌,
}
use wso2_teamspace_demo.Base.Json.{Json, null, str, truthy}
use wso2_teamspace_demo.Base.Values.{value_or, or_value}
use wso2_teamspace_demo.Base.Run.{Result, ok, err, Run, pure, ◌>>=◌, ◌>>◌}
use wso2_teamspace_demo.Agent.Config.{Settings}
use wso2_teamspace_demo.Agent.Outside.{Outside}
use wso2_teamspace_demo.Agent.Store.Interface.{KeyValueStore}
use wso2_teamspace_demo.Agent.World.{AgentWorld}
use wso2_teamspace_demo.Agent.StateManager.{
  FrontendState, awaiting_authorization, set_org_name, set_agent_credentials, set_agent_name,
  get_agent_credentials, get_frontend_state, get_auth_url, clear_state,
}
use wso2_teamspace_demo.Agent.AuthManager.{
  get_obo_token, get_agent_jwt_raw, fetch_agent_token, clear_obo_tokens,
}
use wso2_teamspace_demo.Agent.ChatHistory
use wso2_teamspace_demo.Agent.ChatHistory.{get_history, add_message}

-- `ChatRequest`, the fields that the agent's run alone reads left out
pub record ChatRequest : Type 0 where
  pub thread_id : String
  pub message : String
  pub org_name : String
  pub agent_id : Option String
  pub agent_secret : Option String
  pub agent_name : Option String

-- What `_prepare_chat` returns, the managers left out.
pub record Prepared : Type 0 where
  pub initial_obo_jwt : Json
  pub initial_agent_jwt : Json
  pub history : List Json

-- What `_collect_response_metadata` returns.
pub record Metadata : Type 0 where
  pub state : FrontendState
  pub authorization_url : Json
  pub obo_jwt : Json
  pub agent_jwt : Json

-- The chunks that a stream yields, and its end with the metadata or with the error text.
pub data Streamed : Type 0 where
  complete : String → Metadata → Streamed
  broken : Streamed

-- `except Exception`: what was raised is dropped, and what was written stays.
abbrev pub recover : {S A : Type 0} → A → Run S A → Run S A
recover default m w = let (r, w') = m w in elim r [ ok a ↦ (ok a, w') | err e ↦ (ok default, w') ]

module _ (K : KeyValueStore) (c : Settings) (out : Outside K.State) (max_messages : ℕ) where
  -- The three `if` at the start.
  remember : ChatRequest → Run (AgentWorld K) (Unit {0})
  remember req = do
    if nonempty req.org_name then set_org_name K req.thread_id req.org_name else pure tt
    if nonempty (or_empty req.agent_id)
        then set_agent_credentials K req.thread_id (or_empty req.agent_id)
            (or_empty req.agent_secret)
        else pure tt
    if nonempty (or_empty req.agent_name)
        then set_agent_name K req.thread_id (or_empty req.agent_name)
        else pure tt

  -- A missing agent token is fetched, where there are credentials; a failure is dropped.
  prefetch : String → Json → Run (AgentWorld K) Json
  prefetch thread initial = if truthy initial then pure initial else do
    credentials ← get_agent_credentials K thread
    if nonempty credentials.0 && nonempty credentials.1
        then recover initial (fetch_agent_token K c out credentials.0 credentials.1 thread)
        else pure initial

  -- `_prepare_chat`
  unfoldable pub prepare_chat : ChatRequest → Run (AgentWorld K) Prepared
  unfolding remember prefetch
  prepare_chat req = do
    remember req
    obo ← get_obo_token K req.thread_id
    agent ← get_agent_jwt_raw K req.thread_id
    agent_jwt ← prefetch req.thread_id (value_or null agent)
    history ← get_history K req.thread_id
    add_message K max_messages req.thread_id "user" req.message
    pure (record {
      initial_obo_jwt = value_or null obo;
      initial_agent_jwt = agent_jwt;
      history = history;
    })

  -- The authorization URL, while the frontend waits for it.
  pending_url : String → FrontendState → Run (AgentWorld K) Json
  pending_url thread awaiting_authorization = do
    url ← get_auth_url K thread
    pure (value_or null url)
  pending_url thread _ = pure null

  -- `_collect_response_metadata`
  unfoldable pub collect_response_metadata : String → Json → Json → Run (AgentWorld K) Metadata
  unfolding pending_url
  collect_response_metadata thread initial_obo_jwt initial_agent_jwt = do
    state ← get_frontend_state K thread
    url ← pending_url thread state
    obo ← get_obo_token K thread
    agent ← get_agent_jwt_raw K thread
    pure (record {
      state = state;
      authorization_url = url;
      obo_jwt = or_value (value_or null obo) initial_obo_jwt;
      agent_jwt = or_value (value_or null agent) initial_agent_jwt;
    })

  -- `run` is `run_agent`; what it raises becomes the text that `message_of` gives
  -- (`_map_exception_to_user_message`).
  module _ (run : ChatRequest → List Json → Run (AgentWorld K) String) where
    unfoldable pub chat :
        (Result String → String) → ChatRequest → Run (AgentWorld K) (String × Metadata)
    chat text_of req = do
      prepared ← prepare_chat req
      text ← λ w. (let (r, w') = run req prepared.history w in (ok (text_of r), w'))
      add_message K max_messages req.thread_id "assistant" text
      metadata ←
          collect_response_metadata req.thread_id prepared.initial_obo_jwt
            prepared.initial_agent_jwt
      pure (text, metadata)

    -- `run` is `run_agent_stream`, its chunks joined; a stream that breaks is not recorded.
    unfoldable pub chat_stream : ChatRequest → Run (AgentWorld K) Streamed
    chat_stream req = do
      prepared ← prepare_chat req
      λ w.
          (let (r, w') = run req prepared.history w in
            elim r [
              | err e ↦ (ok broken, w')
              | ok text ↦
                  (do
                    add_message K max_messages req.thread_id "assistant" text
                    metadata ←
                        collect_response_metadata req.thread_id prepared.initial_obo_jwt
                          prepared.initial_agent_jwt
                    pure (complete text metadata))
                    w'
            ])

module _ (K : KeyValueStore) where
  -- GET /state: in production the tokens are withheld.
  unfoldable pub show_state : Bool → String → Run (AgentWorld K) (FrontendState × Json × Json)
  show_state is_production thread = do
    state ← get_frontend_state K thread
    if is_production then pure (state, null, null) else do
      obo ← get_obo_token K thread
      agent ← get_agent_jwt_raw K thread
      pure (state, value_or null obo, value_or null agent)

  -- POST /clear
  unfoldable pub clear_thread : String → Run (AgentWorld K) (Unit {0})
  clear_thread thread = do
    clear_obo_tokens K thread
    ChatHistory.clear K thread
    clear_state K thread
