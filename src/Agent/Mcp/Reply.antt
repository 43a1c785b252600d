-- ===== src/Agent/Mcp/Reply.antt =====
-- agent/mcp_server.py: what the handlers share, their replies, the scope checks and the end of an
-- action.
use wso2_teamspace_demo.Base.{String, ◌<>◌, Bool, ◌&&◌, ◌||◌, Option, List, member}
use wso2_teamspace_demo.Base.Json.{Json, null, str, obj, Fields, field, field_of, truthy}
use wso2_teamspace_demo.Base.Run.{Run, ◌>>◌}
use wso2_teamspace_demo.Agent.Store.Interface.{KeyValueStore}
use wso2_teamspace_demo.Agent.World.{AgentWorld}
use wso2_teamspace_demo.Agent.StateManager.{initial, set_state, clear_pending_meeting}
use wso2_teamspace_demo.Agent.AuthManager.{clear_obo_tokens, is_text, value_or}

-- A reply is a JSON payload (`_text`) or a plain text (`_error`).
pub data Content : Type 0 where
  payload : Json → Content
  plain : String → Content

-- `_require_scope` and `_require_agent_scope`
abbrev pub require_scope : List String → String → Bool
require_scope scopes base = member base scopes || member (base <> "_agent") scopes

abbrev pub require_agent_scope : List String → String → Bool
require_agent_scope scopes base = member (base <> "_agent") scopes

-- `obo_token and token == obo_token`
abbrev pub is_delegated : String → Option Json → Bool
is_delegated token stored = truthy (value_or null stored) && is_text token stored

-- `arguments.get(key)` as a JSON value
abbrev pub argument : String → Fields → Json
argument k arguments = value_or null (field_of k arguments)

abbrev pub status : String → Fields → Content
status s rest = payload (obj (field "status" (str s) rest))

module _ (K : KeyValueStore) where
  -- `_finalize_action`
  unfoldable pub finalize_action : String → Run (AgentWorld K) (Unit {0})
  finalize_action thread = do
    set_state K thread initial
    clear_pending_meeting K thread
    clear_obo_tokens K thread
