-- ===== src/Agent/Tools.antt =====
-- agent/tools.py: the dispatch of a tool call of the model to the tools' server.
-- The fetch of an agent's configuration by the service channel (agent/agent_config_cache.py) is an
-- argument: it may change the world, and gives nothing where the configuration cannot be had. What it
-- gives is the JSON of `AgentConfigResponse`, whose values are texts.
pub mod Thread
mod Tests
use text.Mathlib.Text.{starts_with}
use wso2_teamspace_demo.Base.{
  String, Bool, true, false, not, ◌&&◌, Option, none, some, nonempty, if◌then◌else◌,
}
use wso2_teamspace_demo.Base.Json.{
  Json, null, str, obj, Fields, end, field, field_of, truthy, with_field,
}
use wso2_teamspace_demo.Base.Values.{get_key, value_or}
use wso2_teamspace_demo.Base.Run.{Result, ok, err, Run, pure, lift, ◌>>=◌, ◌>>◌}
use wso2_teamspace_demo.Agent.Config.{Settings}
use wso2_teamspace_demo.Agent.Outside.{Outside}
use wso2_teamspace_demo.Agent.Store.Interface.{KeyValueStore}
use wso2_teamspace_demo.Agent.World.{AgentWorld}
use wso2_teamspace_demo.Agent.StateManager.{
  get_agent_credentials, set_agent_credentials, get_org_name, text_or,
}
use wso2_teamspace_demo.Agent.AuthManager.{get_obo_token, fetch_agent_token}
use wso2_teamspace_demo.Agent.Mcp.Reply.{Content, payload, plain}
use wso2_teamspace_demo.Agent.Mcp.Server.{call_tool}
use wso2_teamspace_demo.Agent.Chat.{recover}

abbrev pub reply : String → String → Json
reply status message = obj (field "status" (str status) (field "message" (str message) end))

-- What is made of the tool's reply: a payload is read back as the JSON that was written, and a plain
-- text, none of which starts with a brace, becomes a message.
abbrev pub parsed : Content → Json
parsed (payload v) = v
parsed (plain s) = if starts_with s "Error:" then reply "error" s else reply "success" s

module _ (K : KeyValueStore) (c : Settings) (out : Outside K.State)
    (fetch_config : String → Run (AgentWorld K) (Option Json)) where
  -- The credentials in a configuration are kept for the thread, where both are there.
  adopt : String → String × String → Option Json → Run (AgentWorld K) (String × String)
  adopt thread credentials none = pure credentials
  adopt thread credentials (some config) = if not (truthy config) then pure credentials else do
    id ← lift (get_key "agent_id" config)
    secret ← lift (get_key "agent_secret" config)
    if nonempty (text_or "" id) && nonempty (text_or "" secret)
        then (do
          set_agent_credentials K thread (text_or "" id) (text_or "" secret)
          pure (text_or "" id, text_or "" secret))
        else pure credentials

  -- The thread's credentials, or those of its organization's configuration.
  credentials_for : String → Run (AgentWorld K) (String × String)
  credentials_for thread = do
    credentials ← get_agent_credentials K thread
    if nonempty credentials.0 && nonempty credentials.1 then pure credentials else do
      org ← get_org_name K thread
      if not (nonempty org)
          then pure credentials
          else do config ← fetch_config org; adopt thread credentials config

  -- The delegated token, or else the agent's own, which is null where it cannot be fetched.
  token_for : String → Run (AgentWorld K) Json
  token_for thread = do
    delegated ← get_obo_token K thread
    if truthy (value_or null delegated) then pure (value_or null delegated) else do
      credentials ← credentials_for thread
      recover null (fetch_agent_token K c out credentials.0 credentials.1 thread)

  -- The call, under the thread of the conversation, whatever thread the arguments name.
  call_with : String → Fields → String → Json → Run (AgentWorld K) Json
  call_with name args thread token =
      if not (truthy token) then pure (reply "error" "Agent authentication failed") else do
        content ←
            call_tool K c out name (with_field "thread_id" (str thread) args)
              (text_or "" (some token))
        pure (parsed content)

  -- `dispatch_tool`
  unfoldable pub dispatch_tool : String → Fields → String → Run (AgentWorld K) Json
  unfolding credentials_for adopt token_for call_with
  dispatch_tool name args thread = do token ← token_for thread; call_with name args thread token
