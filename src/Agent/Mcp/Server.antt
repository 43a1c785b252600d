-- ===== src/Agent/Mcp/Server.antt =====
-- agent/mcp_server.py: `call_tool`, which checks the token and hands the call to a tool's handler.
use wso2_teamspace_demo.Base.{
  String, ◌<>◌, not, Option, none, some, List, [], ◌==◌, nonempty, words, if◌then◌else◌,
}
use wso2_teamspace_demo.Base.Json.{str, Fields, field_of}
use wso2_teamspace_demo.Base.Run.{Result, ok, err, other_error, Run, pure, ◌>>=◌}
use wso2_teamspace_demo.Agent.Config.{Settings}
use wso2_teamspace_demo.Agent.Outside.{Outside}
use wso2_teamspace_demo.Agent.Store.Interface.{KeyValueStore}
use wso2_teamspace_demo.Agent.World.{AgentWorld}
use wso2_teamspace_demo.Agent.StateManager.{get_agent_name, text_or}
use wso2_teamspace_demo.Agent.Mcp.Token.{validate_mcp_token}
use wso2_teamspace_demo.Agent.Mcp.Reply.{Content, plain}
use wso2_teamspace_demo.Agent.Mcp.Preview.{
  handle_list_meetings, handle_schedule_meeting_preview, handle_delete_meeting_preview,
  handle_update_meeting_preview,
}
use wso2_teamspace_demo.Agent.Mcp.Action.{
  handle_schedule_meeting, handle_delete_meeting, handle_update_meeting,
}

-- The keys of `_TOOL_HANDLERS`.
pub data Tool : Type 0 where
  list_meetings schedule_meeting_preview schedule_meeting : Tool
  delete_meeting_preview delete_meeting update_meeting_preview update_meeting : Tool

unfoldable pub tool_named : String → Option Tool
tool_named name =
    if name == "list_meetings"
    then some list_meetings
    else if name == "schedule_meeting_preview"
    then some schedule_meeting_preview
    else if name == "schedule_meeting"
    then some schedule_meeting
    else if name == "delete_meeting_preview"
    then some delete_meeting_preview
    else if name == "delete_meeting"
    then some delete_meeting
    else if name == "update_meeting_preview"
    then some update_meeting_preview
    else if name == "update_meeting"
    then some update_meeting
    else none

-- `set(decoded.get("scope", "").split())`; a scope that is no text raises.
abbrev pub granted_scopes : Result Fields → Result (List String)
granted_scopes (err e) = err e
granted_scopes (ok decoded) = elim (field_of "scope" decoded) [
  | none ↦ ok []
  | some (str s) ↦ ok (words s)
  | some _ ↦ err other_error
]

module _ (K : KeyValueStore) (c : Settings) (out : Outside K.State) where
  unfoldable pub handler :
      Tool → String → Fields → List String → String → String → Run (AgentWorld K) Content
  handler list_meetings = handle_list_meetings K c out
  handler schedule_meeting_preview = handle_schedule_meeting_preview K c out
  handler schedule_meeting = handle_schedule_meeting K c out
  handler delete_meeting_preview = handle_delete_meeting_preview K c out
  handler delete_meeting = handle_delete_meeting K c out
  handler update_meeting_preview = handle_update_meeting_preview K c out
  handler update_meeting = handle_update_meeting K c out

  -- The part of `call_tool` after the token was found valid.
  unfoldable pub run_tool : String → Fields → String → List String → Run (AgentWorld K) Content
  run_tool name arguments token scopes = do
    let thread = text_or "" (field_of "thread_id" arguments)
    agent_name ← get_agent_name K thread
    elim (tool_named name) [
      | none ↦ pure (plain ("Error: Unknown tool: " <> name))
      | some tool ↦ handler tool token arguments scopes thread agent_name
    ]

  -- `token` is the value of `mcp_token_ctx`, empty where it is not set.
  unfoldable pub call_tool : String → Fields → String → Run (AgentWorld K) Content
  call_tool name arguments token w =
      if not (nonempty token)
      then (ok (plain "Error: Unauthorized. Missing bearer token."), w)
      else (let (decoded, w') = validate_mcp_token c out token w in
          elim (granted_scopes decoded) [
            | err e ↦ (ok (plain "Error: Unauthorized. Invalid token"), w')
            | ok scopes ↦ run_tool name arguments token scopes w'
          ])
