-- ===== src/Agent/Mcp/Action.antt =====
-- agent/mcp_server.py: the handlers that act on meetings, under delegated authority alone.
use mathlib.Core.Logic.{ite}
use wso2_teamspace_demo.Base.{
  String, ◌<>◌, Bool, true, false, not, none, some, List, nat_eq, if◌then◌else◌, ◌&&◌,
}
use wso2_teamspace_demo.Base.Json.{Json, num, obj, Fields, end, field, without_field}
use wso2_teamspace_demo.Base.Run.{Run, pure, ◌>>=◌, ◌>>◌}
use wso2_teamspace_demo.Agent.Config.{Settings}
use wso2_teamspace_demo.Agent.Outside.{Outside, Method, Reply}
use wso2_teamspace_demo.Agent.Store.Interface.{KeyValueStore}
use wso2_teamspace_demo.Agent.World.{AgentWorld}
use wso2_teamspace_demo.Agent.StateManager.{
  FlowState, FlowState-discrete, booking_authorized, delete_authorized, update_authorized,
  get_state,
}
use wso2_teamspace_demo.Agent.AuthManager.{get_obo_token}
use wso2_teamspace_demo.Agent.Mcp.Reply.{
  Content, plain, require_agent_scope, is_delegated, argument, status, finalize_action,
}

-- `state != …_AUTHORIZED`, by the names of the states
abbrev pub is_state : FlowState → FlowState → Bool
is_state a b = ite (FlowState-discrete a b) true false

module _ (K : KeyValueStore) where
  -- Whether the thread's flow is authorized for the action, with this very token.
  unfoldable pub granted : FlowState → String → String → Run (AgentWorld K) Bool
  granted required token thread = do
    state ← get_state K thread
    stored ← get_obo_token K thread
    pure (is_state state required && is_delegated token stored)

module _ (K : KeyValueStore) (c : Settings) (out : Outside K.State) where
  abbrev pub api_error : Reply → Content
  api_error resp = plain ("Error: " <> (out.show (num resp.status_code) <> (" — " <> resp.text)))

  -- `_handle_schedule_meeting`
  unfoldable pub handle_schedule_meeting :
      String → Fields → List String → String → String → Run (AgentWorld K) Content
  unfolding granted
  handle_schedule_meeting token arguments scopes thread agent_name =
      if not (require_agent_scope scopes "create_meeting")
      then pure (plain "Error: Forbidden. Missing scope: create_meeting_agent")
      else do
        authorized ← granted K booking_authorized token thread
        if not authorized then pure (status "waiting_for_authorization" end) else do
          resp ←
              out.call_api Method.post "/meetings/" token
                (some (obj (without_field "thread_id" arguments)))
          if nat_eq resp.status_code 201
              then (do
                finalize_action K thread
                pure (status "booked" (field "meeting" resp.json end)))
              else pure (api_error resp)

  -- `_handle_delete_meeting`
  unfoldable pub handle_delete_meeting :
      String → Fields → List String → String → String → Run (AgentWorld K) Content
  unfolding granted
  handle_delete_meeting token arguments scopes thread agent_name =
      if not (require_agent_scope scopes "delete_meeting")
      then pure (plain "Error: Forbidden. Missing scope: delete_meeting_agent")
      else do
        authorized ← granted K delete_authorized token thread
        if not authorized then pure (status "waiting_for_authorization" end) else do
          resp ←
              out.call_api Method.delete
                ("/meetings/" <> out.show (argument "meeting_id" arguments)) token none
          if nat_eq resp.status_code 204
              then (do
                finalize_action K thread
                pure (status "deleted" (field "meeting_id" (argument "meeting_id" arguments) end)))
              else pure (api_error resp)

  abbrev pub meeting_data : Fields → Json
  meeting_data arguments = obj (
      field "topic" (argument "topic" arguments) (
        field "date" (argument "date" arguments) (
          field "start_time" (argument "start_time" arguments) (
            field "duration" (argument "duration" arguments)
              (field "time_zone" (argument "time_zone" arguments) end)))))

  -- `_handle_update_meeting`
  unfoldable pub handle_update_meeting :
      String → Fields → List String → String → String → Run (AgentWorld K) Content
  unfolding granted
  handle_update_meeting token arguments scopes thread agent_name =
      if not (require_agent_scope scopes "update_meeting")
      then pure (plain "Error: Forbidden. Missing scope: update_meeting_agent")
      else do
        authorized ← granted K update_authorized token thread
        if not authorized then pure (status "waiting_for_authorization" end) else do
          resp ←
              out.call_api Method.put ("/meetings/" <> out.show (argument "meeting_id" arguments))
                token (some (meeting_data arguments))
          if nat_eq resp.status_code 200
              then (do
                finalize_action K thread
                pure (status "updated" (field "meeting" resp.json end)))
              else pure (api_error resp)
