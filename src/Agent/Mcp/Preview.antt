-- ===== src/Agent/Mcp/Preview.antt =====
-- agent/mcp_server.py: the handlers that list meetings and that ask for consent.
use wso2_teamspace_demo.Base.{
  String, ◌<>◌, Bool, true, false, not, none, List, nat_eq, if◌then◌else◌,
}
use wso2_teamspace_demo.Base.Json.{Json, str, obj, Fields, end, field, without_field}
use wso2_teamspace_demo.Base.Run.{Run, pure, ◌>>=◌, ◌>>◌}
use wso2_teamspace_demo.Agent.Config.{Settings}
use wso2_teamspace_demo.Agent.Outside.{Outside, Method}
use wso2_teamspace_demo.Agent.Store.Interface.{KeyValueStore}
use wso2_teamspace_demo.Agent.World.{AgentWorld}
use wso2_teamspace_demo.Agent.StateManager.{
  FlowState, initial, booking_preview_initiated, list_preview_initiated, list_authorized,
  update_preview_initiated, delete_preview_initiated, get_state, set_state, set_auth_url,
  set_pending_meeting, get_agent_credentials,
}
use wso2_teamspace_demo.Agent.AuthManager.{
  clear_obo_tokens, get_obo_authorization_url, get_obo_token,
}
use wso2_teamspace_demo.Agent.Mcp.Reply.{
  Content, plain, require_scope, is_delegated, argument, status,
}

abbrev pub is_listing : FlowState → Bool
is_listing list_authorized = true
is_listing list_preview_initiated = true
is_listing _ = false

module _ (K : KeyValueStore) (c : Settings) (out : Outside K.State) where
  -- A new consent round trip for the list: the URL is kept, and the reply carries it.
  ask_to_list : String → String → Run (AgentWorld K) Content
  ask_to_list thread message = do
    credentials ← get_agent_credentials K thread
    let url = get_obo_authorization_url K c out thread "list"
    set_state K thread list_preview_initiated
    set_auth_url K thread url
    pure (
        status "preview_ready"
          (field "authorization_url" (str url) (field "message" (str message) end)))

  -- After a listing that the API granted, an authorization for listing is used up.
  listed : String → Json → Run (AgentWorld K) Content
  listed thread meetings = do
    current ← get_state K thread
    if is_listing current
        then (do
          set_state K thread initial
          clear_obo_tokens K thread
          pure (status "success" (field "meetings" meetings end)))
        else pure (status "success" (field "meetings" meetings end))

  -- `_handle_list_meetings`
  unfoldable pub handle_list_meetings :
      String → Fields → List String → String → String → Run (AgentWorld K) Content
  unfolding ask_to_list listed
  handle_list_meetings token arguments scopes thread agent_name =
      if not (require_scope scopes "list_meetings")
      then pure (plain "Error: Forbidden. Missing scope: list_meetings_agent")
      else do
        stored ← get_obo_token K thread
        if not (is_delegated token stored)
            then (do
              clear_obo_tokens K thread
              ask_to_list thread ("Please authorize " <> (agent_name <> " to view your meetings.")))
            else do
              resp ← out.call_api Method.get "/meetings/" token none
              if nat_eq resp.status_code 200 then listed thread resp.json else do
                clear_obo_tokens K thread
                ask_to_list thread (
                    "Session expired or unauthorized. Please re-authorize "
                    <> (agent_name <> " to view your meetings."))

  -- `_handle_schedule_meeting_preview`
  unfoldable pub handle_schedule_meeting_preview :
      String → Fields → List String → String → String → Run (AgentWorld K) Content
  handle_schedule_meeting_preview token arguments scopes thread agent_name =
      if not (require_scope scopes "create_meeting")
      then pure (plain "Error: Forbidden. Missing required scope: create_meeting_agent")
      else do
        credentials ← get_agent_credentials K thread
        let url = get_obo_authorization_url K c out thread "book"
        set_state K thread booking_preview_initiated
        let pending = obj (without_field "thread_id" arguments)
        set_pending_meeting K thread pending
        set_auth_url K thread url
        pure (
            status "preview_ready" (
              field "meeting" pending (
                field "authorization_url" (str url) (
                  field "message"
                    (str (
                      "Please authorize "
                      <> (agent_name <> " to book this meeting on your behalf.")))
                    end))))

  -- `_handle_delete_meeting_preview`
  unfoldable pub handle_delete_meeting_preview :
      String → Fields → List String → String → String → Run (AgentWorld K) Content
  handle_delete_meeting_preview token arguments scopes thread agent_name =
      if not (require_scope scopes "delete_meeting")
      then pure (plain "Error: Forbidden. Missing scope: delete_meeting_agent")
      else do
        credentials ← get_agent_credentials K thread
        let url = get_obo_authorization_url K c out thread "delete"
        set_state K thread delete_preview_initiated
        let pending = obj (without_field "thread_id" arguments)
        set_pending_meeting K thread pending
        set_auth_url K thread url
        pure (
            status "preview_ready" (
              field "meeting_id" (argument "meeting_id" arguments) (
                field "topic" (argument "topic" arguments) (
                  field "authorization_url" (str url) (
                    field "message"
                      (str (
                        "Please authorize "
                        <> (agent_name
                            <> (" to delete the meeting '"
                                <> (out.show (argument "topic" arguments) <> "'.")))))
                      end)))))

  -- `_handle_update_meeting_preview`
  unfoldable pub handle_update_meeting_preview :
      String → Fields → List String → String → String → Run (AgentWorld K) Content
  handle_update_meeting_preview token arguments scopes thread agent_name =
      if not (require_scope scopes "update_meeting")
      then pure (plain "Error: Forbidden. Missing scope: update_meeting_agent")
      else do
        credentials ← get_agent_credentials K thread
        let url = get_obo_authorization_url K c out thread "update"
        set_state K thread update_preview_initiated
        let pending = obj (without_field "thread_id" arguments)
        set_pending_meeting K thread pending
        set_auth_url K thread url
        pure (
            status "preview_ready" (
              field "meeting" pending (
                field "authorization_url" (str url) (
                  field "message"
                    (str (
                      "Please authorize "
                      <> (agent_name
                          <> (" to update the meeting '"
                              <> (out.show (argument "topic" arguments) <> "' on your behalf.")))))
                    end))))
