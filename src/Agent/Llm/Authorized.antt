-- ===== src/Agent/Llm/Authorized.antt =====
-- agent/gemini_agent.py: the message with which the user's browser reports the authorization, and the tool
-- that it runs without the model.
pub mod Gate
use wso2_teamspace_demo.Base.{
  ℕ, String, Bool, true, false, not, ◌&&◌, ◌||◌, Option, none, some, List, [], ◌∷◌, nonempty, ◌==◌,
  if◌then◌else◌,
}
use mathlib.Core.Logic.{ite}
use wso2_teamspace_demo.Base.Json.{Json, null, str, Fields, end, field, field_of, truthy}
use wso2_teamspace_demo.Base.Values.{get_key, index_key, value_or}
use wso2_teamspace_demo.Base.Run.{
  Result, ok, err, other_error, attribute_error, Run, pure, lift, ◌>>=◌, ◌>>◌,
}
use wso2_teamspace_demo.Agent.Store.Interface.{KeyValueStore}
use wso2_teamspace_demo.Agent.World.{AgentWorld}
use wso2_teamspace_demo.Agent.StateManager.{
  FlowState, FlowState-discrete, booking_authorized, list_authorized, update_authorized,
  delete_authorized, get_state, get_pending_meeting,
}
use wso2_teamspace_demo.Agent.Llm.Mock.{
  shown, say, has_status, message_of, meetings_of, listed, says_authorized,
}

abbrev pub same_state : FlowState → FlowState → Bool
same_state s t = ite (FlowState-discrete s t) true false

-- The fields of the pending meeting, which the previews store as an object.
abbrev pub fields_of : Json → Result Fields
fields_of (Json.obj fs) = ok fs
fields_of _ = err other_error

-- `p and p.get("meeting_id")`, and `p and key in p`
abbrev pub guard_value : String → Json → Bool
guard_value key (Json.obj fs) = truthy (value_or null (field_of key fs))
guard_value key _ = false

abbrev pub guard_key : String → Json → Bool
guard_key key (Json.obj fs) = elim (field_of key fs) [ none ↦ false | some _ ↦ true ]
guard_key key _ = false

module _ {W : Type 0} (dispatch_tool : String → Fields → String → Run W Json)
    (show : Json → String) where
  -- `_handle_delete_authorized`
  unfoldable pub handle_delete_authorized : String → Json → String → Run W String
  handle_delete_authorized thread pending language = do
    meeting_id ← lift (index_key "meeting_id" pending)
    res ← dispatch_tool "delete_meeting" (field "meeting_id" meeting_id end) thread
    deleted ← has_status "deleted" res
    if deleted then say language "deleted_ok" [] else do
      message ← message_of show res
      say language "delete_failed" (("message", message) ∷ [])

  -- `_handle_update_authorized`
  unfoldable pub handle_update_authorized : String → Json → String → Run W String
  handle_update_authorized thread pending language = do
    args ← lift (fields_of pending)
    res ← dispatch_tool "update_meeting" args thread
    updated ← has_status "updated" res
    if updated
        then (do
          meeting ← lift (index_key "meeting" res)
          topic ← lift (index_key "topic" meeting)
          say language "update_ok" (("topic", shown show topic) ∷ []))
        else (do
          message ← message_of show res
          say language "update_failed" (("message", message) ∷ []))

  -- `res.get("message", …)` with the default of the language
  abbrev booking_message : String → Json → Run W String
  booking_message language res = do
    message ← lift (get_key "message" res)
    pure (
        shown show (
          value_or (str (if language == "en" then "Unknown error" else "Erro desconhecido"))
            message))

  -- `_handle_booking_authorized`
  unfoldable pub handle_booking_authorized : String → Json → String → Run W String
  handle_booking_authorized thread pending language = do
    args ← lift (fields_of pending)
    res ← dispatch_tool "schedule_meeting" args thread
    booked ← has_status "booked" res
    if booked
        then (do
          meeting ← lift (get_key "meeting" res)
          id ← lift (get_key "id" (value_or (Json.obj end) meeting))
          topic ← lift (index_key "topic" pending)
          if truthy (value_or (str "") id)
              then say language "booking_ok_with_id" (
                  ("topic", shown show topic)
                  ∷ ("meeting_id", shown show (value_or (str "") id))
                  ∷ [])
              else say language "booking_ok" (("topic", shown show topic) ∷ []))
        else (do
          message ← booking_message language res
          say language "booking_failed" (("message", message) ∷ []))

  -- `_handle_list_authorized`
  unfoldable pub handle_list_authorized : String → Json → String → Run W String
  handle_list_authorized thread pending language = do
    res ← dispatch_tool "list_meetings" end thread
    success ← has_status "success" res
    if not success then say language "not_authorized_prompt" [] else do
      meetings ← meetings_of res
      elim meetings [
        | [] ↦ say language "no_meetings" []
        | m ∷ ms ↦ listed language "auth_list_header" (m ∷ ms)
      ]

  -- `_AUTHORIZED_STATE_DISPATCH`
  abbrev pub authorized_state_dispatch :
      List (FlowState × (Json → Bool) × (String → Json → String → Run W String))
  authorized_state_dispatch =
      (delete_authorized, guard_value "meeting_id", handle_delete_authorized)
      ∷ (update_authorized, guard_key "meeting_id", handle_update_authorized)
      ∷ (booking_authorized, guard_key "topic", handle_booking_authorized)
      ∷ (list_authorized, (λ p. true), handle_list_authorized)
      ∷ []

module _ {W : Type 0} where
  -- `_dispatch_authorized_state`
  unfoldable pub dispatch_authorized_state :
      List (FlowState × (Json → Bool) × (String → Json → String → Run W String))
      → FlowState
      → String
      → Json
      → String
      → Run W (Option String)
  dispatch_authorized_state [] state thread pending language = pure none
  dispatch_authorized_state ((target, guard, handler) ∷ rest) state thread pending language =
      let later = dispatch_authorized_state rest state thread pending language in
      if same_state state target && guard pending
      then (do text ← handler thread pending language; pure (some text))
      else later

-- Whether a flow state is one of the authorized ones.
abbrev pub is_authorized : FlowState → Bool
is_authorized s =
    same_state s booking_authorized
    || same_state s list_authorized
    || same_state s update_authorized
    || same_state s delete_authorized

module _ (K : KeyValueStore) (dispatch_tool : String → Fields → String → Run (AgentWorld K) Json)
    (show : Json → String) where
  -- What is done in an authorized state.
  on_authorized : FlowState → String → String → Run (AgentWorld K) (Option String)
  on_authorized state thread language = if not (is_authorized state) then pure none else do
    pending ← get_pending_meeting K thread
    dispatch_authorized_state (authorized_state_dispatch dispatch_tool show) state thread
        (value_or null pending) language

  -- `_handle_authorization_callback`: the answer, where the message is intercepted.
  unfoldable pub handle_authorization_callback :
      String → String → String → Run (AgentWorld K) (Option String)
  unfolding on_authorized
  handle_authorization_callback message thread language = do
    state ← get_state K thread
    if not (says_authorized message) then pure none else do
      dispatched ← on_authorized state thread language
      elim dispatched [
        | some text ↦ pure (some text)
        | none ↦ (do text ← say language "not_authorized_prompt" []; pure (some text))
      ]
