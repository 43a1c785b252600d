-- ===== src/Agent/Llm/Authorized/Gate.antt =====
-- Which tool a message may run without the model (agent/gemini_agent.py).
use wso2_teamspace_demo.Base.{String, ◌≡◌, refl, arith, Option, none, some, inl, inr, Bool-cases}
use wso2_teamspace_demo.Base.Json.{Json, Fields, end, field}
use wso2_teamspace_demo.Base.Values.{index_key}
use wso2_teamspace_demo.Base.Run.{ok, Run, Result-cases}
use wso2_teamspace_demo.Agent.Store.Interface.{KeyValueStore}
use wso2_teamspace_demo.Agent.World.{AgentWorld}
use wso2_teamspace_demo.Agent.StateManager.{
  FlowState, FlowState-discrete, booking_authorized, list_authorized, update_authorized,
  delete_authorized, get_state, get_pending_meeting,
}
use wso2_teamspace_demo.Agent.Llm.Mock.{says_authorized}
use wso2_teamspace_demo.Agent.Llm.Authorized.{
  handle_delete_authorized, handle_update_authorized, handle_booking_authorized,
  handle_list_authorized, dispatch_authorized_state, on_authorized, handle_authorization_callback,
  is_authorized, authorized_state_dispatch,
}

-- The tool that a flow state stands for.
abbrev pub tool_of : FlowState → Option String
tool_of delete_authorized = some "delete_meeting"
tool_of update_authorized = some "update_meeting"
tool_of booking_authorized = some "schedule_meeting"
tool_of list_authorized = some "list_meetings"
tool_of _ = none

module _ (K : KeyValueStore) (show : Json → String) (thread : String)
    (d₁ d₂ : String → Fields → String → Run (AgentWorld K) Json) where
  -- Two dispatchers that treat the tool of a flow state alike.
  abbrev pub IsAlike : FlowState → Type 0
  IsAlike state =
      (name : String) (args : Fields) (w : AgentWorld K)
      → tool_of state ≡ some name
      → d₁ name args thread w ≡ d₂ name args thread w

  booking-alike :
      IsAlike booking_authorized
      → (pending : Json) (language : String) (w : AgentWorld K)
      → handle_booking_authorized d₁ show thread pending language w
        ≡ handle_booking_authorized d₂ show thread pending language w
  unfolding handle_booking_authorized
  booking-alike h (Json.obj fs) language w = rw (h "schedule_meeting" fs w refl) refl
  booking-alike h _ language w = refl

  update-alike :
      IsAlike update_authorized
      → (pending : Json) (language : String) (w : AgentWorld K)
      → handle_update_authorized d₁ show thread pending language w
        ≡ handle_update_authorized d₂ show thread pending language w
  unfolding handle_update_authorized
  update-alike h (Json.obj fs) language w = rw (h "update_meeting" fs w refl) refl
  update-alike h _ language w = refl

  list-alike :
      IsAlike list_authorized
      → (pending : Json) (language : String) (w : AgentWorld K)
      → handle_list_authorized d₁ show thread pending language w
        ≡ handle_list_authorized d₂ show thread pending language w
  unfolding handle_list_authorized
  list-alike h pending language w = rw (h "list_meetings" end w refl) refl

  delete-alike :
      IsAlike delete_authorized
      → (pending : Json) (language : String) (w : AgentWorld K)
      → handle_delete_authorized d₁ show thread pending language w
        ≡ handle_delete_authorized d₂ show thread pending language w
  unfolding handle_delete_authorized
  delete-alike h pending language w = elim (Result-cases (index_key "meeting_id" pending)) [
    | inl (v, e) ↦ rw (e, h "delete_meeting" (field "meeting_id" v end) w refl) refl
    | inr (x, e) ↦ rw e refl
  ]

  dispatch-alike :
      (state : FlowState) (language : String) (pending : Json) (w : AgentWorld K)
      → IsAlike state
      → dispatch_authorized_state
          (authorized_state_dispatch d₁ show)
          state
          thread
          pending
          language
          w
        ≡ dispatch_authorized_state
            (authorized_state_dispatch d₂ show)
            state
            thread
            pending
            language
            w
  unfolding FlowState-discrete dispatch_authorized_state
  dispatch-alike delete_authorized language pending w h =
      ground (arith, delete-alike h pending language w)
  dispatch-alike update_authorized language pending w h =
      ground (arith, update-alike h pending language w)
  dispatch-alike booking_authorized language pending w h =
      ground (arith, booking-alike h pending language w)
  dispatch-alike list_authorized language pending w h =
      ground (arith, list-alike h pending language w)
  dispatch-alike _ language pending w h = refl

  on_authorized-alike :
      (state : FlowState) (language : String) (w : AgentWorld K)
      → IsAlike state
      → on_authorized K d₁ show state thread language w
        ≡ on_authorized K d₂ show state thread language w
  unfolding on_authorized get_pending_meeting
  on_authorized-alike state language w h =
      let alike : (pending : Json) (u : AgentWorld K)
          → dispatch_authorized_state (authorized_state_dispatch d₁ show) state thread pending
              language u
            ≡ dispatch_authorized_state (authorized_state_dispatch d₂ show) state thread pending
                language u =
        λ pending u. dispatch-alike state language pending u h in
      elim (Bool-cases (is_authorized state)) [ inl e ↦ rw e (simp alike refl) | inr e ↦ rw e refl ]

  -- Where the thread's flow state can be read, what the authorization message does depends on the
  -- dispatcher of tools only by the one tool that this state stands for: two dispatchers that treat
  -- that tool alike give the same answer and the same world.
  pub handle_authorization_callback-alike :
      (message language : String) (state : FlowState) (w : AgentWorld K)
      → (get_state K thread w).0 ≡ ok state
      → IsAlike state
      → handle_authorization_callback K d₁ show message thread language w
        ≡ handle_authorization_callback K d₂ show message thread language w
  unfolding handle_authorization_callback
  handle_authorization_callback-alike message language state w e h =
      let alike = on_authorized-alike state language (get_state K thread w).1 h in
      elim (Bool-cases (says_authorized message)) [
        | inl said ↦ rw (e, said, alike) refl
        | inr said ↦ rw (e, said) refl
      ]
