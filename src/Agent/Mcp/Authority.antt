-- ===== src/Agent/Mcp/Authority.antt =====
-- Under whose authority the tools act (agent/mcp_server.py): an action needs the agent's scope, a flow
-- that was authorized for it and the token of that flow, and uses them up.
use native.Mathlib.Nat.{le_refl}
use wso2_teamspace_demo.Base.{
  String, ◌≡◌, ◌≢◌, Bool, true, false, ◌&&◌, ◌||◌, none, some, List, arith, ◌==◌, ◌<>◌, ==-self,
  if◌then◌else◌,
}
use wso2_teamspace_demo.Base.Json.{str, obj, Fields, end, without_field}
use wso2_teamspace_demo.Base.Run.{ok}
use wso2_teamspace_demo.Agent.Config.{Settings}
use wso2_teamspace_demo.Agent.Outside.{Outside, Method}
use wso2_teamspace_demo.Agent.Store.Interface.{
  Namespace, flow_state, pending_meeting, obo_token, agent_token, KeyValueStore, same_namespace,
  Namespace-discrete,
}
use wso2_teamspace_demo.Agent.World.{AgentWorld, peek}
use wso2_teamspace_demo.Agent.StateManager.{
  FlowState, initial, booking_authorized, delete_authorized, update_authorized, value_of,
  flow_state_of, present, get_state, set_state, clear_pending_meeting,
}
use wso2_teamspace_demo.Agent.AuthManager.{live_token_of, get_obo_token, clear_obo_tokens}
use wso2_teamspace_demo.Agent.Mcp.Reply.{
  Content, plain, argument, require_agent_scope, is_delegated, status, finalize_action,
}
use wso2_teamspace_demo.Agent.Mcp.Action.{
  is_state, granted, meeting_data, handle_schedule_meeting, handle_delete_meeting,
  handle_update_meeting,
}
use wso2_teamspace_demo.Agent.Mcp.Server.{
  Tool, schedule_meeting, delete_meeting, update_meeting, handler,
}

module _ (K : KeyValueStore) where
  granted_lem :
      (required : FlowState) (token thread : String) (w : AgentWorld K)
      → (granted K required token thread w).0
        ≡ ok (
            is_state (flow_state_of (present (peek K w flow_state thread))) required
            && is_delegated token (live_token_of (peek K w obo_token thread) w.wall))
  unfolding granted get_state get_obo_token
  granted_lem required token thread w = simp (K.get_read, K.read-get, le_refl)

  -- Checking for an authorization changes nothing that the store holds.
  peek-granted :
      (required : FlowState) (token thread : String) (w : AgentWorld K) (m : Namespace) (k : String)
      → peek K (granted K required token thread w).1 m k ≡ peek K w m k
  unfolding granted get_state get_obo_token
  peek-granted required token thread w m k = simp (K.read-get, le_refl)

  -- The end of an action puts the thread's flow state back to the initial one, deletes its pending
  -- meeting and its two tokens, and changes no other entry.
  pub finalize_action_lem :
      (thread : String) (w : AgentWorld K) (m : Namespace) (k : String)
      → peek K (finalize_action K thread w).1 m k ≡ (
          if thread == k
            && (same_namespace pending_meeting m
                || same_namespace obo_token m
                || same_namespace agent_token m)
          then none
          else if thread == k && same_namespace flow_state m
          then some (str (value_of initial))
          else peek K w m k)
  unfolding finalize_action set_state clear_pending_meeting clear_obo_tokens
  finalize_action_lem thread w m k = simp (K.read-delete, K.read-set) (ground arith)

-- The tools that act, and what each demands: the base of its scope, the state of the flow, and the
-- status code by which the API reports success.
pub data Action : Type 0 where
  schedule delete update : Action

abbrev pub tool_of : Action → Tool
tool_of schedule = schedule_meeting
tool_of delete = delete_meeting
tool_of update = update_meeting

abbrev pub scope_of : Action → String
scope_of schedule = "create_meeting"
scope_of delete = "delete_meeting"
scope_of update = "update_meeting"

abbrev pub required : Action → FlowState
required schedule = booking_authorized
required delete = delete_authorized
required update = update_authorized

abbrev pub forbidden : Action → Content
forbidden a = plain ("Error: Forbidden. Missing scope: " <> (scope_of a <> "_agent"))

-- The authority that an action needs, as the store shows it.
module _ (K : KeyValueStore) where
  abbrev pub has_authority : Action → String → String → AgentWorld K → Bool
  has_authority a token thread w =
      is_state (flow_state_of (present (peek K w flow_state thread))) (required a)
      && is_delegated token (live_token_of (peek K w obo_token thread) w.wall)

  finished_without_authority :
      (a : Action) (token thread : String) (v : AgentWorld K)
      → has_authority a token thread (finalize_action K thread v).1 ≡ false
  unfolding Namespace-discrete live_token_of
  finished_without_authority a token thread v = simp (finalize_action_lem, ==-self) (ground arith)

module _ (K : KeyValueStore) (c : Settings) (out : Outside K.State) where
  -- Scheduling, deleting and updating are refused without the agent's scope, and wait for
  -- authorization without a flow that is authorized for that very action and its delegated token;
  -- the API is not called and nothing that the store holds changes.
  pub action_refused :
      (a : Action) (token : String) (arguments : Fields) (scopes : List String)
      (thread agent_name : String) (w : AgentWorld K)
      → (require_agent_scope scopes (scope_of a) && has_authority K a token thread w) ≡ false
      → (handler K c out (tool_of a) token arguments scopes thread agent_name w ≡ (
          if require_agent_scope scopes (scope_of a)
          then (
            ok (status "waiting_for_authorization" end),
            (granted K (required a) token thread w).1,
          )
          else (ok (forbidden a), w)))
        × ((m : Namespace) (k : String)
            → peek K (granted K (required a) token thread w).1 m k ≡ peek K w m k)
  unfolding handler handle_schedule_meeting handle_delete_meeting handle_update_meeting
  action_refused schedule token arguments scopes thread agent_name w h = (
    ground (arith, granted_lem K booking_authorized token thread w),
    peek-granted K booking_authorized token thread w,
  )
  action_refused delete token arguments scopes thread agent_name w h = (
    ground (arith, granted_lem K delete_authorized token thread w),
    peek-granted K delete_authorized token thread w,
  )
  action_refused update token arguments scopes thread agent_name w h = (
    ground (arith, granted_lem K update_authorized token thread w),
    peek-granted K update_authorized token thread w,
  )

  -- The end of an action that the API granted.
  abbrev Finished : Action → List String → String → AgentWorld K → Type 0
  Finished a scopes thread w' =
      (v : AgentWorld K) × (w' ≡ (finalize_action K thread v).1)
      × (require_agent_scope scopes (scope_of a) ≡ true)

  action-Finished :
      (a : Action) (token : String) (arguments : Fields) (scopes : List String)
      (thread agent_name : String) (w w' : AgentWorld K) (done : String) (rest : Fields)
      → done ≢ "waiting_for_authorization"
      → handler K c out (tool_of a) token arguments scopes thread agent_name w
        ≡ (ok (status done rest), w')
      → Finished a scopes thread w'
  unfolding handler handle_schedule_meeting handle_delete_meeting handle_update_meeting
  action-Finished schedule token arguments scopes thread agent_name w w' done rest other h = (
    (out.call_api Method.post "/meetings/" token (some (obj (without_field "thread_id" arguments)))
        (granted K booking_authorized token thread w).1).1,
    ground arith,
    ground arith,
  )
  action-Finished delete token arguments scopes thread agent_name w w' done rest other h = (
    (out.call_api Method.delete ("/meetings/" <> out.show (argument "meeting_id" arguments)) token
        none (granted K delete_authorized token thread w).1).1,
    ground arith,
    ground arith,
  )
  action-Finished update token arguments scopes thread agent_name w w' done rest other h = (
    (out.call_api Method.put ("/meetings/" <> out.show (argument "meeting_id" arguments)) token
        (some (meeting_data K c out arguments)) (granted K update_authorized token thread w).1).1,
    ground arith,
    ground arith,
  )

  -- An authorization serves one action: after a tool that reported success, the same tool on the
  -- same thread, with any token and arguments, waits for a new authorization.
  pub action_once :
      (a : Action) (token : String) (arguments : Fields) (scopes : List String)
      (thread agent_name : String) (w w' : AgentWorld K) (done : String) (rest : Fields)
      (token' : String) (arguments' : Fields)
      → done ≢ "waiting_for_authorization"
      → handler K c out (tool_of a) token arguments scopes thread agent_name w
        ≡ (ok (status done rest), w')
      → (handler K c out (tool_of a) token' arguments' scopes thread agent_name w').0
        ≡ ok (status "waiting_for_authorization" end)
  action_once a token arguments scopes thread agent_name w w' done rest token' arguments' other h =
      let (v, e, scope) =
        action-Finished a token arguments scopes thread agent_name w w' done rest other h in
      let lost : (require_agent_scope scopes (scope_of a) && has_authority K a token' thread w')
          ≡ false =
        rw (scope, e) (finished_without_authority K a token' thread v) in
      ground (arith, (action_refused a token' arguments' scopes thread agent_name w' lost).0)
