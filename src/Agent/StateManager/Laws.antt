-- ===== src/Agent/StateManager/Laws.antt =====
-- What the flow state's operations promise (agent/state_manager.py), over any store that keeps the
-- protocol's laws.
use wso2_teamspace_demo.Base.{
  ℕ, ◌+◌, String, ◌≡◌, refl, ◌&&◌, none, some, arith, ◌==◌, leb, ==-self, if◌then◌else◌, string_dec,
  any,
}
use wso2_teamspace_demo.Base.Json.{str}
use wso2_teamspace_demo.Base.Run.{ok}
use wso2_teamspace_demo.Agent.Store.{default_ttl_seconds}
use wso2_teamspace_demo.Agent.Store.Interface.{
  Namespace, flow_state, KeyValueStore, same_namespace, Namespace-discrete,
}
use wso2_teamspace_demo.Agent.World.{AgentWorld, peek}
use wso2_teamspace_demo.Agent.StateManager.{
  FlowState, initial, value_of, flow_state_of, present, get_state, set_state, clear_state,
  all_namespaces,
}

-- Reading a state's own text gives the state back.
pub flow_state_of-value_of : (st : FlowState) → flow_state_of (some (str (value_of st))) ≡ st
unfolding flow_state_of string_dec
flow_state_of-value_of initial = refl
flow_state_of-value_of _ = refl

pub flow_state_of-none : flow_state_of none ≡ initial
unfolding flow_state_of
flow_state_of-none = refl

module _ (K : KeyValueStore) where
  pub get_state_lem :
      (thread : String) (w : AgentWorld K)
      → (get_state K thread w).0 ≡ ok (flow_state_of (present (peek K w flow_state thread)))
  unfolding get_state
  get_state_lem thread w = simp K.get_read

  -- A flow state that was set is read back for a day, and the flow is in its initial state
  -- afterwards.
  pub get_state-set_state :
      (thread : String) (st : FlowState) (w : AgentWorld K) (dt : ℕ)
      → (get_state K thread (record (set_state K thread st w).1 { mono = w.mono + dt })).0
        ≡ ok (if leb dt default_ttl_seconds then st else initial)
  unfolding set_state Namespace-discrete
  get_state-set_state thread st w dt =
      simp (get_state_lem, K.read-set, ==-self)
        (ground (arith, flow_state_of-value_of st, flow_state_of-none))

  pub get_state-set_state_now :
      (thread : String) (st : FlowState) (w : AgentWorld K)
      → (get_state K thread (set_state K thread st w).1).0 ≡ ok st
  unfolding set_state Namespace-discrete
  get_state-set_state_now thread st w =
      simp (get_state_lem, K.read-set, ==-self) (ground (arith, flow_state_of-value_of st))

  -- Clearing a thread deletes its six entries and nothing else.
  pub clear_state_lem :
      (thread : String) (w : AgentWorld K) (m : Namespace) (j : String)
      → peek K (clear_state K thread w).1 m j ≡ (
          if thread == j && any (λ n. same_namespace n m) all_namespaces
          then none
          else peek K w m j)
  unfolding clear_state
  clear_state_lem thread w m j = simp (K.read-delete) (ground arith)
