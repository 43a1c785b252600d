-- ===== src/Agent/StateManager/Tests.antt =====
-- Examples for the flow state (agent/state_manager.py).
use wso2_teamspace_demo.Base.{◌≡◌}
use wso2_teamspace_demo.Base.Run.{ok}
use wso2_teamspace_demo.Agent.Store.Interface.{in_memory}
use wso2_teamspace_demo.Agent.Fixture.{fresh}
use wso2_teamspace_demo.Agent.StateManager.{booking_authorized, get_state, set_state}
use wso2_teamspace_demo.Agent.StateManager.Laws.{get_state-set_state}

get_state-set_state_example :
    (get_state in_memory "t1"
      (record (set_state in_memory "t1" booking_authorized fresh).1 { mono = 65 })).0
    ≡ ok booking_authorized
unfolding set_state
get_state-set_state_example = get_state-set_state in_memory "t1" booking_authorized fresh 60
