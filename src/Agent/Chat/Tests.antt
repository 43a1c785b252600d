-- ===== src/Agent/Chat/Tests.antt =====
-- Examples for the chat's routes (agent/main.py).
use wso2_teamspace_demo.Base.{◌≡◌, none, string_dec}
use wso2_teamspace_demo.Agent.Store.Interface.{flow_state, in_memory, Namespace-discrete}
use wso2_teamspace_demo.Agent.World.{peek}
use wso2_teamspace_demo.Agent.StateManager.{booking_authorized, set_state}
use wso2_teamspace_demo.Agent.Fixture.{fresh}
use wso2_teamspace_demo.Agent.Chat.{clear_thread}
use wso2_teamspace_demo.Agent.Chat.Laws.{clear_thread_lem}

clear_thread_example :
    peek in_memory
      (clear_thread in_memory "t1" (set_state in_memory "t1" booking_authorized fresh).1).1
      flow_state
      "t1"
    ≡ none
unfolding Namespace-discrete string_dec
clear_thread_example =
    clear_thread_lem in_memory "t1" (set_state in_memory "t1" booking_authorized fresh).1 flow_state
      "t1"
