-- ===== src/Agent/ChatHistory/Tests.antt =====
-- Examples for the transcript (agent/chat_history.py).
use wso2_teamspace_demo.Base.{◌≡◌, ◌≤◌, some, [], ◌∷◌, arith, length, lookup}
use wso2_teamspace_demo.Base.Json.{str}
use wso2_teamspace_demo.Base.Run.{ok}
use wso2_teamspace_demo.Agent.Store.Expiry.{read}
use wso2_teamspace_demo.Agent.Store.Interface.{in_memory}
use wso2_teamspace_demo.Agent.Fixture.{fresh}
use wso2_teamspace_demo.Agent.ChatHistory.{message, extended, get_history, add_message}
use wso2_teamspace_demo.Agent.ChatHistory.Laws.{last?, extended_bounds, get_history-add_message}

extended_bounds_example :
    (length (extended 2 (str "a" ∷ str "b" ∷ []) (str "c")) ≤ 2)
    × (last? (extended 2 (str "a" ∷ str "b" ∷ []) (str "c")) ≡ some (str "c"))
extended_bounds_example = extended_bounds 2 (str "a" ∷ str "b" ∷ []) (str "c") (omega arith)

get_history-add_message_example :
    (get_history in_memory "t1"
      (record (add_message in_memory 20 "t1" "user" "hello" fresh).1 { mono = 15 })).0
    ≡ ok (message "user" "hello" ∷ [])
unfolding add_message extended read lookup
get_history-add_message_example = get_history-add_message in_memory 20 "t1" "user" "hello" fresh 10
