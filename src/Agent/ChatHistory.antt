-- ===== src/Agent/ChatHistory.antt =====
-- agent/chat_history.py: the transcript of each thread, cut to the newest messages.
pub mod Laws
mod Tests
use wso2_teamspace_demo.Base.{
  ℕ, ◌-◌, String, Option, none, some, List, [], ◌∷◌, ◌++◌, length, drop, ltb, nat_eq, if◌then◌else◌,
}
use wso2_teamspace_demo.Base.Json.{Json, str, arr, obj, field, end, items, of_list}
use wso2_teamspace_demo.Base.Run.{Run, pure, ◌>>=◌}
use wso2_teamspace_demo.Agent.Store.{default_ttl_seconds}
use wso2_teamspace_demo.Agent.Store.Interface.{chat_history, KeyValueStore}
use wso2_teamspace_demo.Agent.World.{AgentWorld, store_get, store_set, store_delete, store_clear}

-- `list(stored) if stored else []`; only arrays are ever written under this namespace.
abbrev pub history_of : Option Json → List Json
history_of (some (arr xs)) = items xs
history_of _ = []

-- `history[-n:]`, which is the whole list where n is 0
abbrev pub last_of : ℕ → List Json → List Json
last_of n xs = if nat_eq n 0 then xs else drop (length xs - n) xs

abbrev pub message : String → String → Json
message role content = obj (field "role" (str role) (field "content" (str content) end))

-- The list that `add_message` stores.
unfoldable pub extended : ℕ → List Json → Json → List Json
extended max_messages history m =
    let history' = history ++ m ∷ [] in
    if ltb max_messages (length history') then last_of max_messages history' else history'

module _ (K : KeyValueStore) where
  unfoldable pub get_history : String → Run (AgentWorld K) (List Json)
  get_history thread = do stored ← store_get K chat_history thread; pure (history_of stored)

  -- `max_messages` is the manager's `_max`.
  unfoldable pub add_message : ℕ → String → String → String → Run (AgentWorld K) (Unit {0})
  add_message max_messages thread role content = do
    history ← get_history thread
    store_set K chat_history thread
        (arr (of_list (extended max_messages history (message role content)))) default_ttl_seconds

  unfoldable pub clear : String → Run (AgentWorld K) (Unit {0})
  clear thread = store_delete K chat_history thread

  unfoldable pub reset : Run (AgentWorld K) (Unit {0})
  reset = store_clear K chat_history
