-- ===== src/Agent/ChatHistory/Laws.antt =====
-- What the transcript promises (agent/chat_history.py).
use wso2_teamspace_demo.Base.{
  ℕ, zero, suc, ◌+◌, ◌-◌, ◌≤◌, ◌<◌, String, ◌≡◌, refl, Option, none, some, List, [], ◌∷◌, ◌++◌,
  arith, length, length-append, length-drop, drop, ==-self, if◌then◌else◌, leb,
}
use wso2_teamspace_demo.Base.Json.{Json, items-of_list}
use wso2_teamspace_demo.Base.Run.{ok}
use wso2_teamspace_demo.Agent.Store.{default_ttl_seconds}
use wso2_teamspace_demo.Agent.Store.Interface.{chat_history, KeyValueStore, Namespace-discrete}
use wso2_teamspace_demo.Agent.World.{AgentWorld, peek}
use wso2_teamspace_demo.Agent.ChatHistory.{history_of, message, extended, get_history, add_message}

-- The newest item of a list.
abbrev pub last? : List Json → Option Json
last? [] = none
last? (x ∷ []) = some x
last? (x ∷ y ∷ r) = last? (y ∷ r)

last?-drop :
    (n : ℕ) (xs : List Json) (m : Json) → n ≤ length xs → last? (drop n (xs ++ m ∷ [])) ≡ some m
last?-drop zero [] m h = refl
last?-drop zero (x ∷ []) m h = refl
last?-drop zero (x ∷ y ∷ r) m h = last?-drop zero (y ∷ r) m (omega arith)
last?-drop (suc n) [] m h = absurd (omega arith)
last?-drop (suc n) (x ∷ xs) m h = last?-drop n xs m (omega arith)

-- A transcript that is extended under a bound that is not 0 keeps the bound, and the new message is
-- its last one.
pub extended_bounds :
    (max_messages : ℕ) (history : List Json) (m : Json)
    → 0 < max_messages
    → (length (extended max_messages history m) ≤ max_messages)
      × (last? (extended max_messages history m) ≡ some m)
unfolding extended
extended_bounds max_messages history m h = ground (
  arith,
  length-append history (m ∷ []),
  length-drop (length (history ++ m ∷ []) - max_messages) (history ++ m ∷ []),
  last?-drop (length (history ++ m ∷ []) - max_messages) history m,
  last?-drop 0 history m,
)

module _ (K : KeyValueStore) where
  -- The transcript that is read after a message was added is the old one extended by it, for a day,
  -- and is empty afterwards.
  pub get_history-add_message :
      (max_messages : ℕ) (thread role content : String) (w : AgentWorld K) (dt : ℕ)
      → let w' = (add_message K max_messages thread role content w).1 in
        (get_history K thread (record w' { mono = w.mono + dt })).0
        ≡ ok (
            if leb dt default_ttl_seconds
            then extended max_messages
                (history_of (peek K w chat_history thread))
                (message role content)
            else [])
  unfolding get_history add_message Namespace-discrete
  get_history-add_message max_messages thread role content w dt =
      simp (K.get_read, K.read-set, ==-self)
        (ground (
          arith,
          items-of_list (
              extended max_messages (history_of (peek K w chat_history thread))
                (message role content)),
        ))
