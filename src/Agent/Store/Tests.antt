-- ===== src/Agent/Store/Tests.antt =====
-- Examples for the in-process store (agent/store.py).
use wso2_teamspace_demo.Base.{
  ℕ, List, [], ◌∷◌, lookup, insert, erase, ◌≡◌, refl, none, some, string_dec,
}
use wso2_teamspace_demo.Base.Json.{str}
use wso2_teamspace_demo.Agent.Store.{InMemoryStore, empty, get, set, delete}
use wso2_teamspace_demo.Agent.Store.Interface.{flow_state, agent_token, in_memory}
use wso2_teamspace_demo.Agent.Store.Replay
use wso2_teamspace_demo.Agent.Store.Replay.{Call, answers, replay, in_memory-replay}

abbrev two : InMemoryStore
two = set "a" "k" (str "x") 10 100 (set "b" "k" (str "y") 0 100 empty)

-- A value that lives for 10, read after 4 and after 8 more.
abbrev visits : List (ℕ × Call)
visits =
    (3, Replay.set flow_state "t" (str "x") 10)
    ∷ (4, Replay.get flow_state "t")
    ∷ (1, Replay.delete agent_token "t")
    ∷ (7, Replay.get flow_state "t")
    ∷ []

visits_answered : answers in_memory 100 visits empty ≡ some (str "x") ∷ none ∷ []
unfolding string_dec answers get set delete lookup insert erase
visits_answered = refl

in_memory-replay_example : answers in_memory 100 visits empty ≡ replay 100 [] visits
in_memory-replay_example = in_memory-replay 100 visits
