-- ===== src/Agent/Store/Replay.antt =====
-- What a client of the store of agent/store.py sees: a run of calls, each some time after the last one,
-- against the history of the calls before it.
use wso2_teamspace_demo.Base.{
  ℕ, ◌+◌, ◌≤◌, String, ◌≡◌, refl, ap₂, ◌∙◌, Option, none, some, List, [], ◌∷◌, arith, if◌then◌else◌,
}
use wso2_teamspace_demo.Base.Json.{Json}
use wso2_teamspace_demo.Agent.Store
use wso2_teamspace_demo.Agent.Store.{empty}
use wso2_teamspace_demo.Agent.Store.Interface.{
  Namespace, KeyValueStore, in_memory, is_live, same_key, same_namespace,
}

pub data Call : Type 0 where
  get : Namespace → String → Call
  set : Namespace → String → Json → ℕ → Call
  delete : Namespace → String → Call
  clear : Option Namespace → Call

-- What a `get` under the key returns at the clock reading `u`, by the history alone, its newest call first:
-- the value of the last `set` of the key that no `delete` and no `clear` followed, while it is live.
unfoldable pub latest : Namespace → String → ℕ → List (ℕ × Call) → Option Json
latest m j u [] = none
latest m j u ((t, get n k) ∷ past) = latest m j u past
latest m j u ((t, set n k v ttl) ∷ past) =
    let before = latest m j u past in
    if same_key n k m j then (if is_live t ttl u then some v else none) else before
latest m j u ((t, delete n k) ∷ past) =
    let before = latest m j u past in if same_key n k m j then none else before
latest m j u ((t, clear none) ∷ past) = none
latest m j u ((t, clear (some n)) ∷ past) =
    let before = latest m j u past in if same_namespace n m then none else before

-- The answers that the history gives to a run of calls, each with the time that passed before it.
unfoldable pub replay : ℕ → List (ℕ × Call) → List (ℕ × Call) → List (Option Json)
replay now past [] = []
replay now past ((wait, get n k) ∷ calls) =
    latest n k (now + wait) past ∷ replay (now + wait) ((now + wait, get n k) ∷ past) calls
replay now past ((wait, call) ∷ calls) = replay (now + wait) ((now + wait, call) ∷ past) calls

module _ (K : KeyValueStore) where
  abbrev pub call_at : ℕ → Call → K.State → K.State
  call_at t (get n k) s = (K.get n k t s).1
  call_at t (set n k v ttl) s = K.set n k v ttl t s
  call_at t (delete n k) s = K.delete n k s
  call_at t (clear scope) s = K.clear scope s

  -- The answers of the store.
  unfoldable pub answers : ℕ → List (ℕ × Call) → K.State → List (Option Json)
  answers now [] s = []
  answers now ((wait, get n k) ∷ calls) s =
      (K.get n k (now + wait) s).0 ∷ answers (now + wait) calls (call_at (now + wait) (get n k) s)
  answers now ((wait, call) ∷ calls) s = answers (now + wait) calls (call_at (now + wait) call s)

  -- From `now` on, reads of the store are what the history says.
  abbrev IsTold : ℕ → List (ℕ × Call) → K.State → Type 0
  IsTold now past s =
      (m : Namespace) (j : String) (u : ℕ) → now ≤ u → K.read m j u s ≡ latest m j u past

  call_at-IsTold :
      (now wait : ℕ) (call : Call) (past : List (ℕ × Call)) (s : K.State)
      → IsTold now past s
      → IsTold (now + wait) ((now + wait, call) ∷ past) (call_at (now + wait) call s)
  unfolding latest
  call_at-IsTold now wait (get n k) past s h m j u l =
      K.read-get n m k j (now + wait) u s l ∙ h m j u (omega (arith, l))
  call_at-IsTold now wait (set n k v ttl) past s h m j u l =
      rw (K.read-set n m k j v ttl (now + wait) u s, h m j u (omega (arith, l))) refl
  call_at-IsTold now wait (delete n k) past s h m j u l =
      rw (K.read-delete n m k j u s, h m j u (omega (arith, l))) refl
  call_at-IsTold now wait (clear none) past s h m j u l = K.read-clear_all m j u s
  call_at-IsTold now wait (clear (some n)) past s h m j u l =
      rw (K.read-clear n m j u s, h m j u (omega (arith, l))) refl

  pub answers-replay :
      (now : ℕ) (past calls : List (ℕ × Call)) (s : K.State)
      → IsTold now past s
      → answers now calls s ≡ replay now past calls
  unfolding answers replay
  answers-replay now past [] s h = refl
  answers-replay now past ((wait, get n k) ∷ calls) s h =
      ap₂ (λ a rest. a ∷ rest) (K.get_read n k (now + wait) s ∙ h n k (now + wait) (omega arith))
        (answers-replay (now + wait) _ calls _ (call_at-IsTold now wait (get n k) past s h))
  answers-replay now past ((wait, set n k v ttl) ∷ calls) s h =
      answers-replay (now + wait) _ calls _ (call_at-IsTold now wait (set n k v ttl) past s h)
  answers-replay now past ((wait, delete n k) ∷ calls) s h =
      answers-replay (now + wait) _ calls _ (call_at-IsTold now wait (delete n k) past s h)
  answers-replay now past ((wait, clear scope) ∷ calls) s h =
      answers-replay (now + wait) _ calls _ (call_at-IsTold now wait (clear scope) past s h)

-- For any run of calls, with any times between them, the answers of the in-process store are those
-- of the history alone: a get returns the value of the last set of its key that no delete and no
-- clear followed, while that is live.
pub in_memory-replay :
    (now : ℕ) (calls : List (ℕ × Call)) → answers in_memory now calls empty ≡ replay now [] calls
unfolding Store.clear latest
in_memory-replay now calls =
    answers-replay in_memory now [] calls empty (λ m j u l. in_memory.read-clear_all m j u empty)
