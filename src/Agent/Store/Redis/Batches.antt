-- ===== src/Agent/Store/Redis/Batches.antt =====
-- The batches of agent/store.py's `_batched`, and what the Redis store's `clear` deletes with them.
use wso2_teamspace_demo.Base.{
  ℕ, ◌<◌, ◌≡◌, refl, Bool, true, List, [], ◌∷◌, ◌++◌, length, length-append, arith, all, leb, ◌&&◌,
}
use mathlib.Core.List.{append_assoc}
use wso2_teamspace_demo.Agent.Store.Redis.{batched, batched_from}

-- The items of the batches, in order.
unfoldable pub joined {ℓ} : {A : Type ℓ} → List (List A) → List A
joined [] = []
joined (b ∷ bs) = b ++ joined bs

-- A batch is neither empty nor longer than the size.
abbrev pub fits {ℓ} : {A : Type ℓ} → ℕ → List A → Bool
fits size b = leb 1 (length b) && leb (length b) size

joined-batched_from {ℓ} :
    {A : Type ℓ} (size : ℕ) (batch xs : List A) → joined (batched_from size batch xs) ≡ batch ++ xs
unfolding joined batched_from
joined-batched_from size [] [] = refl
joined-batched_from size (b ∷ batch) [] = refl
joined-batched_from size batch (x ∷ xs) = ground (
  arith,
  joined-batched_from size [] xs,
  joined-batched_from size (batch ++ (x ∷ [])) xs,
  append_assoc batch (x ∷ []) xs,
)

batched_from-fits {ℓ} :
    {A : Type ℓ} (size : ℕ) (batch xs : List A)
    → length batch < size
    → all (fits size) (batched_from size batch xs) ≡ true
unfolding batched_from
batched_from-fits size [] [] h = refl
batched_from-fits size (b ∷ batch) [] h = ground arith
batched_from-fits size batch (x ∷ xs) h = ground (
  arith,
  length-append batch (x ∷ []),
  batched_from-fits size [] xs,
  batched_from-fits size (batch ++ (x ∷ [])) xs,
)

-- The batches in which keys are deleted hold all keys in order, and none holds more than the size,
-- where this is not 0.
pub batched_lem {ℓ} :
    {A : Type ℓ} (size : ℕ) (xs : List A)
    → 0 < size
    → (joined (batched size xs) ≡ xs) × (all (fits size) (batched size xs) ≡ true)
batched_lem size xs h = (joined-batched_from size [] xs, batched_from-fits size [] xs h)
