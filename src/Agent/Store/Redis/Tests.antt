-- ===== src/Agent/Store/Redis/Tests.antt =====
-- Runs of the batches and of the Redis store.
use wso2_teamspace_demo.Base.{ℕ, ◌≡◌, refl, List, [], ◌∷◌, arith, true, all}
use wso2_teamspace_demo.Agent.Store.Redis.{batched, batched_from}
use wso2_teamspace_demo.Agent.Store.Redis.Batches.{joined, fits, batched_lem}

abbrev five : List ℕ
five = 1 ∷ 2 ∷ 3 ∷ 4 ∷ 5 ∷ []

five_in_batches : batched 2 five ≡ (1 ∷ 2 ∷ []) ∷ (3 ∷ 4 ∷ []) ∷ (5 ∷ []) ∷ []
unfolding batched_from
five_in_batches = refl

batched_example : (joined (batched 2 five) ≡ five) × (all (fits 2) (batched 2 five) ≡ true)
batched_example = batched_lem 2 five (omega arith)
