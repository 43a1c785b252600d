-- ===== src/Agent/Store/Redis.antt =====
-- agent/store.py: the Redis store, the batches in which it deletes, and the choice of a store.
-- The Redis client and Python's `json` are parameters; what either raises is caught.
pub mod Batches
mod Tests
use wso2_teamspace_demo.Base.{
  ℕ, String, ◌<>◌, Bool, true, false, not, Option, none, some, List, [], ◌∷◌, ◌++◌, length, leb,
  nat_eq, nonempty, or_empty, if◌then◌else◌,
}
use wso2_teamspace_demo.Base.Json.{Json}
use wso2_teamspace_demo.Base.Run.{Result, ok, err, Run, pure, ◌>>=◌, ◌>>◌}
use wso2_teamspace_demo.Base.Strip.{strip}
use wso2_teamspace_demo.Agent.Store.{compose}

-- `redis.Redis`, with what the server keeps, and `json`. `scan_iter` gives the keys that match; an error of
-- it comes before its first key.
pub record Client (R : Type 0) : Type 0 where
  pub get : String → Run R (Option String)
  pub set : String → String → Option ℕ → Run R (Unit {0})
  pub delete : List String → Run R (Unit {0})
  pub scan_iter : String → Run R (List String)
  pub ping : Run R Bool
  pub dumps : Json → Result String
  pub loads : String → Result Json

-- `_batched`: the batch that grows, and the items that are left.
unfoldable pub batched_from {ℓ} : {A : Type ℓ} → ℕ → List A → List A → List (List A)
batched_from size [] [] = []
batched_from size (b ∷ batch) [] = (b ∷ batch) ∷ []
batched_from size batch (x ∷ xs) =
    let grown = batch ++ (x ∷ []) in
    let closed = batched_from size [] xs in
    let later = batched_from size grown xs in
    if leb size (length grown) then grown ∷ closed else later

abbrev pub batched {ℓ} : {A : Type ℓ} → ℕ → List A → List (List A)
batched size xs = batched_from size [] xs

-- `except Exception`: the default, and what was done stays.
abbrev pub caught : {R A : Type 0} → A → Run R A → R → A × R
caught default m s = let (r, s') = m s in elim r [ ok a ↦ (a, s') | err e ↦ (default, s') ]

module _ {R : Type 0} (c : Client R) (prefix : String) where
  -- `_key`
  abbrev pub full_key : String → String → String
  full_key namespace key = prefix <> compose namespace key

  -- `json.loads` of what was read; what is not JSON is a miss.
  abbrev pub decoded : Option String → Option Json
  decoded none = none
  decoded (some raw) = elim (c.loads raw) [ ok v ↦ some v | err e ↦ none ]

  unfoldable pub redis_get : String → String → R → Option Json × R
  redis_get namespace key s =
      let (raw, s') = caught none (c.get (full_key namespace key)) s in (decoded raw, s')

  -- `ttl or None`
  abbrev pub expiry_option : ℕ → Option ℕ
  expiry_option ttl = if nat_eq ttl 0 then none else some ttl

  unfoldable pub redis_set : String → String → Json → ℕ → R → R
  redis_set namespace key value ttl s = elim (c.dumps value) [
    | err e ↦ s
    | ok payload ↦ (caught tt (c.set (full_key namespace key) payload (expiry_option ttl)) s).1
  ]

  unfoldable pub redis_delete : String → String → R → R
  redis_delete namespace key s = (caught tt (c.delete (full_key namespace key ∷ [])) s).1

  delete_batches : List (List String) → Run R (Unit {0})
  delete_batches [] = pure tt
  delete_batches (chunk ∷ chunks) = do c.delete chunk; delete_batches chunks

  -- `f"{namespace}:" if namespace else ""`
  abbrev pub scope_of : Option String → String
  scope_of namespace = if nonempty (or_empty namespace) then or_empty namespace <> ":" else ""

  unfoldable pub redis_clear : Option String → R → R
  unfolding delete_batches
  redis_clear namespace s =
      (caught tt
        (do
          keys ← c.scan_iter (prefix <> ("teamspace:agent:" <> (scope_of namespace <> "*")))
          delete_batches (batched 500 keys))
        s).1

-- Which store `build_store` builds; a failure is the missing package, or Redis that cannot be reached.
pub data Backend : Type 0 where
  in_process : Backend
  redis : String → String → Backend

-- `url` and `key_prefix` are the values of REDIS_URL and REDIS_KEY_PREFIX; `connect` builds the client and
-- pings the server.
unfoldable pub build_store : Option String → Option String → (String → Result Bool) → Backend
build_store url key_prefix connect =
    let url = strip (or_empty url) in
    if not (nonempty url)
    then in_process
    else elim (connect url) [ ok pong ↦ redis url (or_empty key_prefix) | err e ↦ in_process ]

-- `get_store`: the store is built on first use and kept.
unfoldable pub get_store : Backend → Option Backend → Backend × Option Backend
get_store built none = (built, some built)
get_store built (some store) = (store, some store)
