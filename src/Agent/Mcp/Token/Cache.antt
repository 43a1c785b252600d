-- ===== src/Agent/Mcp/Token/Cache.antt =====
-- When the tools' server fetches the key set, and what it falls back on (agent/mcp_server.py).
use wso2_teamspace_demo.Base.{ℕ, ◌≡◌, some, arith, Option-cases, inl, inr}
use wso2_teamspace_demo.Base.Json.{Json}
use wso2_teamspace_demo.Base.Run.{Error, ok, err, Result-cases}
use wso2_teamspace_demo.Agent.Config.{Settings}
use wso2_teamspace_demo.Agent.Outside.{Outside}
use wso2_teamspace_demo.Agent.World.{World, JwksCache}
use wso2_teamspace_demo.Agent.Mcp.Token.{get_jwks, held, fresh_keys, logged}

fresh_keys-held :
    (cache : JwksCache) (now : ℕ) (keys : Json)
    → fresh_keys cache now ≡ some keys
    → held cache ≡ some keys
fresh_keys-held cache now keys h = elim (Option-cases (held cache)) [
  | inl nothing ↦ absurd (ground (arith, nothing, h))
  | inr (kept, e) ↦ ground (arith, e, h)
]

logged-held :
    (body keys : Json) (now : ℕ)
    → logged body ≡ ok keys
    → held (record { cached = some body; fetched_at = now }) ≡ some keys
unfolding logged
logged-held (Json.obj fs) keys now h = ground (arith, h)
logged-held v keys now h = cc

module _ {S : Type 0} (c : Settings) (out : Outside S) where
  -- A key set that was served is in the cache.
  get_jwks-held :
      (w : World S) (keys : Json)
      → (get_jwks c out w).0 ≡ ok keys
      → held (get_jwks c out w).1.jwks ≡ some keys
  unfolding get_jwks
  get_jwks-held w keys h = elim (Option-cases (fresh_keys w.jwks w.wall)) [
    | inr (fresh, e) ↦ ground (arith, e, h, fresh_keys-held w.jwks w.wall fresh e)
    | inl old ↦ elim (Result-cases (out.fetch_jwks w).0) [
      | inl (body, e) ↦ ground (arith, old, e, h, logged-held body keys (out.fetch_jwks w).1.wall)
      | inr (x, failed) ↦ elim (Option-cases (held (out.fetch_jwks w).1.jwks)) [
        | inl nothing ↦ absurd (ground (arith, old, failed, nothing, h))
        | inr (stale, kept) ↦ ground (arith, old, failed, kept, h)
      ]
    ]
  ]

  -- What is in the cache is served where the request fails and leaves the cache alone.
  get_jwks-stale :
      (v : World S) (keys : Json) (e : Error)
      → held v.jwks ≡ some keys
      → (out.fetch_jwks v).0 ≡ err e
      → (out.fetch_jwks v).1.jwks ≡ v.jwks
      → ((get_jwks c out v).0 ≡ ok keys) × ((get_jwks c out v).1.jwks ≡ v.jwks)
  unfolding get_jwks
  get_jwks-stale v keys e had failed kept = elim (Option-cases (fresh_keys v.jwks v.wall)) [
    | inr (fresh, found) ↦ ground (arith, found, had, fresh_keys-held v.jwks v.wall fresh found)
    | inl old ↦ ground (arith, old, had, failed, kept)
  ]

  -- Whatever key set the tools' server got, from the cache or by a request, it gets again at any
  -- later time while requests fail and leave the cache alone, and the cache stays as it was.
  pub get_jwks_again :
      (w : World S) (keys : Json) (e : Error) (now : ℕ)
      → (get_jwks c out w).0 ≡ ok keys
      → let v = record (get_jwks c out w).1 { wall = now } in
        (out.fetch_jwks v).0 ≡ err e
        → (out.fetch_jwks v).1.jwks ≡ v.jwks
        → ((get_jwks c out v).0 ≡ ok keys) × ((get_jwks c out v).1.jwks ≡ v.jwks)
  get_jwks_again w keys e now served failed kept =
      get_jwks-stale (record (get_jwks c out w).1 { wall = now }) keys e
        (get_jwks-held w keys served) failed kept
