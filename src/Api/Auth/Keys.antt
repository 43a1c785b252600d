-- ===== src/Api/Auth/Keys.antt =====
-- When the key set is fetched (api/auth.py).
use wso2_teamspace_demo.Base.{
  ℕ, ◌+◌, String, ◌≡◌, ◌==◌, ◌&&◌, ltb, none, some, arith, if◌then◌else◌, inl, inr,
}
use wso2_teamspace_demo.Base.Json.{Json, arr, Items}
use wso2_teamspace_demo.Base.Values.{get_key, value_or, ◌>>?◌}
use wso2_teamspace_demo.Base.Run.{ok, Result-cases}
use wso2_teamspace_demo.Common.Jwt.{jwks_url}
use wso2_teamspace_demo.Api.Auth.{
  AuthWorld, Fetched, fetched, http_failure, not_json, cached_keys, sized, keep_keys, get_jwks,
}

-- Keys that came out of an answer are in the cache, as of the time of the answer.
keep_keys-kept :
    (base tenant : String) (answer : Fetched × AuthWorld) (keys : Json)
    → (keep_keys base tenant answer).0 ≡ ok keys
    → (keep_keys base tenant answer).1.cache
      ≡ some (record {
        keys = keys;
        fetched_at = (keep_keys base tenant answer).1.mono;
        base = base;
        tenant = tenant;
      })
unfolding keep_keys
keep_keys-kept base tenant (fetched body, w) keys h =
    elim (Result-cases
      (get_key "keys" body >>? λ listed. sized (value_or (arr Items.nil) listed))) [
        | inl (done, s) ↦ ground (arith, s, h)
        | inr (x, s) ↦ absurd (ground (arith, s, h))
      ]
keep_keys-kept base tenant (http_failure, w) keys h = cc
keep_keys-kept base tenant (not_json, w) keys h = cc

module _ (fetch : String → AuthWorld → Fetched × AuthWorld) where
  -- A key set that the Business API took from the request for it, where no fresh one was cached, is
  -- returned again for 300 seconds without a request and without a change, for the same base URL
  -- and tenant; for another base URL or tenant, and from then on, it is requested.
  pub get_jwks-get_jwks :
      (base tenant base' tenant' : String) (w : AuthWorld) (keys : Json) (passed : ℕ)
      → cached_keys base tenant w ≡ none
      → (get_jwks fetch base tenant w).0 ≡ ok keys
      → let v = record (get_jwks fetch base tenant w).1 {
        mono = (get_jwks fetch base tenant w).1.mono + passed;
      } in
        get_jwks fetch base' tenant' v ≡ (
          if base == base' && tenant == tenant' && ltb passed 300
          then (ok keys, v)
          else keep_keys base' tenant' (fetch (jwks_url base' tenant') v))
  unfolding get_jwks
  get_jwks-get_jwks base tenant base' tenant' w keys passed missed h =
      let answer = fetch (jwks_url base tenant) w in
      let kept = keep_keys-kept base tenant answer keys (ground (arith, missed, h)) in
      rw (get_jwks, missed) (ground (arith, kept))
