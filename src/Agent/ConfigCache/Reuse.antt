-- ===== src/Agent/ConfigCache/Reuse.antt =====
-- When a configuration that was fetched is served again (agent/agent_config_cache.py).
use wso2_teamspace_demo.Base.{
  ℕ, ◌+◌, String, ◌≡◌, ◌≢◌, refl, true, false, none, some, [], ◌∷◌, lookup, dict_laws, ==-self, ltb,
  nat_eq, arith, if◌then◌else◌, inl, inr, Bool-cases, Option-cases,
}
use mathlib.Core.Path.{subst}
use wso2_teamspace_demo.Base.Json.{Json, null}
use wso2_teamspace_demo.Base.Run.{Result, ok, err, Result-cases}
use wso2_teamspace_demo.Agent.ConfigCache.{
  ConfigWorld, ConfigReply, Channel, accept, retry, request_config, fetch_and_cache_agent_config,
  served, config_url, is_none,
}

there : (v : Json) → v ≢ null → is_none v ≡ false
there null full = absurd (full refl)
there _ full = refl

module _ {R : Type 0} (c : Channel R) where
  -- The world keeps what was answered, as of its own time.
  abbrev IsKept : String → Json → ConfigWorld R → Type 0
  IsKept org_id v w = lookup org_id w.cache ≡ some (w.mono, v)

  -- What comes out: an exception, `None`, or an answer that the world keeps.
  abbrev IsFine : String → Result Json × ConfigWorld R → Type 0
  IsFine org_id (ok v, w) = v ≢ null → IsKept org_id v w
  IsFine org_id (err e, w) = Unit

  nothing-IsFine : (org_id : String) (w : ConfigWorld R) → IsFine org_id (ok null, w)
  nothing-IsFine org_id w full = absurd (full refl)

  accept-IsFine :
      (org_id : String) (resp : ConfigReply) (w : ConfigWorld R)
      → IsFine org_id (accept c org_id resp w)
  unfolding accept
  accept-IsFine org_id resp w = elim (Bool-cases (nat_eq resp.status_code 200)) [
    | inr e ↦ rw e (nothing-IsFine org_id w)
    | inl e ↦ elim (Option-cases resp.body) [
      | inl missing ↦ rw (e, missing) (nothing-IsFine org_id w)
      | inr (v, found) ↦ rw (e, found) (λ full. simp (dict_laws, ==-self org_id))
    ]
  ]

  retry-IsFine : (org_id : String) (w : ConfigWorld R) → IsFine org_id (retry c org_id w)
  unfolding retry
  retry-IsFine org_id w =
      let w₁ : ConfigWorld R = (c.aauth_headers true (c.invalidate w)).1 in
      elim (Result-cases (c.aauth_headers true (c.invalidate w)).0) [
        | inr (x, failed) ↦ rw failed tt
        | inl ([], got) ↦ rw got (nothing-IsFine org_id w₁)
        | inl (h ∷ hs, got) ↦
            elim (Result-cases
              (c.get (config_url c org_id) (h ∷ hs) (c.aauth_headers true (c.invalidate w)).1).0) [
                | inr (x, failed) ↦ rw (got, failed) tt
                | inl (none, answered) ↦
                    rw (got, answered)
                      (nothing-IsFine org_id (c.get (config_url c org_id) (h ∷ hs) w₁).1)
                | inl (some resp, answered) ↦ rw (got, answered) (accept-IsFine org_id resp _)
              ]
      ]

  request_config-IsFine :
      (org_id : String) (w : ConfigWorld R) → IsFine org_id (request_config c org_id w)
  unfolding request_config
  request_config-IsFine org_id w =
      let w₁ : ConfigWorld R = (c.aauth_headers false w).1 in
      elim (Result-cases (c.aauth_headers false w).0) [
        | inr (x, failed) ↦ rw failed tt
        | inl ([], got) ↦ rw got (nothing-IsFine org_id w₁)
        | inl (h ∷ hs, got) ↦
            elim (Result-cases
              (c.get (config_url c org_id) (h ∷ hs) (c.aauth_headers false w).1).0) [
                | inr (x, failed) ↦ rw (got, failed) tt
                | inl (none, answered) ↦
                    rw (got, answered)
                      (nothing-IsFine org_id (c.get (config_url c org_id) (h ∷ hs) w₁).1)
                | inl (some resp, answered) ↦ elim (Bool-cases (nat_eq resp.status_code 401)) [
                  | inl rejected ↦ rw (got, answered, rejected) (retry-IsFine org_id _)
                  | inr fine ↦ rw (got, answered, fine) (accept-IsFine org_id resp _)
                ]
              ]
      ]

  -- A configuration that a forced fetch returned, and that is not None, is served for less than 300
  -- seconds as it was, without a request; from then on it is requested again.
  pub fetch_and_cache_agent_config_again :
      (org_id : String) (v : Json) (w w' : ConfigWorld R) (passed : ℕ)
      → fetch_and_cache_agent_config c org_id true w ≡ (ok v, w')
      → v ≢ null
      → fetch_and_cache_agent_config c org_id false (record w' { mono = w'.mono + passed }) ≡ (
          if ltb passed 300
          then (ok v, record w' { mono = w'.mono + passed })
          else request_config c org_id (record w' { mono = w'.mono + passed }))
  unfolding fetch_and_cache_agent_config served
  fetch_and_cache_agent_config_again org_id v w w' passed h full =
      let kept : IsKept org_id v w' =
        subst (IsFine org_id) h (request_config-IsFine org_id w) full in
      rw kept (ground (arith, there v full))
