-- ===== src/Agent/ConfigCache.antt =====
-- agent/agent_config_cache.py: the agent's configurations, fetched over the service channel and cached.
-- The service's headers and the HTTP client are parameters; a call that is awaited may change the world.
pub mod Reuse
mod Tests
use wso2_teamspace_demo.Base.{
  ℕ, ◌-◌, String, ◌<>◌, Bool, true, false, not, ◌&&◌, Option, none, some, List, [], ◌∷◌, Dict,
  lookup, insert, erase, ltb, nat_eq, if◌then◌else◌,
}
use wso2_teamspace_demo.Base.Json.{Json, null}
use wso2_teamspace_demo.Base.Run.{Result, ok, err, Run, pure, lift, ◌>>=◌, ◌>>◌}
use wso2_teamspace_demo.Base.Slices.{rstrip_char}

-- The module's cache, with the time of each fetch; `time.monotonic()` in seconds; and everything else.
pub record ConfigWorld (R : Type 0) : Type 0 where
  pub cache : Dict (ℕ × Json)
  pub mono : ℕ
  pub rest : R

-- An answer of the Business API; the body is missing where it is no JSON.
pub record ConfigReply : Type 0 where
  pub status_code : ℕ
  pub body : Option Json

-- `_AGENT_CONFIG_TTL_SECONDS`
abbrev pub agent_config_ttl_seconds : ℕ
agent_config_ttl_seconds = 300

-- `value is None`
abbrev pub is_none : Json → Bool
is_none null = true
is_none _ = false

module _ {R : Type 0} where
  -- `_is_fresh`
  abbrev pub is_fresh : ℕ × Json → ConfigWorld R → Bool
  is_fresh entry w = ltb (w.mono - entry.0) agent_config_ttl_seconds

  -- `invalidate_agent_config_cache`
  unfoldable pub invalidate_agent_config_cache : String → ConfigWorld R → ConfigWorld R
  invalidate_agent_config_cache org_id w = record w { cache = erase org_id w.cache }

  -- The cached configuration that may be served: a fresh one that is not `None`.
  unfoldable pub served : String → ConfigWorld R → Option Json
  served org_id w = elim (lookup org_id w.cache) [
    | none ↦ none
    | some entry ↦ if is_fresh entry w && not (is_none entry.1) then some entry.1 else none
  ]

  -- `_cache[key] = (time.monotonic(), data)`
  abbrev pub keep : String → Json → Run (ConfigWorld R) Json
  keep org_id v w = (ok v, record w { cache = insert org_id (w.mono, v) w.cache })

-- What the module calls: `service_token_client.aauth_headers` with or without `force_refresh` and its
-- `invalidate`, and `client.get`, which gives nothing after a `RequestError`.
pub record Channel (R : Type 0) : Type 0 where
  pub business_api_url : String
  pub aauth_headers : Bool → Run (ConfigWorld R) (Dict String)
  pub invalidate : ConfigWorld R → ConfigWorld R
  pub get : String → Dict String → Run (ConfigWorld R) (Option ConfigReply)

module _ {R : Type 0} (c : Channel R) where
  abbrev config_url : String → String
  config_url org_id = rstrip_char "/" c.business_api_url <> ("/agent-config/org/" <> org_id)

  -- What is made of the last answer; `None` is null.
  accept : String → ConfigReply → Run (ConfigWorld R) Json
  accept org_id resp =
      if not (nat_eq resp.status_code 200)
      then pure null
      else elim resp.body [ none ↦ pure null | some v ↦ keep org_id v ]

  -- The second request, with a fresh token, and only one.
  retry : String → Run (ConfigWorld R) Json
  retry org_id = do
    λ w. (ok tt, c.invalidate w)
    headers ← c.aauth_headers true
    elim headers [
      | [] ↦ pure null
      | h ∷ hs ↦ (do
        resp ← c.get (config_url org_id) (h ∷ hs)
        elim resp [ none ↦ pure null | some answer ↦ accept org_id answer ])
    ]

  -- The part that asks the Business API.
  unfoldable pub request_config : String → Run (ConfigWorld R) Json
  unfolding accept retry
  request_config org_id = do
    headers ← c.aauth_headers false
    elim headers [
      | [] ↦ pure null
      | h ∷ hs ↦ (do
        resp ← c.get (config_url org_id) (h ∷ hs)
        elim resp [
          | none ↦ pure null
          | some answer ↦
              if nat_eq answer.status_code 401 then retry org_id else accept org_id answer
        ])
    ]

  -- `fetch_and_cache_agent_config`
  unfoldable pub fetch_and_cache_agent_config : String → Bool → Run (ConfigWorld R) Json
  fetch_and_cache_agent_config org_id force_refresh w =
      if force_refresh
      then request_config org_id w
      else elim (served org_id w) [ some v ↦ (ok v, w) | none ↦ request_config org_id w ]
