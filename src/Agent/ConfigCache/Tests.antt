-- ===== src/Agent/ConfigCache/Tests.antt =====
-- A run of the cache of the agent's configurations (agent/agent_config_cache.py).
use wso2_teamspace_demo.Base.{
  ℕ, ◌+◌, ◌≡◌, refl, true, false, none, some, [], ◌∷◌, insert, ltb, if◌then◌else◌, string_dec,
  arith, nat_eq,
}
use wso2_teamspace_demo.Base.Json.{str}
use wso2_teamspace_demo.Base.Run.{ok}
use wso2_teamspace_demo.Base.Slices.{rstrip_char}
use wso2_teamspace_demo.Agent.ConfigCache.{
  ConfigWorld, Channel, request_config, fetch_and_cache_agent_config,
}
use wso2_teamspace_demo.Agent.ConfigCache.Reuse.{fetch_and_cache_agent_config_again}

-- A channel whose first token was revoked: it counts the fresh ones, and the API answers 401 before one.
abbrev channel : Channel ℕ
channel = record {
  business_api_url = "https://api/";
  aauth_headers = λ force w. (
    ok (("X-Service-Authorization", "Bearer t") ∷ []),
    if force then record w { rest = w.rest + 1 } else w,
  );
  invalidate = λ w. w;
  get = λ url headers w. (
    ok (
        some (
          if nat_eq w.rest 0
          then record { status_code = 401; body = none }
          else record { status_code = 200; body = some (str url) })),
    w,
  );
}

abbrev before_all : ConfigWorld ℕ
before_all = record { cache = []; mono = 10; rest = 0 }

abbrev fetched : ConfigWorld ℕ
fetched = record {
  cache = ("o1", (10, str "https://api/agent-config/org/o1")) ∷ [];
  mono = 10;
  rest = 1;
}

retried :
    fetch_and_cache_agent_config channel "o1" true before_all
    ≡ (ok (str "https://api/agent-config/org/o1"), fetched)
unfolding fetch_and_cache_agent_config request_config rstrip_char string_dec insert
retried = refl

again_example :
    fetch_and_cache_agent_config channel "o1" false (record fetched { mono = 10 + 299 }) ≡ (
      if ltb 299 300
      then (ok (str "https://api/agent-config/org/o1"), record fetched { mono = 10 + 299 })
      else request_config channel "o1" (record fetched { mono = 10 + 299 }))
again_example =
    fetch_and_cache_agent_config_again channel "o1" (str "https://api/agent-config/org/o1")
      before_all fetched 299 retried (λ e. ground (arith, e))
