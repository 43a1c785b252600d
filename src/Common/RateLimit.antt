-- ===== src/Common/RateLimit.antt =====
-- common/rate_limit.py: who is counted under which key, and the check in front of a route.
-- The limiter of the package `limits` is a parameter, which counts a hit of a key under a limit.
use wso2_teamspace_demo.Base.{
  String, ◌<>◌, Bool, true, not, Option, none, some, [], ◌∷◌, nonempty, or_empty, if◌then◌else◌,
}
use wso2_teamspace_demo.Base.Run.{http, Run, pure, raise, ◌>>=◌}
use wso2_teamspace_demo.Base.Strip.{strip}
use wso2_teamspace_demo.Base.Slices.{partition}
use wso2_teamspace_demo.Common.Tls.{lower_in}

-- The environment that the module reads.
pub record LimitSettings : Type 0 where
  pub rate_limit_enabled : Option String
  pub redis_url : Option String
  pub trust_forwarded_for : Option String

-- `ENABLED`, which is on by default
unfoldable pub enabled : LimitSettings → Bool
enabled e = elim e.rate_limit_enabled [
  | none ↦ true
  | some raw ↦ not (lower_in (strip raw) ("0" ∷ "false" ∷ "no" ∷ []))
]

-- `storage_uri`
unfoldable pub storage_uri : LimitSettings → String
storage_uri e =
    let redis_url = strip (or_empty e.redis_url) in
    if nonempty redis_url then redis_url else "memory://"

-- `client_identity`, by the header `x-forwarded-for` and the peer's address
unfoldable pub client_identity : LimitSettings → Option String → Option String → String
client_identity e forwarded host =
    let peer = if nonempty (or_empty host) then or_empty host else "unknown" in
    if lower_in (strip (or_empty e.trust_forwarded_for)) ("1" ∷ "true" ∷ "yes" ∷ [])
    then (if nonempty (or_empty forwarded)
        then strip (partition "," (or_empty forwarded)).0
        else peer)
    else peer

module _ {R : Type 0} (hit : String → String → Run R Bool) where
  -- `_check` of `rate_limit_dependency`, for the limit under a name
  unfoldable pub check_limit :
      LimitSettings → String → Option String → Option String → Option String → Run R (Unit {0})
  check_limit e spec_name spec forwarded host =
      if not (enabled e) then pure tt else if not (nonempty (or_empty spec)) then pure tt else (do
        allowed ← hit (or_empty spec) (spec_name <> (":" <> client_identity e forwarded host))
        if allowed then pure tt else raise (http 429 ("Rate limit exceeded: " <> or_empty spec)))
