-- ===== src/Agent/Mcp/Token.antt =====
-- agent/mcp_server.py: the key set with its cache, and the check of a bearer token.
pub mod Cache
use wso2_teamspace_demo.Base.{
  ℕ, ◌-◌, String, ◌<>◌, Option, none, some, List, [], ◌∷◌, ltb, if◌then◌else◌,
}
use wso2_teamspace_demo.Base.Json.{Json, null, str, arr, obj, Fields, Items, field_of}
use wso2_teamspace_demo.Base.Run.{
  Result, ok, err, value_error, runtime_error, other_error, Run, raise, lift, ◌>>=◌,
}
use wso2_teamspace_demo.Agent.Config.{Settings, tenant_path}
use wso2_teamspace_demo.Agent.Outside.{Outside}
use wso2_teamspace_demo.Agent.World.{World, JwksCache}
use wso2_teamspace_demo.Agent.AuthManager.{get_key, index_key, elements, is_text, value_or, ◌>>?◌}

-- `_JWKS_TTL_SECONDS`
abbrev pub jwks_ttl_seconds : ℕ
jwks_ttl_seconds = 300

-- `JWKSCache._data`, where it is not `None`: a key set that is the JSON null counts as none.
abbrev pub held : JwksCache → Option Json
held cache = elim cache.cached [ none ↦ none | some null ↦ none | some keys ↦ some keys ]

-- `JWKSCache.get_fresh`, at the wall clock's reading `now`
abbrev pub fresh_keys : JwksCache → ℕ → Option Json
fresh_keys cache now = elim (held cache) [
  | none ↦ none
  | some keys ↦ if ltb (now - cache.fetched_at) jwks_ttl_seconds then some keys else none
]

-- `len(value)`
abbrev sized : Json → Result (Unit {0})
sized (str s) = ok tt
sized (arr xs) = ok tt
sized (obj fs) = ok tt
sized _ = err other_error

-- `len(data.get("keys", []))` for the log, which raises for a body that has no such list.
unfoldable pub logged : Json → Result Json
logged body =
    get_key "keys" body >>? λ keys. sized (value_or (arr Items.nil) keys) >>? λ done. ok body

-- The loop that looks for the signing key.
unfoldable pub key_with_kid : String → List Json → Result Json
key_with_kid kid [] = err value_error
key_with_kid kid (k ∷ ks) =
    let later = key_with_kid kid ks in
    elim (index_key "kid" k) [
      | err e ↦ err e
      | ok named ↦ if is_text kid (some named) then ok k else later
    ]

module _ {S : Type 0} (c : Settings) (out : Outside S) where
  -- A failed fetch falls back on the last key set, however old; only without one it raises.
  unfoldable pub get_jwks : Run (World S) Json
  get_jwks w = elim (fresh_keys w.jwks w.wall) [
    | some keys ↦ (ok keys, w)
    | none ↦
        let (fetched, w') = out.fetch_jwks w in
        elim fetched [
          | ok body ↦ (
            logged body,
            record w' { jwks = record { cached = some body; fetched_at = w'.wall } },
          )
          | err e ↦ elim (held w'.jwks) [
            | some stale ↦ (ok stale, w')
            | none ↦ (err runtime_error, w')
          ]
        ]
  ]

  unfoldable pub validate_mcp_token : String → Run (World S) Fields
  validate_mcp_token token = do
    jwks ← get_jwks
    header ← lift (out.unverified_header token)
    listed ← lift (get_key "keys" jwks)
    keys ← lift (elements (value_or (arr Items.nil) listed))
    key ← elim (field_of "kid" header) [
      | some (Json.str kid) ↦ lift (key_with_kid kid keys)
      | _ ↦ raise other_error
    ]
    λ w. (
      out.decode_rs256 token key c.client_id (c.is_base_url <> (tenant_path c <> "/oauth2/token"))
          c.clock_skew_seconds w.wall,
      w,
    )
