-- ===== src/Api/Auth.antt =====
-- api/auth.py: the key set with its cache, and who the caller is.
pub mod Keys
pub mod Identity
use wso2_teamspace_demo.Base.{
  ℕ, ◌-◌, String, ◌<>◌, Bool, true, false, not, ◌&&◌, ◌||◌, Option, none, some, List, [], ◌∷◌, ◌==◌,
  ltb, words, member, if◌then◌else◌,
}
use wso2_teamspace_demo.Base.Json.{Json, null, str, num, arr, obj, Fields, Items, field_of, end}
use wso2_teamspace_demo.Base.Values.{get_key, value_or, or_value, ◌>>?◌}
use wso2_teamspace_demo.Base.Run.{
  Error, Result, ok, err, http, value_error, attribute_error, other_error, signing_key_not_found,
  expired_signature_error, invalid_token_error,
}
use wso2_teamspace_demo.Common.Jwt.{PyJwt, select_signing_key, decode_rs256, token_issuer, jwks_url}

-- `JWKSCache`: the keys, when they were fetched, and for which base URL and tenant.
pub record Cached : Type 0 where
  pub keys : Json
  pub fetched_at : ℕ
  pub base : String
  pub tenant : String

-- The cache and the two clocks, in seconds.
pub record AuthWorld : Type 0 where
  pub cache : Option Cached
  pub mono : ℕ
  pub wall : ℕ

-- What the request for the key set gives: a JSON value, an `httpx.HTTPError`, or a body that is no
-- JSON, which raises a `ValueError`.
pub data Fetched : Type 0 where
  fetched : Json → Fetched
  http_failure not_json : Fetched

-- `_JWKS_TTL_SECONDS`
abbrev pub jwks_ttl_seconds : ℕ
jwks_ttl_seconds = 300

-- `JWKSCache.get`
abbrev pub cached_keys : String → String → AuthWorld → Option Json
cached_keys base tenant w = elim w.cache [
  | none ↦ none
  | some c ↦
      if c.base == base && c.tenant == tenant && ltb (w.mono - c.fetched_at) jwks_ttl_seconds
      then some c.keys
      else none
]

-- `len(data.get("keys", []))`, which must not raise
abbrev pub sized : Json → Result (Unit {0})
sized (str s) = ok tt
sized (arr xs) = ok tt
sized (obj fs) = ok tt
sized _ = err other_error

-- What is done with the answer to the request: a key set is kept.
unfoldable pub keep_keys : String → String → Fetched × AuthWorld → Result Json × AuthWorld
keep_keys base tenant (http_failure, w) = (err (http 503 "JWKS unavailable"), w)
keep_keys base tenant (not_json, w) = (err value_error, w)
keep_keys base tenant (fetched body, w) =
    elim (get_key "keys" body >>? λ keys. sized (value_or (arr Items.nil) keys)) [
      | err e ↦ (err e, w)
      | ok done ↦ (
        ok body,
        record w {
          cache = some (record { keys = body; fetched_at = w.mono; base = base; tenant = tenant });
        },
      )
    ]

module _ (fetch : String → AuthWorld → Fetched × AuthWorld) where
  unfoldable pub get_jwks : String → String → AuthWorld → Result Json × AuthWorld
  get_jwks base tenant w = elim (cached_keys base tenant w) [
    | some keys ↦ (ok keys, w)
    | none ↦ keep_keys base tenant (fetch (jwks_url base tenant) w)
  ]

pub record UserInfo : Type 0 where
  pub user_id : Json
  pub org : Json
  pub email : Json
  pub scopes : List String
  pub groups : Json
  pub actor_user_id : Json
  pub auth_type : Json

-- `value.split()`
abbrev pub split : Json → Result (List String)
split (str s) = ok (words s)
split _ = err attribute_error

-- `UserInfo(decoded)`
unfoldable pub user_info : Fields → Result UserInfo
user_info decoded = split (value_or (str "") (field_of "scope" decoded)) >>? λ scopes.
    (get_key "sub" (value_or (obj end) (field_of "act" decoded)) >>? λ actor. ok (record {
      user_id = value_or (str "") (field_of "sub" decoded);
      org =
          or_value (value_or (str "") (field_of "org_id" decoded))
            (value_or (str "") (field_of "user_org" decoded));
      email = value_or (str "") (field_of "email" decoded);
      scopes = scopes;
      groups = value_or (arr Items.nil) (field_of "groups" decoded);
      actor_user_id = value_or (str "") actor;
      auth_type = value_or (str "APPLICATION_USER") (field_of "aut" decoded);
    }))

-- The statuses of the `except` clauses.
unfoldable pub user_error : Error → Error
user_error signing_key_not_found = http 401 "Signing key not found"
user_error expired_signature_error = http 401 "Token expired"
user_error invalid_token_error = http 401 "Invalid token"
user_error e = e

-- The settings that the check reads.
pub record ApiSettings : Type 0 where
  pub is_base_url : String
  pub tenant_path : String
  pub client_id : String
  pub clock_skew : ℕ

module _ (p : PyJwt) (c : ApiSettings) (fetch : String → AuthWorld → Fetched × AuthWorld) where
  -- The `try` block after the keys are there.
  unfoldable pub authenticate : Json → String → ℕ → Result UserInfo
  authenticate jwks token now = select_signing_key p jwks token >>? λ key.
      (decode_rs256 p c.clock_skew token key c.client_id (token_issuer c.is_base_url c.tenant_path)
          none now
        >>? λ decoded. user_info decoded)

  abbrev pub optional : Result UserInfo → Result (Option UserInfo)
  optional (ok user) = ok (some user)
  optional (err e) = err (user_error e)

  -- `get_current_user`: no credentials, no user.
  unfoldable pub get_current_user : Option String → AuthWorld → Result (Option UserInfo) × AuthWorld
  get_current_user none w = (ok none, w)
  get_current_user (some token) w =
      let (jwks, w') = get_jwks fetch c.is_base_url c.tenant_path w in
      (optional (jwks >>? λ keys. authenticate keys token w'.wall), w')

-- `require_current_user`
unfoldable pub require_current_user : Option UserInfo → Result UserInfo
require_current_user none = err (http 401 "Authentication required")
require_current_user (some user) = ok user

-- `require_scope`: the checker reads `user.scopes`, which `None` does not have.
unfoldable pub require_scope : String → Option UserInfo → Result UserInfo
require_scope scope none = err attribute_error
require_scope scope (some user) =
    if not (member scope user.scopes) && not (member (scope <> "_agent") user.scopes)
    then err (http 403 "Missing required scope")
    else ok user
