-- ===== src/Common/Token.antt =====
-- common/m2m_auth.py, the calling side: a client-credentials token, acquired and cached.
-- The synchronous and the asynchronous methods are one definition here: they differ in the HTTP
-- library alone, which is a parameter.
pub mod Reuse
use Prim.Native.Nat.{compare, Ordering}
use wso2_teamspace_demo.Base.{
  ℕ, ◌+◌, ◌-◌, String, ◌<>◌, Bool, true, false, not, ◌&&◌, Option, none, some, List, [], ◌∷◌, ◌==◌,
  Dict, nonempty, words, member, ltb, leb, nat_eq, if◌then◌else◌,
}
use wso2_teamspace_demo.Base.Json.{Json, null, bool, str, num, truthy}
use wso2_teamspace_demo.Base.Values.{get_key, value_or, or_value}
use wso2_teamspace_demo.Base.Run.{Result, ok, err, attribute_error, Run, pure, lift, ◌>>=◌, ◌>>◌}
use wso2_teamspace_demo.Base.Number.{int_of_text}
use wso2_teamspace_demo.Common.Service.{service_scope}

-- `M2MConfig`
pub record M2mConfig : Type 0 where
  pub is_base_url : String
  pub tenant_path : String
  pub client_id : String
  pub client_secret : String
  pub scope : String

abbrev pub token_url : M2mConfig → String
token_url c = c.is_base_url <> (c.tenant_path <> "/oauth2/token")

abbrev pub is_usable : M2mConfig → Bool
is_usable c = nonempty c.client_id && nonempty c.client_secret && nonempty c.is_base_url

-- `cache_key`, with its equality
abbrev pub same_key : M2mConfig → M2mConfig → Bool
same_key c d = token_url c == token_url d && c.client_id == d.client_id && c.scope == d.scope

pub record CachedToken : Type 0 where
  pub value : Json
  pub expires_at : ℕ

-- The client's cache, newest entry first, and `time.monotonic()` in seconds.
pub record TokenWorld : Type 0 where
  pub cache : List (M2mConfig × CachedToken)
  pub mono : ℕ

-- An answer of the token endpoint; the body is missing where it is no JSON.
pub record Answer : Type 0 where
  pub status_code : ℕ
  pub body : Option Json

unfoldable pub entry_of : M2mConfig → List (M2mConfig × CachedToken) → Option CachedToken
entry_of c [] = none
entry_of c ((d, e) ∷ rest) = let later = entry_of c rest in if same_key d c then some e else later

-- `_cached`
abbrev pub cached : M2mConfig → TokenWorld → Option Json
cached c w = elim (entry_of c w.cache) [
  | none ↦ none
  | some e ↦ if ltb w.mono e.expires_at then some e.value else none
]

-- `_DEFAULT_LIFETIME_SECONDS` and `_EXPIRY_SKEW_SECONDS`
abbrev pub default_lifetime_seconds : ℕ
default_lifetime_seconds = 300

abbrev pub expiry_skew_seconds : ℕ
expiry_skew_seconds = 30

-- `int(expires_in)`, or the default; a negative lifetime counts as 0, since a token is kept for one
-- second at least.
unfoldable pub lifetime_of : Json → ℕ
lifetime_of (num n) = n
lifetime_of (bool true) = 1
lifetime_of (bool false) = 0
lifetime_of (str s) = elim (int_of_text s) [
  | none ↦ default_lifetime_seconds
  | some (negative, n) ↦ if negative then 0 else n
]
lifetime_of _ = default_lifetime_seconds

-- `max(lifetime - _EXPIRY_SKEW_SECONDS, 1)`
abbrev pub ttl_of : ℕ → ℕ
ttl_of lifetime =
    if leb (lifetime - expiry_skew_seconds) 1 then 1 else lifetime - expiry_skew_seconds

-- `_store`: a new entry hides an older one with the same key.
abbrev pub store_token : M2mConfig → Json → Json → TokenWorld → TokenWorld
store_token c token expires_in w = record w {
  cache =
      (c, record { value = token; expires_at = w.mono + ttl_of (lifetime_of expires_in) })
      ∷ w.cache;
}

-- `granted.split()`
abbrev pub granted_words : Json → Result (List String)
granted_words (str s) = ok (words s)
granted_words _ = err attribute_error

-- `_form`
abbrev pub form : M2mConfig → Dict String
form c =
    ("grant_type", "client_credentials")
    ∷ ("client_id", c.client_id)
    ∷ ("client_secret", c.client_secret)
    ∷ ("scope", c.scope)
    ∷ []

-- `_handle_payload`
unfoldable pub handle_payload : M2mConfig → Json → Run TokenWorld (Option Json)
handle_payload c payload = do
  token ← lift (get_key "access_token" payload)
  if not (truthy (value_or null token)) then pure none else do
    scope ← lift (get_key "scope" payload)
    granted ← lift (granted_words (or_value (value_or null scope) (str "")))
    if not (member c.scope granted) then pure none else do
      expires_in ← lift (get_key "expires_in" payload)
      λ w. (
        ok (some (value_or null token)),
        store_token c (value_or null token) (value_or null expires_in) w,
      )

-- `invalidate`
abbrev pub invalidate : TokenWorld → TokenWorld
invalidate w = record w { cache = [] }

module _ (post : String → Dict String → TokenWorld → Option Answer × TokenWorld) where
  -- The request and what is done with its answer; nothing comes back where the transport failed.
  unfoldable pub request_token : M2mConfig → Run TokenWorld (Option Json)
  request_token c w =
      let (answer, w') = post (token_url c) (form c) w in
      elim answer [
        | none ↦ (ok none, w')
        | some resp ↦ if not (nat_eq resp.status_code 200) then (ok none, w') else elim resp.body [
          | none ↦ (ok none, w')
          | some payload ↦ handle_payload c payload w'
        ]
      ]

  -- `get_token` and `aget_token`
  unfoldable pub get_token : M2mConfig → Bool → Run TokenWorld (Option Json)
  get_token c force_refresh w =
      if not (is_usable c)
      then (ok none, w)
      else if force_refresh
      then request_token c w
      else elim (cached c w) [ some token ↦ (ok (some token), w) | none ↦ request_token c w ]
