-- ===== src/Common/Jwt.antt =====
-- common/jwt_validation.py: the choice of the signing key and the check of an RS256 token. PyJWT is a
-- parameter.
use wso2_teamspace_demo.Base.{
  ℕ, String, ◌<>◌, Bool, true, false, not, Option, none, some, List, [], ◌∷◌, ◌==◌, nonempty,
  if◌then◌else◌,
}
use wso2_teamspace_demo.Base.Json.{Json, null, str, arr, Fields, Items, field_of}
use wso2_teamspace_demo.Base.Values.{get_key, value_or, elements, ◌>>?◌}
use wso2_teamspace_demo.Base.Run.{Result, err, signing_key_not_found}
use wso2_teamspace_demo.Base.Strip.{strip}
use wso2_teamspace_demo.Base.Number.{int_of_text}

-- `jwt.get_unverified_header`, the `from_jwk` of RS256, and `jwt.decode` with RS256 alone, for a
-- token, a key, an audience, an issuer, a leeway and the wall clock. The `kid` of a header is a text.
pub record PyJwt : Type 0 where
  pub unverified_header : String → Result Fields
  pub from_jwk : Json → Result Json
  pub decode : String → Json → String → String → ℕ → ℕ → Result Fields

-- `DEFAULT_CLOCK_SKEW_SECONDS`
abbrev pub default_clock_skew_seconds : ℕ
default_clock_skew_seconds = 60

-- `_resolve_leeway`, from the text of the environment variable
unfoldable pub resolve_leeway : String → ℕ
resolve_leeway raw =
    if not (nonempty (strip raw))
    then default_clock_skew_seconds
    else elim (int_of_text (strip raw)) [
      | none ↦ default_clock_skew_seconds
      | some (negative, n) ↦ if negative then 0 else n
    ]

-- `entry.get("kid") == kid`; a missing one is `None`.
abbrev pub same_kid : Json → Json → Bool
same_kid null null = true
same_kid (str a) (str b) = a == b
same_kid _ _ = false

-- The loop over the key set.
unfoldable pub find_key : (Json → Result Json) → Json → List Json → Result Json
find_key from_jwk kid [] = err signing_key_not_found
find_key from_jwk kid (entry ∷ rest) =
    let later = find_key from_jwk kid rest in
    get_key "kid" entry >>? λ named.
    if same_kid (value_or null named) kid then from_jwk entry else later

module _ (p : PyJwt) where
  unfoldable pub select_signing_key : Json → String → Result Json
  select_signing_key jwks token = p.unverified_header token >>? λ header.
      (get_key "keys" jwks >>? λ listed.
      (elements (value_or (arr Items.nil) listed) >>? λ keys.
      find_key p.from_jwk (value_or null (field_of "kid" header)) keys))

  -- `leeway` defaults to the clock skew that was configured.
  abbrev pub decode_rs256 : ℕ → String → Json → String → String → Option ℕ → ℕ → Result Fields
  decode_rs256 clock_skew token key audience issuer leeway now =
      p.decode token key audience issuer (elim leeway [ none ↦ clock_skew | some l ↦ l ]) now

abbrev pub token_issuer : String → String → String
token_issuer is_base_url tenant_path = is_base_url <> (tenant_path <> "/oauth2/token")

abbrev pub jwks_url : String → String → String
jwks_url is_base_url tenant_path = is_base_url <> (tenant_path <> "/oauth2/jwks")
