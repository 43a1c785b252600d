-- ===== src/Common/Service.antt =====
-- common/m2m_auth.py, the receiving side: the check of a service token.
pub mod Gate
use wso2_teamspace_demo.Base.{
  ℕ, String, ◌<>◌, Bool, true, false, not, Option, none, some, List, [], ◌∷◌, ◌==◌, nonempty, words,
  member, if◌then◌else◌,
}
use wso2_teamspace_demo.Base.Json.{Json, null, str, arr, Fields, items, field_of, truthy}
use wso2_teamspace_demo.Base.Values.{is_text, value_or, ◌>>?◌}
use wso2_teamspace_demo.Base.Run.{
  Error, Result, ok, err, http, other_error, signing_key_not_found, expired_signature_error,
  invalid_token_error, service_auth_error,
}
use wso2_teamspace_demo.Base.Strip.{strip, lstrip, rstrip, break_space, lower_is}
use wso2_teamspace_demo.Common.Jwt.{PyJwt, select_signing_key, decode_rs256}

-- `SERVICE_SCOPE`
abbrev pub service_scope : String
service_scope = "teamspace_internal_service"

-- `x or None` on a text
abbrev pub or_none : String → Option String
or_none s = if nonempty s then some s else none

-- `parse_bearer`. `split(None, 1)` gives the first word and, if there is more, the rest of the text.
unfoldable pub parse_bearer : Option String → Option String
parse_bearer none = none
parse_bearer (some header) =
    let (first, behind) = break_space (strip header) in
    let rest = lstrip behind in
    if not (nonempty first)
    then none
    else if lower_is first "bearer"
    then (if nonempty rest then or_none (strip rest) else none)
    else (if nonempty rest then none else some first)

-- The scopes of a claim: a text is split, a list is taken as it is; only texts can be the scope asked
-- for. Anything else that counts as true, but an object with its keys, cannot be iterated.
texts : List Json → List String
texts [] = []
texts (str s ∷ xs) = s ∷ texts xs
texts (_ ∷ xs) = texts xs

keys_of : Fields → List String
keys_of Fields.end = []
keys_of (Fields.field k v fs) = k ∷ keys_of fs

unfoldable pub scopes_of : Json → Result (List String)
unfolding texts keys_of
scopes_of (str s) = ok (words s)
scopes_of (arr xs) = ok (texts (items xs))
scopes_of (Json.obj fs) = ok (keys_of fs)
scopes_of v = if truthy v then err other_error else ok []

-- `aut` is missing, `None` or "APPLICATION".
abbrev pub is_application : Option Json → Bool
is_application none = true
is_application (some null) = true
is_application (some v) = is_text "APPLICATION" (some v)

unfoldable pub verify_service_claims : Fields → String → Result (Unit {0})
verify_service_claims decoded scope =
    scopes_of (value_or (str "") (field_of "scope" decoded)) >>? λ scopes.
    if not (member scope scopes)
    then err service_auth_error
    else if is_application (field_of "aut" decoded)
    then ok tt
    else err service_auth_error

-- The statuses of the `except` clauses.
unfoldable pub service_error : Error → Error
service_error signing_key_not_found = http 401 "Signing key not found"
service_error expired_signature_error = http 401 "Service token expired"
service_error invalid_token_error = http 401 "Invalid service token"
service_error service_auth_error = http 403 "Insufficient service token"
service_error e = e

module _ (p : PyJwt) (clock_skew : ℕ) (audience issuer scope : String) where
  -- The `try` block: the claims of a token that is a service credential.
  unfoldable pub checked_claims : Json → String → ℕ → Result Fields
  checked_claims jwks token now = select_signing_key p jwks token >>? λ key.
      (decode_rs256 p clock_skew token key audience issuer none now >>? λ decoded.
      (verify_service_claims decoded scope >>? λ done. ok decoded))

  -- The dependency that `make_service_auth_dependency` builds: `jwks_getter` may change the world, and
  -- what it raises itself passes through.
  unfoldable pub require_service_auth :
      {S : Type 0} → (S → Result Json × S) → (S → ℕ) → Option String → S → Result Fields × S
  require_service_auth jwks_getter wall header w = elim (parse_bearer header) [
    | none ↦ (err (http 401 "Missing X-Service-Authorization header with a service token"), w)
    | some token ↦
        let (jwks, w') = jwks_getter w in
        (
          elim (jwks >>? λ keys. checked_claims keys token (wall w')) [
            | ok decoded ↦ ok decoded
            | err e ↦ err (service_error e)
          ],
          w',
        )
  ]
