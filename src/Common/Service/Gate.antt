-- ===== src/Common/Service/Gate.antt =====
-- Which calls pass for calls of a service (common/m2m_auth.py).
use wso2_teamspace_demo.Base.{
  ℕ, String, ◌<>◌, ◌≡◌, ◌↔◌, ◌⊎◌, is_space, refl, Option-cases, Bool, true, false, Option, none,
  some, List, [], ◌∷◌, nonempty, member, any, words, arith, inl, inr, string_dec,
}
use wso2_teamspace_demo.Base.Json.{Json, null, str, arr, obj, items, Fields, field_of}
use wso2_teamspace_demo.Base.Values.{value_or, is_text, ◌>>?◌, chain_returned}
use wso2_teamspace_demo.Base.Run.{Result, ok, err, Result-cases}
use wso2_teamspace_demo.Base.Strip.{
  strip, lstrip, rstrip, lower_is, no_space, lstrip-no_space, rstrip-no_space, lstrip-append,
  rstrip-append, break_space-append, nonempty-cons,
}
use Prim.Native.Char.{Char}
use wso2_teamspace_demo.Common.Jwt.{PyJwt, select_signing_key}
use wso2_teamspace_demo.Common.Service.{
  parse_bearer, is_application, scopes_of, texts, keys_of, verify_service_claims, service_error,
  checked_claims, require_service_auth,
}

-- A header with the scheme Bearer in any case, one white space and a token that has no white space
-- gives the token.
pub parse_bearer-scheme :
    (scheme : String) (gap : Char) (token : String)
    → lower_is scheme "bearer" ≡ true
    → no_space scheme ≡ true
    → nonempty scheme ≡ true
    → is_space gap ≡ true
    → no_space token ≡ true
    → nonempty token ≡ true
    → parse_bearer (some (scheme <> String.◌∷◌ gap token)) ≡ some token
unfolding parse_bearer lstrip rstrip
parse_bearer-scheme scheme gap token bearer word named space plain full =
    let trailing : rstrip (String.◌∷◌ gap token) ≡ String.◌∷◌ gap token =
      ground (arith, rstrip-no_space token plain) in
    let stripped : strip (scheme <> String.◌∷◌ gap token) ≡ scheme <> String.◌∷◌ gap token =
      rw
        (
          lstrip-append scheme (String.◌∷◌ gap token) word named,
          rstrip-append scheme (String.◌∷◌ gap token) (rw trailing (nonempty-cons gap token)),
          trailing,
        )
        refl in
    rw (stripped, break_space-append scheme gap token word space)
      (ground (arith, lstrip-no_space token plain, rstrip-no_space token plain))

-- Whether a scope claim lists a scope: a word of a text, an entry of a list, or a key of an object.
abbrev pub lists : String → Option Json → Bool
lists scope (some (str s)) = member scope (words s)
lists scope (some (arr xs)) = any (λ x. is_text scope (some x)) (items xs)
lists scope (some (obj fs)) = elim (field_of scope fs) [ none ↦ false | some _ ↦ true ]
lists scope _ = false

-- Whether the scopes that were read hold a scope.
abbrev holds : String → Result (List String) → Bool
holds scope (ok scopes) = member scope scopes
holds scope (err e) = false

texts-lists :
    (scope : String) (xs : List Json)
    → member scope (texts xs) ≡ any (λ x. is_text scope (some x)) xs
unfolding texts
texts-lists scope [] = refl
texts-lists scope (str s ∷ xs) = ground (arith, texts-lists scope xs)
texts-lists scope (x ∷ xs) = texts-lists scope xs

keys_of-lists :
    (scope : String) (fs : Fields)
    → member scope (keys_of fs) ≡ (elim (field_of scope fs) [ none ↦ false | some _ ↦ true ])
unfolding keys_of field_of
keys_of-lists scope Fields.end = refl
keys_of-lists scope (Fields.field k v fs) = ground (arith, keys_of-lists scope fs)

scopes_of-lists :
    (scope : String) (claim : Option Json)
    → holds scope (scopes_of (value_or (str "") claim)) ≡ lists scope claim
unfolding scopes_of words string_dec
scopes_of-lists scope none = refl
scopes_of-lists scope (some (str s)) = refl
scopes_of-lists scope (some (arr xs)) = texts-lists scope (items xs)
scopes_of-lists scope (some (obj fs)) = keys_of-lists scope fs
scopes_of-lists scope (some v) = ground arith

-- The types of a token that is no user's.
abbrev pub IsApplication : Option Json → Type 0
IsApplication aut = (aut ≡ none) ⊎ ((aut ≡ some null) ⊎ (aut ≡ some (str "APPLICATION")))

is_application-IsApplication : (aut : Option Json) → (is_application aut ≡ true) ↔ IsApplication aut
is_application-IsApplication none = (λ h. inl refl, λ h. refl)
is_application-IsApplication (some null) = (λ h. inr (inl refl), λ h. refl)
is_application-IsApplication (some (str s)) = (
  λ h. inr (inr (ground (arith, h))),
  λ u. elim u [ inl e ↦ cc | inr v ↦ elim v [ inl e ↦ cc | inr e ↦ ground (arith, e) ] ],
)
is_application-IsApplication (some v) =
    (λ h. cc, λ u. elim u [ inl e ↦ cc | inr v ↦ elim v [ inl e ↦ cc | inr e ↦ cc ] ])

-- The claims' check passes exactly if the scope claim lists the scope, as a word of a text, an
-- entry of a list or a key of an object, and aut is missing, None or APPLICATION.
pub verify_service_claims_lem :
    (decoded : Fields) (scope : String)
    → (verify_service_claims decoded scope ≡ ok tt)
      ↔ ((lists scope (field_of "scope" decoded) ≡ true) × IsApplication (field_of "aut" decoded))
unfolding verify_service_claims
verify_service_claims_lem decoded scope =
    let read = scopes_of-lists scope (field_of "scope" decoded) in
    let (there, back) = is_application-IsApplication (field_of "aut" decoded) in
    elim (Result-cases (scopes_of (value_or (str "") (field_of "scope" decoded)))) [
      | inl (scopes, e) ↦
          let same : member scope scopes ≡ lists scope (field_of "scope" decoded) = rw e at read in
          (
            λ h. (ground (arith, same), there (ground arith)),
            λ (listed, service). ground (arith, same, back service),
          )
      | inr (e, failed) ↦
          let same : false ≡ lists scope (field_of "scope" decoded) = rw failed at read in
          (λ h. absurd (ground arith), λ (listed, service). absurd (ground (arith, same)))
    ]

module _ (p : PyJwt) (clock_skew : ℕ) (audience issuer scope : String) where
  checked_claims_sound :
      (jwks : Json) (token : String) (now : ℕ) (decoded : Fields)
      → checked_claims p clock_skew audience issuer scope jwks token now ≡ ok decoded
      → (key : Json) × (select_signing_key p jwks token ≡ ok key)
        × (p.decode token key audience issuer clock_skew now ≡ ok decoded)
        × (verify_service_claims decoded scope ≡ ok tt)
  unfolding checked_claims
  checked_claims_sound jwks token now decoded h =
      let (key, found, h₁) = chain_returned (select_signing_key p jwks token) _ decoded h in
      let (fs, verified, h₂) =
        chain_returned (p.decode token key audience issuer clock_skew now) _ decoded h₁ in
      let (done, allowed, h₃) = chain_returned (verify_service_claims fs scope) _ decoded h₂ in
      (key, found, ground arith, ground arith)

  service_error-ok :
      (r : Result Fields) (decoded : Fields)
      → (elim r [ ok fs ↦ ok fs | err e ↦ err (service_error e) ]) ≡ ok decoded
      → r ≡ ok decoded
  service_error-ok r decoded h = ground arith

  -- A call passes the service gate only with a token in its header that verifies, under the key of
  -- the key set that its kid names, for the audience and the issuer, and whose claims are those of
  -- a service.
  pub require_service_auth_sound :
      {S : Type 0} (jwks_getter : S → Result Json × S) (wall : S → ℕ) (header : Option String)
      (w : S) (decoded : Fields)
      → (require_service_auth p clock_skew audience issuer scope jwks_getter wall header w).0
        ≡ ok decoded
      → (token : String) × (jwks : Json) × (key : Json) × (parse_bearer header ≡ some token)
        × ((jwks_getter w).0 ≡ ok jwks)
        × (select_signing_key p jwks token ≡ ok key)
        × (p.decode token key audience issuer clock_skew (wall (jwks_getter w).1) ≡ ok decoded)
        × (verify_service_claims decoded scope ≡ ok tt)
  unfolding require_service_auth
  require_service_auth_sound jwks_getter wall header w decoded h =
      elim (Option-cases (parse_bearer header)) [
        | inl missing ↦ absurd (cc (rw (missing, require_service_auth) at h))
        | inr (token, e) ↦
            let passed =
              service_error-ok
                ((jwks_getter w).0 >>? λ keys.
                  checked_claims p clock_skew audience issuer scope keys token
                    (wall (jwks_getter w).1))
                decoded (rw (e, require_service_auth) at h) in
            let (jwks, got, h₁) = chain_returned (jwks_getter w).0 _ decoded passed in
            let (key, found, verified, allowed) =
              checked_claims_sound jwks token (wall (jwks_getter w).1) decoded h₁ in
            (token, jwks, key, e, got, found, verified, allowed)
      ]
