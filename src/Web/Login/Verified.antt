-- ===== src/Web/Login/Verified.antt =====
-- Whose session it is after a login in production (webapp/auth.py).
use wso2_teamspace_demo.Base.{
  String, ◌≡◌, refl, true, Option, none, some, List, [], Dict, lookup, insert, erase, dict_laws,
  member, arith, nonempty, string_dec, ◌⊎◌, inl, inr, Bool-cases, Option-cases,
}
use mathlib.Core.Path.{subst}
use wso2_teamspace_demo.Base.Json.{Json, null, bool, str, Fields}
use wso2_teamspace_demo.Base.Values.{index_key, get_key, value_or}
use wso2_teamspace_demo.Base.Run.{Result, ok, err, Result-cases}
use wso2_teamspace_demo.Web.Session.{Web, View}
use wso2_teamspace_demo.Web.Claims.{extract_roles, derive_display_name}
use wso2_teamspace_demo.Web.Login.{
  Authlib, WebConfig, verified_claims, verify_access_token, identity_claims, complete_login,
  with_token, handle_callback, check_claims, check_access_token, text_of, user_of, email_of,
  scopes_of_claims, texts,
}

module _ {R : Type 0} (a : Authlib R) (c : WebConfig) where
  -- A session with the user, the roles and the scopes of claims that were verified: those of the id token by
  -- Authlib, for the nonce, and those of the access token under a key of the key set.
  abbrev pub IsVerified : Json → Dict Json → Type 0
  IsVerified nonce session =
      (token : Json) × (access_token : Json) × (id_claims : Fields) × (access_claims : Fields)
      × (r₀ : R) × (r₁ : R) × (names : String × String) × (email : String) × (roles : List String)
      × (scopes : List String) × ((a.parse_id_token token nonce r₀).0 ≡ ok id_claims)
      × (lookup "access_token" session ≡ some access_token)
      × ((verified_claims a c (text_of access_token) r₁).0 ≡ ok access_claims)
      × (email_of id_claims ≡ ok email)
      × (derive_display_name id_claims email ≡ ok names)
      × (extract_roles id_claims access_claims ≡ ok roles)
      × (scopes_of_claims access_claims ≡ ok scopes)
      × (lookup "user" session ≡ some (user_of id_claims email names))
      × (lookup "user_roles" session ≡ some (texts roles))
      × (lookup "user_scopes" session ≡ some (texts scopes))
      × (lookup "is_admin" session ≡ some (bool (member "teamspace-admin" roles)))

  -- What comes out of a login: an exception, a session that was dropped, or one that is verified.
  abbrev pub IsSafe : Json → Result View × Web R → Type 0
  IsSafe nonce (err e, w) = Unit
  IsSafe nonce (ok view, w) = (w.session ≡ []) ⊎ IsVerified nonce w.session

  complete_login-IsSafe :
      (nonce token access_token : Json) (id_claims access_claims : Fields) (r₀ r₁ : R) (w : Web R)
      → lookup "access_token" w.session ≡ some access_token
      → (a.parse_id_token token nonce r₀).0 ≡ ok id_claims
      → (verified_claims a c (text_of access_token) r₁).0 ≡ ok access_claims
      → IsSafe nonce (complete_login a c id_claims access_claims w)
  unfolding complete_login string_dec
  complete_login-IsSafe nonce token access_token id_claims access_claims r₀ r₁ w stored parsed
        verified =
      elim (Result-cases (scopes_of_claims access_claims)) [
        | inr (e, h₁) ↦ rw h₁ tt
        | inl (scopes, h₁) ↦ elim (Result-cases (email_of id_claims)) [
          | inr (e, h₂) ↦ rw (h₁, h₂) tt
          | inl (email, h₂) ↦ elim (Result-cases (derive_display_name id_claims email)) [
            | inr (e, h₃) ↦ rw (h₁, h₂, h₃) tt
            | inl (names, h₃) ↦ elim (Result-cases (extract_roles id_claims access_claims)) [
              | inr (e, h₄) ↦ rw (h₁, h₂, h₃, h₄) tt
              | inl (roles, h₄) ↦
                  rw (h₁, h₂, h₃, h₄)
                    (inr (
                      token,
                      access_token,
                      id_claims,
                      access_claims,
                      r₀,
                      r₁,
                      names,
                      email,
                      roles,
                      scopes,
                      parsed,
                      simp dict_laws stored,
                      verified,
                      h₂,
                      h₃,
                      h₄,
                      h₁,
                      simp dict_laws,
                      simp dict_laws,
                      simp dict_laws,
                      simp dict_laws,
                    ))
            ]
          ]
        ]
      ]

  -- In production an access token that was accepted was verified.
  verify_access_token-verified :
      (raw : String) (w : R) (claims : Fields)
      → c.is_production ≡ true
      → (verify_access_token a c raw w).0 ≡ some claims
      → (verified_claims a c raw w).0 ≡ ok claims
  unfolding verify_access_token
  verify_access_token-verified raw w claims production h = elim (Bool-cases (nonempty raw)) [
    | inr e ↦ cc (rw e at h)
    | inl e ↦ elim (Result-cases (verified_claims a c raw w).0) [
      | inl (fs, v) ↦ ground (arith, rw (e, v) at h, v)
      | inr (x, v) ↦ cc (rw (e, v, production) at h)
    ]
  ]

  identity_claims-parsed :
      (token nonce : Json) (w : R) (claims : Fields)
      → c.is_production ≡ true
      → (identity_claims a c token nonce w).0 ≡ some claims
      → (a.parse_id_token token nonce w).0 ≡ ok claims
  unfolding identity_claims
  identity_claims-parsed token nonce w claims production h =
      elim (Result-cases (a.parse_id_token token nonce w).0) [
        | inl (fs, v) ↦ ground (arith, rw (identity_claims, v) at h, v)
        | inr (x, v) ↦ cc (rw (identity_claims, v, production) at h)
      ]

  check_claims-IsSafe :
      (nonce token access_token : Json) (found : Option Fields) (r₀ : R) (w : Web R)
      → c.is_production ≡ true
      → lookup "access_token" w.session ≡ some access_token
      → ((id_claims : Fields)
          → found ≡ some id_claims
          → (a.parse_id_token token nonce r₀).0 ≡ ok id_claims)
      → IsSafe nonce (check_claims a c access_token found w)
  unfolding check_claims check_access_token
  check_claims-IsSafe nonce token access_token none r₀ w production stored parsed =
      rw production (inl refl)
  check_claims-IsSafe nonce token access_token (some id_claims) r₀ w production stored parsed =
      elim (Option-cases (verify_access_token a c (text_of access_token) w.rest).0) [
        | inl e ↦ rw e (inl refl)
        | inr (claims, e) ↦ rw e (
            complete_login-IsSafe nonce token access_token id_claims claims r₀ w.rest _ stored
              (parsed id_claims refl)
              (verify_access_token-verified (text_of access_token) w.rest claims production e))
      ]

  with_token-IsSafe :
      (token : Json) (w : Web R)
      → c.is_production ≡ true
      → IsSafe (value_or null (lookup "oidc_nonce" w.session)) (with_token a c token w)
  unfolding with_token string_dec
  with_token-IsSafe token w production = elim (Result-cases (index_key "access_token" token)) [
    | inr (e, h₁) ↦ rw h₁ tt
    | inl (access_token, h₁) ↦ elim (Result-cases (get_key "id_token" token)) [
      | inr (e, h₂) ↦ rw (h₁, h₂) tt
      | inl (id_token, h₂) ↦ elim (Result-cases (get_key "refresh_token" token)) [
        | inr (e, h₃) ↦ rw (h₁, h₂, h₃) tt
        | inl (refresh_token, h₃) ↦
            let stored : Dict Json = insert "refresh_token" (value_or (str "") refresh_token) (
              insert "id_token_raw" (value_or (str "") id_token)
                (insert "access_token" access_token (insert "token" token w.session))) in
            let nonce = value_or null (lookup "oidc_nonce" stored) in
            let same : lookup "oidc_nonce" stored ≡ lookup "oidc_nonce" w.session =
              simp dict_laws in
            let safe =
              check_claims-IsSafe nonce token access_token
                (identity_claims a c token nonce w.rest).0 w.rest
                (record {
                  session = erase "oidc_nonce" stored;
                  rest = (identity_claims a c token nonce w.rest).1;
                })
                production (simp dict_laws)
                (λ id_claims e. identity_claims-parsed token nonce w.rest id_claims production e) in
            rw (h₁, h₂, h₃)
              (subst
                (λ n. IsSafe (value_or null n) (
                  check_claims a c access_token (identity_claims a c token nonce w.rest).0 (record {
                    session = erase "oidc_nonce" stored;
                    rest = (identity_claims a c token nonce w.rest).1;
                  })))
                same safe)
      ]
    ]
  ]

  -- In production, a login's callback that returns leaves an empty session, or one whose user, with
  -- its e-mail and its name, is the one of the claims of an id token that Authlib parsed for the
  -- session's nonce, whose scopes are those of the claims of the access token in the session, which
  -- verified, and whose roles and is_admin are those of both.
  pub handle_callback-IsSafe :
      (w : Web R)
      → c.is_production ≡ true
      → IsSafe (value_or null (lookup "oidc_nonce" w.session)) (handle_callback a c w)
  unfolding handle_callback string_dec
  handle_callback-IsSafe w production =
      let verifier = text_of (value_or (str "") (lookup "code_verifier" w.session)) in
      elim (Result-cases (a.authorize_access_token verifier w.rest).0) [
        | inr (e, h) ↦ rw h tt
        | inl (token, h) ↦
            let begun : Web R = record {
              session = erase "code_verifier" w.session;
              rest = (a.authorize_access_token verifier w.rest).1;
            } in
            let same : lookup "oidc_nonce" begun.session ≡ lookup "oidc_nonce" w.session =
              simp dict_laws in
            rw h (
              subst (λ n. IsSafe (value_or null n) (with_token a c token begun)) same
                (with_token-IsSafe token begun production))
      ]
