-- ===== src/Web/Login.antt =====
-- webapp/auth.py: the login at the identity server, the callback and the logout.
-- Authlib, PyJWT, HTTP, `secrets` and `hashlib` are parameters.
pub mod Tokens
pub mod Verified
use wso2_teamspace_demo.Base.{
  ℕ, ◌+◌, String, ◌<>◌, Bool, true, false, not, ◌&&◌, ◌||◌, Option, none, some, List, [], ◌∷◌, ◌++◌,
  Dict, lookup, nonempty, or_empty, member, words, nat_eq, if◌then◌else◌,
}
use wso2_teamspace_demo.Base.Json.{
  Json, null, bool, str, arr, nil, obj, Fields, end, field, field_of, truthy, of_list,
}
use wso2_teamspace_demo.Base.Values.{get_key, index_key, value_or, or_value, ◌>>?◌}
use wso2_teamspace_demo.Base.Run.{
  Result, ok, err, attribute_error, other_error, Run, pure, raise, lift, ◌>>=◌, ◌>>◌,
}
use mathlib.Core.List.{map}
use wso2_teamspace_demo.Common.Jwt.{PyJwt, select_signing_key, decode_rs256, token_issuer, jwks_url}
use wso2_teamspace_demo.Web.Session.{
  Web, View, redirect_for, redirect, outside, session_get, session_set, session_pop, session_clear,
}
use wso2_teamspace_demo.Web.Claims.{extract_roles, derive_display_name}

-- `current_app.config`, the keys that this module reads, and `is_production()`.
pub record WebConfig : Type 0 where
  pub is_base_url : String
  pub tenant_path : String
  pub client_id : String
  pub client_secret : String
  pub oidc_redirect_uri : String
  pub oidc_post_logout_uri : String
  pub is_production : Bool
  pub clock_skew_seconds : ℕ

-- An answer of the token endpoint; the body is missing where it is no JSON.
pub record TokenReply : Type 0 where
  pub status_code : ℕ
  pub body : Option Json

pub record Authlib (R : Type 0) : Type 0 where
  -- `oauth.wso2is`: the redirect to the identity server with extra parameters, the exchange of the code with
  -- a PKCE verifier, and the claims of the id token in a token response, for a nonce, which it verifies
  pub authorize_redirect : String → Dict String → Run R View
  pub authorize_access_token : String → Run R Json
  pub parse_id_token : Json → Json → Run R Fields
  -- PyJWT, and its decoding without verification, which gives nothing after a `DecodeError`
  pub jwt : PyJwt
  pub decode_unverified : String → Option Fields
  -- `requests.get(url)`, `raise_for_status()` and `json()`; `requests.post(url, data)`, which gives nothing
  -- after a `RequestException`
  pub fetch_json : String → Run R Json
  pub post_form : String → Dict String → R → Option TokenReply × R
  pub token_urlsafe : Run R String
  pub challenge : String → String
  pub quote : String → String
  -- the wall clock
  pub wall : R → ℕ

-- A text under a key of a JSON object, with a default: `claims.get(key, default)`
abbrev pub claim : String → Json → Fields → Json
claim key default claims = value_or default (field_of key claims)

-- `id_claims.get("email") or id_claims.get("username") or ""`, which must be a text
abbrev pub email_of : Fields → Result String
email_of id_claims =
    elim (or_value (claim "email" null id_claims)
      (or_value (claim "username" null id_claims) (str ""))) [ str s ↦ ok s | _ ↦ err other_error ]

-- `access_claims.get("scope", "").split()`
abbrev pub scopes_of_claims : Fields → Result (List String)
scopes_of_claims access_claims = elim (claim "scope" (str "") access_claims) [
  | str s ↦ ok (words s)
  | _ ↦ err attribute_error
]

abbrev pub texts : List String → Json
texts xs = arr (of_list (map str xs))

-- `session["user"]`
abbrev pub user_of : Fields → String → String × String → Json
user_of c email (given_name, family_name) = obj (
    field "sub" (claim "sub" (str "") c) (
      field "email" (str email) (
        field "name" (str given_name) (
          field "family_name" (str family_name) (
            field "org_id" (claim "org_id" (str "") c) (
              field "org_name" (claim "org_name" (str "") c) (
                field "org_handle" (claim "org_handle" (str "") c) (
                  field "groups" (claim "groups" (arr nil) c)
                    (field "roles" (claim "roles" (arr nil) c) end)))))))))

-- A value of the session or of a token response, which is a text
abbrev pub text_of : Json → String
text_of (str s) = s
text_of _ = ""

abbrev pub login_page : View
login_page = redirect_for "main.login" []

module _ {R : Type 0} (a : Authlib R) (c : WebConfig) where
  -- `start_login`
  unfoldable pub start_login : Option String → Run (Web R) View
  start_login org_id = do
    code_verifier ← outside a.token_urlsafe
    session_set "code_verifier" (str code_verifier)
    nonce ← outside a.token_urlsafe
    session_set "oidc_nonce" (str nonce)
    let extra_params =
        ("code_challenge", a.challenge code_verifier)
        ∷ ("code_challenge_method", "S256")
        ∷ ("nonce", nonce)
        ∷ (if nonempty (or_empty org_id)
            then ("fidp", "OrganizationSSO") ∷ ("orgId", or_empty org_id) ∷ []
            else [])
    outside (a.authorize_redirect c.oidc_redirect_uri extra_params)

  -- The claims of an access token that verifies.
  unfoldable pub verified_claims : String → Run R Fields
  verified_claims raw_token = do
    jwks ← a.fetch_json (jwks_url c.is_base_url c.tenant_path)
    key ← lift (select_signing_key a.jwt jwks raw_token)
    λ w. (
      decode_rs256 a.jwt c.clock_skew_seconds raw_token key c.client_id
          (token_issuer c.is_base_url c.tenant_path) none (a.wall w),
      w,
    )

  -- `_verify_access_token`
  unfoldable pub verify_access_token : String → R → Option Fields × R
  verify_access_token raw_token w =
      if not (nonempty raw_token)
      then (none, w)
      else let (claims, w') = verified_claims raw_token w in
        elim claims [
          | ok decoded ↦ (some decoded, w')
          | err e ↦ ((if c.is_production then none else a.decode_unverified raw_token), w')
        ]

  -- The claims of the id token: in production verified ones or none.
  unfoldable pub identity_claims : Json → Json → R → Option Fields × R
  identity_claims token nonce w =
      let (parsed, w') = a.parse_id_token token nonce w in
      elim parsed [
        | ok claims ↦ (some claims, w')
        | err e ↦ (
          (if c.is_production then none else elim token [
            | obj fs ↦ elim (claim "id_token" (str "") fs) [
              | str s ↦ a.decode_unverified s
              | _ ↦ none
            ]
            | _ ↦ none
          ]),
          w',
        )
      ]

  -- What a login with both sets of claims writes into the session, and where it leads.
  complete_login : Fields → Fields → Run (Web R) View
  complete_login id_claims access_claims = do
    session_set "access_token_claims" (obj access_claims)
    scopes ← lift (scopes_of_claims access_claims)
    session_set "user_scopes" (texts scopes)
    email ← lift (email_of id_claims)
    names ← lift (derive_display_name id_claims email)
    session_set "user" (user_of id_claims email names)
    user_roles ← lift (extract_roles id_claims access_claims)
    session_set "is_admin" (bool (member "teamspace-admin" user_roles))
    session_set "user_roles" (texts user_roles)
    let org_id = claim "org_id" (str "") id_claims
    pure (
        redirect_for "dashboard.home"
          (("org_handle", text_of (claim "org_handle" org_id id_claims)) ∷ []))

  -- The session is dropped, and the browser sent back to the login.
  abbrev refuse : Run (Web R) View
  refuse = do session_clear; pure login_page

  -- The access token's claims.
  check_access_token : Json → Run (Web R) (Option Fields)
  check_access_token access_token =
      outside (λ w. let (r, w') = verify_access_token (text_of access_token) w in (ok r, w'))

  -- Both sets of claims, or the login is refused; in production an id token that is not verified is
  -- refused before the access token is looked at.
  check_claims : Json → Option Fields → Run (Web R) View
  check_claims access_token none =
      if c.is_production then refuse else (do check_access_token access_token; refuse)
  check_claims access_token (some id_claims) = do
    access_claims ← check_access_token access_token
    elim access_claims [ none ↦ refuse | some claims ↦ complete_login id_claims claims ]

  -- The part behind the exchange of the code.
  with_token : Json → Run (Web R) View
  with_token token = do
    session_set "token" token
    access_token ← lift (index_key "access_token" token)
    session_set "access_token" access_token
    id_token ← lift (get_key "id_token" token)
    session_set "id_token_raw" (value_or (str "") id_token)
    refresh_token ← lift (get_key "refresh_token" token)
    session_set "refresh_token" (value_or (str "") refresh_token)
    nonce ← session_pop "oidc_nonce"
    id_claims ←
        outside (λ w. let (r, w') = identity_claims token (value_or null nonce) w in (ok r, w'))
    check_claims access_token id_claims

  -- `handle_callback`
  unfoldable pub handle_callback : Run (Web R) View
  unfolding with_token check_claims check_access_token complete_login
  handle_callback = do
    code_verifier ← session_pop "code_verifier"
    token ← outside (a.authorize_access_token (text_of (value_or (str "") code_verifier)))
    with_token token

  -- `logout`
  unfoldable pub logout : Run (Web R) View
  logout = do
    id_token ← session_get "id_token_raw"
    session_clear
    pure (
        redirect (
          c.is_base_url
          <> (c.tenant_path
              <> ("/oidc/logout?id_token_hint="
                  <> (text_of (value_or (str "") id_token)
                      <> ("&post_logout_redirect_uri=" <> a.quote c.oidc_post_logout_uri))))))
