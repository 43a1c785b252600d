-- ===== src/Web/Admin/LoginFlow.antt =====
-- webapp/blueprints/admin.py: the login flow of an organization, and its steps as the editor sends them.
-- `json.loads` is a parameter, which gives nothing where it raises; `str` of a value is one, too.
use wso2_teamspace_demo.Base.{
  String, ◌<>◌, Bool, true, false, not, ◌||◌, Option, none, some, List, [], ◌∷◌, Dict, lookup,
  member, nonempty, nat_eq, or_empty, if◌then◌else◌,
}
use wso2_teamspace_demo.Base.Json.{Json, null, num, str, arr, obj, field_of, truthy, items}
use wso2_teamspace_demo.Base.Values.{get_key, index_key, value_or, elements, is_text, ◌>>?◌}
use wso2_teamspace_demo.Base.Run.{Result, ok, err, value_error, other_error, Run, pure, lift, ◌>>=◌}
use wso2_teamspace_demo.Base.Slices.{contains}
use wso2_teamspace_demo.Web.Session.{Web, View}
use wso2_teamspace_demo.Web.ApiProxy.{ApiClient}
use wso2_teamspace_demo.Web.Identity.{IsServer, IsSettings}
use wso2_teamspace_demo.Web.Admin.{object, list, session_token, call, flashed, idp_view}

-- `key in value`: a key of an object, a part of a text, an entry of a list.
abbrev pub has_in : String → Json → Result Bool
has_in key (obj fs) = ok (elim (field_of key fs) [ none ↦ false | some _ ↦ true ])
has_in key (str t) = ok (contains key t)
has_in key (arr xs) = ok (holds (items xs))
  where
    holds : List Json → Bool
    holds [] = false
    holds (x ∷ rest) = let later = holds rest in is_text key (some x) || later
has_in key _ = err other_error

-- A list that is not empty, by its truth value and its type.
abbrev full_list : Json → Result (List Json)
full_list v =
    if not (truthy v)
    then err value_error
    else elim v [ arr xs ↦ ok (items xs) | _ ↦ err value_error ]

-- `if "a" not in value or "b" not in value: raise`
abbrev pub require_both : String → String → Json → Result (Unit {0})
require_both a b value = has_in a value >>? λ first_in.
    if not first_in
    then err value_error
    else (has_in b value >>? λ second_in. if not second_in then err value_error else ok tt)

check_options : List Json → Result (Unit {0})
check_options [] = ok tt
check_options (opt ∷ opts) = require_both "idp" "authenticator" opt >>? λ u. check_options opts

check_step : Json → Result (Unit {0})
check_step step = require_both "id" "options" step >>? λ u.
    index_key "options" step >>? full_list >>? check_options

check_steps : List Json → Result (Unit {0})
check_steps [] = ok tt
check_steps (step ∷ steps) = check_step step >>? λ u. check_steps steps

-- `_parse_login_flow_steps`, of the text that was sent
unfoldable pub parse_login_flow_steps : (String → Option Json) → String → Result (List Json)
unfolding check_steps check_step check_options
parse_login_flow_steps loads steps_json = elim (loads steps_json) [
  | none ↦ err value_error
  | some steps ↦ (full_list steps >>? λ listed. check_steps listed >>? λ u. ok listed)
]

-- `_build_login_flow_patch_body`
abbrev pub build_login_flow_patch_body : List Json → Json
build_login_flow_patch_body steps = object (
    (
      "authenticationSequence",
      object (
          ("type", str "USER_DEFINED")
          ∷ ("steps", list steps)
          ∷ ("subjectStepId", num 1)
          ∷ ("attributeStepId", num 1)
          ∷ []),
    )
    ∷ [])

-- `_extract_login_flow_error_message`
abbrev pub extract_login_flow_error_message : (Json → String) → Json → Json
extract_login_flow_error_message show content =
    let shown = if truthy content then str (show content) else str "Failed to update login flow." in
    elim content [ obj fs ↦ value_or shown (field_of "description" fs) | _ ↦ shown ]

-- The first application with the name: `next((a for a in apps if a.get("name") == name), None)`
unfoldable pub named : String → List Json → Result (Option Json)
named name [] = ok none
named name (app ∷ apps) =
    let later = named name apps in
    get_key "name" app >>? λ found. if is_text name found then ok (some app) else later

-- `SUPPORTED_LOCAL_AUTH_NAMES`
abbrev pub supported_local_auth_names : List String
supported_local_auth_names =
    "BasicAuthenticator" ∷ "FIDOAuthenticator" ∷ "MagicLinkAuthenticator"
    ∷ "email-otp-authenticator" ∷ "sms-otp-authenticator" ∷ "totp" ∷ "IdentifierExecutor" ∷ []

abbrev authenticator : String → String → Json
authenticator name display_name =
    object (("name", str name) ∷ ("displayName", str display_name) ∷ [])

-- `DEFAULT_LOCAL_AUTHENTICATORS`
abbrev pub default_local_authenticators : List Json
default_local_authenticators =
    authenticator "BasicAuthenticator" "Username & Password"
    ∷ authenticator "FIDOAuthenticator" "Passkey"
    ∷ authenticator "MagicLinkAuthenticator" "Magic Link"
    ∷ authenticator "email-otp-authenticator" "Email OTP"
    ∷ authenticator "sms-otp-authenticator" "SMS OTP"
    ∷ authenticator "totp" "TOTP"
    ∷ []

-- `name in SUPPORTED_LOCAL_AUTH_NAMES`, which is a set: a list and an object raise.
abbrev is_supported : Option Json → Result Bool
is_supported (some (str name)) = ok (member name supported_local_auth_names)
is_supported (some (arr xs)) = err other_error
is_supported (some (obj fs)) = err other_error
is_supported _ = ok false

-- The authenticators that are enabled and supported.
unfoldable pub usable : List Json → Result (List Json)
usable [] = ok []
usable (a ∷ rest) =
    let later = usable rest in
    get_key "isEnabled" a >>? λ enabled. get_key "name" a >>? λ name.
    (if truthy (value_or null enabled) then is_supported name else ok false) >>? λ kept.
    later >>? λ others. ok (if kept then a ∷ others else others)

module _ {R : Type 0} (s : IsServer R) (c : IsSettings) (tenant_path : String) (api : ApiClient R)
    (flash : Json → Run R (Unit {0})) where
  -- `_fetch_local_authenticators`
  unfoldable pub fetch_local_authenticators : String → Run (Web R) (List Json)
  fetch_local_authenticators token = do
    answered ←
        call s c tenant_path api flash token "GET" "/o/api/server/v1/configs/authenticators" none
    if not (nat_eq answered.status_code 200)
        then pure default_local_authenticators
        else elim answered.content [
          | arr xs ↦ lift (usable (items xs))
          | _ ↦ pure default_local_authenticators
        ]

  -- `_fetch_idps`
  unfoldable pub fetch_idps : String → Run (Web R) Json
  fetch_idps token = do
    answered ← call s c tenant_path api flash token "GET" "/o/api/server/v1/identity-providers" none
    if not (nat_eq answered.status_code 200) then pure (list []) else elim answered.content [
      | obj fs ↦ pure (value_or (list []) (field_of "identityProviders" fs))
      | _ ↦ pure (list [])
    ]

  -- The application in an answer.
  abbrev app_in : Json → Result (Option Json)
  app_in (obj fs) = elements (value_or (list []) (field_of "applications" fs)) >>? named c.app_name
  app_in _ = ok none

  -- `_resolve_teamspace_app_id`
  unfoldable pub resolve_teamspace_app_id : String → Run (Web R) (Option Json)
  resolve_teamspace_app_id token = do
    answered ← call s c tenant_path api flash token "GET" "/o/api/server/v1/applications" none
    if not (nat_eq answered.status_code 200) then pure none else do
      app ← lift (app_in answered.content)
      elim app [
        | none ↦ pure none
        | some a ↦ if not (truthy a) then pure none else lift (get_key "id" a)
      ]

  -- The steps are sent to the identity server.
  patch_steps : String → String → String → List Json → (Json → String) → Run (Web R) View
  patch_steps org_handle token app_id steps show = do
    patched ←
        call s c tenant_path api flash token "PATCH" ("/o/api/server/v1/applications/" <> app_id)
          (some (build_login_flow_patch_body steps))
    if nat_eq patched.status_code 200 || nat_eq patched.status_code 204
        then flashed s c tenant_path api flash "success" (str "Login flow updated successfully.")
            "admin.login_flow" org_handle
        else flashed s c tenant_path api flash "error"
            (extract_login_flow_error_message show patched.content) "admin.login_flow" org_handle

  -- `update_login_flow`; a form without steps is refused as one that cannot be read.
  unfoldable pub update_login_flow :
      (String → Option Json) → (Json → String) → String → Dict String → Run (Web R) View
  unfolding patch_steps
  update_login_flow loads show org_handle form =
      idp_view s c tenant_path api flash "admin/login_flow_upgrade.html" org_handle (do
        token ← session_token
        if not (nonempty (or_empty (lookup "app_id" form)))
            then flashed s c tenant_path api flash "error" (str "Application ID is required.")
                "admin.login_flow" org_handle
            else elim (parse_login_flow_steps loads (or_empty (lookup "steps_json" form))) [
              | err e ↦
                  flashed s c tenant_path api flash "error" (str "Invalid login flow structure")
                    "admin.login_flow" org_handle
              | ok steps ↦ patch_steps org_handle token (or_empty (lookup "app_id" form)) steps show
            ])
