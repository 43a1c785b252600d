-- ===== src/Web/Signup/Steps.antt =====
-- webapp/blueprints/signup.py: the registration of an organization, step by step.
use wso2_teamspace_demo.Base.{
  String, ◌<>◌, true, not, Option, none, some, List, [], ◌∷◌, ◌++◌, Dict, lookup, nonempty,
  or_empty, if◌then◌else◌,
}
use wso2_teamspace_demo.Base.Json.{Json, bool, str, arr, nil, cons, obj, end, field}
use wso2_teamspace_demo.Base.Values.{get_key, index_key, value_or}
use wso2_teamspace_demo.Base.Run.{Result, Run, pure, lift, ◌>>=◌, ◌>>◌}
use wso2_teamspace_demo.Base.Strip.{strip}
use wso2_teamspace_demo.Web.Session.{Web, outside}
use wso2_teamspace_demo.Web.Login.{Authlib, WebConfig, text_of}
use wso2_teamspace_demo.Web.Login.Tokens.{get_client_credentials_token, switch_org_token}
use wso2_teamspace_demo.Web.ApiProxy.{ApiClient, save_organization_plan}
use wso2_teamspace_demo.Web.Access.{plan_roles, teamspace_admin, teamspace_user}
use wso2_teamspace_demo.Web.Identity.{
  IsServer, IsSettings, is_call, share_roles_with_org, assign_roles_to_user,
}
use wso2_teamspace_demo.Web.Identity.Dual.{is_saved}
use wso2_teamspace_demo.Web.Signup.{
  check_org_name, check_org_handle, check_admin_email, check_admin_password, check_name_field,
  slugify,
}

pub record SignupFields : Type 0 where
  pub org_name : String
  pub org_handle : String
  pub admin_email : String
  pub admin_password : String
  pub first_name : String
  pub last_name : String
  pub selected_plan : String

-- The first of the checks that refuses.
unfoldable pub first_refused : List (Option String) → Option String
first_refused [] = none
first_refused (none ∷ checks) = first_refused checks
first_refused (some label ∷ checks) = some label

-- `(form.get(key) or "").strip()`
abbrev pub stripped : String → Dict String → String
stripped key form = strip (or_empty (lookup key form))

abbrev pub plan_of_form : Dict String → String
plan_of_form form =
    strip
      (if nonempty (or_empty (lookup "plan" form)) then or_empty (lookup "plan" form) else "basic")

-- `_validate_signup_form`: the fields, or the one that is refused.
pub data Checked : Type 0 where
  refused : String → Checked
  accepted : SignupFields → Checked

unfoldable pub validate_signup_form : Dict String → Checked
validate_signup_form form =
    let org_name = stripped "org_name" form in
    let handle = stripped "org_handle" form in
    let admin_email = stripped "email" form in
    let admin_password = or_empty (lookup "password" form) in
    let first_name = stripped "first_name" form in
    let last_name = stripped "last_name" form in
    elim (first_refused (
      check_org_name org_name
      ∷ check_org_handle handle
      ∷ check_admin_email admin_email
      ∷ check_admin_password admin_password
      ∷ check_name_field "First name" first_name
      ∷ check_name_field "Last name" last_name
      ∷ [])) [
        | some label ↦ refused label
        | none ↦ accepted (record {
          org_name = org_name;
          org_handle = if nonempty handle then handle else slugify org_name;
          admin_email = admin_email;
          admin_password = admin_password;
          first_name = first_name;
          last_name = last_name;
          selected_plan = plan_of_form form;
        })
      ]

pub data Registered : Type 0 where
  invalid : String → Registered
  not_authenticated not_created not_switched no_admin_user plan_not_saved created : Registered

-- The bodies of the two requests that create something.
abbrev organization_body : SignupFields → Json
organization_body f = obj (
    field "name" (str f.org_name)
      (field "type" (str "TENANT") (field "orgHandle" (str f.org_handle) end)))

abbrev admin_body : SignupFields → Json
admin_body f = obj (
    field "schemas" (arr nil) (
      field "userName" (str f.admin_email) (
        field "password" (str f.admin_password) (
          field "name"
            (obj (field "givenName" (str f.first_name) (field "familyName" (str f.last_name) end)))
            (field "emails"
              (arr (
                cons (obj (field "value" (str f.admin_email) (field "primary" (bool true) end)))
                  nil))
              end)))))

module _ {R : Type 0} (a : Authlib R) (c : WebConfig) (s : IsServer R) (i : IsSettings)
    (api : ApiClient R) where
  abbrev extra_roles : SignupFields → List String
  extra_roles f = elim (lookup f.selected_plan plan_roles) [ none ↦ [] | some roles ↦ roles ]

  -- A token of the identity server, which is empty after a failure.
  abbrev token_of : (R → Result Json × R) → Run (Web R) String
  token_of request = do token ← outside request; pure (text_of token)

  -- The administrator's account, its roles, and the plan.
  create_admin : SignupFields → String → String → Run (Web R) Registered
  create_admin f new_org_id sub_org_token = do
    user ← outside (
        is_call s i "POST" (c.tenant_path <> "/o/scim2/Users") sub_org_token []
          (some (admin_body f)))
    if not (is_saved user.status_code) then pure no_admin_user else do
      user_id ← lift (get_key "id" user.content)
      outside (
          assign_roles_to_user s i sub_org_token c.tenant_path (text_of (value_or (str "") user_id))
            ((teamspace_admin ∷ teamspace_user ∷ []) ++ extra_roles f) true)
      saved ← save_organization_plan api new_org_id f.selected_plan (some sub_org_token)
      pure (if is_saved saved.status_code then created else plan_not_saved)

  -- The organization, and its extra roles.
  create_organization : SignupFields → String → Run (Web R) Registered
  create_organization f root_token = do
    result ← outside (
        is_call s i "POST" (c.tenant_path <> "/api/server/v1/organizations") root_token []
          (some (organization_body f)))
    if not (is_saved result.status_code) then pure not_created else do
      id ← lift (index_key "id" result.content)
      outside (share_roles_with_org s i root_token c.tenant_path (text_of id) (extra_roles f))
      sub_org_token ← token_of (switch_org_token a c (text_of id) root_token)
      if not (nonempty sub_org_token)
          then pure not_switched
          else create_admin f (text_of id) sub_org_token

  -- `register`
  unfoldable pub register : Dict String → Run (Web R) Registered
  unfolding create_admin create_organization
  register form = elim (validate_signup_form form) [
    | refused label ↦ pure (invalid label)
    | accepted f ↦ (do
      root_token ← token_of (get_client_credentials_token a c)
      if not (nonempty root_token)
          then pure not_authenticated
          else create_organization f root_token)
  ]
