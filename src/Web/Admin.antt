-- ===== src/Web/Admin.antt =====
-- webapp/blueprints/admin.py: the gate of the identity providers' views, the users and the members of roles.
-- `flash` of Flask is a parameter; what a message or a page shows of the calls is left out.
pub mod Gate
pub mod LoginFlow
pub mod Providers
pub mod Creation
use wso2_teamspace_demo.Base.{
  String, ◌<>◌, Bool, true, false, not, ◌&&◌, ◌||◌, ◌==◌, Option, none, some, List, [], ◌∷◌, Dict,
  lookup, nonempty, member, nat_eq, map, if◌then◌else◌,
}
use wso2_teamspace_demo.Base.Json.{
  Json, null, bool, str, arr, nil, cons, obj, Fields, end, field, field_of, truthy, of_list,
}
use wso2_teamspace_demo.Base.Values.{get_key, value_or, or_value, is_text}
use wso2_teamspace_demo.Base.Run.{Result, ok, err, http, other_error, Run, pure, lift, ◌>>=◌, ◌>>◌}
use wso2_teamspace_demo.Web.Session.{Web, View, page, redirect_for, outside, user_field}
use wso2_teamspace_demo.Web.Login.{text_of}
use wso2_teamspace_demo.Web.ApiProxy.{ApiClient, resolve_plan_for_gating}
use wso2_teamspace_demo.Web.Access.{
  teamspace_admin, teamspace_user, idp_manager, session_org, session_texts, login_required,
  admin_required, role_required,
}
use wso2_teamspace_demo.Web.Identity.{IsServer, IsSettings, IsReply, is_call, assign_roles_to_user}
use wso2_teamspace_demo.Web.Identity.Dual.{is_saved}

-- A JSON object and a JSON list, written out.
abbrev pub fields : List (String × Json) → Fields
fields [] = end
fields ((k, v) ∷ fs) = field k v (fields fs)

abbrev pub object : List (String × Json) → Json
object fs = obj (fields fs)

abbrev pub list : List Json → Json
list xs = arr (of_list xs)

-- A form, whose keys may occur more than once: `request.form[key]`, and `request.form.getlist(key)`.
abbrev pub form_item : String → Dict String → Result String
form_item key form = elim (lookup key form) [ none ↦ err (http 400 "") | some v ↦ ok v ]

unfoldable pub getlist : String → Dict String → List String
getlist key [] = []
getlist key ((k, v) ∷ form) = let rest = getlist key form in if k == key then v ∷ rest else rest

-- `scim_resources`
abbrev pub scim_resources : IsReply → Json
scim_resources result = elim result.content [
  | obj fs ↦ or_value (value_or (list []) (field_of "Resources" fs)) (list [])
  | _ ↦ list []
]

-- What `check_idp_access` shows in place of the view, by the plan, which may be unknown, and the role.
unfoldable pub denied_page : String → Option Json → Bool → Option View
denied_page upgrade_template org_plan has_role =
    let known = elim org_plan as (λ x. Bool) [ none ↦ false | some _ ↦ true ] in
    if known && not (is_text "enterprise" org_plan)
    then some (page upgrade_template)
    else if not has_role
    then (if is_text "enterprise" org_plan
        then some (page "admin/access_denied.html")
        else some (page upgrade_template))
    else none

-- `flash` with a kind and a message
abbrev pub message : String → Json → Json
message kind shown = object (("type", str kind) ∷ ("message", shown) ∷ [])

abbrev pub error_message : Json → Json → Json
error_message default (obj fs) = value_or default (field_of "detail" fs)
error_message default _ = default

module _ {R : Type 0} where
  -- `session["access_token"]`
  abbrev pub session_token : Run (Web R) String
  session_token w = elim (lookup "access_token" w.session) [
    | none ↦ (err other_error, w)
    | some token ↦ (ok (text_of token), w)
  ]

  -- `_verify_org_handle`
  unfoldable pub verify_org_handle : String → Run (Web R) View → Run (Web R) View
  verify_org_handle org_handle view w =
      if nonempty (session_org w.session) && not (org_handle == session_org w.session)
      then (err (http 403 ""), w)
      else view w

module _ {R : Type 0} (api : ApiClient R) where
  -- `check_idp_access`
  unfoldable pub check_idp_access : String → Run (Web R) (Option View)
  check_idp_access upgrade_template w =
      let org_id = text_of (user_field "org_id" (str "") w.session) in
      let user_roles = session_texts "user_roles" w.session in
      (do
        org_plan ← resolve_plan_for_gating api org_id none
        pure (denied_page upgrade_template org_plan (member idp_manager user_roles)))
        w

module _ {R : Type 0} (s : IsServer R) (c : IsSettings) (tenant_path : String) (api : ApiClient R)
    (flash : Json → Run R (Unit {0})) where
  abbrev pub call : String → String → String → Option Json → Run (Web R) IsReply
  call token method path body = outside (is_call s c method (tenant_path <> path) token [] body)

  abbrev pub flashed : String → Json → String → String → Run (Web R) View
  flashed kind shown endpoint org_handle = do
    outside (flash (message kind shown))
    pure (redirect_for endpoint (("org_handle", org_handle) ∷ []))

  -- The decorators and the checks around a view of the identity providers.
  abbrev pub idp_view : String → String → Run (Web R) View → Run (Web R) View
  idp_view upgrade_template org_handle view = login_required (some org_handle) (
      role_required (teamspace_admin ∷ idp_manager ∷ []) (
        verify_org_handle org_handle (do
          denied ← check_idp_access api upgrade_template
          elim denied [ some shown ↦ pure shown | none ↦ view ])))

  -- Those around a view of users and roles.
  abbrev pub admin_view : String → Run (Web R) View → Run (Web R) View
  admin_view org_handle view =
      login_required (some org_handle) (admin_required (verify_org_handle org_handle view))

  abbrev new_user : String → String → String → String → Json
  new_user email password first_name last_name = object (
      ("schemas", list [])
      ∷ ("userName", str email)
      ∷ ("password", str password)
      ∷ ("name", object (("givenName", str first_name) ∷ ("familyName", str last_name) ∷ []))
      ∷ ("emails", list (object (("value", str email) ∷ ("primary", bool true) ∷ []) ∷ []))
      ∷ [])

  -- `add_user`
  unfoldable pub add_user : String → Dict String → Run (Web R) View
  add_user org_handle form = admin_view org_handle (do
    token ← session_token
    email ← lift (form_item "email" form)
    password ← lift (form_item "password" form)
    first_name ← lift (form_item "first_name" form)
    last_name ← lift (form_item "last_name" form)
    created ←
        call token "POST" "/o/scim2/Users" (some (new_user email password first_name last_name))
    if not (is_saved created.status_code)
        then flashed "error" (str "Failed to create user.") "admin.users" org_handle
        else (do
          user_id ← lift (get_key "id" created.content)
          if truthy (value_or (str "") user_id)
              then outside (
                  assign_roles_to_user s c token tenant_path (text_of (value_or (str "") user_id))
                    (teamspace_user ∷ []) true)
              else pure tt
          flashed "success" (str "User created.") "admin.users" org_handle))

  -- The part of `delete_user` behind the check of the user's own account.
  remove_user : String → String → Run (Web R) View
  remove_user org_handle user_id = do
    token ← session_token
    deleted ← call token "DELETE" ("/o/scim2/Users/" <> user_id) none
    if nat_eq deleted.status_code 204
        then flashed "success" (str "User deleted.") "admin.users" org_handle
        else flashed "error" (str "Failed to delete user.") "admin.users" org_handle

  -- `delete_user`
  unfoldable pub delete_user : String → String → Run (Web R) View
  unfolding remove_user
  delete_user org_handle user_id = admin_view org_handle (λ w.
      if is_text user_id (some (user_field "sub" null w.session))
      then flashed "error" (str "You cannot delete your own user account.") "admin.users" org_handle
          w
      else remove_user org_handle user_id w)

  abbrev members_body : List String → Json
  members_body user_ids = object (
      ("schemas", list (str "urn:ietf:params:scim:api:messages:2.0:PatchOp" ∷ []))
      ∷ (
        "Operations",
        list (
            object (
              ("op", str "replace")
              ∷ ("path", str "users")
              ∷ ("value", list (map (λ id. object (("value", str id) ∷ [])) user_ids))
              ∷ [])
            ∷ []),
      )
      ∷ [])

  -- `update_role_members`
  unfoldable pub update_role_members : String → String → Dict String → Run (Web R) View
  update_role_members org_handle role_id form = admin_view org_handle (do
    token ← session_token
    patched ←
        call token "PATCH" ("/o/scim2/v2/Roles/" <> role_id)
          (some (members_body (getlist "user_ids" form)))
    if nat_eq patched.status_code 200 || nat_eq patched.status_code 204
        then flashed "success" (str "Role members updated successfully.") "admin.roles" org_handle
        else flashed "error" (error_message (str "Failed to update role members.") patched.content)
            "admin.roles" org_handle)
