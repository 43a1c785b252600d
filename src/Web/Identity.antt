-- ===== src/Web/Identity.antt =====
-- webapp/is_operations.py over webapp/is_client.py: roles, organizations and the branding at the identity
-- server. What the calls leave for the debug panel is left out.
pub mod Dual
pub mod Sync
use wso2_teamspace_demo.Base.{
  ℕ, zero, suc, String, ◌<>◌, Bool, true, false, not, ◌&&◌, ◌||◌, Option, none, some, List, [], ◌∷◌,
  Dict, insert, nonempty, or_empty, or_else, nat_eq, map, if◌then◌else◌,
}
use wso2_teamspace_demo.Base.Json.{
  Json, null, str, arr, nil, cons, Items, obj, Fields, end, field, field_of, truthy, items, of_list,
}
use wso2_teamspace_demo.Base.Values.{get_key, index_key, value_or, elements, is_text, ◌>>?◌}
use wso2_teamspace_demo.Base.Run.{Result, ok, err, other_error, Run, pure, lift, ◌>>=◌, ◌>>◌}
use wso2_teamspace_demo.Web.Session.{Web, outside}
use wso2_teamspace_demo.Web.ApiProxy.{
  ApiClient, ApiResult, upsert_personalization, delete_personalization,
}
use wso2_teamspace_demo.Web.Branding.{
  build_is_branding_payload, default_primary_color, default_secondary_color,
}

-- `ISResponse`: what was answered, as JSON or as the text that is none; null without content.
pub record IsReply : Type 0 where
  pub status_code : ℕ
  pub content : Json

-- The configuration and the environment that the module reads.
pub record IsSettings : Type 0 where
  pub is_base_url : String
  pub is_org_handle : String
  pub app_id : String
  pub app_name : String
  pub is_admin_username : Option String
  pub is_tenant_admin_username : Option String
  pub is_admin_password : Option String
  pub is_tenant_admin_password : Option String

-- `requests.request`, which may raise, with the method, the URL, the headers and the body; `time.sleep`;
-- and `base64.b64encode`.
pub record IsServer (R : Type 0) : Type 0 where
  pub request : String → String → Dict String → Option Json → Run R IsReply
  pub sleep : ℕ → R → R
  pub base64 : String → String

-- `_root_admin_credentials`
unfoldable pub root_admin_credentials : IsSettings → String × String
root_admin_credentials c =
    let tenant_admin : String = elim c.is_tenant_admin_username [
      | some u ↦ u
      | none ↦ "teamspaceadmin"
    ] in
    let username =
      if nonempty (or_empty c.is_admin_username)
      then or_empty c.is_admin_username
      else if nonempty c.is_org_handle
      then tenant_admin <> ("@" <> c.is_org_handle)
      else tenant_admin in
    (username, or_empty (or_else c.is_admin_password c.is_tenant_admin_password))

module _ {R : Type 0} (s : IsServer R) (c : IsSettings) where
  -- `ISClient.call` with a path; a token that is empty sends none, and further headers go over its own.
  unfoldable pub is_call : String → String → String → Dict String → Option Json → Run R IsReply
  is_call method path token headers body =
      s.request method (c.is_base_url <> path)
        (insert_all headers (
          ("Content-Type", "application/json")
          ∷ (if nonempty token then ("Authorization", "Bearer " <> token) ∷ [] else [])))
        body
    where
      insert_all : Dict String → Dict String → Dict String
      insert_all [] d = d
      insert_all ((k, v) ∷ more) d = insert_all more (insert k v d)

  -- `_get_auth_params`: the token and the headers of a call.
  unfoldable pub get_auth_params : String → Bool → String × Dict String
  get_auth_params token use_org_endpoint =
      if use_org_endpoint
      then (token, [])
      else let (admin_user, admin_pass) = root_admin_credentials c in
        if not (nonempty admin_pass)
        then ("", [])
        else ("", ("Authorization", "Basic " <> s.base64 (admin_user <> (":" <> admin_pass))) ∷ [])

  abbrev segment : Bool → String
  segment use_org_endpoint = if use_org_endpoint then "/o" else ""

  abbrev role_filter : String → Bool → String
  role_filter role_name use_org_endpoint =
      "displayName+eq+"
      <> (role_name
          <> (if not use_org_endpoint && nonempty c.app_id
              then "+and+audience.value+eq+" <> c.app_id
              else ""))

  -- `result["data"].get("Resources", [])` of an object; the id of the first one.
  abbrev first_resource : Json → Result (Option Json)
  first_resource (obj fs) =
      let resources = value_or (arr nil) (field_of "Resources" fs) in
      if not (truthy resources) then ok none else elim resources [
        | arr (cons first _) ↦ (index_key "id" first >>? λ id. ok (some id))
        | _ ↦ err other_error
      ]
  first_resource _ = ok none

  -- The attempts that are left; each but the successful one ends with a pause.
  poll : String → String → Dict String → ℕ → Run R (Option Json)
  poll path token headers zero = pure none
  poll path token headers (suc attempts) = do
    result ← is_call "GET" path token headers none
    found ← lift (first_resource result.content)
    elim found [
      | some id ↦ pure (some id)
      | none ↦ (do λ w. (ok tt, s.sleep 2 w); poll path token headers attempts)
    ]

  -- `poll_for_role_id`
  unfoldable pub poll_for_role_id : String → String → String → Bool → Run R (Option Json)
  unfolding poll
  poll_for_role_id token tenant_path role_name use_org_endpoint =
      let (t_token, headers) = get_auth_params token use_org_endpoint in
      poll
        (tenant_path
          <> (segment use_org_endpoint
              <> ("/scim2/v2/Roles?filter=" <> role_filter role_name use_org_endpoint)))
        t_token headers 5

  -- The body that adds a user to a role.
  abbrev add_user : String → Json
  add_user user_id = obj (
      field "Operations"
        (arr (
          cons
            (obj (
              field "op" (str "add") (
                field "path" (str "users")
                  (field "value" (arr (cons (obj (field "value" (str user_id) end)) nil)) end))))
            nil))
        end)

  -- The id of a role in a path.
  abbrev id_text : Json → String
  id_text (str t) = t
  id_text _ = ""

  -- `assign_roles_to_user`; a role that is not there yet is left out.
  unfoldable pub assign_roles_to_user :
      String → String → String → List String → Bool → Run R (Unit {0})
  assign_roles_to_user token tenant_path user_id [] use_org_endpoint = pure tt
  assign_roles_to_user token tenant_path user_id (role_name ∷ role_names) use_org_endpoint = do
    let (t_token, headers) = get_auth_params token use_org_endpoint
    role_id ← poll_for_role_id token tenant_path role_name use_org_endpoint
    if truthy (value_or null role_id)
        then (do
          is_call "PATCH"
              (tenant_path
                <> (segment use_org_endpoint
                    <> ("/scim2/v2/Roles/" <> id_text (value_or null role_id))))
              t_token headers (some (add_user user_id))
          pure tt)
        else pure tt
    assign_roles_to_user token tenant_path user_id role_names use_org_endpoint

  abbrev shared_role : String → Json
  shared_role name = obj (
      field "displayName" (str name) (
        field "audience"
          (obj (field "display" (str c.app_name) (field "type" (str "application") end))) end))

  -- `share_roles_with_org`
  unfoldable pub share_roles_with_org : String → String → String → List String → Run R (Unit {0})
  share_roles_with_org root_token tenant_path org_id [] = pure tt
  share_roles_with_org root_token tenant_path org_id (r ∷ rs) = do
    is_call "PATCH" (tenant_path <> "/api/server/v1/applications/share") root_token [] (
        some (
          obj (
            field "applicationId" (str c.app_id) (
              field "Operations"
                (arr (
                  cons
                    (obj (
                      field "op" (str "add") (
                        field "path" (str ("organizations[orgId eq \"" <> (org_id <> "\"].roles")))
                          (field "value" (arr (of_list (map shared_role (r ∷ rs)))) end))))
                    nil))
                end))))
    pure tt

  -- The id of the organization with the handle.
  org_with : String → List Json → Result (Option Json)
  org_with handle [] = ok none
  org_with handle (org ∷ orgs) = get_key "orgHandle" org >>? λ named.
      if is_text handle named
      then (index_key "id" org >>? λ id. ok (some id))
      else org_with handle orgs

  -- `resolve_org_id`, with the root token, which is empty where there is none
  unfoldable pub resolve_org_id : String → String → String → Run R (Option Json)
  unfolding org_with
  resolve_org_id root_token tenant_path handle = if not (nonempty root_token) then pure none else do
    result ←
        is_call "GET" (tenant_path <> "/api/server/v1/organizations?limit=100&recursive=false")
          root_token [] none
    if nat_eq result.status_code 200 && truthy result.content
        then lift (
            get_key "organizations" result.content >>? λ listed.
            elements (value_or (arr nil) listed) >>? λ orgs. org_with handle orgs)
        else pure none
