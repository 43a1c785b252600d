-- ===== src/Web/Admin/Creation.antt =====
-- webapp/blueprints/admin.py: an identity provider is added, with the roles that it needs.
use wso2_teamspace_demo.Base.{
  String, ◌<>◌, Bool, true, false, not, ◌||◌, none, some, List, [], ◌∷◌, Dict, lookup, nat_eq,
  or_empty, ◌==◌, if◌then◌else◌,
}
use wso2_teamspace_demo.Base.Json.{Json, null, bool, str, truthy}
use wso2_teamspace_demo.Base.Values.{get_key, value_or, elements, is_text, ◌>>?◌}
use wso2_teamspace_demo.Base.Run.{Result, ok, Run, pure, lift, ◌>>=◌, ◌>>◌}
use wso2_teamspace_demo.Web.Session.{Web, View, user_field}
use wso2_teamspace_demo.Web.Login.{text_of}
use wso2_teamspace_demo.Web.ApiProxy.{ApiClient}
use wso2_teamspace_demo.Web.Access.{teamspace_admin, teamspace_user}
use wso2_teamspace_demo.Web.Identity.{IsServer, IsSettings}
use wso2_teamspace_demo.Web.Identity.Dual.{is_saved}
use wso2_teamspace_demo.Web.Admin.{
  object, list, form_item, scim_resources, session_token, call, flashed, idp_view,
}
use wso2_teamspace_demo.Web.Admin.LoginFlow.{resolve_teamspace_app_id}
use wso2_teamspace_demo.Web.Admin.Providers.{
  build_oidc_authenticator_properties, build_jit_put_body, patch_auth_sequence,
  apply_idp_role_group_mappings, first_step,
}

abbrev pub oidc_authenticator_id : String
oidc_authenticator_id = "T3BlbklEQ29ubmVjdEF1dGhlbnRpY2F0b3I"

-- Whether one of the roles is of an organization or an application.
unfoldable pub has_role_of_tenant : List Json → Result Bool
has_role_of_tenant [] = ok false
has_role_of_tenant (role ∷ roles) =
    let later = has_role_of_tenant roles in
    get_key "audience" role >>? λ audience.
    get_key "type" (value_or (object []) audience) >>? λ kind.
    if is_text "organization" kind || is_text "application" kind then ok true else later

abbrev role_body : String → String → Json
role_body role_name org_id = object (
    ("displayName", str role_name)
    ∷ ("audience", object (("type", str "organization") ∷ ("value", str org_id) ∷ []))
    ∷ ("schemas", list [])
    ∷ [])

abbrev claim_uri : String → Json
claim_uri name = object (("uri", str ("http://wso2.org/claims/" <> name)) ∷ [])

abbrev mapping : String → String → Json
mapping idp_claim name = object (("idpClaim", str idp_claim) ∷ ("localClaim", claim_uri name) ∷ [])

abbrev role_mapping : String → String → Json
role_mapping idp_role local_role =
    object (("idpRole", str idp_role) ∷ ("localRole", str local_role) ∷ [])

-- The body of the new provider.
abbrev pub provider_body : String → String → List Json → String → Bool → Json
provider_body org_handle name properties group_attribute jit_enabled = object (
    ("name", str name)
    ∷ (
      "federatedAuthenticators",
      object (
          ("defaultAuthenticatorId", str oidc_authenticator_id)
          ∷ (
            "authenticators",
            list (
                object (
                  ("authenticatorId", str oidc_authenticator_id)
                  ∷ ("isEnabled", bool true)
                  ∷ ("properties", list properties)
                  ∷ [])
                ∷ []),
          )
          ∷ []),
    )
    ∷ (
      "claims",
      object (
          ("userIdClaim", claim_uri "emailaddress")
          ∷ ("roleClaim", claim_uri "roles")
          ∷ (
            "mappings",
            list (
                mapping "sub" "username"
                ∷ mapping "email" "emailaddress"
                ∷ mapping group_attribute "roles"
                ∷ mapping "roles" "roles"
                ∷ []),
          )
          ∷ []),
    )
    ∷ (
      "roles",
      object (
          (
            "mappings",
            list (
                role_mapping "admin" teamspace_admin
                ∷ role_mapping "user" teamspace_user
                ∷ role_mapping "PRIMARY/admin" teamspace_admin
                ∷ role_mapping "PRIMARY/user" teamspace_user
                ∷ role_mapping (org_handle <> "/admin") teamspace_admin
                ∷ role_mapping (org_handle <> "/user") teamspace_user
                ∷ []),
          )
          ∷ []),
    )
    ∷ ("provisioning", object (("jit", build_jit_put_body jit_enabled) ∷ []))
    ∷ [])

module _ {R : Type 0} (s : IsServer R) (c : IsSettings) (tenant_path : String) (api : ApiClient R)
    (flash : Json → Run R (Unit {0})) where
  -- The role is created where the organization has none of the name.
  abbrev ensure_role : String → String → String → Run (Web R) (Unit {0})
  ensure_role token org_id role_name = do
    found ←
        call s c tenant_path api flash token "GET"
          ("/o/scim2/v2/Roles?filter=displayName+eq+" <> role_name) none
    exists ← lift (
        if nat_eq found.status_code 200
        then elements (scim_resources found) >>? has_role_of_tenant
        else ok false)
    if exists then pure tt else do
      call s c tenant_path api flash token "POST" "/o/scim2/v2/Roles"
          (some (role_body role_name org_id))
      pure tt

  -- What follows a provider that was created: its provisioning, its groups, and the login of the portal.
  finish_provider : String → String → Bool → Dict String → Json → Run (Web R) (Unit {0})
  finish_provider token name jit_enabled form created = do
    idp_id ← lift (get_key "id" created)
    if truthy (value_or null idp_id)
        then (do
          call s c tenant_path api flash token "PUT"
              ("/o/api/server/v1/identity-providers/"
                <> (text_of (value_or null idp_id) <> "/provisioning/jit"))
              (some (build_jit_put_body jit_enabled))
          apply_idp_role_group_mappings s c tenant_path api flash token
              (text_of (value_or null idp_id)) form)
        else pure tt
    app_id ← resolve_teamspace_app_id s c tenant_path api flash token
    if not (truthy (value_or null app_id)) then pure tt else do
      patch_auth_sequence s c tenant_path api flash token (text_of (value_or null app_id)) (
          object (
            ("type", str "USER_DEFINED")
            ∷ (
              "steps",
              first_step s c tenant_path api flash (
                  object (("idp", str "LOCAL") ∷ ("authenticator", str "BasicAuthenticator") ∷ [])
                  ∷ object
                      (("idp", str name) ∷ ("authenticator", str "OpenIDConnectAuthenticator") ∷ [])
                  ∷ []),
            )
            ∷ []))
      pure tt

  -- The part of `add_idp` behind the check of the roles.
  create_provider : String → String → String → Dict String → Run (Web R) View
  create_provider org_handle token org_id form = do
    name ← lift (form_item "name" form)
    token_endpoint ← lift (form_item "token_endpoint" form)
    properties ← lift (build_oidc_authenticator_properties form org_id c.is_base_url token_endpoint)
    let jit_enabled = or_empty (lookup "jit_enabled" form) == "true"
    let group_attribute = (elim (lookup "group_attribute" form) as (λ x. String) [
      | none ↦ "groups"
      | some g ↦ g
    ])
    created ←
        call s c tenant_path api flash token "POST" "/o/api/server/v1/identity-providers"
          (some (provider_body org_handle name properties group_attribute jit_enabled))
    if not (is_saved created.status_code)
        then flashed s c tenant_path api flash "error" (str "Failed to create IdP.") "admin.idp"
            org_handle
        else (do
          finish_provider token name jit_enabled form created.content
          flashed s c tenant_path api flash "success" (str "Identity Provider created.") "admin.idp"
              org_handle)

  -- `add_idp`
  unfoldable pub add_idp : String → Dict String → Run (Web R) View
  unfolding create_provider finish_provider
  add_idp org_handle form =
      idp_view s c tenant_path api flash "admin/idp_upgrade.html" org_handle (λ w.
        let org_id = text_of (user_field "org_id" (str "") w.session) in
        (do
          token ← session_token
          ensure_role token org_id teamspace_admin
          ensure_role token org_id teamspace_user
          create_provider org_handle token org_id form)
          w)
