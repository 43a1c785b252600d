-- ===== src/Web/Admin/Providers.antt =====
-- webapp/blueprints/admin.py: identity providers are added and deleted, and their groups mapped to roles.
-- The ids of groups and roles are texts.
use text.Mathlib.Text.{starts_with}
use wso2_teamspace_demo.Base.{
  ℕ, zero, suc, ◌-◌, String, ◌<>◌, Bool, true, false, not, ◌&&◌, ◌||◌, Option, none, some, List, [],
  ◌∷◌, ◌++◌, Dict, lookup, filter, member, nonempty, nat_eq, or_empty, map, if◌then◌else◌,
}
use wso2_teamspace_demo.Base.Json.{Json, null, bool, num, str, arr, truthy, items}
use wso2_teamspace_demo.Base.Values.{get_key, index_key, value_or, elements, ◌>>?◌}
use wso2_teamspace_demo.Base.Run.{Result, ok, Run, pure, lift, ◌>>=◌, ◌>>◌}
use wso2_teamspace_demo.Base.Strip.{strip}
use wso2_teamspace_demo.Base.Slices.{char_count, same_char}
use wso2_teamspace_demo.Web.Session.{Web, View}
use wso2_teamspace_demo.Web.Login.{text_of}
use wso2_teamspace_demo.Web.ApiProxy.{ApiClient}
use wso2_teamspace_demo.Web.Identity.{IsServer, IsSettings, IsReply}
use wso2_teamspace_demo.Web.Identity.Dual.{is_saved}
use wso2_teamspace_demo.Web.Admin.{
  object, list, form_item, getlist, scim_resources, session_token, call, flashed, idp_view,
}
use wso2_teamspace_demo.Web.Admin.LoginFlow.{resolve_teamspace_app_id}

-- `s.replace(old, new)`, past the letters of an occurrence that are left
replace_from : ℕ → String → String → String → String
replace_from n old new String.[] = ""
replace_from (suc n) old new (String.◌∷◌ c s) = replace_from n old new s
replace_from zero old new (String.◌∷◌ c s) =
    let replaced = replace_from (char_count old - 1) old new s in
    let kept = replace_from zero old new s in
    if starts_with (String.◌∷◌ c s) old then new <> replaced else String.◌∷◌ c kept

unfoldable pub replace : String → String → String → String
unfolding replace_from
replace old new s = replace_from zero old new s

-- `s.split(",")`
split_comma : String → String × List String
split_comma String.[] = ("", [])
split_comma (String.◌∷◌ c s) =
    let (head, rest) = split_comma s in
    if same_char c "," then ("", head ∷ rest) else (String.◌∷◌ c head, rest)

-- The names of the groups in the form: stripped, without empty ones.
unfoldable pub group_names : String → List String
unfolding split_comma
group_names raw = let (head, rest) = split_comma raw in filter nonempty (map strip (head ∷ rest))

abbrev or_text : String → String → String
or_text a b = if nonempty a then a else b

abbrev property : String → String → Json
property key value = object (("key", str key) ∷ ("value", str value) ∷ [])

abbrev default_scopes : String
default_scopes = "openid email profile groups"

abbrev optional : String → Dict String → String
optional key form = strip (or_empty (lookup key form))

-- `_build_oidc_authenticator_properties`
unfoldable pub build_oidc_authenticator_properties :
    Dict String → String → String → String → Result (List Json)
build_oidc_authenticator_properties form org_id is_base_url token_endpoint =
    form_item "client_id" form >>? λ client_id. form_item "client_secret" form >>? λ client_secret.
    form_item "auth_endpoint" form >>? λ auth_endpoint.
    (let scopes =
        or_text (strip (or_text (or_empty (lookup "scopes" form)) default_scopes)) default_scopes in
      ok (
        property "ClientId" client_id
        ∷ property "ClientSecret" client_secret
        ∷ property "OAuth2AuthzEPUrl" auth_endpoint
        ∷ property "OAuth2TokenEPUrl" token_endpoint
        ∷ property "JwksUri" (
            or_text (optional "jwks_uri" form)
              (replace "/oauth2/token" "/oauth2/jwks" token_endpoint))
        ∷ property "UserInfoUrl" (
            or_text (optional "userinfo_endpoint" form)
              (replace "/oauth2/token" "/oauth2/userinfo" token_endpoint))
        ∷ property "OIDCLogoutEPUrl" (
            or_text (optional "logout_endpoint" form)
              (replace "/oauth2/token" "/oidc/logout" token_endpoint))
        ∷ property "Scopes" scopes
        ∷ property "IsPKCEEnabled" "false"
        ∷ property "IsBasicAuthEnabled" "false"
        ∷ property "callbackUrl" (is_base_url <> ("/o/" <> (org_id <> "/commonauth")))
        ∷ property "AdditionalQueryParameters" ("scope=" <> scopes)
        ∷ property "commonAuthEPUrl" (is_base_url <> "/commonauth")
        ∷ []))

-- `_build_jit_put_body`
abbrev pub build_jit_put_body : Bool → Json
build_jit_put_body jit_enabled = object (
    ("accountLookupAttributeMappings", list [])
    ∷ ("associateLocalUser", bool true)
    ∷ ("attributeSyncMethod", str "PRESERVE_LOCAL")
    ∷ ("isEnabled", bool jit_enabled)
    ∷ ("scheme", str "PROVISION_SILENTLY")
    ∷ ("skipJITForLookupFailure", bool false)
    ∷ ("userstore", str "PRIMARY")
    ∷ [])

-- The ids of the resolved groups, of all or of those that are selected by name: `ig.get("id")` is truthy.
unfoldable pub ids_of : (Option Json → Bool) → List Json → Result (List String)
ids_of wanted [] = ok []
ids_of wanted (group ∷ groups) =
    let later = ids_of wanted groups in
    get_key "id" group >>? λ id. get_key "name" group >>? λ name. later >>? λ ids.
    ok (if truthy (value_or null id) && wanted name then text_of (value_or null id) ∷ ids else ids)

abbrev in_names : List String → Option Json → Bool
in_names names (some (str name)) = member name names
in_names names _ = false

-- The groups of a role that another provider gave it: those whose value is none of the ids.
unfoldable pub other_groups : List String → List Json → Result (List Json)
other_groups ids [] = ok []
other_groups ids (group ∷ groups) =
    let later = other_groups ids groups in
    get_key "value" group >>? λ value.
    later >>? λ others. ok (if in_names ids value then others else group ∷ others)

abbrev groups_body : List Json → Json
groups_body groups = object (
    ("schemas", list (str "urn:ietf:params:scim:api:messages:2.0:PatchOp" ∷ []))
    ∷ (
      "Operations",
      list (
          object (("op", str "replace") ∷ ("path", str "groups") ∷ ("value", list groups) ∷ [])
          ∷ []),
    )
    ∷ [])

-- `result.get("data", {}).get("groups", [])`
abbrev groups_in : Json → Result (List Json)
groups_in content = get_key "groups" content >>? λ found. elements (value_or (list []) found)

module _ {R : Type 0} (s : IsServer R) (c : IsSettings) (tenant_path : String) (api : ApiClient R)
    (flash : Json → Run R (Unit {0})) where
  abbrev ask : String → String → String → Option Json → Run (Web R) IsReply
  ask = call s c tenant_path api flash

  abbrev providers : String
  providers = "/o/api/server/v1/identity-providers"

  -- `_patch_auth_sequence`
  abbrev pub patch_auth_sequence : String → String → Json → Run (Web R) IsReply
  patch_auth_sequence token app_id auth_sequence =
      ask token "PATCH" ("/o/api/server/v1/applications/" <> app_id)
        (some (object (("authenticationSequence", auth_sequence) ∷ [])))

  -- The groups of the provider, as the identity server knows them after the names were put.
  abbrev resolved_groups : String → String → IsReply → Run (Web R) (List Json)
  resolved_groups token idp_id put =
      let detailed : Run (Web R) (List Json) = (do
        detail ← ask token "GET" (providers <> ("/" <> idp_id)) none
        if nat_eq detail.status_code 200 then lift (groups_in detail.content) else pure []) in
      if not (is_saved put.status_code)
      then detailed
      else elim put.content [ arr xs ↦ pure (items xs) | _ ↦ detailed ]

  -- The groups of a role: those of the provider are the selected ones, those of others stay.
  map_role : String → List Json → List String → Dict String → Json → Run (Web R) (Unit {0})
  map_role token resolved ids form role = do
    role_id ← lift (index_key "id" role)
    selected ←
        lift
          (ids_of (in_names (getlist ("role_groups[" <> (text_of role_id <> "]")) form)) resolved)
    detail ← ask token "GET" ("/o/scim2/v2/Roles/" <> text_of role_id) none
    if not (nat_eq detail.status_code 200) then pure tt else do
      current ← lift (groups_in detail.content)
      others ← lift (other_groups ids current)
      ask token "PATCH" ("/o/scim2/v2/Roles/" <> text_of role_id)
          (some (groups_body (others ++ map (λ id. object (("value", str id) ∷ [])) selected)))
      pure tt

  map_roles : String → List Json → List String → Dict String → List Json → Run (Web R) (Unit {0})
  map_roles token resolved ids form [] = pure tt
  map_roles token resolved ids form (role ∷ roles) = do
    map_role token resolved ids form role
    map_roles token resolved ids form roles

  -- `_apply_idp_role_group_mappings`
  unfoldable pub apply_idp_role_group_mappings :
      String → String → Dict String → Run (Web R) (Unit {0})
  unfolding map_role map_roles
  apply_idp_role_group_mappings token idp_id form = do
    put ← ask token "PUT" (providers <> ("/" <> (idp_id <> "/groups"))) (
        some (
          list (
            map (λ name. object (("name", str name) ∷ ("id", str "") ∷ []))
              (group_names (or_empty (lookup "groups" form))))))
    resolved ← resolved_groups token idp_id put
    answered ← ask token "GET" "/o/scim2/v2/Roles" none
    roles ←
        lift (if nat_eq answered.status_code 200 then elements (scim_resources answered) else ok [])
    ids ← lift (ids_of (λ name. true) resolved)
    map_roles token resolved ids form roles

  abbrev local_password : Json
  local_password = object (("idp", str "LOCAL") ∷ ("authenticator", str "BasicAuthenticator") ∷ [])

  abbrev pub first_step : List Json → Json
  first_step options = list (object (("id", num 1) ∷ ("options", list options) ∷ []) ∷ [])

  -- `delete_idp`; the login goes back to passwords before the provider is deleted.
  unfoldable pub delete_idp : String → String → Run (Web R) View
  delete_idp org_handle idp_id =
      idp_view s c tenant_path api flash "admin/idp_upgrade.html" org_handle (do
        token ← session_token
        ask token "GET" (providers <> ("/" <> idp_id)) none
        app_id ← resolve_teamspace_app_id s c tenant_path api flash token
        if truthy (value_or null app_id)
            then (do
              patch_auth_sequence token (text_of (value_or null app_id)) (
                  object
                    (("type", str "DEFAULT") ∷ ("steps", first_step (local_password ∷ [])) ∷ []))
              pure tt)
            else pure tt
        deleted ← ask token "DELETE" (providers <> ("/" <> idp_id)) none
        if nat_eq deleted.status_code 200 || nat_eq deleted.status_code 204
            then flashed s c tenant_path api flash "success"
                (str "Identity Provider deleted successfully.") "admin.idp" org_handle
            else flashed s c tenant_path api flash "error"
                (str "Failed to delete Identity Provider.") "admin.idp" org_handle)
