-- ===== src/Web/Login/Tokens.antt =====
-- webapp/auth.py: the tokens that the portal asks for, for itself and for its users.
use wso2_teamspace_demo.Base.{
  String, ◌<>◌, not, ◌||◌, none, some, [], ◌∷◌, Dict, nat_eq, if◌then◌else◌,
}
use wso2_teamspace_demo.Base.Json.{Json, null, str}
use wso2_teamspace_demo.Base.Values.{get_key, value_or, or_value, ◌>>?◌}
use wso2_teamspace_demo.Base.Run.{Result, ok}
use wso2_teamspace_demo.Web.Login.{WebConfig, Authlib}

module _ {R : Type 0} (a : Authlib R) (c : WebConfig) where
  -- `_request_token`; the empty token stands for a failure.
  unfoldable pub request_token : String → String → Dict String → R → Result Json × R
  request_token grant_type scope extra w =
      let (reply, w') =
        a.post_form (c.is_base_url <> (c.tenant_path <> "/oauth2/token"))
          (("grant_type", grant_type)
            ∷ ("client_id", c.client_id)
            ∷ ("client_secret", c.client_secret)
            ∷ ("scope", scope)
            ∷ extra)
          w in
      elim reply [
        | none ↦ (ok (str ""), w')
        | some resp ↦
            if not (nat_eq resp.status_code 200 || nat_eq resp.status_code 201)
            then (ok (str ""), w')
            else elim resp.body [
              | none ↦ (ok (str ""), w')
              | some v ↦ (
                (get_key "access_token" v >>? λ token.
                    ok (or_value (value_or null token) (str ""))),
                w',
              )
            ]
      ]

  -- `get_client_credentials_token`
  abbrev pub get_client_credentials_token : R → Result Json × R
  get_client_credentials_token =
      request_token "client_credentials"
        "internal_organization_create internal_organization_view internal_shared_application_create"
        []

  -- `get_root_role_management_token`
  abbrev pub get_root_role_management_token : R → Result Json × R
  get_root_role_management_token =
      request_token "client_credentials"
        "internal_org_role_mgt_view internal_org_role_mgt_update internal_role_mgt_view internal_role_mgt_update"
        []

  -- `get_agent_management_token`
  abbrev pub get_agent_management_token : R → Result Json × R
  get_agent_management_token =
      request_token "client_credentials"
        "internal_agent_mgt_create internal_agent_mgt_list internal_agent_mgt_view internal_agent_mgt_delete"
        []

  -- `switch_org_token`
  abbrev pub switch_org_token : String → String → R → Result Json × R
  switch_org_token org_id token =
      request_token "organization_switch"
        "internal_org_user_mgt_create internal_org_user_mgt_list internal_org_user_mgt_view internal_org_role_mgt_create internal_org_role_mgt_view internal_org_role_mgt_update"
        (("token", token) ∷ ("switching_organization", org_id) ∷ [])
