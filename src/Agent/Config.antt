-- ===== src/Agent/Config.antt =====
-- agent/config.py: the settings, and the key that signs the OAuth state.
use wso2_teamspace_demo.Base.{ℕ, String, ◌<>◌, Bool, Option, none, some, nonempty, if◌then◌else◌}
use wso2_teamspace_demo.Base.Run.{Result, ok, err, value_error}

pub record Settings : Type 0 where
  pub is_base_url : String
  pub is_org_handle : String
  -- set by the `TENANT_PATH` setter
  pub tenant_override : Option String
  pub client_id : String
  pub client_secret : String
  pub agent_redirect_uri : String
  pub agent_service_url : String
  pub mock_llm : Bool
  pub state_signing_secret : String
  -- `CLOCK_SKEW_SECONDS` of common/jwt_validation.py
  pub clock_skew_seconds : ℕ

-- `TENANT_PATH`
abbrev pub tenant_path : Settings → String
tenant_path c = elim c.tenant_override [
  | some path ↦ path
  | none ↦ if nonempty c.is_org_handle then "/t/" <> c.is_org_handle else ""
]

unfoldable pub state_jwt_signing_secret : Settings → Result String
state_jwt_signing_secret c =
    if nonempty c.state_signing_secret
    then ok c.state_signing_secret
    else if nonempty c.client_secret
    then ok c.client_secret
    else err value_error
