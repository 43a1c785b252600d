-- ===== src/Api/Records.antt =====
-- api/routers/agent_configs.py, personalization.py and plans.py: one row for each organization.
-- The three tables share their shape: an organization and a payload of other columns. `created_at`
-- and `updated_at` are left out.
pub mod Boundary
use wso2_teamspace_demo.Base.{
  ℕ, String, ◌<>◌, ◌≡◌, Bool, true, false, not, ◌&&◌, Option, none, some, List, [], ◌∷◌, ◌==◌,
  head?, member, if◌then◌else◌,
}
use wso2_teamspace_demo.Base.Json.{Json, str, Fields}
use wso2_teamspace_demo.Base.Values.{is_text}
use wso2_teamspace_demo.Base.Run.{
  Result, ok, err, http, attribute_error, Run, pure, raise, lift, ◌>>=◌, ◌>>◌,
}
use wso2_teamspace_demo.Api.Auth.{UserInfo, require_scope, require_current_user}
use wso2_teamspace_demo.Api.Table.{Table}

-- `AgentConfigCreate`, without `org`
pub record AgentConfig : Type 0 where
  pub agent_id : String
  pub agent_secret : String
  pub display_name : String
  pub description : Option String
  pub gemini_api_key : Option String
  pub org_client_id : Option String
  pub org_client_secret : Option String
  pub custom_prompt : Option String

-- `PersonalizationUpsert`, without `org`
pub record Personalization : Type 0 where
  pub logo_url : Option String
  pub logo_alt_text : Option String
  pub favicon_url : Option String
  pub primary_color : Option String
  pub secondary_color : Option String

-- A row, and the body of an upsert: the primary key and the other columns. A plan is a text.
pub record Row (A : Type 0) : Type 0 where
  pub org : String
  pub columns : A

-- `org_id == user.org`
abbrev pub is_own : String → UserInfo → Bool
is_own org_id user = is_text org_id (some user.org)

module _ {A : Type 0} where
  abbrev pub has_org : String → Row A → Bool
  has_org org r = r.org == org

  module _ (T : Table (Row A)) where
    -- `.first()`, or a 404
    unfoldable pub find_row : String → String → Run T.State (Row A)
    find_row missing org_id s = elim (head? (T.query (has_org org_id) s)) [
      | none ↦ (err (http 404 missing), s)
      | some r ↦ (ok r, s)
    ]

    -- The update of the row that is there, or a new one.
    unfoldable pub upsert : Row A → Run T.State (Row A)
    upsert body s = elim (head? (T.query (has_org body.org) s)) [
      | some r ↦ (do T.save r body; pure body) s
      | none ↦ (do T.add body; pure body) s
    ]

    -- The body of the two routes that upsert under a tenant check.
    unfoldable pub upsert_own : Row A → UserInfo → Run T.State (Row A)
    upsert_own body user =
        if not (is_own body.org user)
        then raise (http 403 "Forbidden: organization mismatch")
        else upsert body

    unfoldable pub delete_own : String → UserInfo → Run T.State (Unit {0})
    delete_own org_id user =
        if not (is_own org_id user)
        then raise (http 403 "Forbidden: organization mismatch")
        else T.delete (has_org org_id)

module _ (T : Table (Row AgentConfig)) where
  -- `get_agent_config`: what the gate of a service token says of the header, where there is one,
  -- comes first; then the user's scope and organization.
  unfoldable pub get_agent_config :
      String → Option UserInfo → Option (Result Fields) → Run T.State (Row AgentConfig)
  get_agent_config org_id caller (some gate) = do
    claims ← lift gate
    find_row T "No agent config found" org_id
  get_agent_config org_id (some user) none =
      if not (member "view_agent_config" user.scopes)
        && not (member "view_agent_config_agent" user.scopes)
      then raise (http 403 "Missing required scope: view_agent_config or view_agent_config_agent")
      else if not (is_own org_id user)
      then raise (http 403 "Forbidden: organization mismatch")
      else find_row T "No agent config found" org_id
  get_agent_config org_id none none = raise (http 401 "Authentication required")

  unfoldable pub create_agent_config :
      Row AgentConfig → Option UserInfo → Run T.State (Row AgentConfig)
  create_agent_config body caller = do
    user ← lift (require_scope "manage_agent_config" caller)
    upsert_own T body user

  unfoldable pub delete_agent_config : String → Option UserInfo → Run T.State (Unit {0})
  delete_agent_config org_id caller = do
    user ← lift (require_scope "manage_agent_config" caller)
    delete_own T org_id user

module _ (T : Table (Row Personalization)) where
  unfoldable pub get_personalization : String → Option UserInfo → Run T.State (Row Personalization)
  get_personalization org_id caller = do
    user ← lift (require_current_user caller)
    if not (is_own org_id user)
        then raise (http 403 "Forbidden: organization mismatch")
        else find_row T "No personalization found" org_id

  unfoldable pub upsert_personalization :
      Row Personalization → Option UserInfo → Run T.State (Row Personalization)
  upsert_personalization body caller = do
    user ← lift (require_scope "create_basic_branding" caller)
    upsert_own T body user

  unfoldable pub delete_personalization_by_org : String → Option UserInfo → Run T.State (Unit {0})
  delete_personalization_by_org org_id caller = do
    user ← lift (require_scope "delete_branding" caller)
    delete_own T org_id user

module _ (T : Table (Row String)) where
  -- `get_plan` asks for no caller.
  unfoldable pub get_plan : String → Run T.State (Row String)
  get_plan org_id = find_row T "No plan found" org_id

  -- `upsert_plan`: without a user the read of `user.org` raises.
  unfoldable pub upsert_plan : Row String → Option UserInfo → Run T.State (Row String)
  upsert_plan body none = raise attribute_error
  upsert_plan body (some user) = upsert_own T body user
