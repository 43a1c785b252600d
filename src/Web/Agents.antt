-- ===== src/Web/Agents.antt =====
-- webapp/blueprints/agents.py: the gate by plan and role, and the deployment and removal of an agent.
-- What is flashed to the user is one of the outcomes.
pub mod Gate
use wso2_teamspace_demo.Base.{
  ℕ, String, ◌<>◌, Bool, true, false, not, ◌&&◌, ◌||◌, Option, none, some, List, [], ◌∷◌, Dict,
  lookup, member, nonempty, or_empty, nat_eq, if◌then◌else◌,
}
use wso2_teamspace_demo.Base.Json.{Json, null, bool, str, obj, Fields, end, field, truthy}
use wso2_teamspace_demo.Base.Values.{get_key, value_or, is_text}
use wso2_teamspace_demo.Base.Run.{
  Result, ok, err, http, other_error, Run, pure, raise, lift, ◌>>=◌, ◌>>◌,
}
use wso2_teamspace_demo.Web.Session.{Web, outside, session_set, user_field}
use wso2_teamspace_demo.Web.Login.{Authlib, WebConfig, text_of}
use wso2_teamspace_demo.Web.Login.Tokens.{
  get_agent_management_token, get_root_role_management_token,
}
use wso2_teamspace_demo.Web.ApiProxy.{
  ApiClient, resolve_plan_for_gating, get_agent_config, save_agent_config, delete_agent_config,
}
use wso2_teamspace_demo.Web.Access.{teamspace_admin, teamspace_user, session_texts, is_admin}
use wso2_teamspace_demo.Web.Identity.{IsServer, IsSettings, is_call, assign_roles_to_user}
use wso2_teamspace_demo.Web.Identity.Dual.{is_saved}

-- What the gate answers: the view goes on, or one of the two templates is shown.
pub data Gated : Type 0 where
  allowed upgrade_prompt access_denied : Gated

-- The decision, by the plan, which may be unknown, and by whether the role is there.
unfoldable pub decide : Option Json → String → Bool → Gated
decide org_plan required_plan has_role =
    let wanted = is_text required_plan org_plan in
    let known = elim org_plan as (λ x. Bool) [ none ↦ false | some _ ↦ true ] in
    if known && not wanted
    then upgrade_prompt
    else if not has_role
    then (if wanted then access_denied else upgrade_prompt)
    else allowed

module _ {R : Type 0} (api : ApiClient R) where
  -- `_check_plan_and_role`
  unfoldable pub check_plan_and_role : String → String → Run (Web R) Gated
  check_plan_and_role required_plan required_role w =
      let org_id = text_of (user_field "org_id" (str "") w.session) in
      let user_roles = session_texts "user_roles" w.session in
      (do
        org_plan ← resolve_plan_for_gating api org_id none
        pure (decide org_plan required_plan (member required_role user_roles)))
        w

  -- `gate_agents_by_plan`
  unfoldable pub gate_agents_by_plan : Run (Web R) Gated
  gate_agents_by_plan w =
      if not (is_admin w.session)
      then (err (http 403 ""), w)
      else check_plan_and_role "enterprise" teamspace_admin w

pub data Deployed : Type 0 where
  no_management_token not_created deployed not_saved : Deployed

pub data Removed : Type 0 where
  no_agent removed : Removed

-- The form of an agent.
pub record AgentForm : Type 0 where
  pub display_name : String
  pub description : String
  pub gemini_api_key : String
  pub custom_prompt : String

module _ {R : Type 0} (a : Authlib R) (c : WebConfig) (s : IsServer R) (i : IsSettings)
    (api : ApiClient R) where
  -- A token of the identity server, which is empty after a failure.
  abbrev token_of : (R → Result Json × R) → Run (Web R) String
  token_of request = do token ← outside request; pure (text_of token)

  abbrev agent_body : AgentForm → String → Json
  agent_body f owner = obj (
      field "urn:scim:wso2:agent:schema"
        (obj (
          field "DisplayName" (str f.display_name)
            (field "Description" (str f.description) (field "Owner" (str owner) end))))
        end)

  abbrev config_body : AgentForm → Json → Json → Json → Json
  config_body f org_id agent_id agent_secret = obj (
      field "org" org_id (
        field "agent_id" agent_id (
          field "agent_secret" agent_secret (
            field "display_name" (str f.display_name) (
              field "description" (str f.description) (
                field "gemini_api_key" (str f.gemini_api_key)
                  (field "custom_prompt" (str f.custom_prompt) end)))))))

  -- The role of the new agent, and its configuration.
  keep_agent : AgentForm → Json → Json → Json → Run (Web R) Deployed
  keep_agent f org_id agent_id agent_secret = do
    root_token ← token_of (get_root_role_management_token a c)
    if nonempty root_token && truthy agent_id
        then outside (
            assign_roles_to_user s i root_token c.tenant_path (text_of agent_id)
              (teamspace_user ∷ []) false)
        else pure tt
    saved ← save_agent_config api (config_body f org_id agent_id agent_secret)
    if is_saved saved.status_code
        then (do session_set "has_agent_config" (bool true); pure deployed)
        else pure not_saved

  -- The agent's identity.
  create_agent : AgentForm → Json → String → String → Run (Web R) Deployed
  create_agent f org_id owner agent_token = do
    result ← outside (
        is_call s i "POST" (c.tenant_path <> "/o/scim2/Agents") agent_token []
          (some (agent_body f owner)))
    if not (is_saved result.status_code) then pure not_created else do
      agent_id ← lift (get_key "id" result.content)
      agent_secret ← lift (get_key "password" result.content)
      keep_agent f org_id (value_or (str "") agent_id) (value_or (str "") agent_secret)

  -- `add_agent`
  unfoldable pub add_agent : AgentForm → Run (Web R) Deployed
  unfolding create_agent keep_agent
  add_agent f w =
      let owner =
        text_of (user_field "sub" (str "") w.session)
        <> ("@" <> text_of (user_field "org_handle" (str "") w.session)) in
      let org_id = user_field "org_id" (str "") w.session in
      (do
        agent_token ← token_of (get_agent_management_token a c)
        if not (nonempty agent_token)
            then pure no_management_token
            else create_agent f org_id owner agent_token)
        w

  -- The identity is deleted where there is a token for it; a failure is only flashed.
  delete_identity : Json → Run (Web R) (Unit {0})
  delete_identity agent_id = do
    agent_token ← token_of (get_agent_management_token a c)
    if nonempty agent_token && truthy agent_id
        then (do
          outside (
              is_call s i "DELETE" (c.tenant_path <> ("/o/scim2/Agents/" <> text_of agent_id))
                agent_token [] none)
          pure tt)
        else pure tt

  -- `delete_agent`
  unfoldable pub delete_agent : Run (Web R) Removed
  unfolding delete_identity
  delete_agent w =
      let org_id = text_of (user_field "org_id" (str "") w.session) in
      (do
        agent_cfg ← get_agent_config api org_id
        if not (truthy agent_cfg) then pure no_agent else do
          agent_id ← lift (get_key "agent_id" agent_cfg)
          delete_identity (value_or (str "") agent_id)
          delete_agent_config api org_id
          session_set "has_agent_config" (bool false)
          pure removed)
        w
