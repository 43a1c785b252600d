-- ===== src/Web/Subscription.antt =====
-- webapp/blueprints/subscription.py: an organization's upgrade to another plan.
-- What is flashed to the user is one of the outcomes.
use wso2_teamspace_demo.Base.{
  ℕ, String, true, not, Option, none, some, [], ◌∷◌, nonempty, or_empty, if◌then◌else◌,
}
use wso2_teamspace_demo.Base.Json.{Json, str}
use wso2_teamspace_demo.Base.Run.{Result, Run, pure, ◌>>=◌, ◌>>◌}
use wso2_teamspace_demo.Web.Session.{Web, View, redirect_for, outside, session_set, user_field}
use wso2_teamspace_demo.Web.Login.{Authlib, WebConfig, text_of}
use wso2_teamspace_demo.Web.Login.Tokens.{get_client_credentials_token, switch_org_token}
use wso2_teamspace_demo.Web.ApiProxy.{ApiClient, save_organization_plan}
use wso2_teamspace_demo.Web.Access.{Plan, plans, plan_named, login_required, admin_required}
use wso2_teamspace_demo.Web.Identity.{
  IsServer, IsSettings, share_roles_with_org, assign_roles_to_user,
}
use wso2_teamspace_demo.Web.Identity.Dual.{is_saved}

pub data Outcome : Type 0 where
  invalid_plan not_authenticated not_switched upgraded : Outcome
  not_saved : ℕ → Outcome

module _ {R : Type 0} (a : Authlib R) (c : WebConfig) (s : IsServer R) (i : IsSettings)
    (api : ApiClient R) where
  -- A token of the identity server, which is empty after a failure.
  abbrev token_of : (R → Result Json × R) → Run (Web R) String
  token_of request = do token ← outside request; pure (text_of token)

  -- The part behind the switch to the organization.
  with_org_token : Plan → String → String → String → Run (Web R) Outcome
  with_org_token plan org_id user_id sub_org_token = do
    if nonempty user_id
        then outside
            (assign_roles_to_user s i sub_org_token c.tenant_path user_id plan.upgrade_roles true)
        else pure tt
    saved ← save_organization_plan api org_id plan.id (some sub_org_token)
    if not (is_saved saved.status_code)
        then pure (not_saved saved.status_code)
        else do session_set "org_plan" (str plan.id); pure upgraded

  -- The part behind the choice of a plan.
  with_plan : Plan → Run (Web R) Outcome
  with_plan plan = do
    root_token ← token_of (get_client_credentials_token a c)
    if not (nonempty root_token) then pure not_authenticated else λ w.
        (let org_id = text_of (user_field "org_id" (str "") w.session) in
          let user_id = text_of (user_field "sub" (str "") w.session) in
          (do
            outside (share_roles_with_org s i root_token c.tenant_path org_id plan.upgrade_roles)
            sub_org_token ← token_of (switch_org_token a c org_id root_token)
            if not (nonempty sub_org_token)
                then pure not_switched
                else with_org_token plan org_id user_id sub_org_token)
            w)

  -- `upgrade`, its decorators left out
  unfoldable pub upgrade : Option String → Run (Web R) Outcome
  unfolding with_plan with_org_token
  upgrade target_plan = elim (plan_named (or_empty target_plan) plans) [
    | none ↦ pure invalid_plan
    | some plan ↦ with_plan plan
  ]

  -- The route: the user is logged in to the organization of the route, and is an administrator.
  unfoldable pub upgrade_route : String → Option String → Run (Web R) View
  upgrade_route org_handle target_plan = login_required (some org_handle) (
      admin_required (do
        upgrade target_plan
        pure (redirect_for "subscription.plans" (("org_handle", org_handle) ∷ []))))
