-- ===== src/Web/Admin/Gate.antt =====
-- The two gates by plan and role (webapp/blueprints/admin.py and agents.py).
use wso2_teamspace_demo.Base.{
  String, ◌≡◌, refl, Bool, true, false, Option, none, some, inl, inr, Bool-cases, member,
}
use wso2_teamspace_demo.Base.Json.{Json, str}
use wso2_teamspace_demo.Base.Values.{is_text}
use wso2_teamspace_demo.Base.Run.{pure, ◌>>=◌, Result-cases}
use wso2_teamspace_demo.Web.Session.{Web, View, page, user_field}
use wso2_teamspace_demo.Web.Login.{text_of}
use wso2_teamspace_demo.Web.ApiProxy.{ApiClient, resolve_plan_for_gating}
use wso2_teamspace_demo.Web.Access.{idp_manager, session_texts}
use wso2_teamspace_demo.Web.Agents.{
  Gated, allowed, upgrade_prompt, access_denied, decide, check_plan_and_role,
}
use wso2_teamspace_demo.Web.Admin.{denied_page, check_idp_access}

-- The page that a decision of the agents' gate stands for.
abbrev pub page_of : String → Gated → Option View
page_of upgrade_template allowed = none
page_of upgrade_template upgrade_prompt = some (page upgrade_template)
page_of upgrade_template access_denied = some (page "admin/access_denied.html")

denied_page_lem :
    (upgrade_template : String) (org_plan : Option Json) (has_role : Bool)
    → denied_page upgrade_template org_plan has_role
      ≡ page_of upgrade_template (decide org_plan "enterprise" has_role)
unfolding denied_page decide
denied_page_lem upgrade_template none true = refl
denied_page_lem upgrade_template none false = refl
denied_page_lem upgrade_template (some plan) true =
    elim (Bool-cases (is_text "enterprise" (some plan))) [ inl e ↦ rw e refl | inr e ↦ rw e refl ]
denied_page_lem upgrade_template (some plan) false =
    elim (Bool-cases (is_text "enterprise" (some plan))) [ inl e ↦ rw e refl | inr e ↦ rw e refl ]

module _ {R : Type 0} (api : ApiClient R) where
  -- The gate of the identity providers' views is the agents' gate for the enterprise plan and the
  -- role idp-manager: it calls the same and leaves the same world, raises where that raises, and
  -- shows the page that its decision stands for, or none where it allows.
  pub check_idp_access_lem :
      (upgrade_template : String) (w : Web R)
      → check_idp_access api upgrade_template w
        ≡ (do
          gated ← check_plan_and_role api "enterprise" idp_manager
          pure (page_of upgrade_template gated))
            w
  unfolding check_idp_access check_plan_and_role
  check_idp_access_lem upgrade_template w =
      elim (Result-cases
        (resolve_plan_for_gating api (text_of (user_field "org_id" (str "") w.session)) none w).0) [
          | inr (e, failed) ↦ rw failed refl
          | inl (plan, got) ↦
              rw
                (
                  got,
                  denied_page_lem upgrade_template plan
                      (member idp_manager (session_texts "user_roles" w.session)),
                )
                refl
        ]
