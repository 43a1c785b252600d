-- ===== src/Web/Access.antt =====
-- webapp/utils/decorators.py, utils/roles.py, utils/helpers.py and plans.py: who may see which view, and the
-- plans with their roles.
-- `abort(status)` raises; the view that is decorated is an argument.
use wso2_teamspace_demo.Base.{
  String, Bool, true, false, not, ◌&&◌, Option, none, some, List, [], ◌∷◌, Dict, lookup, any,
  member, ◌==◌, nonempty, or_empty, or_else, if◌then◌else◌,
}
use wso2_teamspace_demo.Base.Json.{Json, null, str, arr, items, truthy}
use wso2_teamspace_demo.Base.Values.{get_key, value_or, is_text}
use wso2_teamspace_demo.Base.Run.{ok, err, http, Run, raise, lift, ◌>>=◌}
use wso2_teamspace_demo.Web.Session.{Web, View, redirect_for, user_field}
use wso2_teamspace_demo.Web.ApiProxy.{ApiClient, get_organization_plan}

abbrev pub teamspace_admin : String
teamspace_admin = "teamspace-admin"

abbrev pub teamspace_user : String
teamspace_user = "teamspace-user"

abbrev pub basic_branding_editor : String
basic_branding_editor = "basic-branding-editor"

abbrev pub advanced_branding_editor : String
advanced_branding_editor = "advanced-branding-editor"

abbrev pub idp_manager : String
idp_manager = "idp-manager"

-- `PLAN_ROLES`
abbrev pub plan_roles : Dict (List String)
plan_roles =
    ("basic", [])
    ∷ ("business", basic_branding_editor ∷ [])
    ∷ ("enterprise", basic_branding_editor ∷ advanced_branding_editor ∷ idp_manager ∷ [])
    ∷ []

pub record Plan : Type 0 where
  pub id : String
  pub name : String
  pub price : String
  pub features : List String
  pub roles_shared : List String
  pub upgrade_roles : List String

-- `PLANS`
abbrev pub plans : List Plan
plans =
    (record {
      id = "basic";
      name = "Basic";
      price = "Free";
      features = "Manage Meetings" ∷ "User Management" ∷ "Role Management" ∷ [];
      roles_shared = teamspace_admin ∷ teamspace_user ∷ [];
      upgrade_roles = [];
    })
    ∷ (record {
      id = "business";
      name = "Business";
      price = "$5/user/month";
      features = "Everything in Basic" ∷ "Basic Branding" ∷ "Custom Logo & Colors" ∷ [];
      roles_shared = teamspace_admin ∷ teamspace_user ∷ basic_branding_editor ∷ [];
      upgrade_roles = basic_branding_editor ∷ [];
    })
    ∷ (record {
      id = "enterprise";
      name = "Enterprise";
      price = "$9/user/month";
      features =
          "Everything in Business" ∷ "Advanced Branding" ∷ "Federated IdP" ∷ "Security Settings"
          ∷ "AI Agents" ∷ [];
      roles_shared =
          teamspace_admin ∷ teamspace_user ∷ basic_branding_editor ∷ advanced_branding_editor
          ∷ idp_manager ∷ [];
      upgrade_roles = basic_branding_editor ∷ advanced_branding_editor ∷ idp_manager ∷ [];
    })
    ∷ []

-- `next((p for p in PLANS if p["id"] == target), None)`
unfoldable pub plan_named : String → List Plan → Option Plan
plan_named target [] = none
plan_named target (p ∷ ps) =
    let later = plan_named target ps in if p.id == target then some p else later

-- `_route_org_handle`, of the view's arguments or of the request's
abbrev pub route_org_handle : Option String → Option String → Option String
route_org_handle kwarg view_arg = or_else kwarg view_arg

-- The session's organization, empty where there is none.
abbrev pub session_org : Dict Json → String
session_org session = elim (user_field "org_handle" (str "") session) [ str s ↦ s | _ ↦ "" ]

-- `route_org and session_org and route_org != session_org`
abbrev pub other_org : Option String → Dict Json → Bool
other_org route session =
    nonempty (or_empty route)
    && nonempty (session_org session)
    && not (or_empty route == session_org session)

-- `"user" in session`
abbrev pub is_logged_in : Dict Json → Bool
is_logged_in session = elim (lookup "user" session) [ none ↦ false | some _ ↦ true ]

texts_of : List Json → List String
texts_of [] = []
texts_of (str s ∷ xs) = s ∷ texts_of xs
texts_of (_ ∷ xs) = texts_of xs

-- `session.get(key, [])` for a list of texts
unfoldable pub session_texts : String → Dict Json → List String
unfolding texts_of
session_texts key session = elim (lookup key session) [
  | some (arr xs) ↦ texts_of (items xs)
  | _ ↦ []
]

-- `has_role` and `has_scope`
abbrev pub has_any : List String → List String → Bool
has_any wanted held = any (λ r. member r held) wanted

abbrev pub has_role : List String → Dict Json → Bool
has_role roles session = has_any roles (session_texts "user_roles" session)

abbrev pub has_scope : List String → Dict Json → Bool
has_scope scopes session = has_any scopes (session_texts "user_scopes" session)

-- `session.get("is_admin")`, by its truth value
abbrev pub is_admin : Dict Json → Bool
is_admin session = truthy (value_or null (lookup "is_admin" session))

module _ {R : Type 0} where
  -- `login_required`
  unfoldable pub login_required : Option String → Run (Web R) View → Run (Web R) View
  login_required route view w =
      if not (is_logged_in w.session)
      then (
        ok (
            redirect_for "main.login"
              (if nonempty (or_empty route) then ("org_handle", or_empty route) ∷ [] else [])),
        w,
      )
      else if other_org route w.session
      then (err (http 403 ""), w)
      else view w

  -- `org_required`
  unfoldable pub org_required : Option String → Run (Web R) View → Run (Web R) View
  org_required route view w =
      if not (is_logged_in w.session)
      then (err (http 401 ""), w)
      else if other_org route w.session
      then (err (http 403 ""), w)
      else view w

  -- `admin_required`
  unfoldable pub admin_required : Run (Web R) View → Run (Web R) View
  admin_required view w = if not (is_admin w.session) then (err (http 403 ""), w) else view w

  -- `role_required`
  unfoldable pub role_required : List String → Run (Web R) View → Run (Web R) View
  role_required roles view w =
      if not (has_role roles w.session) then (err (http 403 ""), w) else view w

  -- `require_plan_and_role`
  unfoldable pub require_plan_and_role :
      ApiClient R → String → String → Run (Web R) View → Run (Web R) View
  require_plan_and_role c required_plan required_role view w =
      (do
        plan_info ←
            get_organization_plan c
              (elim (user_field "org_id" (str "") w.session) [ str s ↦ s | _ ↦ "" ]) none
        plan ← lift (get_key "plan" plan_info)
        if not (is_text required_plan (some (value_or (str "basic") plan)))
            then raise (http 403 "")
            else (λ w'.
                (if not (member required_role (session_texts "user_roles" w'.session))
                  then (err (http 403 ""), w')
                  else view w')))
        w
