-- ===== src/Web/Agents/Gate.antt =====
-- Who passes the gate of the agents' views (webapp/blueprints/agents.py, webapp/api_proxy.py).
use wso2_teamspace_demo.Base.{
  sym, ◌∙◌, String, ◌<>◌, [], ◌≡◌, ◌↔◌, refl, Bool, true, false, Option, none, some, member, arith,
  inl, inr, Bool-cases, ◌⊎◌,
}
use mathlib.Core.Path.{subst}
use wso2_teamspace_demo.Base.Json.{Json, str}
use wso2_teamspace_demo.Base.Values.{is_text}
use wso2_teamspace_demo.Base.Run.{Result, ok, err, Result-cases}
use wso2_teamspace_demo.Web.Session.{Web, user_field}
use wso2_teamspace_demo.Web.Login.{text_of}
use wso2_teamspace_demo.Web.ApiProxy.{ApiClient, HttpReply, api_request, resolve_plan_for_gating}
use wso2_teamspace_demo.Web.ApiProxy.Plan.{permits, is_open, resolve_plan_for_gating-permits}
use wso2_teamspace_demo.Web.Access.{teamspace_admin, session_texts, is_admin}
use wso2_teamspace_demo.Web.Agents.{allowed, decide, check_plan_and_role, gate_agents_by_plan}

decide-allowed :
    (org_plan : Option Json) (required_plan : String) (has_role : Bool)
    → (decide org_plan required_plan has_role ≡ allowed)
      ↔ ((has_role ≡ true) × ((org_plan ≡ none) ⊎ (is_text required_plan org_plan ≡ true)))
unfolding decide
decide-allowed none required_plan true = (λ h. (refl, inl refl), λ h. refl)
decide-allowed none required_plan false =
    (λ h. absurd (ground (arith, h)), λ h. absurd (ground (arith, h.0)))
decide-allowed (some plan) required_plan has_role =
    elim (Bool-cases (is_text required_plan (some plan))) [
      | inl e ↦ (λ h. (ground (arith, h, e), inr e), λ h. ground (arith, h.0, e))
      | inr e ↦ (
        λ h. absurd (ground (arith, h, e)),
        λ (granted, u). elim u [ inl missing ↦ cc | inr same ↦ absurd (ground (arith, e, same)) ],
      )
    ]

ok_inj : {A : Type 0} {a b : A} → ok a ≡ ok b → a ≡ b
ok_inj h = cc

module _ {R : Type 0} (api : ApiClient R) where
  -- The user's organization.
  abbrev pub org_of : Web R → String
  org_of w = text_of (user_field "org_id" (str "") w.session)

  gate_agents_by_plan-resolved :
      (w : Web R)
      → ((gate_agents_by_plan api w).0 ≡ ok allowed) ↔ (
          (plan : Option Json) × ((resolve_plan_for_gating api (org_of w) none w).0 ≡ ok plan)
          × (is_admin w.session ≡ true)
          × (member teamspace_admin (session_texts "user_roles" w.session) ≡ true)
          × ((plan ≡ none) ⊎ (is_text "enterprise" plan ≡ true)))
  unfolding gate_agents_by_plan check_plan_and_role
  gate_agents_by_plan-resolved w = elim (Bool-cases (is_admin w.session)) [
    | inr e ↦ (
      λ h. cc (rw (gate_agents_by_plan, e) at h),
      λ (plan, got, admin, granted, u). absurd (ground (arith, e, admin)),
    )
    | inl e ↦ elim (Result-cases (resolve_plan_for_gating api (org_of w) none w).0) [
      | inr (x, failed) ↦ (
        λ h. cc (rw (gate_agents_by_plan, e, check_plan_and_role, failed) at h),
        λ (plan, got, admin, granted, u). cc (rw failed at got),
      )
      | inl (plan, got) ↦
          let (there, back) =
            decide-allowed plan "enterprise"
              (member teamspace_admin (session_texts "user_roles" w.session)) in
          (
            λ h.
                (let passed =
                    there (ok_inj (rw (gate_agents_by_plan, e, check_plan_and_role, got) at h)) in
                  (plan, got, e, passed.0, passed.1)),
            λ (plan', got', admin, granted, u).
                (let same : plan' ≡ plan = ok_inj (sym got' ∙ got) in
                  let passed =
                    back
                      (granted, subst (λ p. (p ≡ none) ⊎ (is_text "enterprise" p ≡ true)) same u) in
                  rw (e, got, passed) refl),
          )
    ]
  ]

  open_plan :
      (r : Result (Option Json))
      → (is_open r ≡ true) ↔ (
          (plan : Option Json) × (r ≡ ok plan)
          × ((plan ≡ none) ⊎ (is_text "enterprise" plan ≡ true)))
  open_plan (ok none) = (λ h. (none, refl, inl refl), λ u. refl)
  open_plan (ok (some v)) = (
    λ h. (some v, refl, inr h),
    λ (plan, same, u). elim u [
      | inl missing ↦ cc
      | inr named ↦ subst (λ p. is_text "enterprise" p ≡ true) (sym (ok_inj same)) named
    ],
  )
  open_plan (err e) = (λ h. cc, λ (plan, same, u). cc)

  -- Given the Business API's answer to the request for the plan, the gate of the agents' views
  -- allows exactly those sessions that are an administrator's with the role teamspace-admin, where
  -- the plan is enterprise or cannot be known: the session names no organization, or the answer is
  -- neither a 404 nor a 200 with a JSON body. A plan that is missing, by a 404 or in the body of a
  -- 200, is not enterprise.
  pub gate_agents_by_plan-allowed :
      (w : Web R) (reply : HttpReply)
      → (api_request api "GET" ("/plans/org/" <> org_of w) none [] none w).0 ≡ ok reply
      → ((gate_agents_by_plan api w).0 ≡ ok allowed) ↔ (
          (is_admin w.session ≡ true)
          × (member teamspace_admin (session_texts "user_roles" w.session) ≡ true)
          × (permits (org_of w) reply ≡ true))
  gate_agents_by_plan-allowed w reply answered =
      let (there, back) = gate_agents_by_plan-resolved w in
      let (shut, unlock) = open_plan (resolve_plan_for_gating api (org_of w) none w).0 in
      let same = resolve_plan_for_gating-permits api (org_of w) w reply answered in
      (
        λ h.
            (let (plan, got, admin, granted, u) = there h in
              (admin, granted, sym same ∙ unlock (plan, got, u))),
        λ (admin, granted, permitted).
            (let (plan, got, u) = shut (same ∙ permitted) in back (plan, got, admin, granted, u)),
      )
