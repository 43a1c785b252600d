-- ===== src/Web/ApiProxy/Plan.antt =====
-- What an answer about an organization's plan permits (webapp/api_proxy.py).
use wso2_teamspace_demo.Base.{
  String, ◌<>◌, ◌≡◌, refl, Bool, true, false, not, ◌||◌, Option, none, some, [], nonempty, nat_eq,
  arith, inl, inr, Bool-cases, if◌then◌else◌, string_dec, ◌==◌,
}
use wso2_teamspace_demo.Base.Json.{Json, null, str, obj, field_of}
use wso2_teamspace_demo.Base.Values.{value_or, or_value, is_text}
use wso2_teamspace_demo.Base.Run.{Result, ok, err}
use wso2_teamspace_demo.Web.Session.{Web}
use wso2_teamspace_demo.Web.ApiProxy.{
  ApiClient, HttpReply, api_request, plan_in, resolve_plan_for_gating,
}

-- Whether an enterprise feature is open: the plan is enterprise, or it is unknown, for want of an organization, or
-- by an answer that is neither a 404 nor a 200 with a JSON body.
abbrev pub permits : String → HttpReply → Bool
permits org reply =
    not (nonempty org)
    || (if nat_eq reply.status_code 200
        then elim reply.body [
          | none ↦ true
          | some (obj fs) ↦ is_text "enterprise" (field_of "plan" fs)
          | some _ ↦ false
        ]
        else not (nat_eq reply.status_code 404))

-- Whether a plan that was resolved is enterprise or unknown.
abbrev pub is_open : Result (Option Json) → Bool
is_open (ok none) = true
is_open (ok (some plan)) = is_text "enterprise" (some plan)
is_open (err e) = false

other_names : (("enterprise" == "basic") ≡ false) × (("enterprise" == "") ≡ false)
unfolding string_dec
other_names = (refl, refl)

named_plan :
    (plan : Option Json)
    → is_text "enterprise" (some (or_value (value_or null plan) (str "basic")))
      ≡ is_text "enterprise" plan
named_plan none = other_names.0
named_plan (some (str s)) = ground (arith, other_names.0, other_names.1)
named_plan (some v) = ground (arith, other_names.0)

module _ {R : Type 0} (c : ApiClient R) where
  plan_in-open :
      (body : Option Json)
      → is_open (plan_in c body) ≡ (elim body [
        | none ↦ true
        | some (obj fs) ↦ is_text "enterprise" (field_of "plan" fs)
        | some _ ↦ false
      ])
  unfolding plan_in
  plan_in-open none = refl
  plan_in-open (some (obj fs)) = named_plan (field_of "plan" fs)
  plan_in-open (some v) = refl

  pub resolve_plan_for_gating-permits :
      (org : String) (w : Web R) (reply : HttpReply)
      → (api_request c "GET" ("/plans/org/" <> org) none [] none w).0 ≡ ok reply
      → is_open (resolve_plan_for_gating c org none w).0 ≡ permits org reply
  unfolding resolve_plan_for_gating string_dec
  resolve_plan_for_gating-permits org w reply answered = elim (Bool-cases (nonempty org)) [
    | inr empty ↦ rw empty refl
    | inl named ↦ elim (Bool-cases (nat_eq reply.status_code 200)) [
      | inl e ↦ rw (named, answered, e) (plan_in-open reply.body)
      | inr e ↦ elim (Bool-cases (nat_eq reply.status_code 404)) [
        | inl e' ↦ rw (named, answered, e, e') refl
        | inr e' ↦ rw (named, answered, e, e') refl
      ]
    ]
  ]
