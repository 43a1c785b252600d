-- ===== src/Web/Tests.antt =====
-- Runs of the portal's login, gate, branding, chat and sign-up (webapp/).
use wso2_teamspace_demo.Base.{
  ℕ, ◌<>◌, ◌≡◌, ◌↔◌, refl, true, false, none, some, List, [], ◌∷◌, ◌++◌, lookup, member, string_dec,
}
use wso2_teamspace_demo.Base.Json.{
  Json, num, items, of_list, field_of, null, str, arr, cons, nil, obj, Fields, end, field,
}
use wso2_teamspace_demo.Base.Values.{value_or}
use wso2_teamspace_demo.Base.Run.{Result, ok, err, pure, ◌>>=◌}
use wso2_teamspace_demo.Base.Slices.{contains, partition, lower, rstrip_char}
use wso2_teamspace_demo.Base.Strip.{lstrip, rstrip}
use wso2_teamspace_demo.Common.Jwt.{PyJwt}
use wso2_teamspace_demo.Web.Session.{Web, redirect_for}
use wso2_teamspace_demo.Web.Login.{Authlib, WebConfig, handle_callback}
use wso2_teamspace_demo.Web.Login.Verified.{IsSafe, handle_callback-IsSafe}
use wso2_teamspace_demo.Web.ApiProxy.{ApiClient, api_request, resolve_plan_for_gating}
use wso2_teamspace_demo.Web.ApiProxy.Plan.{permits}
use wso2_teamspace_demo.Web.Access.{session_texts, is_admin, teamspace_admin}
use wso2_teamspace_demo.Web.Chat.{marker, stream_from, stream_response_chunks}
use wso2_teamspace_demo.Web.Chat.Marker.{stream_response_chunks-marked}
use wso2_teamspace_demo.Web.Agents.{allowed, upgrade_prompt, decide, gate_agents_by_plan}
use wso2_teamspace_demo.Web.Agents.Gate.{org_of, gate_agents_by_plan-allowed}
use wso2_teamspace_demo.Web.Access.{idp_manager}
use wso2_teamspace_demo.Web.Agents.{check_plan_and_role}
use wso2_teamspace_demo.Web.Admin.{object, list, check_idp_access}
use wso2_teamspace_demo.Web.Admin.LoginFlow.{parse_login_flow_steps}
use wso2_teamspace_demo.Web.Admin.Gate.{page_of, check_idp_access_lem}
use wso2_teamspace_demo.Web.Signup.{is_email, any_char, dot_inside, slugify}

-- An identity server that knows one user, who is an administrator.
abbrev claims : Fields
claims = field "sub" (str "u1") (
    field "given_name" (str "Ana") (
      field "org_id" (str "o1")
        (field "roles" (arr (cons (str "Application/teamspace-admin") nil)) end)))

abbrev jwt : PyJwt
jwt = record {
  unverified_header = λ token. ok (field "kid" (str "k1") end);
  from_jwk = λ key. ok key;
  decode = λ token key audience issuer leeway now. ok (field "scope" (str "read write") end);
}

abbrev authlib : Authlib ℕ
authlib = record {
  authorize_redirect = λ uri extra w. (ok (redirect_for uri extra), w);
  authorize_access_token = λ verifier w.
      (ok (obj (field "access_token" (str "at") (field "id_token" (str "it") end))), w);
  parse_id_token = λ token nonce w. (ok claims, w);
  jwt = jwt;
  decode_unverified = λ token. none;
  fetch_json =
      λ url w. (ok (obj (field "keys" (arr (cons (obj (field "kid" (str "k1") end)) nil)) end)), w);
  post_form = λ url form w. (none, w);
  token_urlsafe = λ w. (ok "drawn", w);
  challenge = λ v. v;
  quote = λ v. v;
  wall = λ w. w;
}

abbrev config : WebConfig
config = record {
  is_base_url = "https://is";
  tenant_path = "/t/acme";
  client_id = "app";
  client_secret = "hush";
  oidc_redirect_uri = "https://portal/callback";
  oidc_post_logout_uri = "https://portal";
  is_production = true;
  clock_skew_seconds = 30;
}

abbrev visited : Web ℕ
visited = record {
  session = ("oidc_nonce", str "n1") ∷ ("code_verifier", str "v1") ∷ [];
  rest = 100;
}

handle_callback_example :
    IsSafe authlib config
      (value_or null (lookup "oidc_nonce" visited.session))
      (handle_callback authlib config visited)
handle_callback_example = handle_callback-IsSafe authlib config visited refl

-- A Business API that is offline.
abbrev no_api : ApiClient ℕ
no_api = record {
  business_api_url = "https://api";
  request = λ method url headers body w. (none, w);
  auth_headers = λ force w. ([], w);
}

abbrev admin : Web ℕ
admin = record {
  session =
      ("is_admin", Json.bool true)
      ∷ ("user_roles", arr (cons (str "teamspace-admin") nil))
      ∷ ("user", obj (field "org_id" (str "o1") end))
      ∷ [];
  rest = 0;
}

-- A Business API that knows no plan of any organization.
abbrev no_plan : ApiClient ℕ
no_plan = record no_api {
  request =
      λ method url headers body w. (some (record { status_code = 404; body = none; text = "" }), w);
}

gate_agents_by_plan_example : ((gate_agents_by_plan no_plan admin).0 ≡ ok allowed) ↔ (
    (is_admin admin.session ≡ true)
    × (member teamspace_admin (session_texts "user_roles" admin.session) ≡ true)
    × (permits (org_of no_plan admin) (record { status_code = 404; body = none; text = "" })
        ≡ true))
unfolding api_request
gate_agents_by_plan_example =
    gate_agents_by_plan-allowed no_plan admin (record { status_code = 404; body = none; text = "" })
      refl

-- Without a plan the gate shows the upgrade; while the API is offline it lets the role decide.
gates :
    ((gate_agents_by_plan no_plan admin).0 ≡ ok upgrade_prompt)
    × ((gate_agents_by_plan no_api admin).0 ≡ ok allowed)
unfolding gate_agents_by_plan check_plan_and_role resolve_plan_for_gating api_request decide
    session_texts field_of string_dec lookup items
gates = (refl, refl)

stream_response_chunks_example :
    stream_response_chunks (("Hello" ∷ []) ++ (marker <> "{}") ∷ [])
    ≡ (("Hello" ∷ []) ++ ("" ∷ []), "{}")
unfolding contains string_dec
stream_response_chunks_example = stream_response_chunks-marked ("Hello" ∷ []) "{}" refl refl

-- A marker that is split over two chunks is not seen: the metadata are shown as text.
split_marker :
    stream_response_chunks ("__METADATA_" ∷ "START__{}" ∷ [])
    ≡ ("__METADATA_" ∷ "START__{}" ∷ [], "")
unfolding stream_from contains string_dec
split_marker = refl

emails : (is_email "a@b.c" ≡ true) × (is_email "a@b." ≡ false)
unfolding is_email any_char dot_inside partition string_dec
emails = (refl, refl)

slugged : slugify " Acme  Corp_1! " ≡ "acme-corp-1"
unfolding slugify lower lstrip rstrip rstrip_char string_dec
slugged = refl

abbrev IsAccepted : Result (List Json) → Type 0
IsAccepted (ok steps) = Unit
IsAccepted (err e) = ⊥

-- An option that is a text with both words in it passes the check of the steps.
abbrev odd_steps : Json
odd_steps =
    list (object (("id", num 1) ∷ ("options", list (str "idp,authenticator" ∷ [])) ∷ []) ∷ [])

odd_steps_pass : IsAccepted (parse_login_flow_steps (λ s. some odd_steps) "")
unfolding parse_login_flow_steps contains items of_list field_of string_dec
odd_steps_pass = tt

check_idp_access_example :
    check_idp_access no_api "admin/idp_upgrade.html" admin
    ≡ (do
      gated ← check_plan_and_role no_api "enterprise" idp_manager
      pure (page_of "admin/idp_upgrade.html" gated))
        admin
check_idp_access_example = check_idp_access_lem no_api "admin/idp_upgrade.html" admin
