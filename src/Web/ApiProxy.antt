-- ===== src/Web/ApiProxy.antt =====
-- webapp/api_proxy.py and webapp/service_auth.py: the portal's calls of the Business API.
-- HTTP and the service's headers (common/m2m_auth.py) are parameters.
pub mod Plan
use wso2_teamspace_demo.Base.{
  ℕ, String, ◌<>◌, Bool, true, false, not, Option, none, some, [], ◌∷◌, Dict, lookup, insert,
  nonempty, or_empty, nat_eq, if◌then◌else◌,
}
use wso2_teamspace_demo.Base.Json.{Json, null, str, arr, nil, obj, end, field}
use wso2_teamspace_demo.Base.Values.{get_key, value_or, or_value}
use wso2_teamspace_demo.Base.Run.{Result, ok, err, value_error, Run, pure, lift, ◌>>=◌}
use wso2_teamspace_demo.Web.Session.{Web, outside}

-- `requests.Response`: the body is missing where it is no JSON.
pub record HttpReply : Type 0 where
  pub status_code : ℕ
  pub body : Option Json
  pub text : String

-- `ApiResult`
pub record ApiResult : Type 0 where
  pub status_code : ℕ
  pub value : Json

-- `resp.json()`
abbrev pub json_of : HttpReply → Result Json
json_of resp = elim resp.body [ none ↦ err value_error | some v ↦ ok v ]

-- `_parse_response`
abbrev pub parse_response : HttpReply → ApiResult
parse_response resp = record {
  status_code = resp.status_code;
  value = elim resp.body [ none ↦ str resp.text | some v ↦ v ];
}

-- The answer in place of a connection that failed.
abbrev pub offline : HttpReply
offline = record {
  status_code = 503;
  body = some (obj (field "detail" (str "Business API offline") end));
  text = "{\"detail\": \"Business API offline\"}";
}

-- `DEFAULT_PLAN`
abbrev pub default_plan : String
default_plan = "basic"

-- `requests.request`, which gives nothing after a `RequestException`, with the method, the URL, the headers
-- and the body; and `service_token_client().auth_headers`, with or without `force_refresh`.
pub record ApiClient (R : Type 0) : Type 0 where
  pub business_api_url : String
  pub request : String → String → Dict String → Option Json → R → Option HttpReply × R
  pub auth_headers : Bool → R → Dict String × R

-- `headers.setdefault(key, value)`
abbrev pub set_default : String → String → Dict String → Dict String
set_default key value headers = elim (lookup key headers) [
  | some _ ↦ headers
  | none ↦ insert key value headers
]

module _ {R : Type 0} (c : ApiClient R) where
  -- The token that was given, or the session's.
  abbrev bearer : Option String → Dict Json → String
  bearer token session =
      if nonempty (or_empty token)
      then or_empty token
      else elim (lookup "access_token" session) [ some (str s) ↦ s | _ ↦ "" ]

  -- `api_request`
  unfoldable pub api_request :
      String → String → Option String → Dict String → Option Json → Run (Web R) HttpReply
  api_request method path token headers body w =
      let t = bearer token w.session in
      let with_token =
        if nonempty t then insert "Authorization" ("Bearer " <> t) headers else headers in
      let (resp, rest) =
        c.request method (c.business_api_url <> path)
          (set_default "Content-Type" "application/json" with_token) body w.rest in
      (ok (elim resp [ none ↦ offline | some r ↦ r ]), record { session = w.session; rest = rest })

  -- `_parse_response(api_request(…))`
  abbrev call : String → String → Option String → Option Json → Run (Web R) ApiResult
  call method path token body = do
    resp ← api_request method path token [] body
    pure (parse_response resp)

  -- `resp.json()` after a 200, and a default otherwise
  abbrev fetched_or : Json → String → Run (Web R) Json
  fetched_or default path = do
    resp ← api_request "GET" path none [] none
    if nat_eq resp.status_code 200 then lift (json_of resp) else pure default

  abbrev pub get_meetings : Run (Web R) Json
  get_meetings = fetched_or (arr nil) "/meetings"

  abbrev pub create_meeting : Json → Run (Web R) ApiResult
  create_meeting v = call "POST" "/meetings" none (some v)

  abbrev pub update_meeting : String → Json → Run (Web R) ApiResult
  update_meeting meeting_id v = call "PUT" ("/meetings/" <> meeting_id) none (some v)

  abbrev pub delete_meeting : String → Run (Web R) ApiResult
  delete_meeting meeting_id = call "DELETE" ("/meetings/" <> meeting_id) none none

  -- `None` is null.
  abbrev pub get_personalization : String → Run (Web R) Json
  get_personalization org_id = fetched_or null ("/personalization/org/" <> org_id)

  abbrev pub upsert_personalization : Json → Run (Web R) ApiResult
  upsert_personalization v = call "POST" "/personalization" none (some v)

  abbrev pub delete_personalization : String → Run (Web R) ApiResult
  delete_personalization org_id = call "DELETE" ("/personalization/org/" <> org_id) none none

  abbrev pub get_agent_config : String → Run (Web R) Json
  get_agent_config org_id = fetched_or null ("/agent-config/org/" <> org_id)

  abbrev pub save_agent_config : Json → Run (Web R) ApiResult
  save_agent_config v = call "POST" "/agent-config" none (some v)

  abbrev pub delete_agent_config : String → Run (Web R) ApiResult
  delete_agent_config org_id = call "DELETE" ("/agent-config/org/" <> org_id) none none

  service_headers : Bool → Run (Web R) (Dict String)
  service_headers force =
      outside (λ rest. let (headers, rest') = c.auth_headers force rest in (ok headers, rest'))

  -- The configuration of an answer, where it is a 200.
  config_in : HttpReply → Run (Web R) Json
  config_in resp = if nat_eq resp.status_code 200 then lift (json_of resp) else pure null

  -- The second request, with a fresh service token.
  retry_config : String → Run (Web R) Json
  retry_config path = do
    headers ← service_headers true
    elim headers [
      | [] ↦ pure null
      | h ∷ hs ↦ (do resp ← api_request "GET" path none (h ∷ hs) none; config_in resp)
    ]

  -- `get_agent_config_via_service_token`
  unfoldable pub get_agent_config_via_service_token : String → Run (Web R) Json
  unfolding service_headers config_in retry_config
  get_agent_config_via_service_token org_id = do
    let path = "/agent-config/org/" <> org_id
    headers ← service_headers false
    elim headers [
      | [] ↦ pure null
      | h ∷ hs ↦ (do
        resp ← api_request "GET" path none (h ∷ hs) none
        if nat_eq resp.status_code 401 then retry_config path else config_in resp)
    ]

  -- `get_organization_plan`
  unfoldable pub get_organization_plan : String → Option String → Run (Web R) Json
  get_organization_plan org_id token = do
    resp ← api_request "GET" ("/plans/org/" <> org_id) token [] none
    if nat_eq resp.status_code 200
        then lift (json_of resp)
        else pure (obj (field "org" (str org_id) (field "plan" (str default_plan) end)))

  -- The plan in the body of a 200; a body that is no JSON is unknown.
  plan_in : Option Json → Result (Option Json)
  plan_in none = ok none
  plan_in (some v) = elim (get_key "plan" v) [
    | ok plan ↦ ok (some (or_value (value_or null plan) (str default_plan)))
    | err e ↦ err e
  ]

  -- `resolve_plan_for_gating`
  unfoldable pub resolve_plan_for_gating : String → Option String → Run (Web R) (Option Json)
  unfolding plan_in
  resolve_plan_for_gating org_id token = if not (nonempty org_id) then pure none else do
    resp ← api_request "GET" ("/plans/org/" <> org_id) token [] none
    if nat_eq resp.status_code 200
        then lift (plan_in resp.body)
        else if nat_eq resp.status_code 404
        then pure (some (str default_plan))
        else pure none

  -- `save_organization_plan`
  abbrev pub save_organization_plan : String → String → Option String → Run (Web R) ApiResult
  save_organization_plan org_id plan_id token =
      call "POST" "/plans" token
        (some (obj (field "org" (str org_id) (field "plan" (str plan_id) end))))
