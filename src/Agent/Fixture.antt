-- ===== src/Agent/Fixture.antt =====
-- Sample data for the tests of the agent's modules: settings, an identity server and an API that
-- answer every call, a token library that knows one payload, and worlds.
use wso2_teamspace_demo.Base.{ℕ, false, none, leb, if◌then◌else◌}
use wso2_teamspace_demo.Base.Json.{Json, str, num, null, arr, cons, nil, obj, Fields, end, field}
use wso2_teamspace_demo.Base.Run.{ok}
use wso2_teamspace_demo.Agent.Store.{InMemoryStore, empty}
use wso2_teamspace_demo.Agent.World.{World}
use wso2_teamspace_demo.Agent.Config.{Settings}
use wso2_teamspace_demo.Agent.Outside.{Outside, Method}
use wso2_teamspace_demo.Agent.OAuth.{Jwt, claims, expired_signature, state_payload}

abbrev pub settings : Settings
settings = record {
  is_base_url = "https://is";
  is_org_handle = "acme";
  tenant_override = none;
  client_id = "app";
  client_secret = "hush";
  agent_redirect_uri = "https://agent/callback";
  agent_service_url = "https://agent";
  mock_llm = false;
  state_signing_secret = "key";
  clock_skew_seconds = 30;
}

abbrev answer : Json
answer = obj (
    field "flowId" (str "f1") (
      field "nextStep"
        (obj (
          field "authenticators" (arr (cons (obj (field "authenticatorId" (str "a1") end)) nil))
            end))
        (field "access_token" (str "delegated")
          (field "code" (str "c1") (field "expires_in" (num 3600) end)))))

abbrev status_of : Method → ℕ
status_of Method.get = 200
status_of Method.post = 201
status_of Method.put = 200
status_of Method.delete = 204

abbrev pub outside : Outside InMemoryStore
outside = record {
  post_form = λ url form w. (ok answer, w);
  post_json = λ url body w. (ok answer, w);
  random_token = λ n. "drawn";
  challenge = λ v. v;
  urlencode = λ d. "query";
  fetch_jwks = λ w. (ok (obj end), w);
  unverified_header = λ token. ok end;
  decode_rs256 = λ token key audience issuer leeway now. ok end;
  call_api =
      λ m path token body w. (ok (record { status_code = status_of m; json = null; text = "" }), w);
  show = λ v. "shown";
}

abbrev pub payload : Fields
payload = state_payload "t1" "book" "drawn" 100

abbrev pub jwt : Jwt
jwt = record {
  encode = λ p secret. "signed";
  decode = λ token secret now. if leb 400 now then expired_signature else claims payload;
}

abbrev pub world_at : ℕ → InMemoryStore → World InMemoryStore
world_at wall s = record {
  store = s;
  mono = 5;
  wall = wall;
  drawn = 0;
  jwks = record { cached = none; fetched_at = 0 };
}

abbrev pub fresh : World InMemoryStore
fresh = world_at 100 empty
