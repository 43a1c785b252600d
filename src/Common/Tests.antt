-- ===== src/Common/Tests.antt =====
-- Examples for the service tokens (common/m2m_auth.py).
use wso2_teamspace_demo.Base.{
  ◌≡◌, ◌↔◌, refl, Bool, true, false, none, some, [], String, words, string_dec, Dict, Option, ◌<>◌,
}
use wso2_teamspace_demo.Base.Strip.{lower_is, no_space, break_space, lstrip, rstrip}
use wso2_teamspace_demo.Base.Json.{
  Json, str, num, arr, obj, Fields, end, field, field_of, cons, nil, items,
}
use wso2_teamspace_demo.Base.Run.{Result, ok}
use wso2_teamspace_demo.Common.Tls.{resolve_verify_tls, resolve_verify_tls_lem, bundle}
use wso2_teamspace_demo.Common.Jwt.{PyJwt, select_signing_key, find_key}
use wso2_teamspace_demo.Common.Service.{
  service_scope, parse_bearer, scopes_of, verify_service_claims, require_service_auth,
  checked_claims,
}
use wso2_teamspace_demo.Common.Service.Gate.{
  parse_bearer-scheme, lists, IsApplication, verify_service_claims_lem, require_service_auth_sound,
}
use wso2_teamspace_demo.Common.Token.{
  M2mConfig, TokenWorld, Answer, get_token, handle_payload, lifetime_of,
}
use wso2_teamspace_demo.Common.Token.Reuse.{get_token-handle_payload}

parse_bearer-scheme_example : parse_bearer (some ("BEARER" <> String.◌∷◌ " " "abc")) ≡ some "abc"
unfolding lower_is no_space string_dec
parse_bearer-scheme_example = parse_bearer-scheme "BEARER" " " "abc" refl refl refl refl refl refl

-- The claims of a service.
abbrev service : Fields
service =
    field "scope" (str "openid teamspace_internal_service") (field "aut" (str "APPLICATION") end)

verify_service_claims_example : (verify_service_claims service service_scope ≡ ok tt) ↔ (
    (lists service_scope (field_of "scope" service) ≡ true)
    × IsApplication (field_of "aut" service))
verify_service_claims_example = verify_service_claims_lem service service_scope

abbrev key : Json
key = obj (field "kid" (str "k") end)

abbrev keys : Json
keys = obj (field "keys" (arr (cons key nil)) end)

abbrev py_jwt : PyJwt
py_jwt = record {
  unverified_header = λ token. ok (field "kid" (str "k") end);
  from_jwk = λ entry. ok entry;
  decode = λ token k audience issuer leeway now. ok service;
}

require_service_auth_example :
    (token : String) × (jwks : Json) × (k : Json) × (parse_bearer (some "Bearer abc") ≡ some token)
    × (◌≡◌ {A = Result Json} (ok keys) (ok jwks))
    × (select_signing_key py_jwt jwks token ≡ ok k)
    × (◌≡◌ {A = Result Fields} (ok service) (ok service))
    × (verify_service_claims service service_scope ≡ ok tt)
unfolding require_service_auth parse_bearer break_space lower_is lstrip rstrip checked_claims
    select_signing_key find_key items field_of verify_service_claims scopes_of words string_dec
require_service_auth_example =
    require_service_auth_sound py_jwt 60 "app" "issuer" service_scope (λ n. (ok keys, n)) (λ n. n)
      (some "Bearer abc") 7 service refl

abbrev config : M2mConfig
config = record {
  is_base_url = "https://is";
  tenant_path = "/t/acme";
  client_id = "app";
  client_secret = "hush";
  scope = "teamspace_internal_service";
}

abbrev grant : Fields
grant =
    field "access_token" (str "tok")
      (field "scope" (str "teamspace_internal_service") (field "expires_in" (num 3600) end))

abbrev idle : TokenWorld
idle = record { cache = []; mono = 100 }

abbrev endpoint : String → Dict String → TokenWorld → Option Answer × TokenWorld
endpoint url form w = (none, w)

get_token-handle_payload_example :
    get_token endpoint config false
      (record (handle_payload config (obj grant) idle).1 { mono = 3669 })
    ≡ (ok (some (str "tok")), record (handle_payload config (obj grant) idle).1 { mono = 3669 })
unfolding handle_payload lifetime_of words field_of string_dec
get_token-handle_payload_example =
    get_token-handle_payload endpoint config grant idle (str "tok") 3600 3669 refl refl refl

resolve_verify_tls_example :
    (◌≡◌ {A = Bool} true true)
    × ((path : String)
        → resolve_verify_tls (λ p. false) (some " Off ") true ≡ bundle path
        → (path ≡ "Off") × (◌≡◌ {A = Bool} false true))
unfolding resolve_verify_tls lower_is lstrip rstrip string_dec
resolve_verify_tls_example = resolve_verify_tls_lem (λ p. false) (some " Off ") true
