-- ===== src/Agent/AuthManager/Tests.antt =====
-- Examples for the token store (agent/auth_manager.py).
use wso2_teamspace_demo.Base.{
  ◌≡◌, ◌+◌, arith, some, refl, none, some, [], ◌∷◌, ≢-of-nonempty, string_dec,
}
use wso2_teamspace_demo.Base.Json.{Json, str, num, obj, end, field, field_of}
use wso2_teamspace_demo.Base.Run.{ok}
use wso2_teamspace_demo.Agent.Store.Interface.{pkce_verifier, in_memory, Namespace-discrete}
use wso2_teamspace_demo.Agent.World.{peek}
use wso2_teamspace_demo.Agent.Fixture.{fresh, settings, outside}
use wso2_teamspace_demo.Agent.AuthManager.{
  get_obo_token, store_issued, token_response, get_real_wso2_authorization_url, redeem_code,
}
use wso2_teamspace_demo.Agent.AuthManager.Laws.{
  get_obo_token-store_issued, new_authorization, redeem_code-verifier,
}

-- A token for an hour that was stored at 100 and is read at 3640, the last second.
abbrev issued : Json
issued = obj (field "access_token" (str "a") (field "expires_in" (num 3600) end))

get_obo_token-store_issued_example :
    (get_obo_token in_memory "t1"
      (record (store_issued in_memory settings outside "t1" issued fresh).1 {
        mono = fresh.mono + 3540;
        wall = 3640;
      })).0
    ≡ ok (some (str "a"))
unfolding token_response field_of string_dec
get_obo_token-store_issued_example =
    get_obo_token-store_issued in_memory settings outside "t1" issued (str "a") 3600 3540 3640 fresh
      refl (λ h. cc) (omega arith)

new_authorization_example :
    peek in_memory
      (get_real_wso2_authorization_url in_memory settings outside "t1"
        ("s" ∷ [])
        "state"
        "agent"
        fresh).1
      pkce_verifier
      "t1"
    ≡ some (str "drawn")
unfolding Namespace-discrete string_dec
new_authorization_example =
    new_authorization in_memory settings outside "t1" "state" "agent" ("s" ∷ []) fresh pkce_verifier
      "t1" (≢-of-nonempty "agent" refl)

redeem_code-verifier_example :
    peek in_memory
      (redeem_code in_memory settings outside "t1" "code" (str "actor") fresh).1
      pkce_verifier
      "t1"
    ≡ none
redeem_code-verifier_example =
    redeem_code-verifier in_memory settings outside "t1" "code" (str "actor") fresh
      (λ url form v gone. gone)
