-- ===== src/Agent/OAuth/Tests.antt =====
-- Examples for the consent round trip (agent/main.py).
use wso2_teamspace_demo.Base.{
  ◌≡◌, refl, none, some, true, false, arith, String, ≢-of-nonempty, string_dec, lookup, insert,
  erase,
}
use wso2_teamspace_demo.Base.Json.{field_of, items}
use wso2_teamspace_demo.Base.Run.{ok}
use wso2_teamspace_demo.Agent.Store
use wso2_teamspace_demo.Agent.Store.{InMemoryStore}
use wso2_teamspace_demo.Agent.Store.Interface.{in_memory}
use wso2_teamspace_demo.Agent.World.{World}
use wso2_teamspace_demo.Agent.StateManager.{
  booking_authorized, get_state, set_state, get_agent_credentials, set_agent_credentials,
  credentials_of,
}
use wso2_teamspace_demo.Agent.AuthManager.{
  exchange_obo_code, redeem_code, fetch_agent_token, select_authenticator,
  get_real_wso2_authorization_url,
}
use wso2_teamspace_demo.Agent.Config.{state_jwt_signing_secret}
use wso2_teamspace_demo.Agent.Fixture.{fresh, settings, outside, jwt, payload, world_at}
use wso2_teamspace_demo.Agent.OAuth.{
  expired, authorized, invalid_session, oauth_error, oauth_callback, initiate_oauth, scopes_for,
  action_to_flow_state, verify_oauth_cookie, finish_callback,
}
use wso2_teamspace_demo.Agent.OAuth.Callback.{IsGenuine, callback_sound, callback_rejected}
use wso2_teamspace_demo.Agent.OAuth.RoundTrip.{Signs, callback_of_flow, round_trip}

-- A thread whose agent's credentials are stored.
abbrev ready : World InMemoryStore
ready = (set_agent_credentials in_memory "t1" "agent" "pass" fresh).1

jwt-Signs : Signs jwt payload "key"
unfolding field_of string_dec
jwt-Signs = record {
  encode_nonempty = ≢-of-nonempty "signed" refl;
  decode-encode = λ issued expiry now i e later. ground arith;
}

callback_sound_example :
    (secret : String) × (state_jwt_signing_secret settings ≡ ok secret)
    × IsGenuine jwt "signed" secret (some "signed") 100
unfolding oauth_callback state_jwt_signing_secret verify_oauth_cookie finish_callback
    exchange_obo_code redeem_code fetch_agent_token get_agent_credentials set_agent_credentials
    credentials_of set_state Store.get Store.set Store.delete lookup insert erase field_of items
    select_authenticator string_dec
callback_sound_example =
    callback_sound in_memory settings outside jwt "code" "signed" (some "signed") ready refl refl

callback_rejected_example :
    (oauth_callback in_memory settings outside jwt "code" "signed" none ready).1 ≡ ready
unfolding oauth_callback state_jwt_signing_secret verify_oauth_cookie string_dec field_of
    set_agent_credentials
callback_rejected_example =
    callback_rejected in_memory settings outside jwt "code" "signed" none ready invalid_session 400
      (ground arith) refl

round_trip_example :
    let done =
      oauth_callback in_memory settings outside jwt "code" "signed" (some "signed") ready in
    (done.0 ≡ ok authorized) × ((get_state in_memory "t1" done.1).0 ≡ ok booking_authorized)
unfolding oauth_callback state_jwt_signing_secret verify_oauth_cookie finish_callback
    exchange_obo_code redeem_code fetch_agent_token get_agent_credentials set_agent_credentials
    credentials_of set_state Store.get Store.set Store.delete lookup insert erase field_of items
    select_authenticator string_dec initiate_oauth scopes_for action_to_flow_state
    get_real_wso2_authorization_url
round_trip_example =
    round_trip in_memory settings outside jwt "t1" "book" "code" "key"
      "https://is/t/acme/oauth2/authorize?query" false
      (record {
        value = "signed";
        http_only = true;
        same_site = "lax";
        secure = false;
        path = "/callback";
        max_age = 300;
      })
      ready _ ready _ _ jwt-Signs refl (≢-of-nonempty "t1" refl) (≢-of-nonempty "drawn" refl) refl
      (omega arith) (omega arith) refl refl

callback_of_flow_example :
    oauth_callback in_memory settings outside jwt "code" "signed"
      (some "signed")
      (world_at 400 Store.empty)
    ≡ (ok (oauth_error expired), world_at 400 Store.empty)
unfolding string_dec state_jwt_signing_secret
callback_of_flow_example =
    callback_of_flow in_memory settings outside jwt "t1" "book" "drawn" "code" "key" 100
      (world_at 400 Store.empty) jwt-Signs refl (≢-of-nonempty "t1" refl)
      (≢-of-nonempty "drawn" refl) (omega arith)
