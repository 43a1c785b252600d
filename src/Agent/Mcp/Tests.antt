-- ===== src/Agent/Mcp/Tests.antt =====
-- Examples for the tools (agent/mcp_server.py).
use wso2_teamspace_demo.Base.{
  ltb, if◌then◌else◌, ◌≡◌, refl, none, [], ◌∷◌, String, ≢-of-==, string_dec, lookup, insert, erase,
}
use wso2_teamspace_demo.Base.Json.{Json, obj, field, arr, nil, str, end, field_of}
use wso2_teamspace_demo.Base.Run.{ok, err, other_error}
use wso2_teamspace_demo.Agent.Store
use wso2_teamspace_demo.Agent.Store.{InMemoryStore}
use wso2_teamspace_demo.Agent.Store.Interface.{obo_token, in_memory, Namespace, Namespace-discrete}
use wso2_teamspace_demo.Agent.Store.Expiry.{read}
use wso2_teamspace_demo.Agent.World.{World, peek}
use wso2_teamspace_demo.Agent.StateManager.{
  booking_authorized, FlowState-discrete, get_state, set_state, flow_state_of,
  clear_pending_meeting,
}
use wso2_teamspace_demo.Agent.AuthManager.{entry, live_token_of, get_obo_token, clear_obo_tokens}
use wso2_teamspace_demo.Agent.Outside.{Outside}
use wso2_teamspace_demo.Agent.Mcp.Token.{get_jwks, logged}
use wso2_teamspace_demo.Agent.Mcp.Token.Cache.{get_jwks_again}
use wso2_teamspace_demo.Agent.Fixture.{fresh, settings, outside}
use wso2_teamspace_demo.Agent.Mcp.Reply.{status, finalize_action}
use wso2_teamspace_demo.Agent.Mcp.Action.{granted, handle_schedule_meeting}
use wso2_teamspace_demo.Agent.Mcp.Server.{handler, schedule_meeting}
use wso2_teamspace_demo.Agent.Mcp.Authority.{
  schedule, action_refused, action_once, finalize_action_lem,
}

-- A thread whose flow was authorized, with the token "tok".
abbrev authorized : World InMemoryStore
authorized =
    let w = (set_state in_memory "t1" booking_authorized fresh).1 in
    record w { store = Store.set "obo_token" "t1" (entry (str "tok") 3600 100) 86400 5 w.store }

action_refused_example :
    (handler in_memory settings outside schedule_meeting "tok" end
        ("create_meeting_agent" ∷ [])
        "t1"
        "Bot"
        fresh
      ≡ (
        ok (status "waiting_for_authorization" end),
        (granted in_memory booking_authorized "tok" "t1" fresh).1,
      ))
    × ((m : Namespace) (k : String)
        → peek in_memory (granted in_memory booking_authorized "tok" "t1" fresh).1 m k
          ≡ peek in_memory fresh m k)
unfolding string_dec FlowState-discrete flow_state_of read lookup
action_refused_example =
    action_refused in_memory settings outside schedule "tok" end ("create_meeting_agent" ∷ []) "t1"
      "Bot" fresh refl

action_once_example :
    (handler in_memory settings outside schedule_meeting "tok" end
      ("create_meeting_agent" ∷ [])
      "t1"
      "Bot"
      (finalize_action in_memory "t1"
        (granted in_memory booking_authorized "tok" "t1" authorized).1).1).0
    ≡ ok (status "waiting_for_authorization" end)
unfolding string_dec handler handle_schedule_meeting granted get_state get_obo_token finalize_action
    set_state clear_obo_tokens clear_pending_meeting Store.get Store.set Store.delete lookup insert
    erase field_of live_token_of FlowState-discrete flow_state_of
action_once_example =
    action_once in_memory settings outside schedule "tok" end ("create_meeting_agent" ∷ []) "t1"
      "Bot" authorized _ "booked" _ "tok" end (≢-of-== "booked" "waiting_for_authorization" refl)
      refl

finalize_action_example :
    peek in_memory (finalize_action in_memory "t1" authorized).1 obo_token "t1" ≡ none
unfolding string_dec Namespace-discrete
finalize_action_example = finalize_action_lem in_memory "t1" authorized obo_token "t1"

abbrev keys : Json
keys = obj (field "keys" (arr nil) end)

-- An identity server that is up until 1000, with a key set.
abbrev up_until : Outside InMemoryStore
up_until = record outside {
  fetch_jwks = λ w. (if ltb w.wall 1000 then ok keys else err other_error, w);
}

get_jwks_again_example :
    ((get_jwks settings up_until (record (get_jwks settings up_until fresh).1 { wall = 9000 })).0
      ≡ ok keys)
    × ((get_jwks settings up_until
          (record (get_jwks settings up_until fresh).1 { wall = 9000 })).1.jwks
        ≡ (get_jwks settings up_until fresh).1.jwks)
unfolding get_jwks logged field_of string_dec
get_jwks_again_example = get_jwks_again settings up_until fresh keys other_error 9000 refl refl refl
