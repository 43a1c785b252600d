-- ===== src/Agent/OAuth/Signed.antt =====
-- agent/main.py: the signed state and the cookie of the consent round trip, and the responses.
-- PyJWT is a parameter. Signed payloads hold texts under "thread_id", "action" and "state".
use Prim.Native.Char.{code}
use native.Mathlib.Decide.{ℕ_discrete}
use mathlib.Core.Logic.{ite}
use wso2_teamspace_demo.Base.{
  ℕ, ◌+◌, String, Bool, true, false, not, Option, none, some, List, [], ◌∷◌, ◌==◌, nonempty,
  or_empty, if◌then◌else◌,
}
use wso2_teamspace_demo.Base.Json.{str, num, Fields, end, field, field_of}
use wso2_teamspace_demo.Agent.StateManager.{
  FlowState, booking_authorized, list_authorized, update_authorized, delete_authorized,
}
use wso2_teamspace_demo.Agent.AuthManager.{is_text}

-- `OAUTH_STATE_TTL_SECONDS`
abbrev pub oauth_state_ttl_seconds : ℕ
oauth_state_ttl_seconds = 300

-- What `jwt.decode` does: returns the claims, raises `ExpiredSignatureError`, or raises another error.
pub data Decoded : Type 0 where
  claims : Fields → Decoded
  expired_signature invalid_token : Decoded

pub record Jwt : Type 0 where
  pub encode : Fields → String → String
  -- the token, the secret, and the wall clock
  pub decode : String → String → ℕ → Decoded

-- The pages of `_OAUTH_ERROR_HTML`.
pub data ErrorPage : Type 0 where
  csrf_mismatch invalid_state invalid_session auth_failed misconfigured expired no_agent : ErrorPage

pub record Cookie : Type 0 where
  pub value : String
  pub http_only : Bool
  pub same_site : String
  pub secure : Bool
  pub path : String
  pub max_age : ℕ

pub data Response : Type 0 where
  error_page : ErrorPage → ℕ → Response
  redirect : String → Cookie → Response
  -- the page that closes the popup; the cookie is deleted
  authorized : Response

abbrev pub oauth_error : ErrorPage → Response
oauth_error page = error_page page 400

-- The scopes that an action asks for.
unfoldable pub scopes_for : String → Option (List String)
scopes_for action =
    if action == "list"
    then some ("list_meetings_agent" ∷ [])
    else if action == "update"
    then some ("list_meetings_agent" ∷ "update_meeting_agent" ∷ [])
    else if action == "delete"
    then some ("list_meetings_agent" ∷ "delete_meeting_agent" ∷ [])
    else if action == "book"
    then some ("create_meeting_agent" ∷ [])
    else none

-- `_action_to_flow_state`
unfoldable pub action_to_flow_state : String → FlowState
action_to_flow_state action =
    if action == "list"
    then list_authorized
    else if action == "update"
    then update_authorized
    else if action == "delete"
    then delete_authorized
    else booking_authorized

-- The payload of the signed state and of the cookie.
abbrev pub state_payload : String → String → String → ℕ → Fields
state_payload thread action csrf now = field "thread_id" (str thread) (
    field "action" (str action) (
      field "state" (str csrf)
        (field "iat" (num now) (field "exp" (num (now + oauth_state_ttl_seconds)) end))))

-- `payload.get(key)` where texts alone are stored.
abbrev pub text_field : String → Fields → Option String
text_field k fs = elim (field_of k fs) [ some (str s) ↦ some s | _ ↦ none ]

-- `_decode_signed_state`
pub record SignedState : Type 0 where
  pub thread_id : Option String
  pub action : Option String
  pub csrf : Option String
  pub expired : Bool

abbrev pub signed_state_of : Decoded → SignedState
signed_state_of (claims p) = record {
  thread_id = text_field "thread_id" p;
  action = text_field "action" p;
  csrf = text_field "state" p;
  expired = false;
}
signed_state_of expired_signature = record {
  thread_id = none;
  action = none;
  csrf = none;
  expired = true;
}
signed_state_of invalid_token = record {
  thread_id = none;
  action = none;
  csrf = none;
  expired = false;
}

-- What `_verify_oauth_cookie` does with the decoded cookie.
abbrev pub check_csrf : Decoded → Option String → Option ErrorPage
check_csrf expired_signature csrf = some expired
check_csrf invalid_token csrf = some invalid_session
check_csrf (claims p) csrf =
    if not (nonempty (or_empty csrf))
    then some invalid_state
    else if is_text (or_empty csrf) (field_of "state" p)
    then none
    else some csrf_mismatch

-- `state.split(":", 1)`: what stands before the first colon, and what follows it, if there is one.
unfoldable pub split_state : String → String × Option String
split_state String.[] = ("", none)
split_state (String.◌∷◌ c s) =
    let (head, rest) = split_state s in
    ite (ℕ_discrete (code c) b':') ("", some s) (String.◌∷◌ c head, rest)

-- `_fallback_parse_state`
unfoldable pub fallback_parse_state : String → String × String
unfolding split_state
fallback_parse_state state =
    let (thread, rest) = split_state state in
    (thread, elim rest [ some action ↦ action | none ↦ "book" ])
