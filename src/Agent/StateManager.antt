-- ===== src/Agent/StateManager.antt =====
-- agent/state_manager.py: the flow state of each chat thread, and what else a flow keeps.
pub mod Laws
mod Tests
use wso2_teamspace_demo.Base.{
  ℕ, String, Bool, true, false, not, Option, none, some, List, [], ◌∷◌, ◌==◌, if◌then◌else◌,
}
use wso2_teamspace_demo.Base.Json.{Json, null, str, arr, nil, cons, truthy}
use wso2_teamspace_demo.Base.Run.{Result, ok, err, other_error, Run, pure, lift, ◌>>=◌, ◌>>◌}
use wso2_teamspace_demo.Agent.Store.{default_ttl_seconds}
use wso2_teamspace_demo.Agent.Store.Interface.{
  Namespace, flow_state, pending_meeting, auth_url, agent_credentials, agent_name, org_name,
  KeyValueStore,
}
use wso2_teamspace_demo.Agent.World.{AgentWorld, store_get, store_set, store_delete, store_clear}

pub data FlowState : Type 0 where
  initial : FlowState
  booking_preview_initiated booking_authorized : FlowState
  list_preview_initiated list_authorized : FlowState
  update_preview_initiated update_authorized : FlowState
  delete_preview_initiated delete_authorized : FlowState

unfoldable pub FlowState-discrete : Discrete FlowState
FlowState-discrete = hlevel

pub data FrontendState : Type 0 where
  idle awaiting_authorization booking_complete : FrontendState

-- `state.value`
abbrev pub value_of : FlowState → String
value_of initial = "INITIAL"
value_of booking_preview_initiated = "BOOKING_PREVIEW_INITIATED"
value_of booking_authorized = "BOOKING_AUTHORIZED"
value_of list_preview_initiated = "LIST_PREVIEW_INITIATED"
value_of list_authorized = "LIST_AUTHORIZED"
value_of update_preview_initiated = "UPDATE_PREVIEW_INITIATED"
value_of update_authorized = "UPDATE_AUTHORIZED"
value_of delete_preview_initiated = "DELETE_PREVIEW_INITIATED"
value_of delete_authorized = "DELETE_AUTHORIZED"

-- `FlowState(raw)`, with `INITIAL` in place of the `ValueError`
flow_state_named : String → FlowState
flow_state_named s =
    if s == "BOOKING_PREVIEW_INITIATED"
    then booking_preview_initiated
    else if s == "BOOKING_AUTHORIZED"
    then booking_authorized
    else if s == "LIST_PREVIEW_INITIATED"
    then list_preview_initiated
    else if s == "LIST_AUTHORIZED"
    then list_authorized
    else if s == "UPDATE_PREVIEW_INITIATED"
    then update_preview_initiated
    else if s == "UPDATE_AUTHORIZED"
    then update_authorized
    else if s == "DELETE_PREVIEW_INITIATED"
    then delete_preview_initiated
    else if s == "DELETE_AUTHORIZED"
    then delete_authorized
    else initial

unfoldable pub flow_state_of : Option Json → FlowState
unfolding flow_state_named
flow_state_of (some (str s)) = flow_state_named s
flow_state_of _ = initial

abbrev pub frontend_of : FlowState → FrontendState
frontend_of booking_preview_initiated = awaiting_authorization
frontend_of list_preview_initiated = awaiting_authorization
frontend_of update_preview_initiated = awaiting_authorization
frontend_of delete_preview_initiated = awaiting_authorization
frontend_of booking_authorized = booking_complete
frontend_of list_authorized = booking_complete
frontend_of update_authorized = booking_complete
frontend_of delete_authorized = booking_complete
frontend_of initial = idle

-- `default if value is None else value`
abbrev pub present : Option Json → Option Json
present none = none
present (some null) = none
present (some v) = some v

-- The pair `(stored[0], stored[1])`; the empty pair where nothing is stored. Only pairs of texts are
-- ever written; on anything else the indexing fails.
unfoldable pub credentials_of : Option Json → Result (String × String)
credentials_of none = ok ("", "")
credentials_of (some (arr (cons (str agent_id) (cons (str agent_secret) _)))) =
    ok (agent_id, agent_secret)
credentials_of (some v) = if truthy v then err other_error else ok ("", "")

-- A stored text, with the default where there is none.
abbrev pub text_or : String → Option Json → String
text_or d (some (str s)) = s
text_or d _ = d

-- `DEFAULT_AGENT_NAME`
abbrev pub default_agent_name : String
default_agent_name = "Worklink Assistant"

-- `_ALL_NAMESPACES`
abbrev pub all_namespaces : List Namespace
all_namespaces =
    flow_state ∷ pending_meeting ∷ auth_url ∷ agent_credentials ∷ agent_name ∷ org_name ∷ []

module _ (K : KeyValueStore) where
  pub put : Namespace → String → Json → Run (AgentWorld K) (Unit {0})
  put n thread v = store_set K n thread v default_ttl_seconds

  pub fetch : Namespace → String → Run (AgentWorld K) (Option Json)
  fetch n thread = do value ← store_get K n thread; pure (present value)

  unfoldable pub get_state : String → Run (AgentWorld K) FlowState
  unfolding fetch
  get_state thread = do raw ← fetch flow_state thread; pure (flow_state_of raw)

  unfoldable pub set_state : String → FlowState → Run (AgentWorld K) (Unit {0})
  unfolding put
  set_state thread state = put flow_state thread (str (value_of state))

  unfoldable pub get_frontend_state : String → Run (AgentWorld K) FrontendState
  unfolding get_state
  get_frontend_state thread = do state ← get_state thread; pure (frontend_of state)

  unfoldable pub set_pending_meeting : String → Json → Run (AgentWorld K) (Unit {0})
  unfolding put
  set_pending_meeting thread meeting = put pending_meeting thread meeting

  unfoldable pub get_pending_meeting : String → Run (AgentWorld K) (Option Json)
  unfolding fetch
  get_pending_meeting thread = fetch pending_meeting thread

  unfoldable pub clear_pending_meeting : String → Run (AgentWorld K) (Unit {0})
  clear_pending_meeting thread = store_delete K pending_meeting thread

  unfoldable pub set_auth_url : String → String → Run (AgentWorld K) (Unit {0})
  unfolding put
  set_auth_url thread url = put auth_url thread (str url)

  unfoldable pub get_auth_url : String → Run (AgentWorld K) (Option Json)
  unfolding fetch
  get_auth_url thread = fetch auth_url thread

  unfoldable pub set_agent_credentials : String → String → String → Run (AgentWorld K) (Unit {0})
  unfolding put
  set_agent_credentials thread agent_id agent_secret =
      put agent_credentials thread (arr (cons (str agent_id) (cons (str agent_secret) nil)))

  unfoldable pub get_agent_credentials : String → Run (AgentWorld K) (String × String)
  unfolding fetch
  get_agent_credentials thread = do
    stored ← fetch agent_credentials thread
    lift (credentials_of stored)

  unfoldable pub set_org_name : String → String → Run (AgentWorld K) (Unit {0})
  unfolding put
  set_org_name thread name = put org_name thread (str name)

  unfoldable pub get_org_name : String → Run (AgentWorld K) String
  unfolding fetch
  get_org_name thread = do value ← fetch org_name thread; pure (text_or "" value)

  unfoldable pub set_agent_name : String → String → Run (AgentWorld K) (Unit {0})
  unfolding put
  set_agent_name thread name = put agent_name thread (str name)

  unfoldable pub get_agent_name : String → Run (AgentWorld K) String
  unfolding fetch
  get_agent_name thread = do
    value ← fetch agent_name thread
    pure (text_or default_agent_name value)

  delete_all : List Namespace → String → Run (AgentWorld K) (Unit {0})
  delete_all [] thread = pure tt
  delete_all (n ∷ ns) thread = do store_delete K n thread; delete_all ns thread

  unfoldable pub clear_state : String → Run (AgentWorld K) (Unit {0})
  unfolding delete_all
  clear_state thread = delete_all all_namespaces thread

  clear_all : List Namespace → Run (AgentWorld K) (Unit {0})
  clear_all [] = pure tt
  clear_all (n ∷ ns) = do store_clear K n; clear_all ns

  unfoldable pub reset : Run (AgentWorld K) (Unit {0})
  unfolding clear_all
  reset = clear_all all_namespaces
