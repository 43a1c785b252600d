-- ===== src/Agent/AuthManager.antt =====
-- agent/auth_manager.py: the agent's own token, the delegated (OBO) token and the PKCE verifier.
mod Answers
pub mod Laws
mod Tests
pub use Answers.{entry, join_words}
unfoldable pub use Answers.{live_token_of, select_authenticator, token_response}
use wso2_teamspace_demo.Base.{
  ℕ, ◌+◌, ◌-◌, String, Dict, ◌<>◌, Bool, true, false, not, ◌||◌, Option, none, some, List, [], ◌∷◌,
  ◌==◌, ltb, nonempty, if◌then◌else◌,
}
use wso2_teamspace_demo.Base.Json.{
  Json, null, str, num, arr, obj, Fields, end, field, Items, items, field_of, truthy,
}
use wso2_teamspace_demo.Base.Run.{
  Result, ok, err, value_error, attribute_error, other_error, Run, pure, raise, lift, ◌>>=◌, ◌>>◌,
}
pub use wso2_teamspace_demo.Base.Values.{
  number_or, get_key, value_or, index_key, elements, is_text, ◌>>?◌, or_value,
}
use wso2_teamspace_demo.Agent.Config.{Settings, tenant_path}
use wso2_teamspace_demo.Agent.Outside.{Outside, token_urlsafe}
use wso2_teamspace_demo.Agent.Store.{default_ttl_seconds}
use wso2_teamspace_demo.Agent.Store.Interface.{
  Namespace, agent_token, obo_token, pkce_verifier, KeyValueStore,
}
use wso2_teamspace_demo.Agent.StateManager.{present}
use wso2_teamspace_demo.Agent.World.{AgentWorld, store_get, store_set, store_delete, store_clear}

-- `_PKCE_TTL_SECONDS`
abbrev pub pkce_ttl_seconds : ℕ
pkce_ttl_seconds = 600

module _ (K : KeyValueStore) where
  unfoldable pub clear_obo_tokens : String → Run (AgentWorld K) (Unit {0})
  clear_obo_tokens thread = do store_delete K obo_token thread; store_delete K agent_token thread

module _ (K : KeyValueStore) (c : Settings) (out : Outside K.State) where
  -- `_base`
  abbrev pub base_url : String
  base_url = c.is_base_url <> tenant_path c

  init_agent_auth_flow : String → Run (AgentWorld K) (Json × Json)
  init_agent_auth_flow code_challenge = do
    flow_data ← out.post_form (base_url <> "/oauth2/authorize") (
        ("client_id", str c.client_id)
        ∷ ("client_secret", str c.client_secret)
        ∷ ("response_type", str "code")
        ∷ ("redirect_uri", str c.agent_redirect_uri)
        ∷ (
          "scope",
          str
              "openid create_meeting_agent list_meetings_agent update_meeting_agent delete_meeting_agent",
        )
        ∷ ("response_mode", str "direct")
        ∷ ("code_challenge", str code_challenge)
        ∷ ("code_challenge_method", str "S256")
        ∷ [])
    flow_id ← lift (get_key "flowId" flow_data)
    if truthy (value_or null flow_id)
        then (do
          next_step ← lift (get_key "nextStep" flow_data)
          listed ← lift (get_key "authenticators" (value_or (obj end) next_step))
          authenticators ← lift (elements (value_or (arr Items.nil) listed))
          selected ← lift (select_authenticator authenticators)
          pure (value_or null flow_id, selected))
        else raise value_error

  submit_agent_credentials : Json → Json → String → String → Run (AgentWorld K) Json
  submit_agent_credentials flow_id authenticator_id agent_id agent_secret = do
    authn_data ← out.post_json (base_url <> "/oauth2/authn") (
        obj (
          field "flowId" flow_id (
            field "selectedAuthenticator"
              (obj (
                field "authenticatorId" authenticator_id (
                  field "params"
                    (obj
                      (field "username" (str agent_id) (field "password" (str agent_secret) end)))
                    end)))
              end)))
    auth_data ← lift (get_key "authData" authn_data)
    nested ← lift (get_key "code" (value_or (obj end) auth_data))
    direct ← lift (get_key "code" authn_data)
    named ← lift (get_key "authorizationCode" authn_data)
    let code =
        or_value (value_or (str "") nested)
          (or_value (value_or (str "") direct) (value_or (str "") named))
    if truthy code then pure code else raise value_error

  exchange_code_for_agent_token : Json → String → Run (AgentWorld K) (Json × ℕ)
  unfolding token_response
  exchange_code_for_agent_token code code_verifier = do
    token_data ← out.post_form (base_url <> "/oauth2/token") (
        ("grant_type", str "authorization_code")
        ∷ ("client_id", str c.client_id)
        ∷ ("client_secret", str c.client_secret)
        ∷ ("code", code)
        ∷ ("code_verifier", str code_verifier)
        ∷ ("redirect_uri", str c.agent_redirect_uri)
        ∷ [])
    lift (token_response token_data)

  -- `thread_id or "_default"`
  abbrev pub agent_token_key : String → String
  agent_token_key thread = if nonempty thread then thread else "_default"

  store_agent_token : Json → ℕ → String → Run (AgentWorld K) (Unit {0})
  store_agent_token token expires_in thread w =
      store_set K agent_token (agent_token_key thread) (entry token expires_in w.wall)
        default_ttl_seconds w

  -- Without an identity or a secret the call fails before anything is sent.
  unfoldable pub fetch_agent_token : String → String → String → Run (AgentWorld K) Json
  unfolding init_agent_auth_flow submit_agent_credentials exchange_code_for_agent_token
      store_agent_token
  fetch_agent_token agent_id agent_secret thread =
      if not (nonempty agent_id) || not (nonempty agent_secret) then raise value_error else do
        code_verifier ← token_urlsafe out
        flow ← init_agent_auth_flow (out.challenge code_verifier)
        code ← submit_agent_credentials flow.0 flow.1 agent_id agent_secret
        issued ← exchange_code_for_agent_token code code_verifier
        store_agent_token issued.0 issued.1 thread
        pure issued.0

  -- The local URL that starts a consent round trip; the scopes follow from the action there.
  abbrev pub get_obo_authorization_url : String → String → String
  get_obo_authorization_url thread action =
      c.agent_service_url <> ("/authorize?thread_id=" <> (thread <> ("&action=" <> action)))

  -- The identity server's URL; the thread's old tokens go, and a fresh verifier is kept.
  unfoldable pub get_real_wso2_authorization_url :
      String → List String → String → String → Run (AgentWorld K) String
  unfolding clear_obo_tokens
  get_real_wso2_authorization_url thread scopes state_token agent_id =
      if not (nonempty agent_id) then raise value_error else do
        clear_obo_tokens K thread
        code_verifier ← token_urlsafe out
        store_set K pkce_verifier thread (str code_verifier) pkce_ttl_seconds
        pure (
            base_url
            <> ("/oauth2/authorize?"
                <> out.urlencode (
                    ("client_id", c.client_id)
                    ∷ ("response_type", "code")
                    ∷ ("redirect_uri", c.agent_redirect_uri)
                    ∷ ("scope", join_words scopes)
                    ∷ ("code_challenge", out.challenge code_verifier)
                    ∷ ("code_challenge_method", "S256")
                    ∷ ("state", state_token)
                    ∷ ("requested_actor", agent_id)
                    ∷ [])))

  store_obo_token : Json → ℕ → String → Run (AgentWorld K) (Unit {0})
  store_obo_token token expires_in thread w =
      store_set K obo_token thread (entry token expires_in w.wall) default_ttl_seconds w

  -- The form that redeems a code, with the verifier or an empty text.
  abbrev pub exchange_form : String → Option Json → Json → Dict Json
  exchange_form code stored actor_token =
      ("grant_type", str "authorization_code")
      ∷ ("client_id", str c.client_id)
      ∷ ("client_secret", str c.client_secret)
      ∷ ("code", str code)
      ∷ ("code_verifier", or_value (value_or null stored) (str ""))
      ∷ ("redirect_uri", str c.agent_redirect_uri)
      ∷ ("actor_token", actor_token)
      ∷ ("actor_token_type", str "urn:ietf:params:oauth:token-type:jwt")
      ∷ []

  pub store_issued : String → Json → Run (AgentWorld K) Json
  unfolding token_response store_obo_token
  store_issued thread token_data = do
    issued ← lift (token_response token_data)
    store_obo_token issued.0 issued.1 thread
    pure issued.0

  -- The part of the exchange after the agent's own token was obtained. The verifier is deleted before
  -- it is sent: it serves one exchange.
  unfoldable pub redeem_code : String → String → Json → Run (AgentWorld K) Json
  unfolding store_issued
  redeem_code thread code actor_token = do
    stored ← store_get K pkce_verifier thread
    store_delete K pkce_verifier thread
    token_data ← out.post_form (base_url <> "/oauth2/token") (exchange_form code stored actor_token)
    store_issued thread token_data

  unfoldable pub exchange_obo_code : String → String → String → String → Run (AgentWorld K) Json
  unfolding redeem_code
  exchange_obo_code thread code agent_id agent_secret = do
    actor_token ← fetch_agent_token agent_id agent_secret thread
    redeem_code thread code actor_token

module _ (K : KeyValueStore) where
  live_token : Namespace → String → Run (AgentWorld K) (Option Json)
  live_token n key w = (do stored ← store_get K n key; pure (live_token_of stored w.wall)) w

  -- The thread's token, or else the one fetched before there was a thread.
  unfoldable pub get_agent_jwt_raw : String → Run (AgentWorld K) (Option Json)
  unfolding live_token
  get_agent_jwt_raw thread = do
    token ← live_token agent_token (if nonempty thread then thread else "_default")
    elim token [
      | some t ↦ pure (some t)
      | none ↦ if nonempty thread then live_token agent_token "_default" else pure none
    ]

  unfoldable pub get_obo_token : String → Run (AgentWorld K) (Option Json)
  unfolding live_token
  get_obo_token thread = live_token obo_token thread

  -- `reset`
  unfoldable pub reset : Run (AgentWorld K) (Unit {0})
  reset = do store_clear K agent_token; store_clear K obo_token; store_clear K pkce_verifier
