-- ===== src/Agent/OAuth.antt =====
-- agent/main.py, the consent round trip: /authorize signs a state and sets a cookie, /callback checks
-- both, exchanges the code and marks the thread as authorized.
mod Signed
pub mod Callback
pub mod RoundTrip
mod Tests
unfoldable pub use Signed.*
use Prim.Native.Char.{Char, code}
use Prim.Native.String
use native.Mathlib.Decide.{ℕ_discrete}
use mathlib.Core.Logic.{ite}
use wso2_teamspace_demo.Base.{
  ℕ, ◌+◌, String, ◌<>◌, Bool, true, false, not, Option, none, some, List, [], ◌∷◌, ◌==◌, nonempty,
  or_empty, if◌then◌else◌,
}
use wso2_teamspace_demo.Base.Json.{Json, str, num, Fields, end, field, field_of}
use wso2_teamspace_demo.Base.Run.{
  Result, ok, err, http, value_error, Run, pure, raise, on_value_error, ◌>>=◌, ◌>>◌,
}
use wso2_teamspace_demo.Agent.Config.{Settings, state_jwt_signing_secret}
use wso2_teamspace_demo.Agent.Outside.{Outside, token_urlsafe}
use wso2_teamspace_demo.Agent.Store.Interface.{KeyValueStore}
use wso2_teamspace_demo.Agent.World.{AgentWorld}
use wso2_teamspace_demo.Agent.StateManager.{
  FlowState, booking_authorized, list_authorized, update_authorized, delete_authorized,
  get_agent_credentials, set_state,
}
use wso2_teamspace_demo.Agent.AuthManager.{
  is_text, get_real_wso2_authorization_url, exchange_obo_code,
}

module _ (j : Jwt) where
  -- `_verify_oauth_cookie`
  unfoldable pub verify_oauth_cookie : Option String → Option String → String → ℕ → Option ErrorPage
  verify_oauth_cookie cookie csrf secret now =
      if nonempty (or_empty cookie)
      then check_csrf (j.decode (or_empty cookie) secret now) csrf
      else some invalid_session

module _ (K : KeyValueStore) (c : Settings) (out : Outside K.State) (j : Jwt) where
  -- The signing of the state and of the cookie, and the redirect; `secure` is the request's scheme.
  send_to_consent :
      String → String → List String → String → String → String → Bool → Run (AgentWorld K) Response
  send_to_consent thread action scopes agent_id csrf secret secure w =
      let payload = state_payload thread action csrf w.wall in
      (do
        url ←
            get_real_wso2_authorization_url K c out thread scopes (j.encode payload secret) agent_id
        pure (
            redirect url (record {
              value = j.encode payload secret;
              http_only = true;
              same_site = "lax";
              secure = secure;
              path = "/callback";
              max_age = oauth_state_ttl_seconds;
            })))
        w

  with_secret : (String → Run (AgentWorld K) Response) → Run (AgentWorld K) Response
  with_secret body = elim (state_jwt_signing_secret c) [
    | ok secret ↦ body secret
    | err e ↦ pure (error_page misconfigured 500)
  ]

  -- GET /authorize
  unfoldable pub initiate_oauth : String → String → Bool → Run (AgentWorld K) Response
  unfolding send_to_consent with_secret
  initiate_oauth thread action secure = do
    credentials ← get_agent_credentials K thread
    if not (nonempty credentials.0) then pure (oauth_error no_agent) else do
      csrf ← token_urlsafe out
      elim (scopes_for action) [
        | none ↦ raise (http 400 "Unknown action")
        | some scopes ↦
            with_secret
              (λ secret. send_to_consent thread action scopes credentials.0 csrf secret secure)
      ]

  -- `_complete_obo_authorization`: only a `ValueError` of the exchange becomes an error page.
  complete_obo_authorization : String → String → Run (AgentWorld K) (Option ErrorPage)
  complete_obo_authorization thread code = do
    credentials ← get_agent_credentials K thread
    λ w.
        on_value_error
          ((do exchange_obo_code K c out thread code credentials.0 credentials.1; pure none) w)
          (pure (some auth_failed))

  -- The end of /callback, once the thread and the action are known.
  unfoldable pub finish_callback : String → String → String → Run (AgentWorld K) Response
  unfolding complete_obo_authorization
  finish_callback thread action code = do
    failure ← complete_obo_authorization thread code
    elim failure [
      | some page ↦ pure (oauth_error page)
      | none ↦ do set_state K thread (action_to_flow_state action); pure authorized
    ]

  -- What /callback does with the decoded state.
  check_callback :
      SignedState → String → String → Option String → String → Run (AgentWorld K) Response
  check_callback signed code state cookie secret w =
      if signed.expired
      then (ok (oauth_error expired), w)
      else if nonempty (or_empty signed.thread_id)
      then (elim (verify_oauth_cookie j cookie signed.csrf secret w.wall) [
        | some page ↦ (ok (oauth_error page), w)
        | none ↦ finish_callback (or_empty signed.thread_id) (or_empty signed.action) code w
      ])
      else if not c.mock_llm
      then (ok (oauth_error invalid_state), w)
      else (let (thread, action) = fallback_parse_state state in
          finish_callback thread action code w)

  -- GET /callback
  unfoldable pub oauth_callback : String → String → Option String → Run (AgentWorld K) Response
  unfolding check_callback with_secret
  oauth_callback code state cookie w =
      with_secret
        (λ secret.
          check_callback (signed_state_of (j.decode state secret w.wall)) code state cookie secret)
        w
