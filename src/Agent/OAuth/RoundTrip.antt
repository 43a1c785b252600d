-- ===== src/Agent/OAuth/RoundTrip.antt =====
-- A consent round trip from /authorize to /callback (agent/main.py), and what the cookie adds to the
-- signed state.
use wso2_teamspace_demo.Base.{
  ℕ, ◌+◌, ◌≤◌, ◌<◌, ◌∙◌, String, ◌≡◌, ◌≢◌, refl, Bool, true, false, Option, none, some, arith, leb,
  string_dec, if◌then◌else◌, Bool-cases, ==-self, inl, inr,
}
use wso2_teamspace_demo.Base.Json.{Json, Fields, num, field_of}
use wso2_teamspace_demo.Base.Run.{ok}
use wso2_teamspace_demo.Agent.Config.{Settings, state_jwt_signing_secret}
use wso2_teamspace_demo.Agent.Outside.{Outside}
use wso2_teamspace_demo.Agent.Store.Interface.{KeyValueStore}
use wso2_teamspace_demo.Agent.World.{AgentWorld}
use wso2_teamspace_demo.Agent.StateManager.{get_agent_credentials, get_state, set_state}
use wso2_teamspace_demo.Agent.StateManager.Laws.{get_state-set_state_now}
use wso2_teamspace_demo.Agent.AuthManager.{
  is_text, exchange_obo_code, get_real_wso2_authorization_url,
}
use wso2_teamspace_demo.Agent.OAuth.{
  claims, expired_signature, Jwt, Cookie, redirect, authorized, expired, oauth_error, SignedState,
  signed_state_of, text_field, state_payload, oauth_state_ttl_seconds, action_to_flow_state,
  verify_oauth_cookie, check_callback, with_secret, initiate_oauth, oauth_callback, finish_callback,
}

-- What PyJWT documents of HS256, for the claims `p` under one secret: the token is no empty text, and
-- the claims come back unless `exp` has passed, provided that `iat` does not lie ahead.
pub record Signs (j : Jwt) (p : Fields) (secret : String) : Type 0 where
  pub encode_nonempty : j.encode p secret ≢ ""
  pub decode-encode :
      (issued expiry now : ℕ)
      → field_of "iat" p ≡ some (num issued)
      → field_of "exp" p ≡ some (num expiry)
      → issued ≤ now
      → j.decode (j.encode p secret) secret now
        ≡ (if leb expiry now then expired_signature else claims p)

is_text_of :
    (s : String) (p : Fields)
    → text_field "state" p ≡ some s
    → is_text s (field_of "state" p) ≡ true
is_text_of s p h = ground (arith, ==-self s)

module _ (j : Jwt) where
  -- A state that decodes, is not empty and carries a CSRF token that is not empty passes as its own
  -- oauth_session cookie.
  state_as_cookie :
      (state secret csrf : String) (now : ℕ) (p : Fields)
      → j.decode state secret now ≡ claims p
      → text_field "state" p ≡ some csrf
      → csrf ≢ ""
      → state ≢ ""
      → verify_oauth_cookie j (some state) (some csrf) secret now ≡ none
  unfolding verify_oauth_cookie
  state_as_cookie state secret csrf now p signed csrf_p full token =
      ground (arith, is_text_of csrf p csrf_p)

payload_fields :
    (thread action csrf : String) (t : ℕ)
    → let p = state_payload thread action csrf t in
      (text_field "thread_id" p ≡ some thread)
      × (text_field "action" p ≡ some action)
      × (text_field "state" p ≡ some csrf)
      × (field_of "iat" p ≡ some (num t))
      × (field_of "exp" p ≡ some (num (t + oauth_state_ttl_seconds)))
unfolding field_of string_dec
payload_fields thread action csrf t = (refl, refl, refl, refl, refl)

module _ (K : KeyValueStore) (c : Settings) (out : Outside K.State) (j : Jwt) where
  initiate_oauth_redirect :
      (thread action secret : String) (secure : Bool) (w : AgentWorld K) {w' : AgentWorld K}
      {url : String} {cookie : Cookie}
      → state_jwt_signing_secret c ≡ ok secret
      → initiate_oauth K c out j thread action secure w ≡ (ok (redirect url cookie), w')
      → cookie.value
        ≡ j.encode (state_payload thread action (out.random_token w.drawn) w.wall) secret
  unfolding initiate_oauth get_agent_credentials get_real_wso2_authorization_url
  initiate_oauth_redirect thread action secret secure w found h = ground arith

  accepted_callback :
      (signed : SignedState) (thread action csrf code state secret : String)
      (cookie : Option String) (w : AgentWorld K)
      → signed.expired ≡ false
      → signed.thread_id ≡ some thread
      → signed.action ≡ some action
      → signed.csrf ≡ some csrf
      → thread ≢ ""
      → verify_oauth_cookie j cookie (some csrf) secret w.wall ≡ none
      → check_callback K c out j signed code state cookie secret w
        ≡ finish_callback K c out j thread action code w
  unfolding check_callback
  accepted_callback signed thread action csrf code state secret cookie w e₁ e₂ e₃ e₄ named
        verified =
      ground arith

  -- With a signing key and a token library that signs as PyJWT documents, a callback with the state
  -- and the cookie of a flow that began at the wall clock's t, for a thread and with a CSRF token
  -- that are not empty, goes on to the exchange before t + 300, and is answered with the expiry
  -- page, the world unchanged, from then on.
  pub callback_of_flow :
      (thread action csrf code secret : String) (t : ℕ) (w : AgentWorld K)
      → Signs j (state_payload thread action csrf t) secret
      → state_jwt_signing_secret c ≡ ok secret
      → thread ≢ ""
      → csrf ≢ ""
      → t ≤ w.wall
      → let state = j.encode (state_payload thread action csrf t) secret in
        oauth_callback K c out j code state (some state) w ≡ (
          if leb (t + oauth_state_ttl_seconds) w.wall
          then (ok (oauth_error expired), w)
          else finish_callback K c out j thread action code w)
  unfolding oauth_callback
  callback_of_flow thread action csrf code secret t w signs found named full later =
      let p = state_payload thread action csrf t in
      let (f₁, f₂, f₃, f₄, f₅) = payload_fields thread action csrf t in
      let decoded = signs.decode-encode t (t + oauth_state_ttl_seconds) w.wall f₄ f₅ later in
      elim (Bool-cases (leb (t + oauth_state_ttl_seconds) w.wall)) [
        | inl over ↦ rw (found, with_secret, decoded, over, check_callback)
        | inr live ↦
            let is_p : j.decode (j.encode p secret) secret w.wall ≡ claims p = rw live at decoded in
            rw (found, with_secret, live)
              (accepted_callback (signed_state_of (j.decode (j.encode p secret) secret w.wall))
                thread action csrf code (j.encode p secret) secret (some (j.encode p secret)) w
                (rw is_p) (rw is_p f₁) (rw is_p f₂) (rw is_p f₃) named
                (state_as_cookie j (j.encode p secret) secret csrf w.wall p is_p f₃ full
                  signs.encode_nonempty))
      ]

  finish_callback_lem :
      (thread action code : String) (w w₁ w₂ : AgentWorld K) {credentials : String × String}
      {token : Json}
      → get_agent_credentials K thread w ≡ (ok credentials, w₁)
      → exchange_obo_code K c out thread code credentials.0 credentials.1 w₁ ≡ (ok token, w₂)
      → finish_callback K c out j thread action code w
        ≡ (ok authorized, (set_state K thread (action_to_flow_state action) w₂).1)
  unfolding finish_callback set_state
  finish_callback_lem thread action code w w₁ w₂ stored issued = ground arith

  -- With a signing key and a token library that signs as PyJWT documents, and a thread and a random
  -- token that are not empty, a consent round trip succeeds: if /authorize redirected, the browser
  -- comes back with the state and the cookie in less than 300 seconds, the thread's credentials are
  -- stored and the identity server issues the delegated token, then /callback reports success and
  -- the thread's flow state is the authorized one of the action that was asked for.
  pub round_trip :
      (thread action code secret url : String) (secure : Bool) (cookie : Cookie)
      (w w' w₁ w₂ w₃ : AgentWorld K) {credentials : String × String} {token : Json}
      → Signs j (state_payload thread action (out.random_token w.drawn) w.wall) secret
      → state_jwt_signing_secret c ≡ ok secret
      → thread ≢ ""
      → out.random_token w.drawn ≢ ""
      → initiate_oauth K c out j thread action secure w ≡ (ok (redirect url cookie), w')
      → w.wall ≤ w₁.wall
      → w₁.wall < w.wall + oauth_state_ttl_seconds
      → get_agent_credentials K thread w₁ ≡ (ok credentials, w₂)
      → exchange_obo_code K c out thread code credentials.0 credentials.1 w₂ ≡ (ok token, w₃)
      → let done = oauth_callback K c out j code cookie.value (some cookie.value) w₁ in
        (done.0 ≡ ok authorized)
        × ((get_state K thread done.1).0 ≡ ok (action_to_flow_state action))
  round_trip thread action code secret url secure cookie w w' w₁ w₂ w₃ signs found named full sent
        later soon stored issued =
      let csrf = out.random_token w.drawn in
      let whole : oauth_callback K c out j code cookie.value (some cookie.value) w₁
          ≡ (ok authorized, (set_state K thread (action_to_flow_state action) w₃).1) =
        rw (initiate_oauth_redirect thread action secret secure w found sent) (
          callback_of_flow thread action csrf code secret w.wall w₁ signs found named full later
          ∙ ground (arith, finish_callback_lem thread action code w₁ w₂ w₃ stored issued)) in
      rw whole (refl, get_state-set_state_now K thread (action_to_flow_state action) w₃)
