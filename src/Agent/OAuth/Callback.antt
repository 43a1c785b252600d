-- ===== src/Agent/OAuth/Callback.antt =====
-- What /callback demands before it marks a thread as authorized, and what it leaves alone
-- (agent/main.py).
use wso2_teamspace_demo.Base.{
  ℕ, String, ◌≡◌, ◌≢◌, refl, true, false, Option, none, some, arith, nonempty, or_empty,
  nonempty-or_empty, inl, inr,
}
use wso2_teamspace_demo.Base.Json.{Json, Fields, str, field_of}
use wso2_teamspace_demo.Base.Run.{ok, Result-cases}
use wso2_teamspace_demo.Agent.Config.{Settings, state_jwt_signing_secret}
use wso2_teamspace_demo.Agent.Outside.{Outside}
use wso2_teamspace_demo.Agent.Store.Interface.{KeyValueStore}
use wso2_teamspace_demo.Agent.World.{AgentWorld}
use wso2_teamspace_demo.Agent.AuthManager.{is_text}
use wso2_teamspace_demo.Agent.OAuth.{
  Decoded, claims, expired_signature, invalid_token, Jwt, authorized, SignedState, signed_state_of,
  text_field, verify_oauth_cookie, check_csrf, check_callback, with_secret, oauth_callback,
  finish_callback, ErrorPage, error_page, auth_failed, fallback_parse_state,
}

is_text_lem : (s : String) (o : Option Json) → is_text s o ≡ true → o ≡ some (str s)
is_text_lem s none h = cc
is_text_lem s (some (str t)) h = ground arith
is_text_lem s (some _) h = cc

-- The two factors: claims `p` of the state and `q` of the cookie carry one and the same token, which
-- is not empty, and the state names a thread.
pub record IsGenuine (j : Jwt) (state secret : String) (cookie : Option String) (now : ℕ)
    : Type 0 where
  pub p : Fields
  pub q : Fields
  pub csrf : String
  pub thread : String
  pub state_signed : j.decode state secret now ≡ claims p
  pub cookie_signed : j.decode (or_empty cookie) secret now ≡ claims q
  pub state_csrf : text_field "state" p ≡ some csrf
  pub cookie_csrf : text_field "state" q ≡ some csrf
  pub csrf_nonempty : csrf ≢ ""
  pub names_thread : text_field "thread_id" p ≡ some thread
  pub thread_nonempty : thread ≢ ""

check_csrf_sound :
    (d : Decoded) (csrf : Option String)
    → check_csrf d csrf ≡ none
    → (q : Fields) × (s : String) × (d ≡ claims q)
      × (csrf ≡ some s)
      × (s ≢ "")
      × (text_field "state" q ≡ some s)
check_csrf_sound expired_signature csrf h = cc
check_csrf_sound invalid_token csrf h = cc
check_csrf_sound (claims q) none h = absurd (ground arith)
check_csrf_sound (claims q) (some s) h = (
  q,
  s,
  refl,
  refl,
  ground arith,
  rw (is_text_lem s (field_of "state" q) (ground arith), text_field),
)

signed_state_sound :
    (d : Decoded) (s : String)
    → nonempty (or_empty (signed_state_of d).thread_id) ≡ true
    → (signed_state_of d).csrf ≡ some s
    → (p : Fields) × (thread : String) × (d ≡ claims p)
      × (text_field "state" p ≡ some s)
      × (text_field "thread_id" p ≡ some thread)
      × (thread ≢ "")
signed_state_sound (claims p) s t h =
    let (thread, e, full) = nonempty-or_empty (text_field "thread_id" p) t in
    (p, thread, refl, h, e, full)
signed_state_sound _ s t h = cc

verify_oauth_cookie_sound :
    (j : Jwt) (cookie csrf : Option String) (secret : String) (now : ℕ)
    → verify_oauth_cookie j cookie csrf secret now ≡ none
    → check_csrf (j.decode (or_empty cookie) secret now) csrf ≡ none
unfolding verify_oauth_cookie
verify_oauth_cookie_sound j cookie csrf secret now h = ground arith

genuine :
    (j : Jwt) (state secret : String) (cookie : Option String) (now : ℕ)
    → (nonempty (or_empty (signed_state_of (j.decode state secret now)).thread_id) ≡ true)
      × (verify_oauth_cookie j cookie (signed_state_of (j.decode state secret now)).csrf secret now
          ≡ none)
    → IsGenuine j state secret cookie now
genuine j state secret cookie now (named, verified) =
    let (q, s, signed_q, csrf, full, same) =
      check_csrf_sound _ _ (verify_oauth_cookie_sound j cookie _ secret now verified) in
    let (p, thread, signed_p, csrf_p, thread_p, full') =
      signed_state_sound (j.decode state secret now) s named csrf in
    record {
      p = p;
      q = q;
      csrf = s;
      thread = thread;
      state_signed = signed_p;
      cookie_signed = signed_q;
      state_csrf = csrf_p;
      cookie_csrf = same;
      csrf_nonempty = full;
      names_thread = thread_p;
      thread_nonempty = full';
    }

module _ (K : KeyValueStore) (c : Settings) (out : Outside K.State) (j : Jwt) where
  check_callback_sound :
      (signed : SignedState) (code state : String) (cookie : Option String) (secret : String)
      (w : AgentWorld K) {w' : AgentWorld K}
      → c.mock_llm ≡ false
      → check_callback K c out j signed code state cookie secret w ≡ (ok authorized, w')
      → (nonempty (or_empty signed.thread_id) ≡ true)
        × (verify_oauth_cookie j cookie signed.csrf secret w.wall ≡ none)
  unfolding check_callback
  check_callback_sound signed code state cookie secret w mock h = ground arith

  -- Without the mock model, /callback reports success only if the state that came back is signed
  -- with the service's key, the oauth_session cookie is signed with the same key, both carry the
  -- same CSRF token, which is not empty, and the state names a thread.
  pub callback_sound :
      (code state : String) (cookie : Option String) (w : AgentWorld K) {w' : AgentWorld K}
      → c.mock_llm ≡ false
      → oauth_callback K c out j code state cookie w ≡ (ok authorized, w')
      → (secret : String) × (state_jwt_signing_secret c ≡ ok secret)
        × IsGenuine j state secret cookie w.wall
  unfolding oauth_callback
  callback_sound code state cookie w mock h = elim (Result-cases (state_jwt_signing_secret c)) [
    | inr (e, failed) ↦ cc (rw (failed, with_secret) at h)
    | inl (secret, found) ↦ (
      secret,
      found,
      genuine j state secret cookie w.wall (
          check_callback_sound (signed_state_of (j.decode state secret w.wall)) code state cookie
            secret w mock (rw (found, with_secret) at h)),
    )
  ]

  finish_callback_pages :
      (thread action code : String) (w : AgentWorld K) (page : ErrorPage) (n : ℕ)
      → (finish_callback K c out j thread action code w).0 ≡ ok (error_page page n)
      → page ≡ auth_failed
  unfolding finish_callback
  finish_callback_pages thread action code w page n h = ground arith

  check_callback_rejected :
      (signed : SignedState) (code state : String) (cookie : Option String) (secret : String)
      (w : AgentWorld K) (page : ErrorPage) (n : ℕ)
      → page ≢ auth_failed
      → (check_callback K c out j signed code state cookie secret w).0 ≡ ok (error_page page n)
      → (check_callback K c out j signed code state cookie secret w).1 ≡ w
  unfolding check_callback
  check_callback_rejected signed code state cookie secret w page n other h =
      let (thread, action) = fallback_parse_state state in
      ground (
        arith,
        finish_callback_pages (or_empty signed.thread_id) (or_empty signed.action) code w page n,
        finish_callback_pages thread action code w page n,
      )

  -- A callback that ends in an error page other than the one for a failed exchange leaves the world
  -- as it was.
  pub callback_rejected :
      (code state : String) (cookie : Option String) (w : AgentWorld K) (page : ErrorPage) (n : ℕ)
      → page ≢ auth_failed
      → (oauth_callback K c out j code state cookie w).0 ≡ ok (error_page page n)
      → (oauth_callback K c out j code state cookie w).1 ≡ w
  unfolding oauth_callback
  callback_rejected code state cookie w page n other h =
      elim (Result-cases (state_jwt_signing_secret c)) [
        | inr (e, failed) ↦ rw (failed, with_secret)
        | inl (secret, found) ↦
            rw (found, with_secret)
              (check_callback_rejected (signed_state_of (j.decode state secret w.wall)) code state
                cookie secret w page n other (rw (found, with_secret) at h))
      ]
