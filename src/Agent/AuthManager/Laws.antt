-- ===== src/Agent/AuthManager/Laws.antt =====
-- What the token store promises (agent/auth_manager.py): which tokens are handed out, what a new
-- authorization clears, and that a verifier serves one exchange.
use wso2_teamspace_demo.Base.{
  ℕ, ◌+◌, String, ◌≡◌, ◌≢◌, refl, ◌⊎◌, ◌&&◌, ◌||◌, Dict, none, some, arith, ◌==◌, ◌<>◌, inl, inr,
  leb, ◌≤◌, ==-self, nonempty-eq-true, if◌then◌else◌, List, string_dec,
}
use wso2_teamspace_demo.Base.Json.{Json, null, str, field_of}
use wso2_teamspace_demo.Base.Run.{Result, ok, err, value_error, continue, Result-cases}
use wso2_teamspace_demo.Agent.Config.{Settings}
use wso2_teamspace_demo.Agent.Outside.{Outside}
use wso2_teamspace_demo.Agent.Store.Interface.{
  Namespace, agent_token, obo_token, pkce_verifier, KeyValueStore, Namespace-discrete,
  same_namespace,
}
use wso2_teamspace_demo.Agent.World.{AgentWorld, peek}
use wso2_teamspace_demo.Agent.StateManager.{present}
use wso2_teamspace_demo.Agent.AuthManager.{
  entry, live_token_of, get_obo_token, fetch_agent_token, clear_obo_tokens,
  get_real_wso2_authorization_url, redeem_code, store_issued, exchange_form, base_url,
  token_response,
}

present-full : (v : Json) → v ≢ null → present (some v) ≡ some v
present-full null full = absurd (full refl)
present-full _ full = refl

live_token_of-none : (now : ℕ) → live_token_of none now ≡ none
unfolding live_token_of
live_token_of-none now = refl

live_token_of-entry :
    (token : Json) (lifetime issued now : ℕ)
    → token ≢ null
    → 60 ≤ issued
    → live_token_of (some (entry token lifetime issued)) now
      ≡ (if leb (now + 60) (issued + lifetime) then some token else none)
unfolding live_token_of field_of string_dec
live_token_of-entry token lifetime issued now full later = ground (arith, present-full token full)

module _ (K : KeyValueStore) where
  -- The thread's two tokens go, and nothing else changes.
  pub clear_obo_tokens_lem :
      (thread : String) (w : AgentWorld K) (m : Namespace) (k : String)
      → peek K (clear_obo_tokens K thread w).1 m k ≡ (
          if thread == k && (same_namespace obo_token m || same_namespace agent_token m)
          then none
          else peek K w m k)
  unfolding clear_obo_tokens
  clear_obo_tokens_lem thread w m k = simp K.read-delete (ground arith)

  module _ (c : Settings) (out : Outside K.State) where
    -- Without an agent's identity or secret nothing is sent and nothing changes.
    pub fetch_agent_token_incomplete :
        (agent_id agent_secret thread : String) (w : AgentWorld K)
        → (agent_id ≡ "") ⊎ (agent_secret ≡ "")
        → fetch_agent_token K c out agent_id agent_secret thread w ≡ (err value_error, w)
    unfolding fetch_agent_token
    fetch_agent_token_incomplete agent_id agent_secret thread w h = ground arith

    -- Building the identity server's URL, for an agent with an identity, keeps the fresh PKCE
    -- verifier for the thread, drops the thread's delegated and agent tokens, and changes no other
    -- entry.
    pub new_authorization :
        (thread state agent_id : String) (scopes : List String) (w : AgentWorld K) (m : Namespace)
        (k : String)
        → agent_id ≢ ""
        → peek K (get_real_wso2_authorization_url K c out thread scopes state agent_id w).1 m k ≡ (
            if thread == k && same_namespace pkce_verifier m
            then some (str (out.random_token w.drawn))
            else if thread == k && (same_namespace obo_token m || same_namespace agent_token m)
            then none
            else peek K w m k)
    unfolding get_real_wso2_authorization_url clear_obo_tokens
    new_authorization thread state agent_id scopes w m k named =
        rw (nonempty-eq-true agent_id named) (simp (K.read-delete, K.read-set) (ground arith))

    -- A delegated token that the token endpoint issued for a lifetime in seconds, and that is not
    -- None, at a reading of the wall clock of 60 at least, is handed out until 60 seconds before
    -- that lifetime is over by the wall clock, but no longer than a day of the store's clock, and
    -- never afterwards.
    pub get_obo_token-store_issued :
        (thread : String) (token_data token : Json) (lifetime passed now : ℕ) (w : AgentWorld K)
        → token_response token_data ≡ ok (token, lifetime)
        → token ≢ null
        → 60 ≤ w.wall
        → let v = record (store_issued K c out thread token_data w).1 {
          mono = w.mono + passed;
          wall = now;
        } in
          (get_obo_token K thread v).0
          ≡ ok (if leb passed 86400 && leb (now + 60) (w.wall + lifetime) then some token else none)
    unfolding get_obo_token store_issued Namespace-discrete
    get_obo_token-store_issued thread token_data token lifetime passed now w issued full later =
        rw issued (
          simp (K.get_read, K.read-set, ==-self)
            (ground (
              arith,
              live_token_of-entry token lifetime w.wall now full later,
              live_token_of-none now,
            )))

    -- What is left of an exchange once the token endpoint has answered writes no verifier.
    after_answer :
        (thread : String) (answer : Result Json) (v : AgentWorld K)
        → peek K v pkce_verifier thread ≡ none
        → peek K
            (continue answer (λ token_data. store_issued K c out thread token_data) v).1
            pkce_verifier
            thread
          ≡ none
    unfolding store_issued Namespace-discrete
    after_answer thread (err e) v gone = gone
    after_answer thread (ok token_data) v gone = elim (Result-cases (token_response token_data)) [
      | inl (issued, e) ↦ rw e (simp K.read-set gone)
      | inr (e, failed) ↦ rw failed gone
    ]

    -- Redeeming a code uses the thread's PKCE verifier up, whatever the identity server answers,
    -- provided that no other request stores a new one during the call.
    pub redeem_code-verifier :
        (thread code : String) (actor_token : Json) (w : AgentWorld K)
        → ((url : String) (form : Dict Json) (v : AgentWorld K)
            → peek K v pkce_verifier thread ≡ none
            → peek K (out.post_form url form v).1 pkce_verifier thread ≡ none)
        → peek K (redeem_code K c out thread code actor_token w).1 pkce_verifier thread ≡ none
    unfolding redeem_code Namespace-discrete
    redeem_code-verifier thread code actor_token w alone =
        let v = record w {
          store = K.delete pkce_verifier thread (K.get pkce_verifier thread w.mono w.store).1;
        } in
        let gone : peek K v pkce_verifier thread ≡ none = simp (K.read-delete, ==-self) in
        let answered =
          out.post_form (base_url K c out <> "/oauth2/token")
            (exchange_form K c out code (K.get pkce_verifier thread w.mono w.store).0 actor_token)
            v in
        after_answer thread answered.0 answered.1 (alone _ _ v gone)
