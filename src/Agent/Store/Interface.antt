-- ===== src/Agent/Store/Interface.antt =====
-- The `KeyValueStore` protocol of agent/store.py as the managers use it, with the laws that the
-- managers rely on, and the in-process store as an implementation.
-- A namespace is one of the constants of state_manager.py, auth_manager.py and chat_history.py.
use text.Mathlib.Text.{starts_with}
use mathlib.Core.Logic.{ite}
use mathlib.Core.Option
use mathlib.Core.Bool.{false≢true}
use wso2_teamspace_demo.Base.{
  ℕ, ◌+◌, ◌≤◌, String, ◌≡◌, ◌≢◌, refl, sym, ap, ◌∙◌, Bool, true, false, ◌&&◌, ◌||◌, Option, none,
  some, arith, ◌==◌, leb, nat_eq, if◌then◌else◌, string_dec, Bool-cases, inl, inr,
}
use wso2_teamspace_demo.Base.Json.{Json}
use wso2_teamspace_demo.Agent.Store.{InMemoryStore, compose, get, set, delete, clear}
use wso2_teamspace_demo.Agent.Store.Keys.{NoColon, compose_inj, starts_with-compose}
use wso2_teamspace_demo.Agent.Store.Expiry.{
  read, get_read, read-get, read-set, read-delete, read-clear, read-clear_all,
}

pub data Namespace : Type 0 where
  flow_state pending_meeting auth_url agent_credentials agent_name org_name : Namespace
  agent_token obo_token pkce_verifier chat_history : Namespace

unfoldable pub Namespace-discrete : Discrete Namespace
Namespace-discrete = hlevel

abbrev pub same_namespace : Namespace → Namespace → Bool
same_namespace m n = ite (Namespace-discrete m n) true false

abbrev pub name_of : Namespace → String
name_of flow_state = "flow_state"
name_of pending_meeting = "pending_meeting"
name_of auth_url = "auth_url"
name_of agent_credentials = "agent_credentials"
name_of agent_name = "agent_name"
name_of org_name = "org_name"
name_of agent_token = "agent_token"
name_of obo_token = "obo_token"
name_of pkce_verifier = "pkce_verifier"
name_of chat_history = "chat_history"

-- Whether an entry written at `t` with `ttl` is still there at `u`.
abbrev pub is_live : ℕ → ℕ → ℕ → Bool
is_live t ttl u = nat_eq ttl 0 || leb u (t + ttl)

abbrev pub same_key : Namespace → String → Namespace → String → Bool
same_key n k m j = same_namespace n m && (k == j)

-- `read` is what a `get` at the given clock reading would return.
pub record KeyValueStore : Type 1 where
  pub State : Type 0
  pub get : Namespace → String → ℕ → State → Option Json × State
  pub set : Namespace → String → Json → ℕ → ℕ → State → State
  pub delete : Namespace → String → State → State
  pub clear : Option Namespace → State → State
  pub read : Namespace → String → ℕ → State → Option Json
  pub get_read : (n : Namespace) (k : String) (t : ℕ) (s : State) → (get n k t s).0 ≡ read n k t s
  pub read-get :
      (n m : Namespace) (k j : String) (t u : ℕ) (s : State)
      → t ≤ u
      → read m j u (get n k t s).1 ≡ read m j u s
  pub read-set :
      (n m : Namespace) (k j : String) (v : Json) (ttl t u : ℕ) (s : State)
      → read m j u (set n k v ttl t s)
        ≡ (if same_key n k m j then (if is_live t ttl u then some v else none) else read m j u s)
  pub read-delete :
      (n m : Namespace) (k j : String) (u : ℕ) (s : State)
      → read m j u (delete n k s) ≡ (if same_key n k m j then none else read m j u s)
  pub read-clear :
      (n m : Namespace) (j : String) (u : ℕ) (s : State)
      → read m j u (clear (some n) s) ≡ (if same_namespace n m then none else read m j u s)
  pub read-clear_all :
      (m : Namespace) (j : String) (u : ℕ) (s : State) → read m j u (clear none s) ≡ none

NoColon-name_of : (n : Namespace) → NoColon (name_of n)
NoColon-name_of flow_state = omega arith
NoColon-name_of _ = omega arith

-- The namespace of a name.
namespace_of : String → Namespace
namespace_of s =
    if s == "flow_state"
    then flow_state
    else if s == "pending_meeting"
    then pending_meeting
    else if s == "auth_url"
    then auth_url
    else if s == "agent_credentials"
    then agent_credentials
    else if s == "agent_name"
    then agent_name
    else if s == "org_name"
    then org_name
    else if s == "agent_token"
    then agent_token
    else if s == "obo_token"
    then obo_token
    else if s == "pkce_verifier"
    then pkce_verifier
    else chat_history

namespace_of-name_of : (n : Namespace) → namespace_of (name_of n) ≡ n
unfolding namespace_of string_dec
namespace_of-name_of flow_state = refl
namespace_of-name_of _ = refl

name_of_inj : (m n : Namespace) → name_of m ≡ name_of n → m ≡ n
name_of_inj m n e = sym (namespace_of-name_of m) ∙ ap namespace_of e ∙ namespace_of-name_of n

pub compose-same_key :
    (n m : Namespace) (k j : String)
    → (compose (name_of n) k == compose (name_of m) j) ≡ same_key n k m j
compose-same_key n m k j = ground (
  arith,
  compose_inj (name_of n) (name_of m) k j (NoColon-name_of n) (NoColon-name_of m),
  name_of_inj n m,
)

pub starts_with-same :
    (n m : Namespace) (j : String)
    → starts_with (compose (name_of m) j) (compose (name_of n) "") ≡ same_namespace n m
starts_with-same n m j =
    let (there, back) =
      starts_with-compose (name_of m) (name_of n) j (NoColon-name_of m) (NoColon-name_of n) in
    elim (Bool-cases (starts_with (compose (name_of m) j) (compose (name_of n) ""))) [
      | inl e ↦ rw e (ground (arith, name_of_inj m n (there e)))
      | inr e ↦
          let distinct : n ≢ m = λ h. false≢true (sym e ∙ back (ap name_of (sym h))) in
          rw e (ground arith)
    ]

-- `InMemoryStore` keeps the protocol's promises.
abbrev pub in_memory : KeyValueStore
in_memory = record {
  State = InMemoryStore;
  get = λ n. get (name_of n);
  set = λ n. set (name_of n);
  delete = λ n. delete (name_of n);
  clear = λ n. clear (Option.map name_of n);
  read = λ n. read (name_of n);
  get_read = λ n. get_read (name_of n);
  read-get = λ n m. read-get (name_of n) (name_of m);
  read-set = λ n m k j v ttl t u s.
      rw (← compose-same_key n m k j) (read-set (name_of n) (name_of m) k j v ttl t u s);
  read-delete =
      λ n m k j u s. rw (← compose-same_key n m k j) (read-delete (name_of n) (name_of m) k j u s);
  read-clear =
      λ n m j u s. rw (← starts_with-same n m j) (read-clear (name_of n) (name_of m) j u s);
  read-clear_all = λ m j u s. read-clear_all (name_of m) j u s;
}
