-- ===== src/Agent/Store/Namespaces.antt =====
-- What the namespaces of the in-process store keep apart (agent/store.py).
use wso2_teamspace_demo.Base.{
  ℕ, String, ◌≡◌, ◌==◌, none, some, if◌then◌else◌, Bool-cases, inl, inr, arith, ==-self, ◌≢◌, sym,
  ◌∙◌,
}
use mathlib.Core.Bool.{false≢true}
use text.Mathlib.Text.{starts_with}
use wso2_teamspace_demo.Agent.Store.{InMemoryStore, compose, get, clear}
use wso2_teamspace_demo.Agent.Store.Keys.{NoColon, starts_with-compose}
use wso2_teamspace_demo.Agent.Store.Expiry.{get_read, read-clear}

starts_with-eq :
    (m n j : String) → NoColon m → NoColon n → starts_with (compose m j) (compose n "") ≡ (m == n)
starts_with-eq m n j hm hn =
    let (there, back) = starts_with-compose m n j hm hn in
    elim (Bool-cases (starts_with (compose m j) (compose n ""))) [
      | inl e ↦ rw (e, there e, ==-self n)
      | inr e ↦ let distinct : m ≢ n = λ h. false≢true (sym e ∙ back h) in rw e (ground arith)
    ]

-- Clearing a namespace of the in-process store, of namespaces without a colon, empties that
-- namespace and no other one.
pub get-clear :
    (n m j : String) (u : ℕ) (s : InMemoryStore)
    → NoColon n
    → NoColon m
    → (get m j u (clear (some n) s)).0 ≡ (if m == n then none else (get m j u s).0)
get-clear n m j u s hn hm =
    rw (get_read m j u (clear (some n) s), get_read m j u s, ← starts_with-eq m n j hm hn)
      (read-clear n m j u s)
