-- ===== src/Agent/Store/Expiry.antt =====
-- What a read of the in-process store returns (agent/store.py), and how writes, deletions, expiry
-- and reads change it.
use text.Mathlib.Text.{starts_with}
use wso2_teamspace_demo.Base.{
  ℕ, ◌+◌, ◌≤◌, String, ◌≡◌, refl, ◌||◌, Option, none, some, arith, ◌==◌, leb, nat_eq, if◌then◌else◌,
  lookup, lookup-erase, dict_laws,
}
use wso2_teamspace_demo.Base.Json.{Json}
use wso2_teamspace_demo.Agent.Store.{
  Entry, InMemoryStore, compose, is_expired, read_entry, get, set, delete, clear,
}

abbrev visible : ℕ → Option Entry → Option Json
visible now none = none
visible now (some e) = if is_expired e now then none else some e.value

-- What `get` returns at the clock reading `now`.
unfoldable pub read : String → String → ℕ → InMemoryStore → Option Json
read n k now s = visible now (lookup (compose n k) s.entries)

pub get_read : (n k : String) (now : ℕ) (s : InMemoryStore) → (get n k now s).0 ≡ read n k now s
unfolding get read read_entry
get_read n k now s = ground arith

-- Once the clock has passed an entry's expiry, dropping the entry changes no read.
pub read-get :
    (n m k j : String) (t u : ℕ) (s : InMemoryStore)
    → t ≤ u
    → read m j u (get n k t s).1 ≡ read m j u s
unfolding get read read_entry
read-get n m k j t u s h = ground (arith, lookup-erase (compose m j) (compose n k) s.entries)

pub read-set :
    (n m k j : String) (v : Json) (ttl t u : ℕ) (s : InMemoryStore)
    → read m j u (set n k v ttl t s) ≡ (
        if compose n k == compose m j
        then (if nat_eq ttl 0 || leb u (t + ttl) then some v else none)
        else read m j u s)
unfolding set read
read-set n m k j v ttl t u s = simp dict_laws (ground arith)

pub read-delete :
    (n m k j : String) (u : ℕ) (s : InMemoryStore)
    → read m j u (delete n k s) ≡ (if compose n k == compose m j then none else read m j u s)
unfolding delete read
read-delete n m k j u s = simp dict_laws (ground arith)

pub read-clear :
    (n m j : String) (u : ℕ) (s : InMemoryStore)
    → read m j u (clear (some n) s)
      ≡ (if starts_with (compose m j) (compose n "") then none else read m j u s)
unfolding clear read
read-clear n m j u s = simp dict_laws (ground arith)

pub read-clear_all : (m j : String) (u : ℕ) (s : InMemoryStore) → read m j u (clear none s) ≡ none
unfolding clear read lookup
read-clear_all m j u s = refl

-- A value that was set in the in-process store is returned under its key until the clock has passed
-- its time to live, for ever where that is 0, and other keys are returned as before.
pub get-set :
    (n m k j : String) (v : Json) (ttl t u : ℕ) (s : InMemoryStore)
    → (get m j u (set n k v ttl t s)).0 ≡ (
        if compose n k == compose m j
        then (if nat_eq ttl 0 || leb u (t + ttl) then some v else none)
        else (get m j u s).0)
get-set n m k j v ttl t u s =
    rw (get_read m j u (set n k v ttl t s), get_read m j u s) (read-set n m k j v ttl t u s)
