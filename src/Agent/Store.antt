-- ===== src/Agent/Store.antt =====
-- agent/store.py: the in-process store and its interface.
-- Clock readings are natural numbers, in the unit of the TTLs; `now` is what `time.monotonic()`
-- returns in the call.
pub mod Keys
pub mod Expiry
pub mod Namespaces
pub mod Interface
pub mod Replay
pub mod Redis
mod Tests
use wso2_teamspace_demo.Base.{
  ℕ, ◌+◌, String, ◌<>◌, Bool, ◌&&◌, not, Option, none, some, Dict, lookup, insert, erase, erase_if,
  ltb, nat_eq, if◌then◌else◌, [],
}
use wso2_teamspace_demo.Base.Json.{Json}
use text.Mathlib.Text.{starts_with}

-- `DEFAULT_TTL_SECONDS`
abbrev pub default_ttl_seconds : ℕ
default_ttl_seconds = 86400

-- `_compose`
abbrev pub compose : String → String → String
compose namespace key = "teamspace:agent:" <> (namespace <> (":" <> key))

-- A value with the reading of the clock after which it is gone; 0 means never.
pub record Entry : Type 0 where
  pub value : Json
  pub expires_at : ℕ

pub record InMemoryStore : Type 0 where
  pub entries : Dict Entry

abbrev pub empty : InMemoryStore
empty = record { entries = [] }

-- `expires_at and time.monotonic() > expires_at`
abbrev pub is_expired : Entry → ℕ → Bool
is_expired e now = not (nat_eq e.expires_at 0) && ltb e.expires_at now

-- What `get` does with the entry that it found: an expired one is deleted.
read_entry : String → Option Entry → ℕ → InMemoryStore → Option Json × InMemoryStore
read_entry composed none now s = (none, s)
read_entry composed (some e) now s =
    if is_expired e now
    then (none, record { entries = erase composed s.entries })
    else (some e.value, s)

unfoldable pub get : String → String → ℕ → InMemoryStore → Option Json × InMemoryStore
unfolding read_entry
get namespace key now s =
    let composed = compose namespace key in read_entry composed (lookup composed s.entries) now s

-- `time.monotonic() + ttl if ttl else 0.0`
abbrev pub expiry : ℕ → ℕ → ℕ
expiry now ttl = if nat_eq ttl 0 then 0 else now + ttl

unfoldable pub set : String → String → Json → ℕ → ℕ → InMemoryStore → InMemoryStore
set namespace key value ttl now s = record {
  entries =
      insert (compose namespace key) (record { value = value; expires_at = expiry now ttl })
        s.entries;
}

unfoldable pub delete : String → String → InMemoryStore → InMemoryStore
delete namespace key s = record { entries = erase (compose namespace key) s.entries }

unfoldable pub clear : Option String → InMemoryStore → InMemoryStore
clear none s = empty
clear (some namespace) s =
    let prefix = compose namespace "" in
    record { entries = erase_if (λ k. starts_with k prefix) s.entries }
