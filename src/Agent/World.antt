-- ===== src/Agent/World.antt =====
-- What the agent's handlers share: the store behind the managers, the two clocks of Python's `time`,
-- and the number of random tokens drawn so far. Between two awaits the clocks stand still.
use wso2_teamspace_demo.Base.{ℕ, String, Option, some}
use wso2_teamspace_demo.Base.Json.{Json}
use wso2_teamspace_demo.Base.Run.{Run, ok}
use wso2_teamspace_demo.Agent.Store.Interface.{Namespace, KeyValueStore}

-- `JWKSCache` of agent/mcp_server.py: the keys last fetched, and the wall clock at that time.
pub record JwksCache : Type 0 where
  pub cached : Option Json
  pub fetched_at : ℕ

pub record World (S : Type 0) : Type 0 where
  pub store : S
  -- `time.monotonic()` and `time.time()`, in seconds
  pub mono : ℕ
  pub wall : ℕ
  pub drawn : ℕ
  pub jwks : JwksCache

module _ (K : KeyValueStore) where
  abbrev pub AgentWorld : Type 0
  AgentWorld = World K.State

  -- What the store holds now for a key.
  abbrev pub peek : AgentWorld → Namespace → String → Option Json
  peek w n k = K.read n k w.mono w.store

  abbrev pub store_get : Namespace → String → Run AgentWorld (Option Json)
  store_get n k w = let (v, s) = K.get n k w.mono w.store in (ok v, record w { store = s })

  abbrev pub store_set : Namespace → String → Json → ℕ → Run AgentWorld (Unit {0})
  store_set n k v ttl w = (ok tt, record w { store = K.set n k v ttl w.mono w.store })

  abbrev pub store_delete : Namespace → String → Run AgentWorld (Unit {0})
  store_delete n k w = (ok tt, record w { store = K.delete n k w.store })

  abbrev pub store_clear : Namespace → Run AgentWorld (Unit {0})
  store_clear n w = (ok tt, record w { store = K.clear (some n) w.store })
