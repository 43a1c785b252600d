-- ===== src/Agent/Streams.antt =====
-- agent/main.py: the cap on the open streams of the tools' server, and the token of a stream.
-- Connections come and go in any order; under the lock each takes and gives back its slot at once.
pub mod Cap
mod Tests
use text.Mathlib.Text.{starts_with}
use wso2_teamspace_demo.Base.{
  ℕ, zero, suc, ◌+◌, ◌-◌, ◌≡◌, String, Option, none, some, List, [], ◌∷◌, ◌++◌, leb, nonempty,
  or_empty, or_else, if◌then◌else◌,
}
use wso2_teamspace_demo.Base.Run.{Result, ok, err, http, Run}
use wso2_teamspace_demo.Base.Slices.{drop_chars}

-- The module's counter, and the connections that hold a slot, each in its `with` block.
pub record Streams : Type 0 where
  pub mcp_sse_streams : ℕ
  pub connected : List ℕ

-- The start of `_mcp_sse_slot`: a slot is taken, or the connection is refused.
unfoldable pub take_slot : ℕ → Run ℕ (Unit {0})
take_slot max_mcp_sse_streams n =
    if leb max_mcp_sse_streams n
    then (err (http 503 "Too many open MCP streams"), n)
    else (ok tt, n + 1)

-- Its `finally`
unfoldable pub give_back : ℕ → ℕ
give_back n = n - 1

-- What may happen next: a connection takes a slot, is refused one, or ends, with an exception or without.
pub data Step (max_mcp_sse_streams : ℕ) : Streams → Streams → Type 0 where
  accepted :
      (id n : ℕ) (s : Streams)
      → take_slot max_mcp_sse_streams s.mcp_sse_streams ≡ (ok tt, n)
      → Step max_mcp_sse_streams s (record { mcp_sse_streams = n; connected = id ∷ s.connected })
  refused :
      (detail : String) (n : ℕ) (s : Streams)
      → take_slot max_mcp_sse_streams s.mcp_sse_streams ≡ (err (http 503 detail), n)
      → Step max_mcp_sse_streams s (record { mcp_sse_streams = n; connected = s.connected })
  ended :
      (earlier later : List ℕ) (id n : ℕ)
      → Step max_mcp_sse_streams
          (record { mcp_sse_streams = n; connected = earlier ++ (id ∷ later) })
          (record { mcp_sse_streams = give_back n; connected = earlier ++ later })

pub data Reach (max_mcp_sse_streams : ℕ) (s : Streams) : Streams → Type 0 where
  here : Reach max_mcp_sse_streams s s
  next :
      {t u : Streams}
      → Reach max_mcp_sse_streams s t
      → Step max_mcp_sse_streams t u
      → Reach max_mcp_sse_streams s u

abbrev pub no_streams : Streams
no_streams = record { mcp_sse_streams = 0; connected = [] }

-- The token of `handle_mcp_sse` and `handle_mcp_messages`: of the header, or of the query.
unfoldable pub mcp_token : Option String → Option String → Option String → String
mcp_token auth_header token access_token =
    if starts_with (or_empty auth_header) "Bearer "
    then drop_chars 7 (or_empty auth_header)
    else or_empty (or_else token access_token)
