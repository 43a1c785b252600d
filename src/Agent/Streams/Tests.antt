-- ===== src/Agent/Streams/Tests.antt =====
-- Runs of the streams' cap and of the token of a stream (agent/main.py).
use wso2_teamspace_demo.Base.{◌≡◌, ◌≤◌, refl, none, some, [], ◌∷◌, length, string_dec}
use wso2_teamspace_demo.Agent.Streams.{
  Streams, accepted, refused, ended, here, next, no_streams, take_slot, give_back, mcp_token,
}
use wso2_teamspace_demo.Base.Slices.{drop_chars}
use wso2_teamspace_demo.Agent.Streams.Cap.{streams_capped}

abbrev none_left : Streams
none_left = record { mcp_sse_streams = 0; connected = [] }

-- One slot: a connection takes it, another is refused, and the first one ends.
streams_capped_example :
    (none_left.mcp_sse_streams ≡ length none_left.connected) × (none_left.mcp_sse_streams ≤ 1)
unfolding take_slot give_back
streams_capped_example = streams_capped 1 none_left (
    next
      (next (next here (accepted 7 1 no_streams refl)) (
        refused "Too many open MCP streams" 1 (record { mcp_sse_streams = 1; connected = 7 ∷ [] })
          refl))
      (ended [] [] 7 1))

token_of_header : mcp_token (some "Bearer abc") (some "xyz") none ≡ "abc"
unfolding mcp_token string_dec drop_chars
token_of_header = refl

token_of_query : mcp_token none (some "") (some "xyz") ≡ "xyz"
unfolding mcp_token string_dec drop_chars
token_of_query = refl
