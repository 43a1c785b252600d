-- ===== src/Agent/Streams/Cap.antt =====
-- How many streams of the tools' server are open (agent/main.py), over every order of connections.
use wso2_teamspace_demo.Base.{ℕ, ◌≤◌, ◌≡◌, ◌∷◌, length, length-append, arith, refl}
use wso2_teamspace_demo.Agent.Streams.{
  Streams, Step, accepted, refused, ended, Reach, here, next, no_streams, take_slot, give_back,
}

-- The counter counts the connections, and keeps the cap.
record IsCounted (max : ℕ) (s : Streams) : Type 0 where
  counted : s.mcp_sse_streams ≡ length s.connected
  capped : s.mcp_sse_streams ≤ max

Step-IsCounted : {max : ℕ} {s t : Streams} → Step max s t → IsCounted max s → IsCounted max t
unfolding take_slot give_back
Step-IsCounted (accepted id n s e) h = record {
  counted = ground (arith, h.counted);
  capped = ground (arith, h.capped);
}
Step-IsCounted (refused detail n s e) h = record {
  counted = ground (arith, h.counted);
  capped = ground (arith, h.capped);
}
Step-IsCounted (ended earlier later id n) h = record {
  counted =
      omega (arith, h.counted, length-append earlier (id ∷ later), length-append earlier later);
  capped = omega (arith, h.capped);
}

Reach-IsCounted : {max : ℕ} {s t : Streams} → Reach max s t → IsCounted max s → IsCounted max t
Reach-IsCounted here h = h
Reach-IsCounted (next r st) h = Step-IsCounted st (Reach-IsCounted r h)

-- Whatever connections come and go, from no stream on, the counter of the streams is the number of
-- the connections that hold a slot, and never above the maximum.
pub streams_capped :
    (max : ℕ) (s : Streams)
    → Reach max no_streams s
    → (s.mcp_sse_streams ≡ length s.connected) × (s.mcp_sse_streams ≤ max)
streams_capped max s r =
    let h = Reach-IsCounted r (record { counted = refl; capped = omega arith }) in
    (h.counted, h.capped)
