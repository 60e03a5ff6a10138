-- ===== src/Connection/Serving.antt =====
-- The loop of `handle` in crates/relay-server/src/connection.rs, and what follows it.
use ch_relay.Prelude.{ℕ, List, [], ◌∷◌, Option, none, some, if◌then◌else◌}
use ch_relay.Message.{Message}
use ch_relay.Packet.{Packet}
use ch_relay.Router.{ClientId}
use ch_relay.Hub.{Hub}
use ch_relay.Hub.Delivery.{publish_to_all}
use ch_relay.Hub.Attach.{detach}
use ch_relay.Connection.{
  Env, Conn, Turn, continues, breaks, panics, Moment, Inbound, outbound, reply, opened,
}
use ch_relay.Connection.Turns.{handle_packet}

-- What one turn of the `select!` sees: a packet of the client, bytes that do not decode, the end of
-- the stream, or what the session's channel yields, which is nothing more once it is closed.
pub data Event : Type 0 where
  inbound : Inbound → Event
  protocol_error closed : Event
  channel : Option Packet → Event

unfoldable pub turn : Env → Moment → Conn → Event → Turn
turn env at c (inbound p) = handle_packet env at c p
turn env at c protocol_error = breaks c
turn env at c closed = breaks c
turn env at c (channel none) = breaks c
turn env at c (channel (some packet)) = reply at c (outbound packet)

-- `hub.publish` of the will, and `hub.detach`.
abbrev pub publish_will : Moment → Hub → Option Message → Hub
publish_will at h none = h
publish_will at h (some w) =
    (publish_to_all h at.now at.ts (record { topic = w.topic; payload = w.payload; qos = w.qos })
      w.retain).0

abbrev pub detach_session : Hub → Option ClientId → ℕ → Hub
detach_session h none generation = h
detach_session h (some id) generation = detach h id generation

unfoldable pub finish : Moment → Conn → Hub
finish at c =
    detach_session (if c.clean_disconnect then c.hub else publish_will at c.hub c.will) c.session_id
      c.generation

-- How far a connection has come: still in the loop, over with this hub, or in a panic.
pub data Outcome : Type 0 where
  running : Conn → Outcome
  over : Hub → Outcome
  panicked : Outcome

unfoldable pub run_loop : Env → Conn → List (Moment × Event) → Outcome
run_loop env c [] = running c
run_loop env c ((at, e) ∷ events) = elim (turn env at c e) [
  | continues c' ↦ run_loop env c' events
  | breaks c' ↦ over (finish at c')
  | panics ↦ panicked
]

-- What comes before the loop: nothing but a packet before the timeout lets the loop begin, with
-- that packet.
unfoldable pub serve : Env → Hub → Option (Moment × Inbound) → List (Moment × Event) → Outcome
unfolding run_loop
serve env h none events = over h
serve env h (some (at, p)) events = run_loop env (opened h) ((at, inbound p) ∷ events)
