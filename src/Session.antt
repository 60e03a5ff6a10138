-- ===== src/Session.antt =====
-- The `Session` of crates/relay-server/src/hub.rs: one client's delivery channel, packet ids and
-- in-flight queue. The channel is the list of the packets put into it since the connection began;
-- a packet that is sent while there is no channel is dropped.
pub mod PacketIds
pub mod Acks
pub mod Tick
pub mod Retries
pub mod Fates
pub mod Collisions
pub mod DeadLetters
pub mod Steps
mod Examples
use mathlib.Core.Option
use Prim.Native.Nat.{max}
use ch_relay.Prelude.{
  ℕ, zero, suc, ◌+◌, ◌%◌, ◌^◌, Bool, true, false, not, ◌&&◌, ◌||◌, List, [], ◌∷◌, ◌++◌, map, Option,
  none, some, ◌==◌, ltb, leb, if◌then◌else◌, keep, length, get_elem?,
}
use ch_relay.Bytes.{Bytes, codes, starts_with}
use ch_relay.Message.{QoS, at_most_once, at_least_once, exactly_once}
use ch_relay.Packet.{Publish, Packet, publish, make_publish, pubrel}
use ch_relay.Retry.{RetryConfig, backoff}

abbrev pub u16_mod : ℕ
u16_mod = 2 ^ 16

abbrev pub u32_mod : ℕ
u32_mod = 2 ^ 32

pub data Inflight : Type 0 where
  qos1 qos2_await_rec : Publish → Inflight
  qos2_await_comp : ℕ → Inflight

pub record InflightEntry : Type 0 where
  pub state : Inflight
  pub attempts : ℕ
  pub next_due : ℕ

-- `DeadMsg`: the publish under its own name.
pub record DeadMsg : Type 0 where
  pub message : Publish
  pub attempts : ℕ

pub record Session : Type 0 where
  pub client_id : Bytes
  pub tx : Option (List Packet)
  pub next_id : ℕ
  pub inflight : List InflightEntry
  pub incoming_qos2 : List ℕ
  pub expiry_secs : ℕ
  pub generation : ℕ

-- `Session::new`.
abbrev pub new : Bytes → Option (List Packet) → ℕ → ℕ → Session
new client_id tx expiry_secs generation = record {
  client_id = client_id;
  tx = tx;
  next_id = 1;
  inflight = [];
  incoming_qos2 = [];
  expiry_secs = expiry_secs;
  generation = generation;
}

unfoldable pub is_dlq_topic : Bytes → Bool
is_dlq_topic topic = starts_with (codes "$dlq/") topic

-- The id that is handed out is the counter before the call. The source panics on an id of 0, which is
-- handed out here as it is: that the counter is never 0 is an invariant.
unfoldable pub allocate_id : Session → Session × ℕ
allocate_id s =
    let next = (s.next_id + 1) % u16_mod in
    (record s { next_id = if next == 0 then 1 else next }, s.next_id)

abbrev pub send_all : List Packet → Option (List Packet) → Option (List Packet)
send_all packets none = none
send_all packets (some sent) = some (sent ++ packets)

unfoldable pub send : Session → Packet → Session
send s packet = record s { tx = send_all (packet ∷ []) s.tx }

push_back : Session → InflightEntry → Session
push_back s e = record s { inflight = s.inflight ++ e ∷ [] }

abbrev pub entry_of : QoS → Publish → Inflight
entry_of exactly_once p = qos2_await_rec p
entry_of _ p = qos1 p

deliver_tracked : Session → Bytes → Bytes → QoS → Bool → ℕ → RetryConfig → Session
unfolding send allocate_id push_back
deliver_tracked s topic payload qos retain now cfg =
    let (s', pid) = allocate_id s in
    let p = make_publish topic payload qos (some pid) retain false in
    let entry : InflightEntry = record {
      state = entry_of qos p;
      attempts = 1;
      next_due = now + backoff cfg 1;
    } in
    send (push_back s' entry) (publish p)

unfoldable pub deliver : Session → Bytes → Bytes → QoS → Bool → ℕ → RetryConfig → Session
unfolding deliver_tracked send
deliver s topic payload at_most_once retain now cfg =
    send s (publish (make_publish topic payload at_most_once none retain false))
deliver s topic payload at_least_once retain now cfg =
    deliver_tracked s topic payload at_least_once retain now cfg
deliver s topic payload exactly_once retain now cfg =
    deliver_tracked s topic payload exactly_once retain now cfg

-- The packet that is sent again for an entry: a publish is marked as a duplicate.
abbrev pub resend : Inflight → Packet
resend (qos1 p) = publish (record p { dup = true })
resend (qos2_await_rec p) = publish (record p { dup = true })
resend (qos2_await_comp pid) = pubrel pid

abbrev pub rearm : ℕ → RetryConfig → InflightEntry → InflightEntry
rearm now cfg e = record e { next_due = now + backoff cfg (max e.attempts 1) }

unfoldable pub retransmit : Session → ℕ → RetryConfig → Session
retransmit s now cfg = record s {
  inflight = map (rearm now cfg) s.inflight;
  tx = send_all (map (λ (e : InflightEntry). resend e.state) s.inflight) s.tx;
}

abbrev pub has_id : Publish → ℕ → Bool
has_id p pid = elim p.packet_id [ none ↦ false | some x ↦ x == pid ]

abbrev pub acked_by_puback : ℕ → Inflight → Bool
acked_by_puback pid (qos1 p) = has_id p pid
acked_by_puback pid (qos2_await_rec p) = false
acked_by_puback pid (qos2_await_comp x) = false

unfoldable pub on_puback : Session → ℕ → Session
on_puback s pid = record s {
  inflight = keep (λ (e : InflightEntry). not (acked_by_puback pid e.state)) s.inflight;
}

abbrev pub acked_by_pubcomp : ℕ → Inflight → Bool
acked_by_pubcomp pid (qos2_await_comp x) = x == pid
acked_by_pubcomp pid (qos1 p) = false
acked_by_pubcomp pid (qos2_await_rec p) = false

unfoldable pub on_pubcomp : Session → ℕ → Session
on_pubcomp s pid = record s {
  inflight = keep (λ (e : InflightEntry). not (acked_by_pubcomp pid e.state)) s.inflight;
}

abbrev pub received_by : ℕ → Inflight → Bool
received_by pid (qos2_await_rec p) = has_id p pid
received_by pid (qos1 p) = false
received_by pid (qos2_await_comp x) = false

-- The loop of `on_pubrec`: the first entry that awaits this PUBREC goes on to await the PUBCOMP.
unfoldable pub receive_first : ℕ → List InflightEntry → List InflightEntry
receive_first pid [] = []
receive_first pid (e ∷ es) =
    let rest = receive_first pid es in
    if received_by pid e.state then record e { state = qos2_await_comp pid } ∷ es else e ∷ rest

unfoldable pub awaits_rec : ℕ → List InflightEntry → Bool
awaits_rec pid [] = false
awaits_rec pid (e ∷ es) = received_by pid e.state || awaits_rec pid es

-- An unknown id is answered too, unless it is 0, which no packet can carry.
unfoldable pub on_pubrec : Session → ℕ → Session
unfolding receive_first awaits_rec send
on_pubrec s pid =
    if awaits_rec pid s.inflight
    then send (record s { inflight = receive_first pid s.inflight }) (pubrel pid)
    else if pid == 0
    then s
    else send s (pubrel pid)
