-- ===== src/Connection.antt =====
-- crates/relay-server/src/connection.rs: one client's connection. The socket is what the codec reads
-- from it and the replies that it takes; the clock, the token library and the event log are
-- parameters, as they are for the hub and for the authentication.
pub mod Requests
pub mod Turns
pub mod Endings
pub mod FilterQuota
pub mod Quota
pub mod FilterLoops
pub mod Consistency
pub mod RouterChanges
pub mod Permissions
pub mod Strangers
pub mod Reconnects
pub mod Serving
mod Examples
use ch_relay.Codec.{◌>>=◌}
use ch_relay.Prelude.{
  ℕ, zero, suc, ◌+◌, ◌-◌, ◌*◌, Bool, true, false, not, ◌&&◌, ◌||◌, List, [], ◌∷◌, ◌++◌, Option,
  none, some, ◌==◌, ltb, leb, if◌then◌else◌, any, keep, length,
}
use ch_relay.Prelude.Results.{Result}
use ch_relay.Bytes.{Bytes, bytes_beq, split_once}
use ch_relay.Topic.{TopicFilter, parse}
use ch_relay.Message.{QoS, Message, exactly_once}
use ch_relay.Packet.{Packet}
use ch_relay.Acl.{Acl, no_access}
use ch_relay.Router.{ClientId}
use ch_relay.Auth.{Principal, AuthError}
use ch_relay.Hub.{Hub, u64_mod}

-- `MAX_QOS`.
abbrev pub max_qos : QoS
max_qos = exactly_once

pub data SubscribeStatus : Type 0 where
  granted : QoS → SubscribeStatus
  not_authorized quota_exceeded filter_invalid : SubscribeStatus

-- What the connection itself sends: a CONNACK with its session flag and whether it succeeded, the
-- acknowledgements with their packet id and whether they succeeded, and what the hub sends through it.
pub data Reply : Type 0 where
  connack : Bool → Bool → Reply
  suback : ℕ → List SubscribeStatus → Reply
  unsuback : ℕ → List Bool → Reply
  puback pubrec : ℕ → Bool → Reply
  pubcomp : ℕ → Reply
  ping_response : Reply
  outbound : Packet → Reply

-- The will of a CONNECT is kept as a `Message`.
pub record Connect : Type 0 where
  pub client_id : Bytes
  pub clean_start : Bool
  pub password : Option Bytes
  pub session_expiry_interval_secs : ℕ
  pub last_will : Option Message

pub record InboundPublish : Type 0 where
  pub topic : Bytes
  pub payload : Bytes
  pub qos : QoS
  pub retain : Bool
  pub packet_id : Option ℕ

-- A DISCONNECT carries whether it is a normal disconnection.
pub data Inbound : Type 0 where
  connects : Connect → Inbound
  subscribes : ℕ → List (Bytes × QoS) → Inbound
  publishes : InboundPublish → Inbound
  pubacks pubrecs pubcomps pubrels : ℕ → Inbound
  unsubscribes : ℕ → List Bytes → Inbound
  pings : Inbound
  disconnects : Bool → Inbound
  other : Inbound

-- What stays the same while a connection lasts.
pub record Env : Type 1 where
  pub peer : Bytes
  pub authenticate : Option Bytes → Result AuthError Principal
  pub max_subscriptions : ℕ
  pub load_events : ℕ → Option (List (ℕ × Bytes))
  pub to_string : ℕ → Bytes

-- The local variables of `handle`, with the hub and the replies that the socket has taken.
pub record Conn : Type 0 where
  pub session_id : Option ClientId
  pub generation : ℕ
  pub access : Acl
  pub will : Option Message
  pub clean_disconnect : Bool
  pub active_filters : List Bytes
  pub hub : Hub
  pub sent : List Reply

abbrev pub opened : Hub → Conn
opened h = record {
  session_id = none;
  generation = 0;
  access = no_access;
  will = none;
  clean_disconnect = false;
  active_filters = [];
  hub = h;
  sent = [];
}

-- How a turn of the loop ends.
pub data Turn : Type 0 where
  continues breaks : Conn → Turn
  panics : Turn

-- The time of a turn, and whether the socket takes a reply in it.
pub record Moment : Type 0 where
  pub now : ℕ
  pub ts : ℕ
  pub takes : Bool

-- A reply: the loop ends if the socket does not take it.
abbrev pub reply : Moment → Conn → Reply → Turn
reply at c r = if at.takes then continues (record c { sent = c.sent ++ r ∷ [] }) else breaks c

-- A last reply, after which the loop ends in any case.
abbrev pub refuse : Moment → Conn → Reply → Turn
refuse at c r = breaks (if at.takes then record c { sent = c.sent ++ r ∷ [] } else c)

-- `HashSet<String>`.
abbrev pub has_filter : Bytes → List Bytes → Bool
has_filter f fs = any (λ g. bytes_beq g f) fs

abbrev pub add_filter : Bytes → List Bytes → List Bytes
add_filter f fs = if has_filter f fs then fs else f ∷ fs

abbrev pub remove_filter : Bytes → List Bytes → List Bytes
remove_filter f fs = keep (λ g. not (bytes_beq g f)) fs

-- `str::parse::<u64>`: decimal digits after an optional `+`, without overflow.
abbrev pub is_digit : ℕ → Bool
is_digit c = leb b'0' c && leb c b'9'

unfoldable pub digits_value : Bytes → ℕ → Option ℕ
digits_value [] acc = some acc
digits_value (c ∷ s) acc =
    let rest = digits_value s (acc * 10 + (c - b'0')) in
    if is_digit c && ltb (acc * 10 + (c - b'0')) u64_mod then rest else none

abbrev pub unsigned_digits : Bytes → Option ℕ
unsigned_digits [] = none
unsigned_digits (c ∷ s) = digits_value (c ∷ s) 0

unfoldable pub parse_u64 : Bytes → Option ℕ
unfolding digits_value
parse_u64 [] = none
parse_u64 (c ∷ s) = if c == b'+' then unsigned_digits s else unsigned_digits (c ∷ s)

unfoldable pub parse_replay : Bytes → Option (ℕ × TopicFilter)
parse_replay rest = do
  (from, filter) ← split_once b'/' rest
  from ← parse_u64 from
  filter ← parse filter
  some (from, filter)
