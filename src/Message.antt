-- ===== src/Message.antt =====
-- crates/relay-core/src/qos.rs and crates/relay-core/src/message.rs.
pub mod Orders
use ch_relay.Prelude.{
  ℕ, zero, suc, Bool, true, false, Option, none, some, ◌≡◌, leb, if◌then◌else◌, arith,
}
use ch_relay.Bytes.{Bytes}

pub data QoS : Type 0 where
  at_most_once at_least_once exactly_once : QoS

-- `qos as u8`.
abbrev pub as_u8 : QoS → ℕ
as_u8 at_most_once = 0
as_u8 at_least_once = 1
as_u8 exactly_once = 2

unfoldable pub from_u8 : ℕ → Option QoS
from_u8 zero = some at_most_once
from_u8 (suc zero) = some at_least_once
from_u8 (suc (suc zero)) = some exactly_once
from_u8 (suc (suc (suc n))) = none

-- The derived order goes by the discriminants.
abbrev pub min : QoS → QoS → QoS
min p q = if leb (as_u8 p) (as_u8 q) then p else q

abbrev pub max : QoS → QoS → QoS
max p q = if leb (as_u8 p) (as_u8 q) then q else p

pub record Message : Type 0 where
  pub topic : Bytes
  pub payload : Bytes
  pub qos : QoS
  pub retain : Bool

-- `Message::new`.
abbrev pub new : Bytes → Bytes → Message
new topic payload = record { topic = topic; payload = payload; qos = at_most_once; retain = false }

abbrev pub with_qos : Message → QoS → Message
with_qos m q = record m { qos = q }

abbrev pub retained : Message → Message
retained m = record m { retain = true }
