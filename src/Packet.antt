-- ===== src/Packet.antt =====
-- The packets that the broker sends, as crates/relay-server/src/hub.rs and
-- crates/relay-server/src/connection.rs build them. A packet id is the number in a `NonZeroU16`.
use ch_relay.Prelude.{ℕ, Bool, List, [], Option}
use ch_relay.Bytes.{Bytes}
use ch_relay.Message.{QoS}

-- `Publish`; of its properties only the user properties are ever set.
pub record Publish : Type 0 where
  pub dup : Bool
  pub retain : Bool
  pub qos : QoS
  pub topic : Bytes
  pub packet_id : Option ℕ
  pub payload : Bytes
  pub user_properties : List (Bytes × Bytes)

pub data Packet : Type 0 where
  publish : Publish → Packet
  publish_release : ℕ → Packet

abbrev pub make_publish : Bytes → Bytes → QoS → Option ℕ → Bool → Bool → Publish
make_publish topic payload qos packet_id retain dup = record {
  dup = dup;
  retain = retain;
  qos = qos;
  topic = topic;
  packet_id = packet_id;
  payload = payload;
  user_properties = [];
}

abbrev pub pubrel : ℕ → Packet
pubrel packet_id = publish_release packet_id
