-- ===== src/Codec/Publishes.antt =====
-- A PUBLISH in the in-flight blobs of crates/relay-server/src/hub.rs, written and read.
use mathlib.Core.List.{append_assoc}
use ch_relay.Prelude.{
  ℕ, ◌%◌, ◌<◌, ◌≡◌, refl, Bool, true, false, not, ◌∷◌, ◌++◌, some, ◌==◌, arith, if◌then◌else◌,
  length,
}
use ch_relay.Bytes.{Bytes}
use ch_relay.Bytes.Utf8.{is_utf8, from_utf8_lossy-valid}
use ch_relay.Message.{QoS, at_least_once, exactly_once}
use ch_relay.Packet.{Publish, make_publish}
use ch_relay.Session.{
  Inflight, InflightEntry, qos1, qos2_await_rec, qos2_await_comp, u16_mod, u32_mod,
}
use ch_relay.Session.PacketIds.{IsTracked}
use ch_relay.Codec.{
  encode_publish_entry, decode_publish, read_u8, read_bytes, read_u16, read_u32, u16_be, u32_be,
  non_zero, tagged, retain_flag,
}
use ch_relay.Codec.Reading.{read_bytes-append, read_u16-append, read_u32-append}

-- The topic and the payload fit the length fields, and the topic is a text.
pub record Fits (p : Publish) : Type 0 where
  pub topic_short : length p.topic < u16_mod
  pub topic_text : is_utf8 p.topic ≡ true
  pub payload_short : length p.payload < u32_mod

abbrev pub StateFits : Inflight → Type 0
StateFits (qos1 p) = Fits p
StateFits (qos2_await_rec p) = Fits p
StateFits (qos2_await_comp pid) = Unit

abbrev pub EntryFits : InflightEntry → Type 0
EntryFits e = StateFits e.state × (e.attempts < u32_mod)

module _ (p : Publish) (rest : Bytes) (f : Fits p) where
  after_payload : Bytes
  after_payload = u32_be (length p.payload % u32_mod) ++ (p.payload ++ rest)

  read_payload :
      (read_u32 after_payload ≡ some (length p.payload, p.payload ++ rest))
      × (read_bytes (length p.payload) (p.payload ++ rest) ≡ some (p.payload, rest))
  unfolding after_payload
  read_payload =
      let fits : length p.payload % u32_mod ≡ length p.payload = omega (arith, f.payload_short) in
      (
        rw fits (read_u32-append (length p.payload) (p.payload ++ rest) f.payload_short),
        read_bytes-append (length p.payload) p.payload rest refl,
      )

  pub after_topic : Bytes
  unfolding after_payload
  after_topic = u16_be (length p.topic % u16_mod) ++ (p.topic ++ after_payload)

  read_topic :
      (read_u16 after_topic ≡ some (length p.topic, p.topic ++ after_payload))
      × (read_bytes (length p.topic) (p.topic ++ after_payload) ≡ some (p.topic, after_payload))
  unfolding after_topic
  read_topic =
      let fits : length p.topic % u16_mod ≡ length p.topic = omega (arith, f.topic_short) in
      (
        rw fits (read_u16-append (length p.topic) (p.topic ++ after_payload) f.topic_short),
        read_bytes-append (length p.topic) p.topic after_payload refl,
      )

abbrev pub flag : Bool → ℕ
flag retain = if retain then 1 else 0

flag_lem : (retain : Bool) → not (flag retain == 0) ≡ retain
flag_lem true = refl
flag_lem false = refl

pub decode_publish-encode :
    (tag : ℕ) (qos : QoS) (p : Publish) (rest : Bytes) (t : IsTracked qos p) (f : Fits p)
    → decode_publish tag (u16_be t.id ++ (flag p.retain ∷ after_topic p rest f))
      ≡ some (
        tagged tag (
            make_publish p.topic p.payload
              (if tag == 1 then at_least_once else exactly_once)
              (some t.id)
              p.retain
              false),
        rest,
      )
unfolding decode_publish read_u8
decode_publish-encode tag qos p rest t f =
    let id_set : non_zero t.id ≡ some t.id = ground (arith, t.is_id.0) in
    rw
      (
        read_u16-append t.id (flag p.retain ∷ after_topic p rest f) t.is_id.1,
        id_set,
        (read_topic p rest f).0,
        (read_topic p rest f).1,
        (read_payload p rest f).0,
        (read_payload p rest f).1,
        from_utf8_lossy-valid p.topic f.topic_text,
        flag_lem p.retain,
      )
      refl

pub encode_publish_entry-append :
    (tag attempts : ℕ) (qos : QoS) (p : Publish) (rest : Bytes) (t : IsTracked qos p) (f : Fits p)
    → encode_publish_entry tag attempts p ++ rest
      ≡ tag ∷ (u32_be attempts ++ (u16_be t.id ++ (flag p.retain ∷ after_topic p rest f)))
unfolding encode_publish_entry after_topic
encode_publish_entry-append tag attempts qos p rest t f =
    let flags : retain_flag p.retain ≡ flag p.retain = ground arith in
    simp (append_assoc, t.has_id, flags)
