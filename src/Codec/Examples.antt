-- ===== src/Codec/Examples.antt =====
-- A queue with one entry of each kind, and an event.
use ch_relay.Prelude.{◌≡◌, refl, true, false, some, [], ◌∷◌, map, arith}
use ch_relay.Bytes.{codes}
use ch_relay.Bytes.Utf8.{is_utf8}
use ch_relay.Message.{at_least_once, exactly_once, as_u8}
use ch_relay.Packet.{Publish, make_publish}
use ch_relay.Retry.{default_retry}
use ch_relay.Session.{Session, qos1, qos2_await_rec, qos2_await_comp, new, rearm}
use ch_relay.Session.PacketIds.{IsValid}
use ch_relay.Codec.{encode_inflight, decode_inflight, encode_event, decode_event}
use ch_relay.Codec.RoundTrip.{decode_inflight-encode_inflight, decode_event-encode_event}
use ch_relay.Codec.Publishes.{Fits}

abbrev first : Publish
first = make_publish (codes "a/b") (codes "one") at_least_once (some 1) true false

abbrev second : Publish
second = make_publish (codes "a/c") [] exactly_once (some 2) false false

abbrev queued : Session
queued = record (new (codes "c1") (some []) 60 1) {
  next_id = 4;
  inflight =
      record { state = qos1 first; attempts = 1; next_due = 9 }
      ∷ record { state = qos2_await_rec second; attempts = 3; next_due = 5 }
      ∷ record { state = qos2_await_comp 3; attempts = 2; next_due = 7 }
      ∷ [];
}

queued-IsValid : IsValid queued
queued-IsValid = record {
  counter = omega arith;
  entries = (
    record {
      id = 1;
      has_id = refl;
      is_id = omega arith;
      at_qos = refl;
      original = refl;
      plain = refl;
    },
    (
      record {
        id = 2;
        has_id = refl;
        is_id = omega arith;
        at_qos = refl;
        original = refl;
        plain = refl;
      },
      (omega arith, tt),
    ),
  );
}

first-Fits : Fits first
unfolding is_utf8
first-Fits = record { topic_short = omega arith; topic_text = refl; payload_short = omega arith }

second-Fits : Fits second
unfolding is_utf8
second-Fits = record { topic_short = omega arith; topic_text = refl; payload_short = omega arith }

decode_inflight-encode_inflight_example :
    decode_inflight (encode_inflight queued) 100 default_retry
    ≡ some (queued.next_id, map (rearm 100 default_retry) queued.inflight)
decode_inflight-encode_inflight_example =
    decode_inflight-encode_inflight queued 100 default_retry queued-IsValid
      ((first-Fits, omega arith), ((second-Fits, omega arith), ((tt, omega arith), tt)))

decode_event-encode_event_example :
    decode_event (encode_event 1700000000 (codes "a/b") (as_u8 exactly_once) (codes "hi"))
    ≡ some (codes "a/b", codes "hi", exactly_once)
unfolding is_utf8
decode_event-encode_event_example =
    decode_event-encode_event 1700000000 (codes "a/b") (codes "hi") exactly_once (omega arith) refl
