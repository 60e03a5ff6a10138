-- ===== src/Codec/RoundTrip.antt =====
-- What is persisted and read back: in-flight queues and events.
use mathlib.Core.List.{append_assoc}
use Prim.Native.Nat.{max}
use ch_relay.Prelude.{
  ℕ, zero, suc, ◌+◌, ◌%◌, ◌≤◌, ◌<◌, ◌≡◌, refl, ap, true, false, List, [], ◌∷◌, ◌++◌, map, Option,
  none, some, arith, length, length-append, ◌∙◌, All,
}
use ch_relay.Bytes.{Bytes}
use ch_relay.Bytes.Utf8.{is_utf8, from_utf8_lossy-valid}
use ch_relay.Message.{QoS, at_least_once, exactly_once, as_u8}
use ch_relay.Message.Orders.{from_u8_iff}
use ch_relay.Packet.{Publish, make_publish}
use ch_relay.Retry.{RetryConfig, backoff}
use ch_relay.Session.{
  Session, Inflight, InflightEntry, qos1, qos2_await_rec, qos2_await_comp, u16_mod, u32_mod, rearm,
}
use ch_relay.Session.PacketIds.{IsTracked, IsEntry, IsState, IsValid}
use ch_relay.Codec.{
  ◌>>=◌, encode_publish_entry, encode_entry, encode_entries, encode_inflight, decode_comp,
  decode_state, decode_entry, decode_entries, decode_inflight, encode_event, decode_event, read_u8,
  u16_be, u32_be, u64_be, non_zero,
}
use ch_relay.Codec.Reading.{read_bytes-append, read_u16-append, read_u32-append}
use ch_relay.Codec.Publishes.{
  StateFits, EntryFits, after_topic, flag, decode_publish-encode, encode_publish_entry-append,
}

-- The publish that the decoder rebuilds is the one that was encoded.
rebuilt :
    (qos : QoS) (p : Publish) (t : IsTracked qos p)
    → make_publish p.topic p.payload qos (some t.id) p.retain false ≡ p
rebuilt qos p t = ground (arith, t.has_id, t.at_qos, t.original, t.plain)

decode_state-encode :
    (now : ℕ) (cfg : RetryConfig) (state : Inflight) (attempts due : ℕ) (rest : Bytes)
    → IsState state
    → StateFits state
    → attempts < u32_mod
    → decode_entry now cfg
        (encode_entry (record { state = state; attempts = attempts; next_due = due }) ++ rest)
      ≡ some (rearm now cfg (record { state = state; attempts = attempts; next_due = due }), rest)
unfolding decode_entry decode_state encode_entry read_u8
decode_state-encode now cfg (qos1 p) attempts due rest t f b =
    rw
      (
        encode_publish_entry-append 1 attempts at_least_once p rest t f,
        read_u32-append attempts (u16_be t.id ++ (flag p.retain ∷ after_topic p rest f)) b,
        decode_publish-encode 1 at_least_once p rest t f,
      )
      (ap
        (λ (q : Publish). some (
          record {
            state = qos1 q;
            attempts = attempts;
            next_due = now + backoff cfg (max attempts 1);
          },
          rest,
        ))
        (rebuilt at_least_once p t))
decode_state-encode now cfg (qos2_await_rec p) attempts due rest t f b =
    rw
      (
        encode_publish_entry-append 2 attempts exactly_once p rest t f,
        read_u32-append attempts (u16_be t.id ++ (flag p.retain ∷ after_topic p rest f)) b,
        decode_publish-encode 2 exactly_once p rest t f,
      )
      (ap
        (λ (q : Publish). some (
          record {
            state = qos2_await_rec q;
            attempts = attempts;
            next_due = now + backoff cfg (max attempts 1);
          },
          rest,
        ))
        (rebuilt exactly_once p t))
decode_state-encode now cfg (qos2_await_comp pid) attempts due rest t f b =
    unfold decode_comp in
    let id_set : non_zero pid ≡ some pid = ground (arith, t.0) in
    rw
      (
        append_assoc (u32_be attempts) (u16_be pid) rest,
        read_u32-append attempts (u16_be pid ++ rest) b,
        read_u16-append pid rest t.1,
        id_set,
      )
      refl

encode_entry_nonempty :
    (state : Inflight) (attempts due : ℕ)
    → 1 ≤ length (encode_entry (record { state = state; attempts = attempts; next_due = due }))
unfolding encode_entry encode_publish_entry
encode_entry_nonempty (qos1 p) attempts due = omega arith
encode_entry_nonempty (qos2_await_rec p) attempts due = omega arith
encode_entry_nonempty (qos2_await_comp pid) attempts due = omega arith

length-encode_entries : (es : List InflightEntry) → length es ≤ length (encode_entries es)
length-encode_entries [] = omega arith
length-encode_entries (e ∷ es) = omega (
  arith,
  length-append (encode_entry e) (encode_entries es),
  encode_entry_nonempty e.state e.attempts e.next_due,
  length-encode_entries es,
)

abbrev cons_entry : Option (List InflightEntry) → InflightEntry → Option (List InflightEntry)
cons_entry none e = none
cons_entry (some es) e = some (e ∷ es)

decode_entries-step :
    (fuel now : ℕ) (cfg : RetryConfig) (c rest : Bytes) (e : InflightEntry)
    → 1 ≤ length c
    → decode_entry now cfg c ≡ some (e, rest)
    → decode_entries (suc fuel) now cfg c ≡ cons_entry (decode_entries fuel now cfg rest) e
unfolding decode_entries
decode_entries-step fuel now cfg [] rest e h d = absurd (omega arith)
decode_entries-step fuel now cfg (b ∷ c) rest e h d =
    rw d (cons_or_fail (decode_entries fuel now cfg rest))
  where
    cons_or_fail : (o : Option (List InflightEntry)) → (o >>= λ es. some (e ∷ es)) ≡ cons_entry o e
    cons_or_fail none = refl
    cons_or_fail (some es) = refl

decode_entries-encode :
    (fuel now : ℕ) (cfg : RetryConfig) (es : List InflightEntry)
    → length es ≤ fuel
    → All IsEntry es
    → All EntryFits es
    → decode_entries fuel now cfg (encode_entries es) ≡ some (map (rearm now cfg) es)
decode_entries-encode zero now cfg [] h v f = unfold decode_entries in refl
decode_entries-encode (suc fuel) now cfg [] h v f = unfold decode_entries in refl
decode_entries-encode zero now cfg (e ∷ es) h v f = absurd (omega arith)
decode_entries-encode (suc fuel) now cfg (e ∷ es) h v f =
    let read =
      decode_state-encode now cfg e.state e.attempts e.next_due (encode_entries es) v.0 f.0.0
        f.0.1 in
    let later = decode_entries-encode fuel now cfg es (omega arith) v.1 f.1 in
    decode_entries-step fuel now cfg (encode_entry e ++ encode_entries es) (encode_entries es)
      (rearm now cfg e)
      (omega (
        arith,
        length-append (encode_entry e) (encode_entries es),
        encode_entry_nonempty e.state e.attempts e.next_due,
      ))
      read
    ∙ ap (λ (o : Option (List InflightEntry)). cons_entry o (rearm now cfg e)) later

-- The queue of a valid session that is persisted and read back is the same queue, entry by entry
-- and in the same order, with the same packet-id counter; only the due times are set anew, from the
-- attempts made so far. The topics are texts of less than 65536 bytes, and the payloads shorter than
-- 2^32 bytes.
pub decode_inflight-encode_inflight :
    (s : Session) (now : ℕ) (cfg : RetryConfig)
    → IsValid s
    → All EntryFits s.inflight
    → decode_inflight (encode_inflight s) now cfg ≡ some (s.next_id, map (rearm now cfg) s.inflight)
unfolding decode_inflight encode_inflight
decode_inflight-encode_inflight s now cfg v f =
    let enough : length s.inflight ≤ length (u16_be s.next_id ++ encode_entries s.inflight) =
      omega (arith, length-encode_entries s.inflight) in
    rw
      (
        read_u16-append s.next_id (encode_entries s.inflight) v.counter.1,
        decode_entries-encode _ now cfg s.inflight enough v.entries f,
      )
      refl

-- A journalled event that is read back has its topic, its payload and its QoS, whatever the clock
-- said; the topic is a text of less than 65536 bytes.
pub decode_event-encode_event :
    (ts : ℕ) (topic payload : Bytes) (qos : QoS)
    → length topic < u16_mod
    → is_utf8 topic ≡ true
    → decode_event (encode_event ts topic (as_u8 qos) payload) ≡ some (topic, payload, qos)
unfolding decode_event encode_event read_u8
decode_event-encode_event ts topic payload qos h u =
    let fits : length topic % u16_mod ≡ length topic = omega arith in
    rw
      (
        read_bytes-append 8 (u64_be ts)
            (as_u8 qos ∷ (u16_be (length topic % u16_mod) ++ (topic ++ payload))) refl,
        fits,
        read_u16-append (length topic) (topic ++ payload) h,
        read_bytes-append (length topic) topic payload refl,
        from_utf8_lossy-valid topic u,
        (from_u8_iff (as_u8 qos) qos).1 refl,
      )
      refl
