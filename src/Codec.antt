-- ===== src/Codec.antt =====
-- The binary layouts of crates/relay-server/src/hub.rs: in-flight queues, dead letters and events.
-- A `Cursor` is the bytes that are left from its position on.
pub mod Reading
pub mod Publishes
pub mod RoundTrip
mod Examples
use ch_relay.Prelude.{
  ℕ, zero, suc, ◌+◌, ◌*◌, ◌/◌, ◌%◌, ◌^◌, Bool, true, false, not, ◌||◌, List, [], ◌∷◌, ◌++◌, Option,
  none, some, ◌==◌, leb, if◌then◌else◌, length, take, drop,
}
use Prim.Native.Nat.{max}
use ch_relay.Bytes.{Bytes}
use ch_relay.Bytes.Utf8.{from_utf8_lossy}
use ch_relay.Message.{QoS, at_most_once, at_least_once, exactly_once, from_u8}
use ch_relay.Packet.{Publish, make_publish}
use ch_relay.Retry.{RetryConfig, backoff}
use ch_relay.Session.{
  Session, Inflight, InflightEntry, qos1, qos2_await_rec, qos2_await_comp, u16_mod, u32_mod,
}

infixl 5 ◌>>=◌
abbrev pub ◌>>=◌ {ℓ κ} : {A : Type ℓ} {B : Type κ} → Option A → (A → Option B) → Option B
none >>= f = none
some a >>= f = f a

-- `to_be_bytes` of `u16`, `u32` and `u64`.
abbrev pub be_byte : ℕ → ℕ → ℕ
be_byte k n = n / 256 ^ k % 256

abbrev pub u16_be : ℕ → Bytes
u16_be n = be_byte 1 n ∷ be_byte 0 n ∷ []

abbrev pub u32_be : ℕ → Bytes
u32_be n = be_byte 3 n ∷ be_byte 2 n ∷ be_byte 1 n ∷ be_byte 0 n ∷ []

abbrev pub u64_be : ℕ → Bytes
u64_be n =
    be_byte 7 n
    ∷ be_byte 6 n
    ∷ be_byte 5 n
    ∷ be_byte 4 n
    ∷ be_byte 3 n
    ∷ be_byte 2 n
    ∷ be_byte 1 n
    ∷ be_byte 0 n
    ∷ []

abbrev pub or_zero : Option ℕ → ℕ
or_zero none = 0
or_zero (some x) = x

abbrev pub retain_flag : Bool → ℕ
retain_flag true = 1
retain_flag false = 0

-- The lengths are cut to their field: `as u16`, `as u32`.
unfoldable pub encode_publish_entry : ℕ → ℕ → Publish → Bytes
encode_publish_entry tag attempts p =
    tag
    ∷ (u32_be attempts
        ++ (u16_be (or_zero p.packet_id)
            ++ (retain_flag p.retain
                ∷ (u16_be (length p.topic % u16_mod)
                    ++ (p.topic ++ (u32_be (length p.payload % u32_mod) ++ p.payload))))))

unfoldable pub encode_entry : InflightEntry → Bytes
encode_entry e = elim e.state [
  | qos1 p ↦ encode_publish_entry 1 e.attempts p
  | qos2_await_rec p ↦ encode_publish_entry 2 e.attempts p
  | qos2_await_comp pid ↦ 3 ∷ (u32_be e.attempts ++ u16_be pid)
]

abbrev pub encode_entries : List InflightEntry → Bytes
encode_entries [] = []
encode_entries (e ∷ es) = encode_entry e ++ encode_entries es

unfoldable pub encode_inflight : Session → Bytes
encode_inflight s = u16_be s.next_id ++ encode_entries s.inflight

-- The readers yield the value and the cursor after it.
unfoldable pub read_u8 : Bytes → Option (ℕ × Bytes)
read_u8 [] = none
read_u8 (b ∷ c) = some (b, c)

unfoldable pub read_bytes : ℕ → Bytes → Option (Bytes × Bytes)
read_bytes n c = if leb n (length c) then some (take n c, drop n c) else none

-- `from_be_bytes`.
abbrev pub be_value : ℕ → Bytes → ℕ
be_value acc [] = acc
be_value acc (b ∷ bs) = be_value (acc * 256 + b) bs

unfoldable pub read_u16 : Bytes → Option (ℕ × Bytes)
read_u16 c = do (bs, c') ← read_bytes 2 c; some (be_value 0 bs, c')

unfoldable pub read_u32 : Bytes → Option (ℕ × Bytes)
read_u32 c = do (bs, c') ← read_bytes 4 c; some (be_value 0 bs, c')

-- `NonZeroU16::new`.
abbrev pub non_zero : ℕ → Option ℕ
non_zero n = if n == 0 then none else some n

abbrev pub tagged : ℕ → Publish → Inflight
tagged tag p = if tag == 1 then qos1 p else qos2_await_rec p

unfoldable pub decode_publish : ℕ → Bytes → Option (Inflight × Bytes)
decode_publish tag c = do
  (id, c) ← read_u16 c
  pid ← non_zero id
  (flags, c) ← read_u8 c
  (topic_len, c) ← read_u16 c
  (topic, c) ← read_bytes topic_len c
  (payload_len, c) ← read_u32 c
  (payload, c) ← read_bytes payload_len c
  let wire = if tag == 1 then at_least_once else exactly_once
  some (
    tagged tag
        (make_publish (from_utf8_lossy topic) payload wire (some pid) (not (flags == 0)) false),
    c,
  )

unfoldable pub decode_comp : Bytes → Option (Inflight × Bytes)
decode_comp c = do (id, c) ← read_u16 c; pid ← non_zero id; some (qos2_await_comp pid, c)

unfoldable pub decode_state : ℕ → Bytes → Option (Inflight × Bytes)
decode_state tag c =
    if tag == 1 || tag == 2 then decode_publish tag c else if tag == 3 then decode_comp c else none

unfoldable pub decode_entry : ℕ → RetryConfig → Bytes → Option (InflightEntry × Bytes)
decode_entry now cfg c = do
  (tag, c) ← read_u8 c
  (attempts, c) ← read_u32 c
  (state, c) ← decode_state tag c
  some (
    record { state = state; attempts = attempts; next_due = now + backoff cfg (max attempts 1) },
    c,
  )

-- The loop while bytes are left; each round takes some, so there are fewer rounds than bytes.
unfoldable pub decode_entries : ℕ → ℕ → RetryConfig → Bytes → Option (List InflightEntry)
decode_entries fuel now cfg [] = some []
decode_entries zero now cfg (b ∷ c) = none
decode_entries (suc fuel) now cfg (b ∷ c) = do
  (e, rest) ← decode_entry now cfg (b ∷ c)
  es ← decode_entries fuel now cfg rest
  some (e ∷ es)

unfoldable pub decode_inflight : Bytes → ℕ → RetryConfig → Option (ℕ × List InflightEntry)
decode_inflight blob now cfg = do
  (next_id, c) ← read_u16 blob
  es ← decode_entries (length blob) now cfg c
  some (next_id, es)

-- The clock, `ts` seconds since the epoch, is an argument.
unfoldable pub encode_dead_letter : ℕ → Bytes → Bytes → Bytes → ℕ → ℕ → Bytes → Bytes
encode_dead_letter ts client_id topic reason attempts qos payload =
    u64_be ts
    ++ (u32_be attempts
        ++ (u16_be (length reason % u16_mod)
            ++ (reason
                ++ (u16_be (length client_id % u16_mod)
                    ++ (client_id
                        ++ (u16_be (length topic % u16_mod) ++ (topic ++ (qos ∷ payload))))))))

unfoldable pub encode_event : ℕ → Bytes → ℕ → Bytes → Bytes
encode_event ts topic qos payload =
    u64_be ts ++ (qos ∷ (u16_be (length topic % u16_mod) ++ (topic ++ payload)))

abbrev or_lowest : Option QoS → QoS
or_lowest none = at_most_once
or_lowest (some q) = q

-- `(topic, payload, qos)`; what is left after the topic is the payload.
unfoldable pub decode_event : Bytes → Option (Bytes × Bytes × QoS)
decode_event blob = do
  (_, c) ← read_bytes 8 blob
  (qos, c) ← read_u8 c
  (topic_len, c) ← read_u16 c
  (topic, payload) ← read_bytes topic_len c
  some (from_utf8_lossy topic, payload, or_lowest (from_u8 qos))
