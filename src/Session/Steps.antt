-- ===== src/Session/Steps.antt =====
-- A session under any sequence of its operations.
use ch_relay.Prelude.{ℕ, Bool, List, [], ◌∷◌, All, ltb, Bool-cases, inl, inr}
use ch_relay.Bytes.{Bytes}
use ch_relay.Message.{QoS}
use ch_relay.Packet.{Packet}
use ch_relay.Retry.{RetryConfig}
use mathlib.Core.Option.{Option}
use ch_relay.Session.{
  Session, InflightEntry, new, deliver, retransmit, on_puback, on_pubrec, on_pubcomp,
}
use ch_relay.Session.Tick.{tick_retries, drain_undelivered, drain, is_exhausted, is_undelivered}
use ch_relay.Session.Retries.{ticked, tick_retries-ticked}
use ch_relay.Session.PacketIds.{
  IsValid, IsEntry, new-IsValid, deliver-IsValid, retransmit-IsValid, on_puback-IsValid,
  on_pubrec-IsValid, on_pubcomp-IsValid,
}

ticked-IsEntry :
    (now : ℕ) (cfg : RetryConfig) (es : List InflightEntry)
    → All IsEntry es
    → All IsEntry (ticked now cfg es)
ticked-IsEntry now cfg [] h = tt
ticked-IsEntry now cfg (e ∷ es) h = elim (Bool-cases (ltb now e.next_due)) [
  | inl w ↦ rw w (h.0, ticked-IsEntry now cfg es h.1)
  | inr w ↦ elim (Bool-cases (is_exhausted cfg e.attempts e.state)) [
    | inl x ↦ rw (w, x) (ticked-IsEntry now cfg es h.1)
    | inr x ↦ rw (w, x) (h.0, ticked-IsEntry now cfg es h.1)
  ]
]

drain-IsEntry : (es : List InflightEntry) → All IsEntry es → All IsEntry (drain es).0
unfolding drain
drain-IsEntry [] h = tt
drain-IsEntry (e ∷ es) h = elim (Bool-cases (is_undelivered e.state)) [
  | inl u ↦ rw u (drain-IsEntry es h.1)
  | inr u ↦ rw u (h.0, drain-IsEntry es h.1)
]

-- What the hub does to a session's queue.
pub data Call : Type 0 where
  delivers : Bytes → Bytes → QoS → Bool → ℕ → Call
  retransmits ticks : ℕ → Call
  pubacks pubrecs pubcomps : ℕ → Call
  drains : Call

pub step : RetryConfig → Session → Call → Session
step cfg s (delivers topic payload qos retain now) = deliver s topic payload qos retain now cfg
step cfg s (retransmits now) = retransmit s now cfg
step cfg s (ticks now) = (tick_retries s now cfg).0
step cfg s (pubacks pid) = on_puback s pid
step cfg s (pubrecs pid) = on_pubrec s pid
step cfg s (pubcomps pid) = on_pubcomp s pid
step cfg s drains = (drain_undelivered s).0

pub run_session : RetryConfig → Session → List Call → Session
run_session cfg s [] = s
run_session cfg s (c ∷ calls) = run_session cfg (step cfg s c) calls

pub tick_retries-IsValid :
    (cfg : RetryConfig) (s : Session) (now : ℕ) → IsValid s → IsValid (tick_retries s now cfg).0
tick_retries-IsValid cfg s now v =
    rw (tick_retries-ticked s now cfg)
      (record { counter = v.counter; entries = ticked-IsEntry now cfg s.inflight v.entries })

pub drain_undelivered-IsValid : (s : Session) → IsValid s → IsValid (drain_undelivered s).0
unfolding drain_undelivered
drain_undelivered-IsValid s v = record {
  counter = v.counter;
  entries = drain-IsEntry s.inflight v.entries;
}

pub step-IsValid : (cfg : RetryConfig) (s : Session) (c : Call) → IsValid s → IsValid (step cfg s c)
unfolding step
step-IsValid cfg s (delivers topic payload qos retain now) v =
    deliver-IsValid s v topic payload qos retain now cfg
step-IsValid cfg s (retransmits now) v = retransmit-IsValid s v now cfg
step-IsValid cfg s (ticks now) v = tick_retries-IsValid cfg s now v
step-IsValid cfg s (pubacks pid) v = on_puback-IsValid s v pid
step-IsValid cfg s (pubrecs pid) v = on_pubrec-IsValid s v pid
step-IsValid cfg s (pubcomps pid) v = on_pubcomp-IsValid s v pid
step-IsValid cfg s drains v = drain_undelivered-IsValid s v

run_session-IsValid_from :
    (cfg : RetryConfig) (s : Session) (calls : List Call)
    → IsValid s
    → IsValid (run_session cfg s calls)
unfolding run_session
run_session-IsValid_from cfg s [] v = v
run_session-IsValid_from cfg s (c ∷ calls) v =
    run_session-IsValid_from cfg (step cfg s c) calls (step-IsValid cfg s c v)

-- After any sequence of operations on a new session the counter is between 1 and 65535, so the
-- `NonZeroU16` that `allocate_id` builds from it exists, and every entry of the queue carries such an
-- id and is, if a publish, not marked as a duplicate and at the QoS of its state.
pub run_session-IsValid :
    (cfg : RetryConfig) (client : Bytes) (tx : Option (List Packet)) (expiry generation : ℕ)
    (calls : List Call)
    → IsValid (run_session cfg (new client tx expiry generation) calls)
run_session-IsValid cfg client tx expiry generation calls =
    run_session-IsValid_from cfg _ calls (new-IsValid client tx expiry generation)
