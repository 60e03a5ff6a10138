-- ===== src/Session/Tick.antt =====
-- `Session::tick_retries` and `Session::drain_undelivered` of crates/relay-server/src/hub.rs. The
-- loop of the first runs on an index over the queue, which it shortens and rewrites on the way.
use ch_relay.Prelude.{
  ℕ, zero, suc, ◌+◌, ◌%◌, Bool, true, false, not, ◌&&◌, List, [], ◌∷◌, ◌++◌, none, some, ltb, leb,
  if◌then◌else◌, get_elem?, length,
}
use ch_relay.Packet.{Packet}
use ch_relay.Retry.{RetryConfig, backoff}
use ch_relay.Session.{
  Session, Inflight, InflightEntry, DeadMsg, qos1, qos2_await_rec, qos2_await_comp, resend,
  is_dlq_topic, send_all, u32_mod,
}

-- `VecDeque::remove(i)` and an assignment through an index.
abbrev pub remove_at : {A : Type 0} → ℕ → List A → List A
remove_at i [] = []
remove_at zero (x ∷ xs) = xs
remove_at (suc i) (x ∷ xs) = x ∷ remove_at i xs

abbrev pub set_at : {A : Type 0} → ℕ → A → List A → List A
set_at i v [] = []
set_at zero v (x ∷ xs) = v ∷ xs
set_at (suc i) v (x ∷ xs) = x ∷ set_at i v xs

-- The local variables of the loop, with the queue.
pub record TickState : Type 0 where
  pub queue : List InflightEntry
  pub dead : List DeadMsg
  pub to_send : List Packet
  pub changed : Bool

-- A message past its PUBREC has been delivered; one on `$dlq/` is not dead-lettered again.
unfoldable pub is_exhausted : RetryConfig → ℕ → Inflight → Bool
is_exhausted cfg attempts (qos1 p) = leb cfg.max_attempts attempts && not (is_dlq_topic p.topic)
is_exhausted cfg attempts (qos2_await_rec p) =
    leb cfg.max_attempts attempts && not (is_dlq_topic p.topic)
is_exhausted cfg attempts (qos2_await_comp pid) = false

abbrev pub dead_of : ℕ → Inflight → List DeadMsg
dead_of attempts (qos1 p) = record { message = p; attempts = attempts } ∷ []
dead_of attempts (qos2_await_rec p) = record { message = p; attempts = attempts } ∷ []
dead_of attempts (qos2_await_comp pid) = []

-- The entry after another delivery. `attempts + 1` is that of `u32`.
abbrev pub retried : ℕ → RetryConfig → InflightEntry → InflightEntry
retried now cfg e = record e {
  attempts = (e.attempts + 1) % u32_mod;
  next_due = now + backoff cfg ((e.attempts + 1) % u32_mod);
}

-- One round of the loop at the entry with index `i`.
unfoldable pub tick_entry : ℕ → RetryConfig → ℕ → InflightEntry → TickState → ℕ × TickState
tick_entry now cfg i e st =
    if ltb now e.next_due
    then (i + 1, st)
    else if is_exhausted cfg e.attempts e.state
    then (
      i,
      record st {
        queue = remove_at i st.queue;
        dead = st.dead ++ dead_of e.attempts e.state;
        changed = true;
      },
    )
    else (
      i + 1,
      record st {
        queue = set_at i (retried now cfg e) st.queue;
        to_send = st.to_send ++ resend e.state ∷ [];
        changed = true;
      },
    )

unfoldable pub tick_loop : ℕ → ℕ → RetryConfig → ℕ × TickState → TickState
unfolding tick_entry
tick_loop zero now cfg (i, st) = st
tick_loop (suc fuel) now cfg (i, st) = elim (get_elem? st.queue i) [
  | none ↦ st
  | some e ↦ tick_loop fuel now cfg (tick_entry now cfg i e st)
]

-- Each round moves the index or shortens the queue, so there are as many rounds as entries.
unfoldable pub tick_retries : Session → ℕ → RetryConfig → Session × List DeadMsg × Bool
unfolding tick_loop
tick_retries s now cfg =
    let start : TickState = record {
      queue = s.inflight;
      dead = [];
      to_send = [];
      changed = false;
    } in
    let st = tick_loop (length s.inflight) now cfg (0, start) in
    (record s { inflight = st.queue; tx = send_all st.to_send s.tx }, st.dead, st.changed)

abbrev pub is_undelivered : Inflight → Bool
is_undelivered (qos1 p) = not (is_dlq_topic p.topic)
is_undelivered (qos2_await_rec p) = not (is_dlq_topic p.topic)
is_undelivered (qos2_await_comp pid) = false

unfoldable pub drain : List InflightEntry → List InflightEntry × List DeadMsg
drain [] = ([], [])
drain (e ∷ es) =
    let (kept, dead) = drain es in
    if is_undelivered e.state then (kept, dead_of e.attempts e.state ++ dead) else (e ∷ kept, dead)

unfoldable pub drain_undelivered : Session → Session × List DeadMsg
unfolding drain
drain_undelivered s = let (kept, dead) = drain s.inflight in (record s { inflight = kept }, dead)
