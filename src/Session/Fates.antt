-- ===== src/Session/Fates.antt =====
-- A tick of `tick_retries`, entry by entry: what becomes of each entry of the queue.
use ch_relay.Prelude.{
  ℕ, ◌+◌, ◌%◌, ◌^◌, ◌≡◌, refl, ap, ◌∙◌, Bool, true, false, not, ◌&&◌, ◌||◌, List, [], ◌∷◌, ◌++◌,
  ltb, leb, if◌then◌else◌, Bool-cases, inl, inr,
}
use ch_relay.Bytes.{codes, starts_with}
use ch_relay.Packet.{Publish, Packet, publish, pubrel}
use ch_relay.Retry.{RetryConfig, backoff}
use ch_relay.Session.{
  Session, Inflight, InflightEntry, DeadMsg, qos1, qos2_await_rec, qos2_await_comp, resend,
  is_dlq_topic, send_all,
}
use ch_relay.Session.Tick.{is_exhausted, dead_of, retried, tick_retries}
use ch_relay.Session.Retries.{ticked, buried, resent, any_due, tick_retries-ticked}

pub data Fate : Type 0 where
  waits : Fate
  given_up : DeadMsg → Fate
  sent_again : Packet → InflightEntry → Fate

-- One attempt more, in `u32`, and the backoff of that many attempts from now on.
abbrev pub one_more : ℕ → RetryConfig → InflightEntry → InflightEntry
one_more now cfg e = record {
  state = e.state;
  attempts = (e.attempts + 1) % 2 ^ 32;
  next_due = now + backoff cfg ((e.attempts + 1) % 2 ^ 32);
}

-- A publish that awaits its first confirmation is given up after `max_attempts`, but not on `$dlq/`.
abbrev pub unconfirmed : ℕ → RetryConfig → InflightEntry → Publish → Fate
unconfirmed now cfg e p =
    if leb cfg.max_attempts e.attempts && not (starts_with (codes "$dlq/") p.topic)
    then given_up (record { message = p; attempts = e.attempts })
    else sent_again (publish (record p { dup = true })) (one_more now cfg e)

abbrev pub due_fate : ℕ → RetryConfig → InflightEntry → Inflight → Fate
due_fate now cfg e (qos1 p) = unconfirmed now cfg e p
due_fate now cfg e (qos2_await_rec p) = unconfirmed now cfg e p
due_fate now cfg e (qos2_await_comp pid) = sent_again (pubrel pid) (one_more now cfg e)

abbrev pub fate : ℕ → RetryConfig → InflightEntry → Fate
fate now cfg e = if ltb now e.next_due then waits else due_fate now cfg e e.state

abbrev pub stays : InflightEntry → Fate → List InflightEntry
stays e waits = e ∷ []
stays e (given_up d) = []
stays e (sent_again p e') = e' ∷ []

abbrev pub letter : Fate → List DeadMsg
letter waits = []
letter (given_up d) = d ∷ []
letter (sent_again p e') = []

abbrev pub packet : Fate → List Packet
packet waits = []
packet (given_up d) = []
packet (sent_again p e') = p ∷ []

abbrev pub is_change : Fate → Bool
is_change waits = false
is_change (given_up d) = true
is_change (sent_again p e') = true

-- The queue after the tick, the dead letters, the packets, and whether there is a change.
abbrev pub queue_after : ℕ → RetryConfig → List InflightEntry → List InflightEntry
queue_after now cfg [] = []
queue_after now cfg (e ∷ es) = stays e (fate now cfg e) ++ queue_after now cfg es

abbrev pub letters : ℕ → RetryConfig → List InflightEntry → List DeadMsg
letters now cfg [] = []
letters now cfg (e ∷ es) = letter (fate now cfg e) ++ letters now cfg es

abbrev pub packets : ℕ → RetryConfig → List InflightEntry → List Packet
packets now cfg [] = []
packets now cfg (e ∷ es) = packet (fate now cfg e) ++ packets now cfg es

abbrev pub has_change : ℕ → RetryConfig → List InflightEntry → Bool
has_change now cfg [] = false
has_change now cfg (e ∷ es) = is_change (fate now cfg e) || has_change now cfg es

-- What the loop does to a due entry in this state is its fate.
due_lem :
    (now : ℕ) (cfg : RetryConfig) (e : InflightEntry) (state : Inflight) (rest : List InflightEntry)
    (dead : List DeadMsg) (out : List Packet)
    → ((if is_exhausted cfg e.attempts state then rest else retried now cfg e ∷ rest)
        ≡ stays e (due_fate now cfg e state) ++ rest)
      × ((if is_exhausted cfg e.attempts state then dead_of e.attempts state ++ dead else dead)
          ≡ letter (due_fate now cfg e state) ++ dead)
      × ((if is_exhausted cfg e.attempts state then out else resend state ∷ out)
          ≡ packet (due_fate now cfg e state) ++ out)
      × (is_change (due_fate now cfg e state) ≡ true)
unfolding is_exhausted is_dlq_topic
due_lem now cfg e (qos1 p) rest dead out =
    elim (Bool-cases
      (leb cfg.max_attempts e.attempts && not (starts_with (codes "$dlq/") p.topic))) [
        | inl x ↦ rw x (refl, refl, refl, refl)
        | inr x ↦ rw x (refl, refl, refl, refl)
      ]
due_lem now cfg e (qos2_await_rec p) rest dead out =
    elim (Bool-cases
      (leb cfg.max_attempts e.attempts && not (starts_with (codes "$dlq/") p.topic))) [
        | inl x ↦ rw x (refl, refl, refl, refl)
        | inr x ↦ rw x (refl, refl, refl, refl)
      ]
due_lem now cfg e (qos2_await_comp pid) rest dead out = (refl, refl, refl, refl)

lists_lem :
    (now : ℕ) (cfg : RetryConfig) (es : List InflightEntry)
    → (ticked now cfg es ≡ queue_after now cfg es)
      × (buried now cfg es ≡ letters now cfg es)
      × (resent now cfg es ≡ packets now cfg es)
      × (any_due now es ≡ has_change now cfg es)
lists_lem now cfg [] = (refl, refl, refl, refl)
lists_lem now cfg (e ∷ es) =
    let (q, d, o, c) = lists_lem now cfg es in
    elim (Bool-cases (ltb now e.next_due)) [
      | inl w ↦ rw w (ap (◌∷◌ e) q, d, o, c)
      | inr w ↦
          let (x, y, z, t) =
            due_lem now cfg e e.state (ticked now cfg es) (buried now cfg es) (resent now cfg es) in
          rw w (
            x ∙ ap (◌++◌ (stays e (due_fate now cfg e e.state))) q,
            y ∙ ap (◌++◌ (letter (due_fate now cfg e e.state))) d,
            z ∙ ap (◌++◌ (packet (due_fate now cfg e e.state))) o,
            rw t refl,
          )
    ]

-- The loop over the index does to each entry of the queue, in the order of the queue, what its fate
-- says. An entry that is not due stays as it is. A due entry that awaits its first confirmation, has
-- had `max_attempts` attempts and is not on `$dlq/` is taken out and handed over as a dead letter with
-- its attempts. Any other due entry is sent again, a publish marked as a duplicate and otherwise the
-- PUBREL, with one attempt more and the due time of the new backoff. A change is reported exactly
-- when an entry was due.
pub tick_retries_lem :
    (s : Session) (now : ℕ) (cfg : RetryConfig)
    → tick_retries s now cfg ≡ (
      record s {
        inflight = queue_after now cfg s.inflight;
        tx = send_all (packets now cfg s.inflight) s.tx;
      },
      letters now cfg s.inflight,
      has_change now cfg s.inflight,
    )
tick_retries_lem s now cfg =
    let (q, d, o, c) = lists_lem now cfg s.inflight in
    tick_retries-ticked s now cfg ∙ rw (q, d, o, c) refl
