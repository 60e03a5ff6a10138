-- ===== src/Session/DeadLetters.antt =====
-- Which messages a tick gives up, that none is lost on the way, and how often one is sent.
use ch_relay.Prelude.{
  ℕ, ◌+◌, ◌≤◌, ◌<◌, ◌≡◌, refl, true, false, ◌&&◌, List, [], ◌∷◌, ◌++◌, ltb, leb, arith, length,
  length-append, All, In, Bool-cases, inl, inr, ◌⊎◌,
}
use Prim.Native.Nat.{max}
use ch_relay.Retry.{RetryConfig}
use ch_relay.Session.{
  Session, Inflight, InflightEntry, DeadMsg, qos1, qos2_await_rec, qos2_await_comp, is_dlq_topic,
  u32_mod,
}
use ch_relay.Session.Tick.{is_exhausted, dead_of, retried, tick_retries, is_undelivered}
use ch_relay.Session.Retries.{ticked, buried, tick_retries-ticked}

-- The entry was due, still awaits its first confirmation, has had all its attempts, and is not
-- itself a dead letter.
pub record IsGivenUp (now : ℕ) (cfg : RetryConfig) (e : InflightEntry) (d : DeadMsg) : Type 0 where
  pub due : e.next_due ≤ now
  pub unconfirmed : (e.state ≡ qos1 d.message) ⊎ (e.state ≡ qos2_await_rec d.message)
  pub attempts : e.attempts ≡ d.attempts
  pub exhausted : cfg.max_attempts ≤ d.attempts
  pub not_dlq : is_dlq_topic d.message.topic ≡ false

given_up :
    (now : ℕ) (cfg : RetryConfig) (e : InflightEntry) (state : Inflight) (d : DeadMsg)
    → e.state ≡ state
    → ltb now e.next_due ≡ false
    → is_exhausted cfg e.attempts state ≡ true
    → In d (dead_of e.attempts state)
    → IsGivenUp now cfg e d
unfolding is_exhausted
given_up now cfg e (qos1 p) d s due x (inl h) = record {
  due = ground arith;
  unconfirmed = inl (ground arith);
  attempts = ground arith;
  exhausted = ground arith;
  not_dlq = ground arith;
}
given_up now cfg e (qos1 p) d s due x (inr i) = absurd i
given_up now cfg e (qos2_await_rec p) d s due x (inl h) = record {
  due = ground arith;
  unconfirmed = inr (ground arith);
  attempts = ground arith;
  exhausted = ground arith;
  not_dlq = ground arith;
}
given_up now cfg e (qos2_await_rec p) d s due x (inr i) = absurd i
given_up now cfg e (qos2_await_comp pid) d s due x i = absurd i

In-append : {A : Type 0} (a : A) (xs ys : List A) → In a (xs ++ ys) → In a xs ⊎ In a ys
In-append a [] ys i = inr i
In-append a (x ∷ xs) ys (inl e) = inl (inl e)
In-append a (x ∷ xs) ys (inr i) = elim (In-append a xs ys i) [ inl j ↦ inl (inr j) | inr j ↦ inr j ]

buried-IsGivenUp :
    (now : ℕ) (cfg : RetryConfig) (es : List InflightEntry) (d : DeadMsg)
    → In d (buried now cfg es)
    → (e : InflightEntry) × In e es × IsGivenUp now cfg e d
buried-IsGivenUp now cfg [] d i = absurd i
buried-IsGivenUp now cfg (e ∷ es) d i =
    let later = λ (j : In d (buried now cfg es)).
      let (x, k, g) = buried-IsGivenUp now cfg es d j in
      let r : (y : InflightEntry) × In y (e ∷ es) × IsGivenUp now cfg y d = (x, inr k, g) in r in
    elim (Bool-cases (ltb now e.next_due)) [
      | inl w ↦ later (rw w at i)
      | inr w ↦ elim (Bool-cases (is_exhausted cfg e.attempts e.state)) [
        | inr x ↦ later (rw (w, x) at i)
        | inl x ↦
            let j : In d (dead_of e.attempts e.state ++ buried now cfg es) = rw (w, x) at i in
            elim (In-append d (dead_of e.attempts e.state) (buried now cfg es) j) [
              | inl h ↦ (e, inl refl, given_up now cfg e e.state d refl w x h)
              | inr h ↦ later h
            ]
      ]
    ]

-- Every dead letter of a tick is a message of the queue that was due, out of attempts, not yet past
-- its PUBREC and not on `$dlq/`, with the attempts that were made.
pub tick_retries-IsGivenUp :
    (s : Session) (now : ℕ) (cfg : RetryConfig) (d : DeadMsg)
    → In d (tick_retries s now cfg).1
    → (e : InflightEntry) × In e s.inflight × IsGivenUp now cfg e d
tick_retries-IsGivenUp s now cfg d i =
    buried-IsGivenUp now cfg s.inflight d (rw (tick_retries-ticked s now cfg) at i)

length-dead_of :
    (cfg : RetryConfig) (a : ℕ) (state : Inflight)
    → is_exhausted cfg a state ≡ true
    → length (dead_of a state) ≡ 1
unfolding is_exhausted
length-dead_of cfg a (qos1 p) h = refl
length-dead_of cfg a (qos2_await_rec p) h = refl
length-dead_of cfg a (qos2_await_comp pid) h = absurd (ground arith)

length-ticked :
    (now : ℕ) (cfg : RetryConfig) (es : List InflightEntry)
    → length (ticked now cfg es) + length (buried now cfg es) ≡ length es
length-ticked now cfg [] = omega arith
length-ticked now cfg (e ∷ es) = ground (
  arith,
  length-ticked now cfg es,
  length-append (dead_of e.attempts e.state) (buried now cfg es),
  length-dead_of cfg e.attempts e.state,
)

-- No entry is lost: each stays in the queue or is handed over as a dead letter.
pub tick_retries-length :
    (s : Session) (now : ℕ) (cfg : RetryConfig)
    → length (tick_retries s now cfg).0.inflight + length (tick_retries s now cfg).1
      ≡ length s.inflight
tick_retries-length s now cfg =
    rw (tick_retries-ticked s now cfg) (length-ticked now cfg s.inflight)

-- A message that awaits its first confirmation has been sent at most `max_attempts` times, and once
-- at least.
abbrev pub HasAttempts : RetryConfig → InflightEntry → Type 0
HasAttempts cfg e =
    is_undelivered e.state ≡ true → (1 ≤ e.attempts) × (e.attempts ≤ max cfg.max_attempts 1)

is_exhausted_lem :
    (cfg : RetryConfig) (a : ℕ) (state : Inflight)
    → is_exhausted cfg a state ≡ leb cfg.max_attempts a && is_undelivered state
unfolding is_exhausted
is_exhausted_lem cfg a (qos1 p) = refl
is_exhausted_lem cfg a (qos2_await_rec p) = refl
is_exhausted_lem cfg a (qos2_await_comp pid) = ground arith

retried-HasAttempts :
    (now : ℕ) (cfg : RetryConfig) (e : InflightEntry)
    → cfg.max_attempts < u32_mod
    → is_exhausted cfg e.attempts e.state ≡ false
    → HasAttempts cfg e
    → HasAttempts cfg (retried now cfg e)
retried-HasAttempts now cfg e b x h t =
    let (low, high) = h t in
    let room : e.attempts < cfg.max_attempts =
      ground (arith, is_exhausted_lem cfg e.attempts e.state) in
    (omega arith, omega arith)

ticked-HasAttempts :
    (now : ℕ) (cfg : RetryConfig) (es : List InflightEntry)
    → cfg.max_attempts < u32_mod
    → All (HasAttempts cfg) es
    → All (HasAttempts cfg) (ticked now cfg es)
ticked-HasAttempts now cfg [] b h = tt
ticked-HasAttempts now cfg (e ∷ es) b h = elim (Bool-cases (ltb now e.next_due)) [
  | inl w ↦ rw w (h.0, ticked-HasAttempts now cfg es b h.1)
  | inr w ↦ elim (Bool-cases (is_exhausted cfg e.attempts e.state)) [
    | inl x ↦ rw (w, x) (ticked-HasAttempts now cfg es b h.1)
    | inr x ↦ rw (w, x) (retried-HasAttempts now cfg e b x h.0, ticked-HasAttempts now cfg es b h.1)
  ]
]

-- A tick never sends a message more than `max_attempts` times in all: the attempts of every entry
-- that awaits its first confirmation stay between 1 and `max_attempts` (or 1, if that is 0).
pub tick_retries-HasAttempts :
    (s : Session) (now : ℕ) (cfg : RetryConfig)
    → cfg.max_attempts < u32_mod
    → All (HasAttempts cfg) s.inflight
    → All (HasAttempts cfg) (tick_retries s now cfg).0.inflight
tick_retries-HasAttempts s now cfg b h =
    rw (tick_retries-ticked s now cfg) (ticked-HasAttempts now cfg s.inflight b h)
