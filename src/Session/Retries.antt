-- ===== src/Session/Retries.antt =====
-- The loop of `tick_retries` against its meaning for each entry, and what may be dead-lettered.
use mathlib.Core.List.{append-nil, append_assoc}
use ch_relay.Prelude.{
  ℕ, zero, suc, ◌+◌, ◌≤◌, ◌≡◌, refl, Bool, true, false, not, ◌||◌, List, [], ◌∷◌, ◌++◌, none, some,
  ltb, arith, if◌then◌else◌, get_elem?, length, length-append, Bool-cases, inl, inr, ap, ◌∙◌, sym,
}
use ch_relay.Packet.{Packet}
use ch_relay.Retry.{RetryConfig}
use ch_relay.Session.{Session, InflightEntry, DeadMsg, resend, send_all}
use ch_relay.Session.Tick.{
  TickState, remove_at, set_at, is_exhausted, dead_of, retried, tick_entry, tick_loop, tick_retries,
}

-- The meaning of a tick, entry by entry and in the order of the queue.
abbrev pub ticked : ℕ → RetryConfig → List InflightEntry → List InflightEntry
ticked now cfg [] = []
ticked now cfg (e ∷ es) =
    let rest = ticked now cfg es in
    if ltb now e.next_due
    then e ∷ rest
    else if is_exhausted cfg e.attempts e.state
    then rest
    else retried now cfg e ∷ rest

abbrev pub buried : ℕ → RetryConfig → List InflightEntry → List DeadMsg
buried now cfg [] = []
buried now cfg (e ∷ es) =
    let rest = buried now cfg es in
    if ltb now e.next_due
    then rest
    else if is_exhausted cfg e.attempts e.state
    then dead_of e.attempts e.state ++ rest
    else rest

abbrev pub resent : ℕ → RetryConfig → List InflightEntry → List Packet
resent now cfg [] = []
resent now cfg (e ∷ es) =
    let rest = resent now cfg es in
    if ltb now e.next_due
    then rest
    else if is_exhausted cfg e.attempts e.state
    then rest
    else resend e.state ∷ rest

abbrev pub any_due : ℕ → List InflightEntry → Bool
any_due now [] = false
any_due now (e ∷ es) = not (ltb now e.next_due) || any_due now es

abbrev pub finished :
    ℕ → RetryConfig → List InflightEntry → TickState → List InflightEntry → TickState
finished now cfg front st es = record {
  queue = front ++ ticked now cfg es;
  dead = st.dead ++ buried now cfg es;
  to_send = st.to_send ++ resent now cfg es;
  changed = st.changed || any_due now es;
}

get_elem?-front :
    {A : Type 0} (front : List A) (x : A) (xs : List A)
    → get_elem? (front ++ x ∷ xs) (length front) ≡ some x
get_elem?-front [] x xs = refl
get_elem?-front (y ∷ front) x xs = get_elem?-front front x xs

remove_at-front :
    {A : Type 0} (front : List A) (x : A) (xs : List A)
    → remove_at (length front) (front ++ x ∷ xs) ≡ front ++ xs
remove_at-front [] x xs = refl
remove_at-front (y ∷ front) x xs = ap (◌∷◌ y) (remove_at-front front x xs)

set_at-front :
    {A : Type 0} (front : List A) (x v : A) (xs : List A)
    → set_at (length front) v (front ++ x ∷ xs) ≡ front ++ v ∷ xs
set_at-front [] x v xs = refl
set_at-front (y ∷ front) x v xs = ap (◌∷◌ y) (set_at-front front x v xs)

get_elem?_end : {A : Type 0} (front : List A) → get_elem? front (length front) ≡ none
get_elem?_end [] = refl
get_elem?_end (y ∷ front) = get_elem?_end front

at_end :
    (now : ℕ) (cfg : RetryConfig) (front : List InflightEntry) (st : TickState)
    → st.queue ≡ front ++ []
    → st ≡ finished now cfg front st []
at_end now cfg front st q = ground (arith, append-nil st.dead, append-nil st.to_send)

loop_none :
    (fuel now : ℕ) (cfg : RetryConfig) (i : ℕ) (st : TickState)
    → get_elem? st.queue i ≡ none
    → tick_loop (suc fuel) now cfg (i, st) ≡ st
unfolding tick_loop
loop_none fuel now cfg i st h = rw (h, tick_loop)

loop_some :
    (fuel now : ℕ) (cfg : RetryConfig) (i : ℕ) (st : TickState) (e : InflightEntry)
    → get_elem? st.queue i ≡ some e
    → tick_loop (suc fuel) now cfg (i, st) ≡ tick_loop fuel now cfg (tick_entry now cfg i e st)
unfolding tick_loop
loop_some fuel now cfg i st e h = rw (h, tick_loop)

-- The three ways in which a round goes on.
abbrev buried_at : ℕ → InflightEntry → TickState → TickState
buried_at i e st = record st {
  queue = remove_at i st.queue;
  dead = st.dead ++ dead_of e.attempts e.state;
  changed = true;
}

abbrev resent_at : ℕ → RetryConfig → ℕ → InflightEntry → TickState → TickState
resent_at now cfg i e st = record st {
  queue = set_at i (retried now cfg e) st.queue;
  to_send = st.to_send ++ resend e.state ∷ [];
  changed = true;
}

abbrev tick_goes_on : ℕ → RetryConfig → ℕ → InflightEntry → TickState → ℕ × TickState
tick_goes_on now cfg i e st =
    if ltb now e.next_due
    then (i + 1, st)
    else if is_exhausted cfg e.attempts e.state
    then (i, buried_at i e st)
    else (i + 1, resent_at now cfg i e st)

tick_entry_lem :
    (now : ℕ) (cfg : RetryConfig) (i : ℕ) (e : InflightEntry) (st : TickState)
    → tick_entry now cfg i e st ≡ tick_goes_on now cfg i e st
unfolding tick_entry
tick_entry_lem now cfg i e st = refl

length_next : {A : Type 0} (front : List A) (x : A) → length (front ++ x ∷ []) ≡ length front + 1
length_next front x = omega (arith, length-append front (x ∷ []))

tick_loop-finished :
    (fuel now : ℕ) (cfg : RetryConfig) (front es : List InflightEntry) (st : TickState)
    → length es ≤ fuel
    → st.queue ≡ front ++ es
    → tick_loop fuel now cfg (length front, st) ≡ finished now cfg front st es
tick_loop-finished zero now cfg front [] st h q = unfold tick_loop in at_end now cfg front st q
tick_loop-finished zero now cfg front (e ∷ es) st h q = absurd (omega arith)
tick_loop-finished (suc fuel) now cfg front [] st h q =
    loop_none fuel now cfg (length front) st (
      ap (λ (xs : List InflightEntry). get_elem? xs (length front)) (q ∙ append-nil front)
      ∙ get_elem?_end front)
    ∙ at_end now cfg front st q
tick_loop-finished (suc fuel) now cfg front (e ∷ es) st h q =
    let here : get_elem? st.queue (length front) ≡ some e =
      ap (λ (xs : List InflightEntry). get_elem? xs (length front)) q
      ∙ get_elem?-front front e es in
    loop_some fuel now cfg (length front) st e here
    ∙ rw (tick_entry_lem now cfg (length front) e st) (elim (Bool-cases (ltb now e.next_due)) [
      | inl d ↦
          let ih =
            tick_loop-finished fuel now cfg (front ++ e ∷ []) es st (omega arith)
              (q ∙ sym (append_assoc front (e ∷ []) es)) in
          rw (d, ← length_next front e)
            (ih ∙ ground (arith, append_assoc front (e ∷ []) (ticked now cfg es)))
      | inr d ↦ elim (Bool-cases (is_exhausted cfg e.attempts e.state)) [
        | inl x ↦
            let ih =
              tick_loop-finished fuel now cfg front es (buried_at (length front) e st) (omega arith)
                (ap (remove_at (length front)) q ∙ remove_at-front front e es) in
            rw (d, x)
              (ih
                ∙ ground
                    (arith, append_assoc st.dead (dead_of e.attempts e.state) (buried now cfg es)))
        | inr x ↦
            let e' = retried now cfg e in
            let ih =
              tick_loop-finished fuel now cfg (front ++ e' ∷ []) es
                (resent_at now cfg (length front) e st) (omega arith)
                (ap (set_at (length front) e') q
                  ∙ set_at-front front e e' es
                  ∙ sym (append_assoc front (e' ∷ []) es)) in
            rw (d, x, ← length_next front e')
              (ih
                ∙ ground (
                  arith,
                  append_assoc front (e' ∷ []) (ticked now cfg es),
                  append_assoc st.to_send (resend e.state ∷ []) (resent now cfg es),
                ))
      ]
    ])

-- The loop over the index has the fuel that it needs, and fills the three lists.
pub tick_retries-ticked :
    (s : Session) (now : ℕ) (cfg : RetryConfig)
    → tick_retries s now cfg ≡ (
      record s {
        inflight = ticked now cfg s.inflight;
        tx = send_all (resent now cfg s.inflight) s.tx;
      },
      buried now cfg s.inflight,
      any_due now s.inflight,
    )
unfolding tick_retries
tick_retries-ticked s now cfg =
    let start : TickState = record {
      queue = s.inflight;
      dead = [];
      to_send = [];
      changed = false;
    } in
    let e = tick_loop-finished (length s.inflight) now cfg [] s.inflight start (omega arith) refl in
    ap
      (λ (st : TickState).
        (record s { inflight = st.queue; tx = send_all st.to_send s.tx }, st.dead, st.changed))
      e
