-- ===== src/Session/Collisions.antt =====
-- `allocate_id` does not look at the queue: what follows when the counter comes round to an id that
-- is still in flight.
use ch_relay.Prelude.{
  ℕ, ◌<◌, ◌≡◌, refl, Bool, true, false, not, List, [], ◌∷◌, ◌++◌, arith, keep, In, inl, inr, length,
  length-keep-le, length-append, Bool-cases, ◌≤◌, some, ◌+◌, ap, ==_iff,
}
use ch_relay.Bytes.{Bytes}
use ch_relay.Message.{at_least_once}
use ch_relay.Packet.{make_publish}
use ch_relay.Retry.{RetryConfig, backoff}
use ch_relay.Session.{Session, InflightEntry, qos1, acked_by_puback, deliver, on_puback}

length-keep-lt :
    {A : Type 0} (p : A → Bool) (xs : List A) (a : A)
    → In a xs
    → p a ≡ false
    → length (keep p xs) < length xs
length-keep-lt p [] a i h = absurd i
length-keep-lt p (x ∷ xs) a (inl e) h = ground (arith, length-keep-le p xs)
length-keep-lt p (x ∷ xs) a (inr i) h = ground (arith, length-keep-lt p xs a i h)

-- What the test refuses is not kept.
keep-drops : {A : Type 0} (p : A → Bool) (xs : List A) (a : A) → p a ≡ false → In a (keep p xs) → ⊥
keep-drops p [] a h i = i
keep-drops p (x ∷ xs) a h i = elim (Bool-cases (p x)) [
  | inr e ↦ keep-drops p xs a h (rw e at i)
  | inl e ↦
      let j : In a (x ∷ keep p xs) = rw e at i in
      elim j [ inl k ↦ absurd (ground (arith, k, h, e)) | inr k ↦ keep-drops p xs a h k ]
]

keep_last :
    {A : Type 0} (p : A → Bool) (xs : List A) (x : A)
    → p x ≡ false
    → keep p (xs ++ x ∷ []) ≡ keep p xs
keep_last p [] x h = ground arith
keep_last p (y ∷ ys) x h = ground (arith, keep_last p ys x h)

-- A QoS 1 message that is delivered while the counter stands at the id of an entry still awaiting
-- its PUBACK is put at the end of the queue under that same id, and the first PUBACK of that id takes
-- both out, so that at least two entries leave the queue.
pub on_puback_collision :
    (s : Session) (e : InflightEntry) (topic payload : Bytes) (retain : Bool) (now : ℕ)
    (cfg : RetryConfig)
    → In e s.inflight
    → acked_by_puback s.next_id e.state ≡ true
    → (new : InflightEntry) × ((deliver s topic payload at_least_once retain now cfg).inflight
        ≡ s.inflight ++ new ∷ [])
      × (new.state ≡ qos1 (make_publish topic payload at_least_once (some s.next_id) retain false))
      × (In e (on_puback (deliver s topic payload at_least_once retain now cfg) s.next_id).inflight
          → ⊥)
      × (In new
            (on_puback (deliver s topic payload at_least_once retain now cfg) s.next_id).inflight
          → ⊥)
      × (2
            + length
                (on_puback
                  (deliver s topic payload at_least_once retain now cfg)
                  s.next_id).inflight
          ≤ length (deliver s topic payload at_least_once retain now cfg).inflight)
unfolding on_puback deliver
on_puback_collision s e topic payload retain now cfg i h =
    let spared = λ (x : InflightEntry). not (acked_by_puback s.next_id x.state) in
    let new : InflightEntry = record {
      state = qos1 (make_publish topic payload at_least_once (some s.next_id) retain false);
      attempts = 1;
      next_due = now + backoff cfg 1;
    } in
    let acked : spared new ≡ false = ap not ((==_iff s.next_id s.next_id).1 refl) in
    (
      new,
      refl,
      refl,
      keep-drops spared (s.inflight ++ new ∷ []) e (ap not h),
      keep-drops spared (s.inflight ++ new ∷ []) new acked,
      omega (
        arith,
        ap length (keep_last spared s.inflight new acked),
        length-keep-lt spared s.inflight e i (ap not h),
        length-append s.inflight (new ∷ []),
      ),
    )
