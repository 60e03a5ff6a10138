-- ===== src/Session/Acks.antt =====
-- The outbound handshakes: what an acknowledgement takes out of the queue.
use mathlib.Core.List.{append-nil, append_assoc}
use ch_relay.Prelude.{
  ℕ, ◌+◌, ◌≡◌, refl, Bool, true, false, not, List, [], ◌∷◌, ◌++◌, Option, none, some, ◌==◌, arith,
  keep, All, ap, keep-append, ==_iff,
}
use ch_relay.Bytes.{Bytes}
use ch_relay.Message.{QoS, at_least_once, exactly_once}
use ch_relay.Packet.{Packet, publish, make_publish, pubrel}
use ch_relay.Retry.{RetryConfig, backoff}
use ch_relay.Session.{
  Session, Inflight, InflightEntry, qos1, qos2_await_rec, qos2_await_comp, has_id, deliver,
  send_all, on_puback, on_pubrec, on_pubcomp, receive_first, entry_of, awaits_rec, acked_by_puback,
  acked_by_pubcomp, received_by,
}

-- The packet id of an entry.
abbrev pub carries : ℕ → Inflight → Bool
carries pid (qos1 p) = has_id p pid
carries pid (qos2_await_rec p) = has_id p pid
carries pid (qos2_await_comp x) = x == pid

-- No entry of the queue has the id.
abbrev pub IsFresh : ℕ → List InflightEntry → Type 0
IsFresh pid = All (λ (e : InflightEntry). carries pid e.state ≡ false)

keep_puback :
    (pid : ℕ) (es : List InflightEntry)
    → IsFresh pid es
    → keep (λ (e : InflightEntry). not (acked_by_puback pid e.state)) es ≡ es
keep_puback pid [] h = refl
keep_puback pid (e ∷ es) h = ground (arith, keep_puback pid es h.1, puback_spares e.state)
  where
    puback_spares :
        (state : Inflight) → carries pid state ≡ false → acked_by_puback pid state ≡ false
    puback_spares (qos1 p) h = h
    puback_spares (qos2_await_rec p) h = refl
    puback_spares (qos2_await_comp x) h = refl

keep_pubcomp :
    (pid : ℕ) (es : List InflightEntry)
    → IsFresh pid es
    → keep (λ (e : InflightEntry). not (acked_by_pubcomp pid e.state)) es ≡ es
keep_pubcomp pid [] h = refl
keep_pubcomp pid (e ∷ es) h = ground (arith, keep_pubcomp pid es h.1, pubcomp_spares e.state)
  where
    pubcomp_spares :
        (state : Inflight) → carries pid state ≡ false → acked_by_pubcomp pid state ≡ false
    pubcomp_spares (qos1 p) h = refl
    pubcomp_spares (qos2_await_rec p) h = refl
    pubcomp_spares (qos2_await_comp x) h = h

fresh_not_received :
    (pid : ℕ) (state : Inflight) → carries pid state ≡ false → received_by pid state ≡ false
fresh_not_received pid (qos1 p) h = refl
fresh_not_received pid (qos2_await_rec p) h = h
fresh_not_received pid (qos2_await_comp x) h = refl

receive_last :
    (pid : ℕ) (es : List InflightEntry) (e : InflightEntry)
    → IsFresh pid es
    → received_by pid e.state ≡ true
    → (awaits_rec pid (es ++ e ∷ []) ≡ true)
      × (receive_first pid (es ++ e ∷ []) ≡ es ++ record e { state = qos2_await_comp pid } ∷ [])
unfolding awaits_rec receive_first
receive_last pid [] e f h = ground arith
receive_last pid (x ∷ es) e f h =
    ground (arith, receive_last pid es e f.1 h, fresh_not_received pid x.state f.0)

send_all_twice :
    (p q : Packet) (tx : Option (List Packet))
    → send_all (q ∷ []) (send_all (p ∷ []) tx) ≡ send_all (p ∷ q ∷ []) tx
send_all_twice p q none = refl
send_all_twice p q (some sent) = ap some (append_assoc sent (p ∷ []) (q ∷ []))

module _ (s : Session) (topic payload : Bytes) (retain : Bool) (now : ℕ) (cfg : RetryConfig)
    (fresh : IsFresh s.next_id s.inflight) where
  sent : QoS → InflightEntry
  sent qos = record {
    state = entry_of qos (make_publish topic payload qos (some s.next_id) retain false);
    attempts = 1;
    next_due = now + backoff cfg 1;
  }

  -- A QoS 1 message is put at the end of the queue, under the counter's id, as sent once and due
  -- after the first backoff, and the client is sent it if it is online. With the PUBACK of that id it
  -- leaves the queue, which is then what it was before the message, as long as no other entry has the
  -- id.
  pub on_puback-deliver :
      ((deliver s topic payload at_least_once retain now cfg).inflight
        ≡ s.inflight
          ++ record {
            state = qos1 (make_publish topic payload at_least_once (some s.next_id) retain false);
            attempts = 1;
            next_due = now + backoff cfg 1;
          }
            ∷ [])
      × ((deliver s topic payload at_least_once retain now cfg).tx
          ≡ send_all
              (publish (make_publish topic payload at_least_once (some s.next_id) retain false)
                ∷ [])
              s.tx)
      × ((on_puback (deliver s topic payload at_least_once retain now cfg) s.next_id).inflight
          ≡ s.inflight)
  unfolding on_puback deliver sent
  on_puback-deliver = (
    refl,
    refl,
    ground (
      arith,
      keep-append (λ (e : InflightEntry). not (acked_by_puback s.next_id e.state)) s.inflight
          (sent at_least_once ∷ []),
      keep_puback s.next_id s.inflight fresh,
      append-nil s.inflight,
    ),
  )

  -- A QoS 2 message leaves the queue with its PUBREC and its PUBCOMP, and the queue is what it was
  -- before the message, as long as no other entry has its id. While the client is online it has been
  -- sent the message and then the PUBREL, once each.
  pub on_pubcomp-on_pubrec-deliver :
      ((on_pubcomp
          (on_pubrec (deliver s topic payload exactly_once retain now cfg) s.next_id)
          s.next_id).inflight
        ≡ s.inflight)
      × ((on_pubcomp
            (on_pubrec (deliver s topic payload exactly_once retain now cfg) s.next_id)
            s.next_id).tx
          ≡ send_all
              (publish (make_publish topic payload exactly_once (some s.next_id) retain false)
                ∷ pubrel s.next_id
                ∷ [])
              s.tx)
  unfolding on_pubcomp on_pubrec deliver sent
  on_pubcomp-on_pubrec-deliver =
      let p = make_publish topic payload exactly_once (some s.next_id) retain false in
      let (awaited, received) =
        receive_last s.next_id s.inflight (sent exactly_once) fresh
          ((==_iff s.next_id s.next_id).1 refl) in
      rw (awaited, received)
        (
          ground (
            arith,
            keep-append (λ (e : InflightEntry). not (acked_by_pubcomp s.next_id e.state)) s.inflight
                (record (sent exactly_once) { state = qos2_await_comp s.next_id } ∷ []),
            keep_pubcomp s.next_id s.inflight fresh,
            append-nil s.inflight,
          ),
          send_all_twice (publish p) (pubrel s.next_id) s.tx,
        )
