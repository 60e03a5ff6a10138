-- ===== src/Session/Examples.antt =====
-- A session that is online, with one message in flight.
use ch_relay.Prelude.{◌+◌, ◌++◌, ◌≤◌, ◌≡◌, refl, false, some, none, List, [], ◌∷◌, In, inl, length}
use ch_relay.Bytes.{codes, strip_prefix}
use ch_relay.Message.{at_least_once, exactly_once}
use ch_relay.Packet.{Publish, publish, make_publish, pubrel}
use ch_relay.Retry.{default_retry, backoff}
use ch_relay.Session.{
  Session, InflightEntry, DeadMsg, qos1, new, deliver, on_puback, on_pubrec, on_pubcomp, send_all,
  is_dlq_topic,
}
use ch_relay.Session.Tick.{tick_retries, is_exhausted}
use ch_relay.Session.Fates.{queue_after, packets, letters, has_change, tick_retries_lem}
use ch_relay.Session.DeadLetters.{IsGivenUp, tick_retries-IsGivenUp}
use ch_relay.Session.Acks.{on_puback-deliver, on_pubcomp-on_pubrec-deliver}
use ch_relay.Session.Collisions.{on_puback_collision}
use ch_relay.Session.PacketIds.{IsValid}
use ch_relay.Session.Steps.{Call, delivers, ticks, pubrecs, run_session, run_session-IsValid}

abbrev fresh : Session
fresh = new (codes "c1") (some []) 60 1

abbrev order : Publish
order = make_publish (codes "orders") (codes "42") at_least_once (some 1) false false

-- Delivered five times, and due at time 9.
abbrev tired : InflightEntry
tired = record { state = qos1 order; attempts = 5; next_due = 9 }

abbrev waiting : Session
waiting = record fresh { next_id = 2; inflight = tired ∷ [] }

abbrev sent_order : Publish
sent_order = make_publish (codes "t") (codes "x") at_least_once (some 2) false false

on_puback-deliver_example :
    ((deliver waiting (codes "t") (codes "x") at_least_once false 0 default_retry).inflight
      ≡ waiting.inflight
        ++ record { state = qos1 sent_order; attempts = 1; next_due = 0 + backoff default_retry 1 }
          ∷ [])
    × ((deliver waiting (codes "t") (codes "x") at_least_once false 0 default_retry).tx
        ≡ send_all (publish sent_order ∷ []) waiting.tx)
    × ((on_puback
          (deliver waiting (codes "t") (codes "x") at_least_once false 0 default_retry)
          2).inflight
        ≡ waiting.inflight)
on_puback-deliver_example =
    on_puback-deliver waiting (codes "t") (codes "x") false 0 default_retry (refl, tt)

on_pubcomp-on_pubrec-deliver_example :
    ((on_pubcomp
        (on_pubrec (deliver waiting (codes "t") (codes "x") exactly_once false 0 default_retry) 2)
        2).inflight
      ≡ waiting.inflight)
    × ((on_pubcomp
          (on_pubrec (deliver waiting (codes "t") (codes "x") exactly_once false 0 default_retry) 2)
          2).tx
        ≡ send_all
            (publish (make_publish (codes "t") (codes "x") exactly_once (some 2) false false)
              ∷ pubrel 2
              ∷ [])
            waiting.tx)
on_pubcomp-on_pubrec-deliver_example =
    on_pubcomp-on_pubrec-deliver waiting (codes "t") (codes "x") false 0 default_retry (refl, tt)

tick_retries_lem_example : tick_retries waiting 10 default_retry ≡ (
  record waiting {
    inflight = queue_after 10 default_retry waiting.inflight;
    tx = send_all (packets 10 default_retry waiting.inflight) waiting.tx;
  },
  letters 10 default_retry waiting.inflight,
  has_change 10 default_retry waiting.inflight,
)
tick_retries_lem_example = tick_retries_lem waiting 10 default_retry

abbrev given_up : DeadMsg
given_up = record { message = order; attempts = 5 }

tick_retries-IsGivenUp_example :
    (e : InflightEntry) × In e waiting.inflight × IsGivenUp 10 default_retry e given_up
unfolding tick_retries is_exhausted is_dlq_topic strip_prefix
tick_retries-IsGivenUp_example = tick_retries-IsGivenUp waiting 10 default_retry given_up (inl refl)

abbrev wrapped : Session
wrapped = record waiting { next_id = 1 }

abbrev collided : Session
collided = deliver wrapped (codes "t") (codes "x") at_least_once false 0 default_retry

on_puback_collision_example :
    (new : InflightEntry) × (collided.inflight ≡ wrapped.inflight ++ new ∷ [])
    × (new.state ≡ qos1 (make_publish (codes "t") (codes "x") at_least_once (some 1) false false))
    × (In tired (on_puback collided 1).inflight → ⊥)
    × (In new (on_puback collided 1).inflight → ⊥)
    × (2 + length (on_puback collided 1).inflight ≤ length collided.inflight)
on_puback_collision_example =
    on_puback_collision wrapped tired (codes "t") (codes "x") false 0 default_retry (inl refl) refl

abbrev calls : List Call
calls = delivers (codes "t") (codes "x") exactly_once false 0 ∷ pubrecs 1 ∷ ticks 99 ∷ []

run_session-IsValid_example : IsValid (run_session default_retry (new (codes "c1") none 60 1) calls)
run_session-IsValid_example = run_session-IsValid default_retry (codes "c1") none 60 1 calls
