-- ===== src/Recovery/Examples.antt =====
-- A broker that is started on an empty storage, is published to, and is started again.
use ch_relay.Prelude.{◌≡◌, refl, true, none, [], ◌∷◌, ◌++◌, arith}
use ch_relay.Bytes.{codes}
use ch_relay.Message.{at_least_once}
use ch_relay.Retained.Contents.{retained_for}
use ch_relay.Retry.{default_retry}
use ch_relay.Hub.{Hub}
use ch_relay.Hub.Delivery.{Outgoing, publish_to_all}
use ch_relay.Hub.Attach.{open_session, next_generation, connect}
use ch_relay.Hub.Startup.{new_hub, load_sessions}
use ch_relay.Storage.Store
use ch_relay.Storage.Store.{sessions_of}
use ch_relay.Storage.Worker.{run_worker, apply_persist_op, written}
use ch_relay.Recovery.Expiries.{session_expiry}
use ch_relay.Recovery.Returns.{Becomes, itself, and_then, expiry_for, sessions_restart_lem}
use ch_relay.Hub.Steps.{connects, step, publishes}
use ch_relay.Storage.Listed.{listed, two_events}
use ch_relay.Recovery.{drained}
use ch_relay.Prelude.Map.{get}
use ch_relay.Bytes.{Bytes, bytes_eq}
use ch_relay.Hub.Keeps.{HasConsistentTable}
use ch_relay.Storage.Store.{Store}
use ch_relay.Recovery.Sessions.{session_for, session_on_disk, booted, booted_lem}
use ch_relay.Recovery.Restart.{started, run_hub, restart_lem}

abbrev lamp_on : Outgoing
lamp_on = record { topic = codes "lamp"; payload = codes "on"; qos = at_least_once }

abbrev first_start : Hub
first_start = started listed none none 0 default_retry 100 two_events

abbrev after_publish : Hub
after_publish = (publish_to_all first_start 7 9 lamp_on true).0

restart_lem_example :
    retained_for
      (started listed none none 0 default_retry 100
        (drained listed two_events after_publish.queue)).retained
      (codes "lamp")
    ≡ retained_for after_publish.retained (codes "lamp")
unfolding run_hub step
restart_lem_example =
    restart_lem listed none none 0 default_retry 100 two_events (publishes 7 9 lamp_on true ∷ [])
      after_publish refl (codes "lamp")

-- Two sessions, one of them with a subscription.
abbrev two_sessions : Store listed
unfolding ch_relay.Bytes.bytes_beq
two_sessions = record two_events {
  sessions = ((codes "c1", 60) ∷ (codes "c2", 5) ∷ [], ((refl, tt), (tt, tt)));
  subscriptions = ((codes "c1" ++ 0 ∷ codes "news", 1 ∷ []) ∷ [], (tt, tt));
}

booted_lem_example :
    HasConsistentTable (booted listed two_sessions 3 default_retry 100)
    × ((c : Bytes)
        → session_for (booted listed two_sessions 3 default_retry 100) c
          ≡ session_on_disk listed two_sessions 3 default_retry c
              (get c (listed.numbers.rows two_sessions.sessions)))
unfolding two_sessions
booted_lem_example = booted_lem listed two_sessions 3 default_retry 100 (omega arith)

-- A third client connects, for half a minute.
abbrev third : Hub
third =
    (open_session (next_generation (booted listed two_events 3 default_retry 100)) (codes "c3")
      30).0

abbrev third_connects : Becomes (booted listed two_events 3 default_retry 100) third
unfolding step connect new_hub load_sessions ch_relay.Storage.Store.load_sessions sessions_of
third_connects =
    and_then (connects 7 (codes "c3") true 30) (booted listed two_events 3 default_retry 100) third
      itself (omega arith) refl

sessions_restart_lem_example :
    expiry_for
      (booted listed (drained listed two_events third.queue) 9 default_retry 100)
      (codes "c3")
    ≡ session_expiry (session_for third (codes "c3"))
unfolding open_session new_hub load_sessions ch_relay.Storage.Store.load_sessions sessions_of
    run_worker apply_persist_op written ch_relay.Storage.Store.put_session
    ch_relay.Prelude.Sort.place
sessions_restart_lem_example =
    sessions_restart_lem listed two_events 3 default_retry 100 third (omega arith)
      (λ c e h. absurd (cc)) third_connects 9 (omega arith) (codes "c3")
