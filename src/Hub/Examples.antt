-- ===== src/Hub/Examples.antt =====
-- A hub in memory with one client online.
use ch_relay.Prelude.{not, List, ◌≡◌, refl, true, some, [], ◌∷◌, arith, nat_eq}
use ch_relay.Prelude.Map.{get}
use ch_relay.Bytes.{codes}
use ch_relay.Retry.{default_retry}
use ch_relay.Session.{Session, new}
use ch_relay.Hub.{Hub}
use ch_relay.Hub.Startup.{in_memory}
use ch_relay.Hub.Consistency.{empty-IsConsistent, open-IsConsistent}
use ch_relay.Hub.Keeps.{HasConsistentTable}
use ch_relay.Message.{at_least_once}
use ch_relay.Router.{route}
use ch_relay.Hub.Delivery.{Outgoing, publish_to_all}
use ch_relay.Hub.Requests.{hub_subscribe, inbound_qos2_seen}
use ch_relay.Hub.Steps.{publishes, step, step-HasConsistentTable}
use ch_relay.Hub.Recipients.{received_of, publish_to_all_lem}
use ch_relay.Hub.Inbound.{
  Arrival, publish_of, pubrel_of, run_arrivals, is_outstanding, holds_pid, inbound_qos2_lem,
}

abbrev session : Session
session = new (codes "c1") (some []) 60 4

abbrev online : Hub
online = record (in_memory default_retry 100) {
  next_raw = 2;
  sessions = record { by_id = (1, session) ∷ []; id_of = (codes "c1", 1) ∷ []; generation = 4 };
}

online-HasConsistentTable : HasConsistentTable online
online-HasConsistentTable = open-IsConsistent empty-IsConsistent session refl

abbrev news : Outgoing
news = record { topic = codes "news"; payload = codes "1"; qos = at_least_once }

abbrev listening : Hub
listening = hub_subscribe online 1 (record { as_str = codes "#" }) at_least_once (codes "#")

step-HasConsistentTable_example :
    (h' : Hub) × (step listening (publishes 7 9 news true) ≡ some h') × HasConsistentTable h'
unfolding hub_subscribe
step-HasConsistentTable_example =
    step-HasConsistentTable listening (publishes 7 9 news true) online-HasConsistentTable
      (omega arith)

publish_to_all_lem_example :
    get 1 (publish_to_all listening 7 9 news true).0.sessions.by_id
    ≡ received_of listening.retry 7 news 1
        (route listening.router news.topic).1
        (get 1 listening.sessions.by_id)
publish_to_all_lem_example = publish_to_all_lem listening 7 9 news true 1

-- Two packets, one of them released, and one of another client.
abbrev arrivals : List Arrival
arrivals = publish_of 1 8 ∷ publish_of 1 9 ∷ pubrel_of 1 8 ∷ publish_of 2 8 ∷ []

inbound_qos2_lem_example :
    (inbound_qos2_seen (run_arrivals online arrivals) 1 8).1
    ≡ not (is_outstanding 1 8 (holds_pid 8 session.incoming_qos2) arrivals)
inbound_qos2_lem_example = inbound_qos2_lem online 1 session 8 arrivals refl

seen_again : is_outstanding 1 9 (holds_pid 9 session.incoming_qos2) arrivals ≡ true
seen_again = refl
