-- ===== src/Connection/Examples.antt =====
-- Connections to a hub in memory: of a user, who may use one subtree, and of a stranger.
use ch_relay.Prelude.{◌≡◌, refl, true, Option, some, none, [], ◌∷◌, arith, nat_eq}
use ch_relay.Prelude.Map.{get}
use ch_relay.Prelude.Results.{Result, ok, err}
use ch_relay.Bytes.{Bytes, codes}
use ch_relay.Message.{at_least_once}
use ch_relay.Acl.{Acl, can_publish}
use ch_relay.Auth.{Principal, AuthError, invalid_token}
use ch_relay.Retry.{default_retry}
use ch_relay.Session.{Session, new}
use ch_relay.Hub.{Hub}
use ch_relay.Hub.Startup.{in_memory}
use ch_relay.Hub.Consistency.{empty-IsConsistent, open-IsConsistent}
use ch_relay.Hub.Keeps.{HasConsistentTable}
use ch_relay.Connection.{
  Env, Conn, continues, Moment, Connect, InboundPublish, connects, pings, opened,
}
use ch_relay.Connection.Turns.{handle_packet, on_subscribe, on_publish}
use ch_relay.Connection.Serving.{inbound, finish, serve}
use ch_relay.Connection.Endings.{Leaves, Ends}
use ch_relay.Connection.Permissions.{
  SameButSession, on_subscribe-ChangesOnly, on_publish-SameButSession,
}
use ch_relay.Connection.RouterChanges.{ChangesOnly}
use ch_relay.Connection.Strangers.{Untouched, serve-Untouched}
use ch_relay.Connection.Reconnects.{purges_for, second_connect_leaks}

abbrev permissions : Acl
permissions = record { publish = codes "u1/#" ∷ []; subscribe = codes "u1/#" ∷ [] }

abbrev user : Principal
user = record { identity = codes "u1"; acl = permissions }

abbrev check_password : Option Bytes → Result AuthError Principal
check_password none = err invalid_token
check_password (some token) = ok user

abbrev env : Env
env = record {
  peer = codes "10.0.0.1:4000";
  authenticate = check_password;
  max_subscriptions = 2;
  load_events = λ from. none;
  to_string = λ n. n ∷ [];
}

abbrev at : Moment
at = record { now = 7; ts = 9; takes = true }

abbrev session : Session
session = new (codes "c1") (some []) 60 4

abbrev online : Hub
online = record (in_memory default_retry 100) {
  next_raw = 2;
  sessions = record { by_id = (1, session) ∷ []; id_of = (codes "c1", 1) ∷ []; generation = 4 };
}

online-HasConsistentTable : HasConsistentTable online
online-HasConsistentTable = open-IsConsistent empty-IsConsistent session refl

abbrev attached_conn : Conn
attached_conn = record (opened online) { session_id = some 1; generation = 4; access = permissions }

on_subscribe-ChangesOnly_example :
    Leaves
      (Unit {0})
      (λ c'. ChangesOnly 1 permissions online.router c'.hub.router)
      (on_subscribe env at attached_conn 1 3 ((codes "u1/a", at_least_once) ∷ []))
on_subscribe-ChangesOnly_example =
    on_subscribe-ChangesOnly env at attached_conn 1 3 ((codes "u1/a", at_least_once) ∷ [])

abbrev intrusion : InboundPublish
intrusion = record {
  topic = codes "$replay/0/u2/#";
  payload = [];
  qos = at_least_once;
  retain = true;
  packet_id = some 5;
}

on_publish-SameButSession_example :
    Leaves
      (Unit {0})
      (λ c'. SameButSession 1 online c'.hub)
      (on_publish env at attached_conn 1 intrusion)
unfolding can_publish ch_relay.Topic.topic_matches ch_relay.Topic.match_levels ch_relay.Bytes.split
    ch_relay.Bytes.bytes_beq
on_publish-SameButSession_example = on_publish-SameButSession env at attached_conn 1 intrusion refl

abbrev without_token : Connect
without_token = record {
  client_id = codes "c1";
  clean_start = true;
  password = none;
  session_expiry_interval_secs = 60;
  last_will = none;
}

serve-Untouched_example :
    Ends ⊥
      (λ c. Untouched online c.hub)
      (Untouched online)
      (serve env online (some (at, pings)) ((at, inbound (connects without_token)) ∷ []))
serve-Untouched_example =
    serve-Untouched env online at pings ((at, inbound (connects without_token)) ∷ []) tt
      ((invalid_token, refl), tt)

abbrev second : Connect
second = record without_token { client_id = codes "c2"; password = some (codes "t1") }

second_connect_leaks_example :
    (c' : Conn) × (handle_packet env at attached_conn (connects second) ≡ continues c')
    × (get 1 (finish at (record c' { clean_disconnect = true })).sessions.by_id ≡ some session)
    × (purges_for 1 (finish at (record c' { clean_disconnect = true })) ≡ purges_for 1 online)
second_connect_leaks_example =
    second_connect_leaks env at attached_conn second user 1 session online-HasConsistentTable refl
      refl refl refl (λ e. ground (arith, e)) refl
