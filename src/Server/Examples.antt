-- ===== src/Server/Examples.antt =====
-- A run of crates/relay-server/src/main.rs with room for one connection.
use ch_relay.Prelude.{refl, true, some, none, [], ◌∷◌, ◌≢◌, arith, ◌+◌, ◌<◌}
use ch_relay.Prelude.Results.{ok}
use ch_relay.Bytes.{codes}
use ch_relay.Acl.{no_access}
use ch_relay.Retry.{default_retry}
use ch_relay.Hub.{Hub, u64_mod}
use ch_relay.Hub.Startup.{in_memory}
use ch_relay.Hub.Consistency.{empty-IsConsistent}
use ch_relay.Connection.{Env, Moment, pings, opened, ping_response}
use ch_relay.Connection.Turns.{handle_packet}
use ch_relay.Connection.Serving.{turn, serve, run_loop}
use ch_relay.Server.{Server, Step, accepts, begins, start, accept, begin, step}
use ch_relay.Server.Invariant.{Reaches, nothing_yet, and_then, Reaches-IsValid}
use ch_relay.Server.Tasks.{IsValid}

abbrev env : Env
env = record {
  peer = [];
  authenticate = λ password. ok (record { identity = codes "u1"; acl = no_access });
  max_subscriptions = 2;
  load_events = λ from. none;
  to_string = λ n. n ∷ [];
}

abbrev at : Moment
at = record { now = 7; ts = 9; takes = true }

abbrev fresh : Hub
fresh = in_memory default_retry 100

abbrev waiting : Server
waiting = record { hub = fresh; permits = 0; tasks = record { peer = codes "a"; conn = none } ∷ [] }

abbrev answered : Server
answered = record {
  hub = fresh;
  permits = 0;
  tasks =
      record { peer = codes "a"; conn = some (record (opened fresh) { sent = ping_response ∷ [] }) }
      ∷ [];
}

-- The second connection is refused, and the first is answered.
abbrev run : Reaches env (start fresh 1) answered
unfolding step accept begin serve run_loop turn handle_packet
run =
    and_then (begins 0 (some (at, pings))) waiting answered
      (and_then (accepts (codes "b")) waiting waiting
        (and_then (accepts (codes "a")) (start fresh 1) waiting nothing_yet (omega arith) refl)
        (omega arith) refl)
      (omega arith) refl

Reaches-IsValid_example :
    IsValid 2 1 answered
    × ((c : Step) → answered.hub.next_raw + 1 < u64_mod → step env answered c ≢ none)
Reaches-IsValid_example = Reaches-IsValid env fresh 1 answered (empty-IsConsistent, tt) run
