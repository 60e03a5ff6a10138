-- ===== src/Server.antt =====
-- crates/relay-server/src/main.rs: the tasks that serve the connections of one hub, side by side, and
-- the permits that bound their number.
pub mod Tasks
pub mod Invariant
mod Examples
use ch_relay.Prelude.{
  ℕ, zero, suc, Bool, true, false, List, [], ◌∷◌, ◌++◌, Option, none, some, if◌then◌else◌, length,
  get_elem?, ◌+◌, ◌-◌, nat_eq, ◌==◌, ltb,
}
use ch_relay.Bytes.{Bytes}
use ch_relay.Router.{ClientId}
use ch_relay.Retry.{RetryConfig}
use ch_relay.Hub.{Hub}
use ch_relay.Hub.Attach.{purge_if_idle}
use ch_relay.Hub.Timers.{run_retries}
use ch_relay.Connection.{Env, Conn, Moment, Inbound}
use ch_relay.Connection.Serving.{Event, Outcome, running, over, panicked, run_loop, serve}

-- A task that serves a connection: its peer, and the connection once its first packet is there.
pub record Task : Type 0 where
  pub peer : Bytes
  pub conn : Option Conn

-- The hub, the permits of the semaphore that are left, and the tasks that hold the others.
pub record Server : Type 0 where
  pub hub : Hub
  pub permits : ℕ
  pub tasks : List Task

abbrev pub replace : {A : Type 0} → ℕ → A → List A → List A
replace i y [] = []
replace zero y (x ∷ xs) = y ∷ xs
replace (suc i) y (x ∷ xs) = x ∷ replace i y xs

abbrev pub delete : {A : Type 0} → ℕ → List A → List A
delete i [] = []
delete zero (x ∷ xs) = xs
delete (suc i) (x ∷ xs) = x ∷ delete i xs

-- Before the first connection.
abbrev pub start : Hub → ℕ → Server
start h max_connections = record { hub = h; permits = max_connections; tasks = [] }

-- What happens: a connection is accepted; a task gets its first packet, or ends without one, also
-- where the TLS or WebSocket handshake fails; a task in its loop sees something; a scheduled purge
-- and the retries of the hub. A task is named by its position among those that live.
pub data Step : Type 0 where
  accepts : Bytes → Step
  begins : ℕ → Option (Moment × Inbound) → Step
  sees : ℕ → Moment → Event → Step
  expires : ℕ → ℕ → ClientId → ℕ → Step
  retries : ℕ → ℕ → Step

-- `try_acquire_owned`, and the task that is spawned with the permit.
unfoldable pub accept : Server → Bytes → Server
accept s peer =
    if ltb 0 s.permits
    then record s {
      permits = s.permits - 1;
      tasks = s.tasks ++ record { peer = peer; conn = none } ∷ [];
    }
    else s

-- A task that is over gives its permit back.
abbrev pub settle : ℕ → Server → Task → Outcome → Option Server
settle i s t (running c) =
    some (record s { hub = c.hub; tasks = replace i (record t { conn = some c }) s.tasks })
settle i s t (over h) =
    some (record s { hub = h; permits = s.permits + 1; tasks = delete i s.tasks })
settle i s t panicked = none

abbrev pub env_of : Env → Task → Env
env_of env t = record env { peer = t.peer }

unfoldable pub begin : Env → ℕ → Option (Moment × Inbound) → Server → Option Task → Option Server
begin env i first s none = some s
begin env i first s (some t) = elim t.conn [
  | none ↦ settle i s t (serve (env_of env t) s.hub first [])
  | some c ↦ some s
]

-- A turn of a task's loop, on the hub as the others have left it.
unfoldable pub see : Env → ℕ → Moment → Event → Server → Option Task → Option Server
see env i at e s none = some s
see env i at e s (some t) = elim t.conn [
  | none ↦ some s
  | some c ↦ settle i s t (run_loop (env_of env t) (record c { hub = s.hub }) ((at, e) ∷ []))
]

-- `none` is the panic of `connect` in a task.
unfoldable pub step : Env → Server → Step → Option Server
unfolding begin see
step env s (accepts peer) = some (accept s peer)
step env s (begins i first) = begin env i first s (get_elem? s.tasks i)
step env s (sees i at e) = see env i at e s (get_elem? s.tasks i)
step env s (expires now ts id generation) =
    some (record s { hub = purge_if_idle s.hub now ts id generation })
step env s (retries now ts) = some (record s { hub = run_retries s.hub now ts })
