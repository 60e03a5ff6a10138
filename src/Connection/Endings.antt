-- ===== src/Connection/Endings.antt =====
-- What holds of a connection after a turn of the loop in crates/relay-server/src/connection.rs, and
-- of the hub after all of them.
use ch_relay.Prelude.{All, List, [], ◌∷◌, ◌++◌, Option-cases, Bool-cases, inl, inr}
use ch_relay.Router.{ClientId}
use ch_relay.Connection.{Conn, Turn, continues, breaks, panics, Moment, Reply, reply, refuse}
use ch_relay.Hub.{Hub}
use ch_relay.Connection.{Env}
use ch_relay.Connection.Turns.{in_session}
use ch_relay.Connection.Serving.{Event, turn, finish, Outcome, running, over, panicked, run_loop}

-- A property of the connection that a turn leaves, and what is said of a panic.
abbrev pub Leaves : Type 0 → (Conn → Type 0) → Turn → Type 0
Leaves R P (continues c) = P c
Leaves R P (breaks c) = P c
Leaves R P panics = R

pub reply-Leaves :
    (R : Type 0) (P : Conn → Type 0) (at : Moment) (c : Conn) (r : Reply)
    → P c
    → P (record c { sent = c.sent ++ r ∷ [] })
    → Leaves R P (reply at c r)
reply-Leaves R P at c r h k = elim (Bool-cases at.takes) [
  | inl e ↦ rw (e, reply) k
  | inr e ↦ rw (e, reply) h
]

pub refuse-Leaves :
    (R : Type 0) (P : Conn → Type 0) (at : Moment) (c : Conn) (r : Reply)
    → P c
    → P (record c { sent = c.sent ++ r ∷ [] })
    → Leaves R P (refuse at c r)
refuse-Leaves R P at c r h k = elim (Bool-cases at.takes) [
  | inl e ↦ rw (e, refuse) k
  | inr e ↦ rw (e, refuse) h
]

pub in_session-Leaves :
    (R : Type 0) (P : Conn → Type 0) (c : Conn) (f : ClientId → Turn)
    → P c
    → ((id : ClientId) → Leaves R P (f id))
    → Leaves R P (in_session c f)
in_session-Leaves R P c f h k = elim (Option-cases c.session_id) [
  | inl e ↦ rw (e, in_session) h
  | inr (id, e) ↦ rw (e, in_session) (k id)
]

-- The same of a whole run, where a property of the hub is what is left at its end.
abbrev pub Ends : Type 0 → (Conn → Type 0) → (Hub → Type 0) → Outcome → Type 0
Ends R P Q (running c) = P c
Ends R P Q (over h) = Q h
Ends R P Q panicked = R

module _ (R : Type 0) (P : Conn → Type 0) (Q : Hub → Type 0) (E : Moment × Event → Type 0)
    (env : Env)
    (kept : (at : Moment) (c : Conn) (e : Event) → E (at, e) → P c → Leaves R P (turn env at c e))
    (ended : (at : Moment) (c : Conn) → P c → Q (finish at c)) where
  -- What every turn keeps, a run keeps.
  pub run_loop-Ends :
      (events : List (Moment × Event)) (c : Conn)
      → All E events
      → P c
      → Ends R P Q (run_loop env c events)
  unfolding run_loop
  run_loop-Ends [] c a h = h
  run_loop-Ends ((at, e) ∷ events) c a h =
      go (turn env at c e) (kept at c e a.0 h) (λ d k. run_loop-Ends events d a.1 k)
    where
      go :
          (t : Turn)
          → Leaves R P t
          → ((d : Conn) → P d → Ends R P Q (run_loop env d events))
          → Ends R P Q (elim t [
            | continues d ↦ run_loop env d events
            | breaks d ↦ over (finish at d)
            | panics ↦ panicked
          ])
      go (continues d) k later = later d k
      go (breaks d) k later = ended at d k
      go panics k later = k
