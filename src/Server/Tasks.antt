-- ===== src/Server/Tasks.antt =====
-- What a task of crates/relay-server/src/main.rs that goes on, or is over, leaves.
use ch_relay.Prelude.{
  ℕ, zero, suc, ◌≡◌, refl, ap, List, [], ◌∷◌, none, some, length, get_elem?, ◌+◌, ◌<◌, ltb, All,
  Bool-cases, inl, inr, arith, length-append, subst, All-append, ltb→lt,
}
use ch_relay.Bytes.{Bytes}
use ch_relay.Hub.{u64_mod}
use ch_relay.Hub.Soundness.{IsSound}
use ch_relay.Connection.{Env, Conn, Turn, continues, breaks, panics, Moment}
use ch_relay.Connection.Serving.{Event, turn, finish, Outcome, running, over, panicked, run_loop}
use ch_relay.Connection.Endings.{Leaves, Ends}
use ch_relay.Connection.Quota.{turn-IsWithin}
use ch_relay.Connection.FilterQuota.{IsWithin}
use ch_relay.Connection.Consistency.{turn-HasSoundHub, finish-IsSound}
use ch_relay.Connection.FilterLoops.{HasSoundHub}
use ch_relay.Server.{Server, Task, replace, delete, accept, settle}

-- The connection of a task, if it has begun, is within its quota.
abbrev pub TaskIsWithin : ℕ → Task → Type 0
TaskIsWithin limit t = (c : Conn) → t.conn ≡ some c → IsWithin limit c

-- The hub is sound, the tasks and the permits left are as many as the connections
-- allowed, and no connection has more filters than it may.
pub record IsValid (limit max_connections : ℕ) (s : Server) : Type 0 where
  pub sound : IsSound s.hub
  pub counted : length s.tasks + s.permits ≡ max_connections
  pub within : All (TaskIsWithin limit) s.tasks

abbrev pub Good : Env → Conn → Type 0
Good env c = HasSoundHub c × IsWithin env.max_subscriptions c

-- One turn, on its own.
pub run_loop-one :
    (env : Env) (at : Moment) (c : Conn) (e : Event)
    → Good env c
    → c.hub.next_raw + 1 < u64_mod
    → Ends ⊥ (Good env) IsSound (run_loop env c ((at, e) ∷ []))
unfolding run_loop
run_loop-one env at c e (v, w) b =
    go (turn env at c e) (turn-HasSoundHub env at c e v b).0 (turn-IsWithin env at c e w)
  where
    go :
        (t : Turn)
        → Leaves ⊥ HasSoundHub t
        → Leaves (Unit {0}) (IsWithin env.max_subscriptions) t
        → Ends ⊥ (Good env) IsSound (elim t [
          | continues d ↦ run_loop env d []
          | breaks d ↦ over (finish at d)
          | panics ↦ panicked
        ])
    go (continues d) v w = (v, w)
    go (breaks d) v w = finish-IsSound at d v
    go panics v w = v

module _ (P : Task → Type 0) where
  All-replace : (i : ℕ) (t : Task) (ts : List Task) → All P ts → P t → All P (replace i t ts)
  All-replace i t [] h p = h
  All-replace zero t (x ∷ xs) h p = (p, h.1)
  All-replace (suc i) t (x ∷ xs) h p = (h.0, All-replace i t xs h.1 p)

  All-delete : (i : ℕ) (ts : List Task) → All P ts → All P (delete i ts)
  All-delete i [] h = h
  All-delete zero (x ∷ xs) h = h.1
  All-delete (suc i) (x ∷ xs) h = (h.0, All-delete i xs h.1)

  pub All-get_elem : (i : ℕ) (t : Task) (ts : List Task) → All P ts → get_elem? ts i ≡ some t → P t
  All-get_elem i t [] h e = absurd (cc)
  All-get_elem zero t (x ∷ xs) h e = let same : x ≡ t = cc in subst P same h.0
  All-get_elem (suc i) t (x ∷ xs) h e = All-get_elem i t xs h.1 e

length-replace : (i : ℕ) (t : Task) (ts : List Task) → length (replace i t ts) ≡ length ts
length-replace i t [] = refl
length-replace zero t (x ∷ xs) = refl
length-replace (suc i) t (x ∷ xs) = ap suc (length-replace i t xs)

length-delete :
    (i : ℕ) (t : Task) (ts : List Task)
    → get_elem? ts i ≡ some t
    → suc (length (delete i ts)) ≡ length ts
length-delete i t [] e = absurd (cc)
length-delete zero t (x ∷ xs) e = refl
length-delete (suc i) t (x ∷ xs) e = ap suc (length-delete i t xs e)

module _ (limit max_connections : ℕ) where
  pub settle-IsValid :
      (i : ℕ) (s : Server) (t : Task) (o : Outcome)
      → IsValid limit max_connections s
      → get_elem? s.tasks i ≡ some t
      → Ends ⊥ (λ c. HasSoundHub c × IsWithin limit c) IsSound o
      → (s' : Server) × (settle i s t o ≡ some s') × IsValid limit max_connections s'
  settle-IsValid i s t (running c) v e (k, w) = (
    _,
    refl,
    record {
      sound = k;
      counted = omega (arith, length-replace i (record t { conn = some c }) s.tasks, v.counted);
      within =
          All-replace (TaskIsWithin limit) i _ s.tasks v.within
            (λ d f. let same : c ≡ d = cc in subst (IsWithin limit) same w);
    },
  )
  settle-IsValid i s t (over h) v e k = (
    _,
    refl,
    record {
      sound = k;
      counted = omega (arith, length-delete i t s.tasks e, v.counted);
      within = All-delete (TaskIsWithin limit) i s.tasks v.within;
    },
  )
  settle-IsValid i s t panicked v e k = absurd k

  pub accept-IsValid :
      (s : Server) (peer : Bytes)
      → IsValid limit max_connections s
      → IsValid limit max_connections (accept s peer)
  unfolding accept
  accept-IsValid s peer v = elim (Bool-cases (ltb 0 s.permits)) [
    | inl e ↦ rw e (record {
      sound = v.sound;
      counted = omega (
        arith,
        ltb→lt 0 s.permits e,
        v.counted,
        length-append {0} s.tasks (record { peer = peer; conn = none } ∷ []),
      );
      within = All-append (TaskIsWithin limit) s.tasks _ v.within (λ d f. absurd (cc));
    })
    | inr e ↦ rw e v
  ]
