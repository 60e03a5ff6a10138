-- ===== src/Server/Invariant.antt =====
-- What holds of the hub, the permits and the connections of crates/relay-server/src/main.rs, in
-- whatever order their steps come.
use ch_relay.Prelude.{
  ℕ, ◌≡◌, refl, [], Option, none, some, get_elem?, ◌+◌, ◌<◌, Option-cases, inl, inr, arith, subst,
  ◌≢◌,
}
use ch_relay.Hub.{Hub, u64_mod}
use ch_relay.Hub.Soundness.{IsSound, purge_if_idle-IsSound, run_retries-IsSound}
use ch_relay.Connection.{Env, Moment, opened, Inbound}
use ch_relay.Connection.Serving.{Event, inbound, serve}
use ch_relay.Connection.Endings.{Ends}
use ch_relay.Server.{
  Server, Task, Step, accepts, begins, sees, expires, retries, start, env_of, begin, see, step,
}
use ch_relay.Server.Tasks.{
  TaskIsWithin, IsValid, Good, run_loop-one, All-get_elem, settle-IsValid, accept-IsValid,
}

module _ (env : Env) (max_connections : ℕ) where
  begin-IsValid :
      (i : ℕ) (first : Option (Moment × Inbound)) (s : Server)
      → IsValid env.max_subscriptions max_connections s
      → s.hub.next_raw + 1 < u64_mod
      → (s' : Server) × (begin env i first s (get_elem? s.tasks i) ≡ some s')
        × IsValid env.max_subscriptions max_connections s'
  unfolding begin serve
  begin-IsValid i first s v b = elim (Option-cases (get_elem? s.tasks i)) [
    | inl e ↦ rw e (s, refl, v)
    | inr (t, e) ↦ elim (Option-cases t.conn) [
      | inl n ↦
          rw (e, n)
            (settle-IsValid env.max_subscriptions max_connections i s t _ v e (first_lem first t))
      | inr (c, n) ↦ rw (e, n) (s, refl, v)
    ]
  ]
    where
      first_lem :
          (first : Option (Moment × Inbound)) (t : Task)
          → Ends ⊥ (Good env) IsSound (serve (env_of env t) s.hub first [])
      first_lem none t = v.sound
      first_lem (some (at, p)) t =
          run_loop-one (env_of env t) at (opened s.hub) (inbound p) (v.sound, omega arith) b

  see-IsValid :
      (i : ℕ) (at : Moment) (e : Event) (s : Server)
      → IsValid env.max_subscriptions max_connections s
      → s.hub.next_raw + 1 < u64_mod
      → (s' : Server) × (see env i at e s (get_elem? s.tasks i) ≡ some s')
        × IsValid env.max_subscriptions max_connections s'
  unfolding see
  see-IsValid i at e s v b = elim (Option-cases (get_elem? s.tasks i)) [
    | inl n ↦ rw n (s, refl, v)
    | inr (t, n) ↦ elim (Option-cases t.conn) [
      | inl m ↦ rw (n, m) (s, refl, v)
      | inr (c, m) ↦
          rw (n, m)
            (settle-IsValid env.max_subscriptions max_connections i s t _ v n (
              run_loop-one (env_of env t) at (record c { hub = s.hub }) e
                (
                  v.sound,
                  All-get_elem (TaskIsWithin env.max_subscriptions) i t s.tasks v.within n c m,
                )
                b))
    ]
  ]

  step-IsValid :
      (s : Server) (c : Step)
      → IsValid env.max_subscriptions max_connections s
      → s.hub.next_raw + 1 < u64_mod
      → (s' : Server) × (step env s c ≡ some s') × IsValid env.max_subscriptions max_connections s'
  unfolding step
  step-IsValid s (accepts peer) v b =
      (_, refl, accept-IsValid env.max_subscriptions max_connections s peer v)
  step-IsValid s (begins i first) v b = begin-IsValid i first s v b
  step-IsValid s (sees i at e) v b = see-IsValid i at e s v b
  step-IsValid s (expires now ts id generation) v b = (
    _,
    refl,
    record {
      sound = purge_if_idle-IsSound s.hub now ts id generation v.sound;
      counted = v.counted;
      within = v.within;
    },
  )
  step-IsValid s (retries now ts) v b = (
    _,
    refl,
    record {
      sound = run_retries-IsSound s.hub now ts v.sound;
      counted = v.counted;
      within = v.within;
    },
  )

-- What a server can come to, as long as client ids do not run out.
pub data Reaches (env : Env) (s : Server) : Server → Type 0 where
  nothing_yet : Reaches env s s
  and_then :
      (c : Step) (s' s'' : Server)
      → Reaches env s s'
      → s'.hub.next_raw + 1 < u64_mod
      → step env s' c ≡ some s''
      → Reaches env s s''

-- From a hub with consistent indices and valid sessions, whatever connections are accepted, in
-- whatever order their packets, their ends, the purges and the retries come, and as long as the next
-- client id has a successor in `u64`: the hub's indices stay consistent, and the next step does not
-- meet the `expect` of `connect`; every session's counter stays between 1 and 65535, as the `expect`
-- of `allocate_id` demands, and every entry of its queue carries such an id; the tasks and the permits
-- left are as many as the connections allowed; and no connection has more filters than it may.
pub Reaches-IsValid :
    (env : Env) (h : Hub) (max_connections : ℕ) (s : Server)
    → IsSound h
    → Reaches env (start h max_connections) s
    → IsValid env.max_subscriptions max_connections s
      × ((c : Step) → s.hub.next_raw + 1 < u64_mod → step env s c ≢ none)
Reaches-IsValid env h max_connections s k r =
    let v = go s r in
    (v, λ c b n. let (s', e, w) = step-IsValid env max_connections s c v b in absurd (cc))
  where
    go :
        (s : Server)
        → Reaches env (start h max_connections) s
        → IsValid env.max_subscriptions max_connections s
    go _ nothing_yet = record { sound = k; counted = omega arith; within = tt }
    go _ (and_then c s' s'' r b e) =
        let (t, f, w) = step-IsValid env max_connections s' c (go s' r) b in
        let same : t ≡ s'' = cc in subst (IsValid env.max_subscriptions max_connections) same w
