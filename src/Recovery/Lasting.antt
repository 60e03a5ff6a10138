-- ===== src/Recovery/Lasting.antt =====
-- The calls of crates/relay-server/src/hub.rs that open, change and drop sessions, on disk.
use mathlib.Core.List.{append_assoc}
use ch_relay.Prelude.{
  ℕ, ◌≡◌, refl, sym, ◌∙◌, ap, subst, Bool, false, ◌&&◌, [], ◌∷◌, Option, none, some, Bool-cases,
  Option-cases, inl, inr, if◌then◌else◌, nat_eq, arith, ◌==◌, ==_iff, keep,
}
use ch_relay.Prelude.Map.{get, insert, remove, get-insert, get-remove}
use ch_relay.Bytes.{Bytes, codes, bytes_eq, bytes_beq, bytes_beq_iff}
use ch_relay.Router.{ClientId}
use ch_relay.Session.{Session, new}
use ch_relay.Session.Tick.{drain_undelivered}
use ch_relay.Storage.{remove_session}
use ch_relay.Storage.Tables.{Database}
use ch_relay.Storage.Store.{Store}
use ch_relay.Hub.{Hub, no_expiry, set_session}
use ch_relay.Hub.Attach.{
  connect, open_session, drop_session, resume_session, resumed, next_generation, discard,
  removal_ops, leave, detach, purge, purge_if_idle, is_offline,
}
use ch_relay.Hub.Consistency.{update-IsConsistent, same_client, is_other, get-keep}
use ch_relay.Hub.Keeps.{HasConsistentTable}
use ch_relay.Hub.Steps.{connected}
use ch_relay.Recovery.Expiries.{
  durable_expiry, session_expiry, kept_in, expiry_after, Keeps, move-Keeps, Frame-Keeps,
}
use ch_relay.Recovery.Frames.{quiet-Frame}
use ch_relay.Recovery.PublishFrames.{dead_letters-Frame}
use ch_relay.Recovery.Rewriting.{kept_at, meta_op, meta_lem, rewritten}

module _ (db : Database) (st : Store db) where
  open-Keeps :
      (h : Hub) (client_id : Bytes) (expiry_secs : ℕ)
      → HasConsistentTable h
      → get client_id h.sessions.id_of ≡ none
      → Keeps db st h
      → Keeps db st (open_session (next_generation h) client_id expiry_secs).0
  unfolding open_session
  open-Keeps h client_id expiry_secs v e k =
      let n = h.next_raw in
      let s = new client_id (some []) expiry_secs (next_generation h).sessions.generation in
      move-Keeps db st h (open_session (next_generation h) client_id expiry_secs).0
        (meta_op client_id expiry_secs ∷ []) k refl (rw (k.0) refl)
        (λ c.
          rewritten h.sessions.id_of (insert client_id n h.sessions.id_of) h.sessions.by_id
            (insert n s h.sessions.by_id) client_id n s
            (ground (
              arith,
              get-insert client_id client_id n h.sessions.id_of,
              bytes_beq_iff client_id client_id,
            ))
            (ground (arith, get-insert n n s h.sessions.by_id))
            (λ d p. ground (arith, get-insert client_id d n h.sessions.id_of, p))
            (λ d i p g.
              let (t, l, m) = v.forward d i g in
              ground (arith, get-insert n i s h.sessions.by_id, v.below i t l))
            c
          ∙ sym (meta_lem client_id expiry_secs c (kept_in h.sessions.id_of h.sessions.by_id c)))

  restart-Keeps :
      (h : Hub) (client_id : Bytes) (expiry_secs : ℕ) (id : ClientId)
      → HasConsistentTable h
      → get client_id h.sessions.id_of ≡ some id
      → Keeps db st h
      → Keeps db st
          (open_session (drop_session (next_generation h) id client_id) client_id expiry_secs).0
  unfolding open_session drop_session
  restart-Keeps h client_id expiry_secs id v e k =
      let n = h.next_raw in
      let s = new client_id (some []) expiry_secs (next_generation h).sessions.generation in
      let t = remove id h.sessions.by_id in
      move-Keeps db st h
        (open_session (drop_session (next_generation h) id client_id) client_id expiry_secs).0
        (remove_session client_id ∷ meta_op client_id expiry_secs ∷ []) k refl
        (rw (k.0) (
          append_assoc h.queue (remove_session client_id ∷ [])
            (meta_op client_id expiry_secs ∷ [])))
        (λ c.
          rewritten h.sessions.id_of (insert client_id n h.sessions.id_of) h.sessions.by_id
            (insert n s t) client_id n s
            (ground (
              arith,
              get-insert client_id client_id n h.sessions.id_of,
              bytes_beq_iff client_id client_id,
            ))
            (ground (arith, get-insert n n s t))
            (λ d p. ground (arith, get-insert client_id d n h.sessions.id_of, p))
            (λ d i p g.
              let (u, l, m) = v.forward d i g in
              ground (
                arith,
                get-insert n i s t,
                get-remove id i h.sessions.by_id,
                v.below i u l,
                λ (q : i ≡ id). same_client v client_id d id e (g ∙ ap some q),
                bytes_beq_iff client_id d,
                p,
              ))
            c
          ∙ twice client_id c (durable_expiry expiry_secs)
              (kept_in h.sessions.id_of h.sessions.by_id c)
          ∙ sym (
              meta_lem client_id expiry_secs c (
                if bytes_beq client_id c
                then none
                else kept_in h.sessions.id_of h.sessions.by_id c)))
    where
      twice :
          (d c : Bytes) (x o : Option ℕ)
          → (if bytes_beq d c then x else o)
            ≡ (if bytes_beq d c then x else if bytes_beq d c then none else o)
      twice d c x o = elim (Bool-cases (bytes_beq d c)) [ inl p ↦ rw p refl | inr p ↦ rw p refl ]

  resume-Keeps :
      (h : Hub) (now : ℕ) (client_id : Bytes) (expiry_secs : ℕ) (id : ClientId) (s : Session)
      → HasConsistentTable h
      → get client_id h.sessions.id_of ≡ some id
      → Keeps db st h
      → Keeps db st (resume_session (next_generation h) now client_id expiry_secs id s).0
  unfolding resume_session ch_relay.Session.retransmit
  resume-Keeps h now client_id expiry_secs id s v e k =
      let u = resumed (next_generation h) now expiry_secs s in
      move-Keeps db st h (resume_session (next_generation h) now client_id expiry_secs id s).0
        (meta_op client_id expiry_secs ∷ []) k refl (rw (k.0) refl)
        (λ c.
          rewritten h.sessions.id_of h.sessions.id_of h.sessions.by_id
            (insert id u h.sessions.by_id) client_id id u e
            (ground (arith, get-insert id id u h.sessions.by_id)) (λ d p. refl)
            (λ d i p g. ground (
              arith,
              get-insert id i u h.sessions.by_id,
              λ (q : i ≡ id). same_client v client_id d id e (g ∙ ap some q),
              bytes_beq_iff client_id d,
              p,
            ))
            c
          ∙ sym (meta_lem client_id expiry_secs c (kept_in h.sessions.id_of h.sessions.by_id c)))

  discard-Keeps :
      (h : Hub) (id : ClientId) → HasConsistentTable h → Keeps db st h → Keeps db st (discard h id)
  unfolding discard
  discard-Keeps h id v k =
      move-Keeps db st h (discard h id) (removal_ops (get id h.sessions.by_id)) k refl
        (rw (k.0) refl) (λ c. gone c (get c h.sessions.id_of) refl)
    where
      removal_none : (o : Option Session) (c : Bytes) → expiry_after (removal_ops o) c none ≡ none
      removal_none none c = refl
      removal_none (some s) c = ground arith

      other_row :
          (c : Bytes) (i : ClientId) (o : Option Session)
          → get id h.sessions.by_id ≡ o
          → get c h.sessions.id_of ≡ some i
          → (i == id) ≡ false
          → (x : Option ℕ) → expiry_after (removal_ops o) c x ≡ x
      other_row c i none g e p x = refl
      other_row c i (some s) g e p x =
          let back = v.backward id s g in
          let apart : bytes_beq s.client_id c ≡ false =
            ground (arith, back, e, p, bytes_beq_iff s.client_id c) in
          rw apart refl

      gone :
          (c : Bytes) (o : Option ClientId)
          → get c h.sessions.id_of ≡ o
          → kept_in (keep (is_other id) h.sessions.id_of) (remove id h.sessions.by_id) c
            ≡ expiry_after
                (removal_ops (get id h.sessions.by_id))
                c
                (kept_in h.sessions.id_of h.sessions.by_id c)
      gone c none e =
          let left : get c (keep (is_other id) h.sessions.id_of) ≡ none =
            get-keep id c h.sessions.id_of v.keys ∙ rw e refl in
          ap (kept_at (remove id h.sessions.by_id)) left
          ∙ sym (removal_none (get id h.sessions.by_id) c)
          ∙ ap
              (λ o.
                expiry_after (removal_ops (get id h.sessions.by_id)) c (kept_at h.sessions.by_id o))
              (sym e)
      gone c (some i) e = elim (Bool-cases (i == id)) [
        | inl p ↦
            let same : i ≡ id = (==_iff i id).0 p in
            let (s, g, m) = v.forward c i e in
            let there : get id h.sessions.by_id ≡ some s =
              ap (λ j. get j h.sessions.by_id) (sym same) ∙ g in
            let left : get c (keep (is_other id) h.sessions.id_of) ≡ none =
              get-keep id c h.sessions.id_of v.keys ∙ rw (e, p) refl in
            ap (kept_at (remove id h.sessions.by_id)) left
            ∙ sym (
                ap
                  (λ o.
                    expiry_after (removal_ops o) c (kept_in h.sessions.id_of h.sessions.by_id c))
                  there
                ∙ rw ((bytes_beq_iff s.client_id c).1 m) refl)
        | inr p ↦
            let left : get c (keep (is_other id) h.sessions.id_of) ≡ some i =
              get-keep id c h.sessions.id_of v.keys ∙ rw (e, p) refl in
            let still : get i (remove id h.sessions.by_id) ≡ get i h.sessions.by_id =
              ground (arith, get-remove id i h.sessions.by_id, p) in
            ap (kept_at (remove id h.sessions.by_id)) left
            ∙ ap session_expiry still
            ∙ sym (
                other_row c i (get id h.sessions.by_id) refl e p
                  (kept_in h.sessions.id_of h.sessions.by_id c)
                ∙ ap (kept_at h.sessions.by_id) e)
      ]

  leave-Keeps :
      (h : Hub) (id : ClientId) (s : Session)
      → get id h.sessions.by_id ≡ some s
      → HasConsistentTable h
      → Keeps db st h
      → Keeps db st (leave h id s)
  unfolding leave
  leave-Keeps h id s e v k =
      let t = record s { tx = none } in
      let w = Frame-Keeps db st h (set_session h id t) (quiet-Frame h id s t e refl) k in
      elim (Bool-cases (s.expiry_secs == 0)) [
        | inl p ↦
            rw (p, leave)
              (discard-Keeps (set_session h id t) id (update-IsConsistent v id s t e refl) w)
        | inr p ↦ elim (Bool-cases (s.expiry_secs == no_expiry)) [
          | inl q ↦ rw (p, q, leave) w
          | inr q ↦ rw (p, q, leave) w
        ]
      ]

  pub detach-Keeps :
      (h : Hub) (id : ClientId) (generation : ℕ)
      → HasConsistentTable h
      → Keeps db st h
      → Keeps db st (detach h id generation)
  unfolding detach
  detach-Keeps h id generation v k = elim (Option-cases (get id h.sessions.by_id)) [
    | inl e ↦ rw (e, detach) k
    | inr (s, e) ↦ elim (Bool-cases (s.generation == generation)) [
      | inl p ↦ rw (e, p, detach) (leave-Keeps h id s e v k)
      | inr p ↦ rw (e, p, detach) k
    ]
  ]

  pub purge_if_idle-Keeps :
      (h : Hub) (now ts : ℕ) (id : ClientId) (generation : ℕ)
      → HasConsistentTable h
      → Keeps db st h
      → Keeps db st (purge_if_idle h now ts id generation)
  unfolding purge_if_idle purge drain_undelivered
  purge_if_idle-Keeps h now ts id generation v k = elim (Option-cases (get id h.sessions.by_id)) [
    | inl e ↦ rw (e, purge_if_idle) k
    | inr (s, e) ↦ elim (Bool-cases (s.generation == generation && is_offline s.tx)) [
      | inl p ↦
          let t = (drain_undelivered s).0 in
          let gone = discard (set_session h id t) id in
          rw (e, p, purge_if_idle)
            (Frame-Keeps db st gone _ (dead_letters-Frame gone now ts (codes "session_expired") _) (
              discard-Keeps (set_session h id t) id (update-IsConsistent v id s t e refl)
                (Frame-Keeps db st h (set_session h id t) (quiet-Frame h id s t e refl) k)))
      | inr p ↦ rw (e, p, purge_if_idle) k
    ]
  ]

  pub connect-Keeps :
      (h : Hub) (now : ℕ) (client_id : Bytes) (clean_start : Bool) (expiry_secs : ℕ) (h' : Hub)
      → HasConsistentTable h
      → Keeps db st h
      → connected (connect h now client_id clean_start expiry_secs) ≡ some h'
      → Keeps db st h'
  unfolding connect
  connect-Keeps h now client_id clean_start expiry_secs h' v k r =
      elim (Option-cases (get client_id h.sessions.id_of)) [
        | inl e ↦
            arrive (open_session (next_generation h) client_id expiry_secs).0 (rw (e, connect) at r)
              (open-Keeps h client_id expiry_secs v e k)
        | inr (id, e) ↦ elim (Bool-cases clean_start) [
          | inl p ↦
              arrive
                (open_session (drop_session (next_generation h) id client_id) client_id
                  expiry_secs).0
                (rw (e, p, connect) at r) (restart-Keeps h client_id expiry_secs id v e k)
          | inr p ↦
              let (s, g, c) = v.forward client_id id e in
              arrive (resume_session (next_generation h) now client_id expiry_secs id s).0
                (rw (e, p, g, connect) at r) (resume-Keeps h now client_id expiry_secs id s v e k)
        ]
      ]
    where
      arrive : (l : Hub) → some l ≡ some h' → Keeps db st l → Keeps db st h'
      arrive l e w = let same : l ≡ h' = cc in subst (Keeps db st) same w
