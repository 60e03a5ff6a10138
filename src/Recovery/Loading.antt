-- ===== src/Recovery/Loading.antt =====
-- The loop of `Hub::new` in crates/relay-server/src/hub.rs over the sessions on disk.
use ch_relay.Prelude.{
  ℕ, suc, ◌+◌, ◌<◌, ◌%◌, ◌≡◌, refl, ◌∙◌, ap, sym, subst, false, List, [], ◌∷◌, Option, none, some,
  arith, inl, inr, length, All, In, nat_eq,
}
use ch_relay.Prelude.Map.{Map, get, insert, get-insert}
use ch_relay.Bytes.{Bytes, bytes_eq, bytes_beq, bytes_beq_iff}
use ch_relay.Router.{ClientId}
use ch_relay.Session.{Session, InflightEntry, new}
use ch_relay.Hub.{Hub, u64_mod}
use ch_relay.Hub.Consistency.{IsConsistent, open-IsConsistent}
use ch_relay.Hub.Keeps.{HasConsistentTable}
use ch_relay.Hub.Startup.{load_sessions, session_of, restore, decoded}
use ch_relay.Storage.{PersistedSession}

-- No two sessions are of the same client.
abbrev pub Distinct : List PersistedSession → Type 0
Distinct [] = Unit
Distinct (p ∷ ps) = All (λ q. bytes_beq q.client_id p.client_id ≡ false) ps × Distinct ps

restore-client_id :
    (s : Session) (o : Option (ℕ × List InflightEntry)) → (restore s o).client_id ≡ s.client_id
restore-client_id s none = refl
restore-client_id s (some (next_id, queue)) = refl

-- None of the sessions is in the index yet.
abbrev Absent : Map Bytes ClientId → List PersistedSession → Type 0
Absent id_of ps = All (λ p. get p.client_id id_of ≡ none) ps

Absent-insert :
    (c : Bytes) (i : ClientId) (id_of : Map Bytes ClientId) (ps : List PersistedSession)
    → All (λ q. bytes_beq q.client_id c ≡ false) ps
    → Absent id_of ps
    → Absent (insert c i id_of) ps
Absent-insert c i id_of [] d a = tt
Absent-insert c i id_of (p ∷ ps) (d, ds) (a, rest) = (
  ground (
    arith,
    get-insert c p.client_id i id_of,
    bytes_beq_iff c p.client_id,
    bytes_beq_iff p.client_id c,
  ),
  Absent-insert c i id_of ps ds rest,
)

module _ (now : ℕ) (inflight : Map Bytes Bytes) where
  pub load_sessions-HasConsistentTable :
      (ps : List PersistedSession) (h : Hub)
      → HasConsistentTable h
      → Distinct ps
      → Absent h.sessions.id_of ps
      → h.next_raw + length ps < u64_mod
      → HasConsistentTable (load_sessions now inflight h ps)
  unfolding load_sessions
  load_sessions-HasConsistentTable [] h v d a b = v
  load_sessions-HasConsistentTable (p ∷ ps) h v (d, ds) (a, rest) b =
      let s = session_of now inflight h.retry p in
      let same : s.client_id ≡ p.client_id =
        restore-client_id (new p.client_id none p.expiry_secs 0)
          (decoded now h.retry (get p.client_id inflight)) in
      let next : (h.next_raw + 1) % u64_mod ≡ h.next_raw + 1 = omega (arith, b) in
      let w : IsConsistent (h.next_raw + 1) (insert h.next_raw s h.sessions.by_id)
          (insert p.client_id h.next_raw h.sessions.id_of) =
        subst
          (λ c.
            IsConsistent (h.next_raw + 1) (insert h.next_raw s h.sessions.by_id)
              (insert c h.next_raw h.sessions.id_of))
          same (open-IsConsistent v s (ap (λ c. get c h.sessions.id_of) same ∙ a)) in
      load_sessions-HasConsistentTable ps _ (rw next w) ds
        (Absent-insert p.client_id h.next_raw h.sessions.id_of ps d rest) (omega (arith, b, next))

  -- What is there stays there.
  pub load_sessions-index :
      (ps : List PersistedSession) (h : Hub) (c : Bytes)
      → All (λ q. bytes_beq q.client_id c ≡ false) ps
      → get c (load_sessions now inflight h ps).sessions.id_of ≡ get c h.sessions.id_of
  unfolding load_sessions
  load_sessions-index [] h c d = refl
  load_sessions-index (p ∷ ps) h c (d, ds) =
      load_sessions-index ps _ c ds
      ∙ ground (arith, get-insert p.client_id c h.next_raw h.sessions.id_of, d)

  load_sessions-below :
      (ps : List PersistedSession) (h : Hub) (i : ClientId)
      → i < h.next_raw
      → h.next_raw + length ps < u64_mod
      → get i (load_sessions now inflight h ps).sessions.by_id ≡ get i h.sessions.by_id
  unfolding load_sessions
  load_sessions-below [] h i k b = refl
  load_sessions-below (p ∷ ps) h i k b =
      let next : (h.next_raw + 1) % u64_mod ≡ h.next_raw + 1 = omega (arith, b) in
      load_sessions-below ps _ i (omega (arith, next, k)) (omega (arith, next, b))
      ∙ ground
          (arith, get-insert h.next_raw i (session_of now inflight h.retry p) h.sessions.by_id, k)

  first_there :
      (q : PersistedSession) (ps : List PersistedSession) (h : Hub)
      → All (λ p. bytes_beq p.client_id q.client_id ≡ false) ps
      → h.next_raw + suc (length ps) < u64_mod
      → (i : ClientId) × (get q.client_id (load_sessions now inflight h (q ∷ ps)).sessions.id_of
          ≡ some i)
        × (get i (load_sessions now inflight h (q ∷ ps)).sessions.by_id
            ≡ some (session_of now inflight h.retry q))
  unfolding load_sessions
  first_there q ps h d b =
      let next : (h.next_raw + 1) % u64_mod ≡ h.next_raw + 1 = omega (arith, b) in
      (
        h.next_raw,
        load_sessions-index ps _ q.client_id d
            ∙ ground (
              arith,
              get-insert q.client_id q.client_id h.next_raw h.sessions.id_of,
              bytes_beq_iff q.client_id q.client_id,
            ),
        load_sessions-below ps _ h.next_raw (omega (arith, next)) (omega (arith, next, b))
            ∙ ground (
              arith,
              get-insert h.next_raw h.next_raw (session_of now inflight h.retry q) h.sessions.by_id,
            ),
      )

  pub load_sessions-there :
      (ps : List PersistedSession) (h : Hub) (p : PersistedSession)
      → In p ps
      → Distinct ps
      → h.next_raw + length ps < u64_mod
      → (i : ClientId) × (get p.client_id (load_sessions now inflight h ps).sessions.id_of ≡ some i)
        × (get i (load_sessions now inflight h ps).sessions.by_id
            ≡ some (session_of now inflight h.retry p))
  unfolding load_sessions
  load_sessions-there [] h p x d b = absurd x
  load_sessions-there (q ∷ ps) h p (inl same) (d, ds) b =
      subst
        (λ r.
          (i : ClientId) × (get r.client_id (load_sessions now inflight h (q ∷ ps)).sessions.id_of
            ≡ some i)
          × (get i (load_sessions now inflight h (q ∷ ps)).sessions.by_id
              ≡ some (session_of now inflight h.retry r)))
        (sym same) (first_there q ps h d b)
  load_sessions-there (q ∷ ps) h p (inr later) (d, ds) b =
      let next : (h.next_raw + 1) % u64_mod ≡ h.next_raw + 1 = omega (arith, b) in
      load_sessions-there ps _ p later ds (omega (arith, next, b))
