-- ===== src/Recovery/Expiries.antt =====
-- The expiry intervals of the sessions on disk against those in memory, in
-- crates/relay-server/src/storage.rs and crates/relay-server/src/hub.rs.
use mathlib.Core.List.{append_assoc, append-nil}
use ch_relay.Prelude.{
  ℕ, ◌≡◌, refl, sym, ◌∙◌, ap, true, List, [], ◌∷◌, ◌++◌, Option, none, some, All, arith, ltb,
  nat_eq, Bool-cases, inl, inr, if◌then◌else◌, ◌==◌, ==_iff,
}
use ch_relay.Prelude.Map.{Map, get, insert, get-insert, get-remove}
use ch_relay.Bytes.{Bytes, bytes_eq, bytes_beq, bytes_le}
use ch_relay.Router.{ClientId}
use ch_relay.Session.{Session}
use ch_relay.Hub.{Hub}
use ch_relay.Storage.{PersistOp}
use ch_relay.Storage.Tables.{Database}
use ch_relay.Storage.Rows.{get-with_row}
use ch_relay.Storage.Store.{
  Store, put_retained, put_session, remove_session, put_subscription, remove_subscription,
  put_inflight, append_dead_letter, append_event,
}
use ch_relay.Storage.Worker.{written, apply_persist_op, run_worker}
use ch_relay.Recovery.{drained, drained-append}

-- What is on disk of a session: its expiry interval, unless it is zero.
abbrev pub durable_expiry : ℕ → Option ℕ
durable_expiry e = if ltb 0 e then some e else none

abbrev pub session_expiry : Option Session → Option ℕ
session_expiry none = none
session_expiry (some s) = durable_expiry s.expiry_secs

abbrev pub expiry_in : ClientId → Map ClientId Session → Option ℕ
expiry_in i by_id = session_expiry (get i by_id)

abbrev pub kept_in : Map Bytes ClientId → Map ClientId Session → Bytes → Option ℕ
kept_in id_of by_id c = elim (get c id_of) [ none ↦ none | some i ↦ expiry_in i by_id ]

-- What a queue of writes makes of the row of a client.
abbrev pub expiry_after : List PersistOp → Bytes → Option ℕ → Option ℕ
expiry_after [] c o = o
expiry_after (PersistOp.put_session d e ∷ ops) c o =
    expiry_after ops c (if bytes_beq d c then some e else o)
expiry_after (PersistOp.remove_session d ∷ ops) c o =
    expiry_after ops c (if bytes_beq d c then none else o)
expiry_after (PersistOp.put_subscription d raw q ∷ ops) c o = expiry_after ops c o
expiry_after (PersistOp.remove_subscription d raw ∷ ops) c o = expiry_after ops c o
expiry_after (PersistOp.put_inflight d blob ∷ ops) c o = expiry_after ops c o
expiry_after (PersistOp.put_retained topic payload q ∷ ops) c o = expiry_after ops c o
expiry_after (PersistOp.append_dead_letter blob ∷ ops) c o = expiry_after ops c o
expiry_after (PersistOp.append_event blob retention ∷ ops) c o = expiry_after ops c o
expiry_after (PersistOp.flush ∷ ops) c o = expiry_after ops c o

expiry_after-cons :
    (op : PersistOp) (ops : List PersistOp) (c : Bytes) (o : Option ℕ)
    → expiry_after (op ∷ ops) c o ≡ expiry_after ops c (expiry_after (op ∷ []) c o)
expiry_after-cons (PersistOp.put_session d e) ops c o = refl
expiry_after-cons (PersistOp.remove_session d) ops c o = refl
expiry_after-cons (PersistOp.put_subscription d raw q) ops c o = refl
expiry_after-cons (PersistOp.remove_subscription d raw) ops c o = refl
expiry_after-cons (PersistOp.put_inflight d blob) ops c o = refl
expiry_after-cons (PersistOp.put_retained topic payload q) ops c o = refl
expiry_after-cons (PersistOp.append_dead_letter blob) ops c o = refl
expiry_after-cons (PersistOp.append_event blob retention) ops c o = refl
expiry_after-cons PersistOp.flush ops c o = refl

abbrev pub IsUnrelated : PersistOp → Type 0
IsUnrelated op = (c : Bytes) (o : Option ℕ) → expiry_after (op ∷ []) c o ≡ o

module _ (db : Database) where
  abbrev pub row_of : Store db → Bytes → Option ℕ
  row_of st c = get c (db.numbers.rows st.sessions)

  row_of-written :
      (st : Store db) (op : PersistOp) (c : Bytes)
      → row_of (written db st op) c ≡ expiry_after (op ∷ []) c (row_of st c)
  unfolding written put_session remove_session put_subscription remove_subscription put_inflight
      append_dead_letter append_event put_retained
  row_of-written st (PersistOp.put_session d e) c =
      ap (get c) (db.numbers.rows-insert d e st.sessions)
      ∙ get-with_row bytes_le d c e (db.numbers.rows st.sessions)
  row_of-written st (PersistOp.remove_session d) c =
      ap (get c) (db.numbers.rows-remove d st.sessions)
      ∙ get-remove d c (db.numbers.rows st.sessions)
  row_of-written st (PersistOp.put_subscription d raw q) c = refl
  row_of-written st (PersistOp.remove_subscription d raw) c = refl
  row_of-written st (PersistOp.put_inflight d blob) c = refl
  row_of-written st (PersistOp.put_retained topic payload q) c = refl
  row_of-written st (PersistOp.append_dead_letter blob) c = refl
  row_of-written st (PersistOp.append_event blob retention) c = refl
  row_of-written st PersistOp.flush c = refl

  pub row_of-drained :
      (st : Store db) (ops : List PersistOp) (c : Bytes)
      → row_of (drained db st ops) c ≡ expiry_after ops c (row_of st c)
  unfolding run_worker apply_persist_op
  row_of-drained st [] c = refl
  row_of-drained st (op ∷ ops) c =
      row_of-drained (written db st op) ops c
      ∙ ap (expiry_after ops c) (row_of-written st op c)
      ∙ sym (expiry_after-cons op ops c (row_of st c))

  -- The hub has a storage, and once its queue is written the disk holds the expiry interval of every
  -- session that has one.
  abbrev pub Keeps : Store db → Hub → Type 0
  Keeps st h =
      (h.is_durable ≡ true)
      × ((c : Bytes)
          → row_of (drained db st h.queue) c ≡ kept_in h.sessions.id_of h.sessions.by_id c)

  -- What the queued writes make of the rows is what the change makes of the sessions.
  pub move-Keeps :
      (st : Store db) (h h' : Hub) (ops : List PersistOp)
      → Keeps st h
      → h'.is_durable ≡ h.is_durable
      → h'.queue ≡ h.queue ++ ops
      → ((c : Bytes)
          → kept_in h'.sessions.id_of h'.sessions.by_id c
            ≡ expiry_after ops c (kept_in h.sessions.id_of h.sessions.by_id c))
      → Keeps st h'
  move-Keeps st h h' ops (d, k) same q e = (
    same ∙ d,
    λ c.
        ap (λ r. row_of (drained db st r) c) q
        ∙ ap (λ s. row_of s c) (drained-append db st h.queue ops)
        ∙ row_of-drained (drained db st h.queue) ops c
        ∙ ap (expiry_after ops c) (k c)
        ∙ sym (e c),
  )

-- The expiry intervals in two tables are the same.
abbrev pub SameExpiries : Map ClientId Session → Map ClientId Session → Type 0
SameExpiries t t' = (i : ClientId) → expiry_in i t' ≡ expiry_in i t

pub insert-SameExpiries :
    (id : ClientId) (s s' : Session) (t : Map ClientId Session)
    → get id t ≡ some s
    → s'.expiry_secs ≡ s.expiry_secs
    → SameExpiries t (insert id s' t)
insert-SameExpiries id s s' t g e i = elim (Bool-cases (id == i)) [
  | inl p ↦
      let there : get i t ≡ some s = ground (arith, g, (==_iff id i).0 p) in
      let now : get i (insert id s' t) ≡ some s' = ground (arith, get-insert id i s' t) in
      ap session_expiry now ∙ ap durable_expiry e ∙ sym (ap session_expiry there)
  | inr p ↦
      let now : get i (insert id s' t) ≡ get i t = ground (arith, get-insert id i s' t) in
      ap session_expiry now
]

-- A step of the hub that leaves the expiry intervals, in memory and in what it queues, as they are.
pub record Frame (h h' : Hub) : Type 0 where
  pub ops : List PersistOp
  pub durable : h'.is_durable ≡ h.is_durable
  pub queued : h.is_durable ≡ true → h'.queue ≡ h.queue ++ ops
  pub unrelated : All IsUnrelated ops
  pub index : h'.sessions.id_of ≡ h.sessions.id_of
  pub expiries : SameExpiries h.sessions.by_id h'.sessions.by_id

unrelated_lem :
    (ops : List PersistOp) (c : Bytes) (o : Option ℕ)
    → All IsUnrelated ops
    → expiry_after ops c o ≡ o
unrelated_lem [] c o a = refl
unrelated_lem (op ∷ ops) c o a =
    expiry_after-cons op ops c o ∙ ap (expiry_after ops c) (a.0 c o) ∙ unrelated_lem ops c o a.1

pub Frame-Keeps :
    (db : Database) (st : Store db) (h h' : Hub) → Frame h h' → Keeps db st h → Keeps db st h'
Frame-Keeps db st h h' f k = move-Keeps db st h h' f.ops k f.durable (f.queued k.0) (λ c.
    ap (λ m. kept_in m h'.sessions.by_id c) f.index
    ∙ same_kept c (get c h.sessions.id_of)
    ∙ sym (unrelated_lem f.ops c _ f.unrelated))
  where
    same_kept :
        (c : Bytes) (o : Option ClientId)
        → elim o [ none ↦ none | some i ↦ expiry_in i h'.sessions.by_id ]
          ≡ elim o [ none ↦ none | some i ↦ expiry_in i h.sessions.by_id ]
    same_kept c none = refl
    same_kept c (some i) = f.expiries i

pub All-both :
    (xs ys : List PersistOp) → All IsUnrelated xs → All IsUnrelated ys → All IsUnrelated (xs ++ ys)
All-both [] ys a b = b
All-both (x ∷ xs) ys a b = (a.0, All-both xs ys a.1 b)

pub refl-Frame : (h : Hub) → Frame h h
refl-Frame h = record {
  ops = [];
  durable = refl;
  queued = λ d. sym (append-nil h.queue);
  unrelated = tt;
  index = refl;
  expiries = λ i. refl;
}

pub trans-Frame : (h k l : Hub) → Frame h k → Frame k l → Frame h l
trans-Frame h k l f g = record {
  ops = f.ops ++ g.ops;
  durable = g.durable ∙ f.durable;
  queued = λ d.
      g.queued (f.durable ∙ d)
      ∙ ap (λ q. q ++ g.ops) (f.queued d)
      ∙ append_assoc h.queue f.ops g.ops;
  unrelated = All-both f.ops g.ops f.unrelated g.unrelated;
  index = g.index ∙ f.index;
  expiries = λ i. g.expiries i ∙ f.expiries i;
}

-- The table changes, and writes of other things are queued.
pub table-Frame :
    (h h' : Hub) (ops : List PersistOp)
    → h'.is_durable ≡ h.is_durable
    → h'.queue ≡ (if h.is_durable then h.queue ++ ops else h.queue)
    → All IsUnrelated ops
    → h'.sessions.id_of ≡ h.sessions.id_of
    → SameExpiries h.sessions.by_id h'.sessions.by_id
    → Frame h h'
table-Frame h h' ops d q a i e = record {
  ops = ops;
  durable = d;
  queued = λ durable. q ∙ rw durable refl;
  unrelated = a;
  index = i;
  expiries = e;
}
