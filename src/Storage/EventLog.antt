-- ===== src/Storage/EventLog.antt =====
-- The event log of crates/relay-server/src/storage.rs: offsets that count up, and a bounded number of
-- rows.
use ch_relay.Prelude.{
  ℕ, zero, suc, ◌+◌, ◌-◌, ◌≤◌, ◌<◌, ◌≡◌, ◌⊎◌, refl, ap, ◌∙◌, subst, Bool, true, false, [], ◌∷◌,
  ◌++◌, some, arith, ltb, leb, ==_iff, keep, length, length-append, drop, Bool-cases, inl, inr,
  nat_eq,
}
use ch_relay.Prelude.Map.{Map, remove}
use ch_relay.Prelude.Sort.{place}
use ch_relay.Bytes.{Bytes}
use ch_relay.Storage.Tables.{Database, first_row, last_row}
use ch_relay.Storage.Store.{Store, key_mod, next_key, prune, append_event, load_events}

-- The offsets are consecutive.
abbrev pub IsRun : ℕ → Map ℕ Bytes → Type 0
IsRun n [] = Unit
IsRun n ((k, blob) ∷ rows) = (k ≡ n) × IsRun (suc n) rows

-- The log begins at this offset, which is 0 while it is empty, and has room for another one.
pub record IsLog (start : ℕ) (rows : Map ℕ Bytes) : Type 0 where
  pub consecutive : IsRun start rows
  pub from_zero : length rows ≡ 0 → start ≡ 0
  pub has_room : suc (start + length rows) < key_mod

last_row_lem :
    (n : ℕ) (row : ℕ × Bytes) (rows : Map ℕ Bytes)
    → IsRun n (row ∷ rows)
    → n + length rows + 1 < key_mod
    → next_key (last_row (row ∷ rows)) ≡ n + length rows + 1
unfolding last_row
last_row_lem n (k, blob) [] r b = rw r.0 (omega (arith, b))
last_row_lem n row (next ∷ rows) r b =
    last_row_lem (suc n) next rows r.1 (omega (arith, b)) ∙ omega arith

next_key_lem :
    (start : ℕ) (rows : Map ℕ Bytes)
    → IsLog start rows
    → next_key (last_row rows) ≡ start + length rows
next_key_lem start [] v = unfold last_row in omega (arith, v.from_zero refl)
next_key_lem start (row ∷ rows) v =
    last_row_lem start row rows v.consecutive (omega (arith, v.has_room)) ∙ omega arith

-- Keys outside of a run are not in it.
remove-absent :
    (k n : ℕ) (rows : Map ℕ Bytes)
    → IsRun n rows
    → (k < n) ⊎ (n + length rows ≤ k)
    → remove k rows ≡ rows
remove-absent k n [] r h = refl
remove-absent k n ((j, blob) ∷ rows) r (inl h) =
    let rest = remove-absent k (suc n) rows r.1 (inl (omega (arith, h))) in
    ground (arith, rest, h, r.0, ==_iff j k)
remove-absent k n ((j, blob) ∷ rows) r (inr h) =
    let rest = remove-absent k (suc n) rows r.1 (inr (omega (arith, h))) in
    ground (arith, rest, h, r.0, ==_iff j k)

abbrev by_key : ℕ × Bytes → ℕ × Bytes → Bool
by_key a b = leb a.0 b.0

place-last :
    (k n : ℕ) (blob : Bytes) (rows : Map ℕ Bytes)
    → IsRun n rows
    → n + length rows ≤ k
    → place by_key (k, blob) rows ≡ rows ++ (k, blob) ∷ []
unfolding place
place-last k n blob [] r h = refl
place-last k n blob ((j, b) ∷ rows) r h =
    let rest = place-last k (suc n) blob rows r.1 (omega (arith, h)) in ground (arith, rest, h, r.0)

IsRun-append :
    (n : ℕ) (rows : Map ℕ Bytes) (blob : Bytes)
    → IsRun n rows
    → IsRun n (rows ++ (n + length rows, blob) ∷ [])
IsRun-append n [] blob r = (omega arith, tt)
IsRun-append n ((k, b) ∷ rows) blob r = (
  r.0,
  subst (λ j. IsRun (suc n) (rows ++ (j, blob) ∷ [])) (omega arith)
      (IsRun-append (suc n) rows blob r.1),
)

module _ (db : Database) where
  prune_lem :
      (fuel retention n : ℕ) (t : db.logs.Table) (rows : Map ℕ Bytes)
      → db.logs.rows t ≡ rows
      → IsRun n rows
      → length rows ≤ fuel + retention
      → db.logs.rows (prune db fuel retention t) ≡ drop (length rows - retention) rows
  unfolding prune
  prune_lem zero retention n t rows e r h =
      let none_over : length rows - retention ≡ 0 = omega (arith, h) in rw none_over e
  prune_lem (suc fuel) retention n t [] e r h =
      let size : db.logs.len t ≡ 0 = db.logs.len_lem t ∙ ap length e in
      let f : ltb retention (db.logs.len t) ≡ false = ground (arith, size) in
      let none_over : 0 - retention ≡ 0 = omega arith in rw (f, prune, none_over) e
  prune_lem (suc fuel) retention n t ((k, b) ∷ rows) e r h =
      let size : db.logs.len t ≡ suc (length rows) = db.logs.len_lem t ∙ ap length e in
      elim (Bool-cases (ltb retention (db.logs.len t))) [
        | inr f ↦
            let none_over : suc (length rows) - retention ≡ 0 = ground (arith, f, size) in
            rw (f, prune, none_over) e
        | inl f ↦
            let over : suc (length rows) - retention ≡ suc (length rows - retention) =
              ground (arith, f, size) in
            let oldest : db.logs.first t ≡ some (k, b) = db.logs.first_lem t ∙ ap first_row e in
            let gone : remove k rows ≡ rows =
              remove-absent k (suc n) rows r.1 (inl (omega (arith, r.0))) in
            let rest : db.logs.rows (db.logs.remove k t) ≡ rows =
              db.logs.rows-remove k t ∙ ap (remove k) e ∙ ground (arith, gone, ==_iff k k) in
            rw (f, prune, oldest, over)
              (prune_lem fuel retention (suc n) (db.logs.remove k t) rows rest r.1
                (omega (arith, h)))
      ]

  length-drop : (k : ℕ) (rows : Map ℕ Bytes) → length (drop k rows) ≡ length rows - k
  length-drop zero rows = omega arith
  length-drop (suc k) [] = omega arith
  length-drop (suc k) (row ∷ rows) = omega (arith, length-drop k rows)

  -- An event that is appended to a log with room for it gets the offset after the newest, also where
  -- older ones have been pruned. With a bound on its rows the log then holds the newest ones, at most
  -- that many, and a replay from an offset reads those that are not before it.
  pub append_event_lem :
      (st : Store db) (blob : Bytes) (retention start from : ℕ)
      → IsLog start (db.logs.rows st.events)
      → 0 < retention
      → let rows = db.logs.rows st.events in
        let appended = rows ++ (start + length rows, blob) ∷ [] in
        let (st', offset) = append_event db st blob retention in
        (offset ≡ start + length rows)
        × (length (db.logs.rows st'.events) ≤ retention)
        × (load_events db st' from
            ≡ keep
                (λ (row : ℕ × Bytes). leb from row.0)
                (drop (suc (length rows) - retention) appended))
  unfolding append_event load_events
  append_event_lem st blob retention start from v b =
      let rows = db.logs.rows st.events in
      let offset = next_key (db.logs.last st.events) in
      let t = db.logs.insert offset blob st.events in
      let same : offset ≡ start + length rows =
        ap next_key (db.logs.last_lem st.events) ∙ next_key_lem start rows v in
      let absent : remove offset rows ≡ rows =
        remove-absent offset start rows v.consecutive (inr (omega (arith, same))) in
      let inserted : db.logs.rows t ≡ rows ++ (start + length rows, blob) ∷ [] =
        db.logs.rows-insert offset blob st.events
        ∙ ap (place by_key (offset, blob)) absent
        ∙ place-last offset start blob rows v.consecutive (omega (arith, same))
        ∙ ap (λ k. rows ++ (k, blob) ∷ []) same in
      let longer : length (rows ++ (start + length rows, blob) ∷ []) ≡ suc (length rows) =
        omega (arith, length-append {0} rows ((start + length rows, blob) ∷ [])) in
      let size : db.logs.len t ≡ suc (length rows) =
        db.logs.len_lem t ∙ ap length inserted ∙ longer in
      let bounded : ltb 0 retention ≡ true = ground (arith, b) in
      let pruned : db.logs.rows (prune db (db.logs.len t) retention t)
          ≡ drop (suc (length rows) - retention) (rows ++ (start + length rows, blob) ∷ []) =
        prune_lem (db.logs.len t) retention start t (rows ++ (start + length rows, blob) ∷ [])
          inserted (IsRun-append start rows blob v.consecutive) (omega (arith, size, longer))
        ∙ ap (λ k. drop (k - retention) (rows ++ (start + length rows, blob) ∷ [])) longer in
      (
        same,
        rw (bounded, pruned)
            (omega (
              arith,
              longer,
              length-drop (suc (length rows) - retention)
                  (rows ++ (start + length rows, blob) ∷ []),
            )),
        rw bounded (
            db.logs.from_key_lem from (prune db (db.logs.len t) retention t)
            ∙ ap (keep (λ (row : ℕ × Bytes). leb from row.0)) pruned),
      )
