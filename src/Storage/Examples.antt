-- ===== src/Storage/Examples.antt =====
-- An event that is appended to a full log.
use ch_relay.Prelude.{
  ℕ, suc, ◌+◌, ◌-◌, ◌≤◌, ◌≡◌, refl, [], ◌∷◌, ◌++◌, keep, length, drop, leb, arith,
}
use ch_relay.Bytes.{Bytes, codes}
use ch_relay.Storage.Store.{append_event, load_events}
use ch_relay.Storage.EventLog.{append_event_lem}
use ch_relay.Storage.Listed.{listed, two_events}

append_event_lem_example :
    let rows = listed.logs.rows two_events.events in
    let appended = rows ++ (4 + length rows, codes "c") ∷ [] in
    let (st', offset) = append_event listed two_events (codes "c") 2 in
    (offset ≡ 4 + length rows)
    × (length (listed.logs.rows st'.events) ≤ 2)
    × (load_events listed st' 6
        ≡ keep (λ (row : ℕ × Bytes). leb 6 row.0) (drop (suc (length rows) - 2) appended))
append_event_lem_example =
    append_event_lem listed two_events (codes "c") 2 4 6
      (record {
        consecutive = (refl, (refl, tt));
        from_zero = λ e. omega (arith, e);
        has_room = omega arith;
      })
      (omega arith)
