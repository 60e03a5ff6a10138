-- ===== src/Storage/Listed.antt =====
-- A database of lists of rows: what crates/relay-server/src/storage.rs relies on can be met.
use ch_relay.Prelude.{refl, Bool, [], ◌∷◌, keep, length, leb, nat_eq, Eq}
use ch_relay.Prelude.Map.{Map, HasUniqueKeys, remove, remove-HasUniqueKeys}
use ch_relay.Bytes.{codes, bytes_le, bytes_eq}
use ch_relay.Storage.Tables.{TableOf, Database, with_row, first_row, last_row}
use ch_relay.Storage.Rows.{with_row-HasUniqueKeys}
use ch_relay.Storage.Store.{Store}

abbrev pub row_lists : {K V : Type 0} ⦃e : Eq K⦄ (le : K → K → Bool) → TableOf K V le
row_lists {K} {V} ⦃e⦄ le = record {
  Table = (rows : Map K V) × HasUniqueKeys rows;
  insert = λ k v t. (with_row le k v t.0, with_row-HasUniqueKeys le k v t.0 t.1);
  remove = λ k t. (remove k t.0, remove-HasUniqueKeys k t.0 t.1);
  rows = λ t. t.0;
  from_key = λ k t. keep (λ (row : K × V). le k row.0) t.0;
  len = λ t. length t.0;
  first = λ t. first_row t.0;
  last = λ t. last_row t.0;
  rows-insert = λ k v t. refl;
  rows-remove = λ k t. refl;
  from_key_lem = λ k t. refl;
  len_lem = λ t. refl;
  first_lem = λ t. refl;
  last_lem = λ t. refl;
  distinct = λ t. t.1;
}

abbrev pub listed : Database
listed = record { texts = row_lists bytes_le; numbers = row_lists bytes_le; logs = row_lists leb }

abbrev pub two_events : Store listed
two_events = record {
  retained = ([], tt);
  sessions = ([], tt);
  subscriptions = ([], tt);
  inflight = ([], tt);
  dead_letters = ([], tt);
  events = ((4, codes "a") ∷ (5, codes "b") ∷ [], ((refl, tt), (tt, tt)));
}
