-- ===== src/Handler/Counts/Layers.antt =====
-- The three layers of row counts agree: the handler's, the transaction's and the Engine's.
use stoolap_mariadb.Common.{
  ℕ, ◌≤◌, ◌≡◌, arith, refl, Bool, true, false, [], Option, none, some, Bytes, is_empty, find,
  bytes_eq_refl, find-erase_self, find-put_self, ◌∙◌,
}
use stoolap_mariadb.Common.Int.{ℤ, pos, negsuc}
use stoolap_mariadb.Bridge
use stoolap_mariadb.Bridge.{Engine, uint64_max}
use stoolap_mariadb.ThdContext.{
  State, Begun, has_tx, records_lookup, records_set, records_adjust, records_invalidate_local,
  note_records_dirty, begin, db,
}
use stoolap_mariadb.ThdContext.Counts.{moved, records_lookup-records_adjust}
use stoolap_mariadb.Handler.Errors.{ErrorClass}
use stoolap_mariadb.Handler.Session.{get_thd_ctx, with_ctx, register_trx}
use stoolap_mariadb.Handler.Counts.{
  Handler, invalidate_records_cache, adjust_records_cache, set_count_exact, cached_records, in_tx,
  truncate, keep_count, adjust_own,
}

-- Asking for a table's count never publishes one: the Engine's counts are as before.
pub cached_records-engine :
    (h : Handler) (clone : Option ℕ) (answer : Begun) (packet : Option Bytes)
    → (cached_records h clone answer packet).0.thd.engine ≡ h.thd.engine
unfolding cached_records register_trx get_thd_ctx with_ctx keep_count begin db records_set
cached_records-engine h clone answer packet = ground arith

abbrev pub is_some : Option ℕ → Bool
is_some none = false
is_some (some n) = true

dirty-record_counts :
    (s : State) (table : Bytes) → (note_records_dirty s table).record_counts ≡ s.record_counts
unfolding note_records_dirty
dirty-record_counts s table = ground arith

local_moved :
    (s : State) (table : Bytes) (count : ℕ) (delta : ℤ)
    → count ≤ uint64_max
    → records_lookup s table ≡ some count
    → records_lookup (records_adjust (note_records_dirty s table) table delta) table
      ≡ moved count delta
unfolding records_lookup
local_moved s table count delta le e =
    let dirty = note_records_dirty s table in
    let at : find table dirty.record_counts ≡ some count = rw (dirty-record_counts s table) e in
    let only : (n : ℕ) → find table dirty.record_counts ≡ some n → n ≤ uint64_max =
      λ n en. ground arith in
    records_lookup-records_adjust dirty table table delta only ∙ rw (bytes_eq_refl table, at) refl

own_moved :
    (h : Handler) (s : State) (delta : ℤ)
    → is_empty h.table ≡ false
    → h.cached_records_valid ≡ true
    → h.cached_records ≤ uint64_max
    → records_lookup s h.table ≡ moved h.cached_records delta
    → let h' = adjust_own h s delta in
      (records_lookup (get_thd_ctx h'.thd) h.table ≡ moved h.cached_records delta)
      × (h'.cached_records_valid ≡ is_some (moved h.cached_records delta))
      × (h'.cached_records_valid ≡ true
          → (moved h.cached_records delta ≡ some h'.cached_records)
            × (h'.stats_records ≡ h'.cached_records))
unfolding adjust_own get_thd_ctx with_ctx records_invalidate_local records_lookup
own_moved h s (negsuc n) ne v le e = ground (arith, find-erase_self h.table s.record_counts)
own_moved h s (pos n) ne v le e = ground (arith, find-erase_self h.table s.record_counts)

-- In a transaction whose count of the table is the handler's, a write's delta moves both alike: to
-- the same count, which the statistics get too, or both to none where the sum is no uint64_t.
pub adjust_records_cache-agrees :
    (h : Handler) (delta : ℤ)
    → in_tx h ≡ true
    → is_empty h.table ≡ false
    → h.cached_records_valid ≡ true
    → h.cached_records ≤ uint64_max
    → records_lookup (get_thd_ctx h.thd) h.table ≡ some h.cached_records
    → let h' = adjust_records_cache h delta in
      (records_lookup (get_thd_ctx h'.thd) h.table ≡ moved h.cached_records delta)
      × (h'.cached_records_valid ≡ is_some (moved h.cached_records delta))
      × (h'.cached_records_valid ≡ true
          → (moved h.cached_records delta ≡ some h'.cached_records)
            × (h'.stats_records ≡ h'.cached_records))
unfolding adjust_records_cache
adjust_records_cache-agrees h delta t ne v le e =
    let s = records_adjust (note_records_dirty (get_thd_ctx h.thd) h.table) h.table delta in
    let own : adjust_records_cache h delta ≡ adjust_own h s delta = ground arith in
    rw own (
      own_moved h s delta ne v le
        (local_moved (get_thd_ctx h.thd) h.table h.cached_records delta le e))

pub adjust_records_cache-tx :
    (h : Handler) (delta : ℤ)
    → has_tx (get_thd_ctx (adjust_records_cache h delta).thd) ≡ has_tx (get_thd_ctx h.thd)
unfolding adjust_records_cache adjust_own get_thd_ctx with_ctx note_records_dirty records_adjust
    records_invalidate_local
adjust_records_cache-tx h (pos n) = ground arith
adjust_records_cache-tx h (negsuc n) = ground arith

pub invalidate_records_cache-tx :
    (h : Handler)
    → has_tx (get_thd_ctx (invalidate_records_cache h).thd) ≡ has_tx (get_thd_ctx h.thd)
unfolding invalidate_records_cache get_thd_ctx with_ctx note_records_dirty records_invalidate_local
invalidate_records_cache-tx h = ground arith

-- A TRUNCATE that stoolap runs makes the table's count 0 for every connection, the handler's too, and
-- leaves no AUTO_INCREMENT cursor; one that fails changes nothing.
pub truncate_lem :
    (error_class : Bytes → ErrorClass × Option ℕ) (h : Handler) (message : Bytes)
    → is_empty h.table ≡ false
    → let h' = (truncate error_class h none).0 in
      (Bridge.records_lookup h'.thd.engine h.table ≡ some 0)
      × (h'.cached_records_valid ≡ true)
      × (h'.cached_records ≡ 0)
      × (h'.stats_records ≡ 0)
      × (h'.thd.engine.ai_next ≡ [])
      × ((truncate error_class h (some message)).0 ≡ h)
unfolding truncate set_count_exact Bridge.ai_invalidate Bridge.records_lookup Bridge.records_set
truncate_lem error_class h message ne = ground (arith, find-put_self h.table 0 h.thd.engine.records)
