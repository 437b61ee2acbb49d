-- ===== src/Handler/DirectDml.antt =====
-- The direct UPDATE and DELETE of src/ha_stoolap.cc: pre_direct_update_rows, direct_update_rows and
-- their DELETE twins. What try_direct_modify answers is an argument; `runs` counts its calls.
use stoolap_mariadb.Common.{
  ℕ, suc, ◌-◌, ◌^◌, ◌≡◌, refl, Bool, true, false, Option, ltb, if◌then◌else◌,
}
use stoolap_mariadb.Common.Int.{pos, neg}
use stoolap_mariadb.Handler.Schema.{Rc}
use stoolap_mariadb.Handler.Counts.{Handler, invalidate_records_cache, adjust_records_cache}
use stoolap_mariadb.Handler.Writes.{is_dup}

-- The rows affected and found, or a code with the duplicate key.
pub data Modified : Type 0 where
  modified : ℕ → ℕ → Modified
  failed : Rc → Option ℕ → Modified

pub record Direct : Type 0 where
  pub counts : Handler
  pub last_dup_key : Option ℕ
  pub errkey : Option ℕ
  pub in_pre : Bool
  pub affected_pre : ℕ
  pub found_pre : ℕ
  pub runs : ℕ

-- What a call gives: a code, and the rows affected and found where it is 0.
pub data Rows : Type 0 where
  rows : ℕ → ℕ → Rows
  error : Rc → Rows

ran : Direct → Direct
ran d = record d { runs = suc d.runs }

dup : Direct → Rc → Option ℕ → Direct
dup d rc key = if is_dup rc then record d { last_dup_key = key; errkey = key } else d

-- INT64_MAX
abbrev pub int64_max : ℕ
int64_max = 2 ^ 63 - 1

rows_deleted : Direct → ℕ → Direct
rows_deleted d affected = record d {
  counts =
      if ltb int64_max affected
      then invalidate_records_cache d.counts
      else adjust_records_cache d.counts (neg (pos affected));
}

-- try_direct_modify, and the duplicate key where it fails by one
run_update : Direct → Modified → Direct × Rows
unfolding ran dup
run_update d (modified affected found) = (ran d, rows affected found)
run_update d (failed rc key) = (dup (ran d) rc key, error rc)

stash : Direct × Rows → Direct × Rows
stash (d, rows affected found) =
    (record d { in_pre = true; affected_pre = affected; found_pre = found }, rows affected found)
stash (d, error rc) = (d, error rc)

unfoldable pub pre_direct_update_rows : Direct → Modified → Direct × Rows
unfolding stash run_update
pre_direct_update_rows d answer = stash (run_update d answer)

unfoldable pub direct_update_rows : Direct → Modified → Direct × Rows
unfolding run_update
direct_update_rows d answer =
    if d.in_pre
    then (record d { in_pre = false }, rows d.affected_pre d.found_pre)
    else run_update d answer

run_delete : Direct → Modified → Direct × Rows
unfolding ran dup rows_deleted
run_delete d (modified affected found) = (rows_deleted (ran d) affected, rows affected 0)
run_delete d (failed rc key) = (dup (ran d) rc key, error rc)

-- The rows found are an UPDATE's only: they stay as they were.
stash_affected : Direct × Rows → Direct × Rows
stash_affected (d, rows affected found) =
    (record d { in_pre = true; affected_pre = affected }, rows affected found)
stash_affected (d, error rc) = (d, error rc)

unfoldable pub pre_direct_delete_rows : Direct → Modified → Direct × Rows
unfolding stash_affected run_delete
pre_direct_delete_rows d answer = stash_affected (run_delete d answer)

unfoldable pub direct_delete_rows : Direct → Modified → Direct × Rows
unfolding run_delete
direct_delete_rows d answer =
    if d.in_pre then (record d { in_pre = false }, rows d.affected_pre 0) else run_delete d answer

-- An UPDATE that the pre-call ran is not run again by the call after it, which gives the rows that
-- the pre-call affected and found, whatever a second run would give.
pub direct_update_rows-pre_direct_update_rows :
    (d : Direct) (affected found : ℕ) (later : Modified)
    → let d1 = (pre_direct_update_rows d (modified affected found)).0 in
      let (d2, r) = direct_update_rows d1 later in
      (r ≡ rows affected found) × (d2.runs ≡ suc d.runs) × (d2.in_pre ≡ false)
unfolding pre_direct_update_rows direct_update_rows
direct_update_rows-pre_direct_update_rows d affected found later = (refl, refl, refl)

-- A DELETE that the pre-call ran is not run again by the call after it: the table's count has moved
-- by the rows affected once, or is forgotten where they are no int64_t.
pub direct_delete_rows-pre_direct_delete_rows :
    (d : Direct) (affected found : ℕ) (later : Modified)
    → let d1 = (pre_direct_delete_rows d (modified affected found)).0 in
      let (d2, r) = direct_delete_rows d1 later in
      (r ≡ rows affected 0)
      × (d2.runs ≡ suc d.runs)
      × (d2.in_pre ≡ false)
      × (d2.counts ≡ (
          if ltb int64_max affected
          then invalidate_records_cache d.counts
          else adjust_records_cache d.counts (neg (pos affected))))
unfolding pre_direct_delete_rows direct_delete_rows
direct_delete_rows-pre_direct_delete_rows d affected found later = (refl, refl, refl, refl)
