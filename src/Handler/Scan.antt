-- ===== src/Handler/Scan.antt =====
-- The reads of src/ha_stoolap.cc, from the handler's cursor: rnd_next, index_next, read_range_next and
-- what they filter, position and rnd_pos. What stoolap_cursor_next will answer is the list `pending`;
-- MariaDB's key_cmp and compare_key are arguments.
pub mod Rows
pub mod Calls
use stoolap_mariadb.Common.{
  ℕ, zero, suc, ◌+◌, ◌-◌, ◌≤◌, ◌<◌, ◌≡◌, ◌≢◌, arith, refl, Bool, true, false, not, ◌&&◌, ◌||◌, List,
  [], ◌∷◌, Option, none, some, Bytes, ltb, leb, ◌==◌, if◌then◌else◌, length,
}
use stoolap_mariadb.Common.Int.{ℤ, pos_part, is_negative}
use stoolap_mariadb.Handler.Schema.{
  Rc, ok, end_of_file, key_not_found, record_deleted, unsupported, generic, internal_error,
  out_of_mem, is_ok,
}
use stoolap_mariadb.Handler.Errors.{ErrorClass, report_stoolap_error}

-- STOOLAP_ROW with the row, its id and whether it is the last; STOOLAP_DONE; or a failure, with the
-- store callback's code, if any, and the cursor's message.
pub data Answer (Row : Type 0) : Type 0 where
  row : Row → ℤ → Bool → Answer Row
  finished : Answer Row
  failure : Option Rc → Bytes → Answer Row

-- A row, or the code of the read's end.
pub data Fetched (Row : Type 0) : Type 0 where
  fetched : Row → Fetched Row
  stopped : Rc → Fetched Row

abbrev pub is_equal : ℤ → Bool
is_equal c = not (is_negative c) && not (ltb 0 (pos_part c))

-- ha_rkey_function
pub data FindFlag : Type 0 where
  key_exact key_or_next key_or_prev after_key before_key prefix : FindFlag
  prefix_last prefix_last_or_prev mbr : FindFlag

-- range_start_flag_ with the start key's bytes, where there is one, and end_range.
pub record RangeFilter : Type 0 where
  pub start : Option (FindFlag × Bytes)
  pub end : Option Bytes

-- The read state of a handler; `buffered_rows` is g_stats.buffered_rows. A cursor that gives no more
-- answers is done.
pub record Scan (Row : Type 0) : Type 0 where
  pub reading : Bool
  pub pending : List (Answer Row)
  pub read_rows : ℕ
  pub buffered_rows : ℕ
  pub cur_row_id : ℤ
  pub cur_row_id_valid : Bool
  pub key_filter : Option Bytes
  pub range_filter : Option RangeFilter

module _ {Row : Type 0} where
  -- One more than the answers that are left.
  abbrev pub enough : Scan Row → ℕ
  enough s = suc (length s.pending)

  unfoldable pub end_read : Scan Row → Scan Row
  end_read s = record s {
    reading = false;
    pending = if s.reading then [] else s.pending;
    buffered_rows = s.buffered_rows + s.read_rows;
    read_rows = 0;
  }

  unfoldable pub reset_scan_state : Scan Row → Scan Row
  unfolding end_read
  reset_scan_state s = record (end_read s) { key_filter = none; range_filter = none }

failure_rc : (Bytes → ErrorClass × Option ℕ) → Option Rc → Bytes → Rc
failure_rc error_class (some err) message = err
failure_rc error_class none message = (report_stoolap_error error_class message).rc

module _ {Row : Type 0} (error_class : Bytes → ErrorClass × Option ℕ) where
  take_answer : Scan Row → List (Answer Row) → Scan Row × Fetched Row
  unfolding failure_rc
  take_answer s [] = (record s { reading = false }, stopped end_of_file)
  take_answer s (row r id last ∷ later) = (
    record s {
      pending = later;
      cur_row_id = id;
      cur_row_id_valid = true;
      read_rows = s.read_rows + 1;
      reading = not last;
    },
    fetched r,
  )
  take_answer s (finished ∷ later) =
      (record s { pending = later; reading = false }, stopped end_of_file)
  take_answer s (failure err message ∷ later) =
      (record s { pending = later; reading = false }, stopped (failure_rc error_class err message))

  unfoldable pub rnd_next : Scan Row → Scan Row × Fetched Row
  unfolding take_answer
  rnd_next s = if s.reading then take_answer s s.pending else (s, stopped end_of_file)

  -- `while (true)` over rnd_next until a row that `keep` takes; none: `fuel` ran out.
  pub next_kept : (Row → Bool) → ℕ → Scan Row → Option (Scan Row × Fetched Row)
  next_kept keep zero s = none
  next_kept keep (suc fuel) s =
      let (s', r) = rnd_next s in
      let later = next_kept keep fuel s' in
      elim r [
        | stopped rc ↦ some (s', stopped rc)
        | fetched x ↦ if keep x then some (s', fetched x) else later
      ]

  -- key_cmp and compare_key: the sign of the row's key against the bytes
  module _ (key_cmp compare_key : Bytes → Row → ℤ) where
    start_holds : Option (FindFlag × Bytes) → Row → Bool
    start_holds none r = true
    start_holds (some (after_key, key)) r = ltb 0 (pos_part (key_cmp key r))
    start_holds (some (key_exact, key)) r = is_equal (key_cmp key r)
    start_holds (some (prefix, key)) r = is_equal (key_cmp key r)
    start_holds (some (_, key)) r = not (is_negative (key_cmp key r))

    end_holds : Option Bytes → Row → Bool
    end_holds none r = true
    end_holds (some key) r = not (ltb 0 (pos_part (compare_key key r)))

    unfoldable pub range_in_bounds : RangeFilter → Row → Bool
    unfolding start_holds end_holds
    range_in_bounds f r = if start_holds f.start r then end_holds f.end r else false

    unfoldable pub index_next : Scan Row → Option (Scan Row × Fetched Row)
    unfolding next_kept
    index_next s = elim s.key_filter [
      | none ↦ some (rnd_next s)
      | some key ↦ next_kept (λ r. is_equal (key_cmp key r)) (enough s) s
    ]

    unfoldable pub read_range_next : Scan Row → Option (Scan Row × Fetched Row)
    unfolding next_kept
    read_range_next s = elim s.range_filter [
      | some f ↦ next_kept (range_in_bounds f) (enough s) s
      | none ↦ index_next s
    ]
