-- ===== src/Handler/Writes.antt =====
-- The writes of src/ha_stoolap.cc: write_row and its bulk buffer, update_row and delete_row. The rows
-- wait in Rust; what the FFI answers is an argument.
pub mod DupKey
pub mod Bulk
use stoolap_mariadb.Common.{
  ℕ, zero, suc, ◌+◌, ◌≡◌, Bool, true, false, not, ◌&&◌, ◌||◌, List, [], ◌∷◌, Option, none, some,
  Bytes, is_empty, ltb, ◌==◌, if◌then◌else◌,
}
use stoolap_mariadb.Common.Int.{ℤ, pos, neg, pos_part}
use stoolap_mariadb.ThdContext.{State, Begun, has_tx, db, begin, rollback, stoolap_ok}
use stoolap_mariadb.Handler.Schema.{
  Share, Rc, ok, is_ok, found_dupp_key, generic, internal_error, record_deleted,
}
use stoolap_mariadb.Handler.Errors.{ErrorClass, report_stoolap_error, errkey_from_view}
use stoolap_mariadb.Handler.Session.{
  Thd, get_thd_ctx, with_ctx, trans_register_statement, isolation_read_committed,
}
use stoolap_mariadb.Handler.Counts.{Handler, invalidate_records_cache, adjust_records_cache}
use stoolap_mariadb.Handler.AutoIncrement.{note_written, with_engine}

-- The write state of a handler. A key's number is none for MAX_KEY.
pub record Writer : Type 0 where
  pub counts : Handler
  pub share : Share
  pub bulk_active : Bool
  pub bulk_rows : ℕ
  pub bulk_fk : Bool
  pub bulk_owns_tx : Bool
  pub last_dup_key : Option ℕ
  pub errkey : Option ℕ
  pub cur_row_id_valid : Bool
  pub has_row_buffer : Bool

-- kBulkFlushRows
abbrev pub bulk_flush_rows : ℕ
bulk_flush_rows = 50000

-- A write's rows, or its failure: the encode callback's code, if any, and the message.
pub data Written : Type 0 where
  wrote : ℕ → Written
  rejected : Option Rc → Bytes → Written

-- What the FFI answers to a write: a clone of the database, a transaction, the statement.
pub record Answers : Type 0 where
  pub clone : Option ℕ
  pub begun : Begun
  pub written : Written
  pub rolled_back : ℕ

with_thd : Writer → Thd → Writer
with_thd w thd = record w { counts = record (w.counts) { thd = thd } }

-- direct_write_db: the writer after it, and whether there is a handle.
direct_write_db : Writer → Option ℕ → Writer × Bool
unfolding with_thd
direct_write_db w clone =
    let thd = trans_register_statement w.counts.thd in
    let s = db (get_thd_ctx thd) clone in
    (with_thd w (with_ctx thd s), elim s.db [ none ↦ false | some _ ↦ true ])

unfoldable pub is_dup : Rc → Bool
is_dup found_dupp_key = true
is_dup _ = false

apply_count_delta : Writer → ℤ → Writer
apply_count_delta w delta = record w { counts = adjust_records_cache w.counts delta }

module _ (error_class : Bytes → ErrorClass × Option ℕ) where
  unfoldable pub write_error : Writer → Bytes → Writer × Rc
  unfolding is_dup
  write_error w message =
      let err = (report_stoolap_error error_class message).rc in
      let key = some (errkey_from_view error_class message w.share) in
      (if is_dup err then record w { last_dup_key = key; errkey = key } else w, err)

  failed_write : Writer → Option Rc → Bytes → Writer × Rc
  failed_write w (some err) message = (w, err)
  failed_write w none message = write_error w message

  flushed : Writer → Written → Writer × Rc
  unfolding apply_count_delta
  flushed w (wrote affected) = (apply_count_delta w (pos affected), ok)
  flushed w (rejected err message) =
      write_error (record w { counts = invalidate_records_cache w.counts }) message

  flush_through : Writer → Answers → Writer × Rc
  unfolding direct_write_db flushed
  flush_through w answers =
      let (w', has_db) = direct_write_db w answers.clone in
      if has_db
      then flushed (record w' { cur_row_id_valid = false }) answers.written
      else (w', internal_error)

  -- The transaction that the chunks of a statement share, where none is open.
  open_chunks : Writer → Answers → Writer × Bool
  unfolding with_thd
  open_chunks w answers =
      let s = get_thd_ctx w.counts.thd in
      if has_tx s
      then (with_thd w (with_ctx w.counts.thd s), true)
      else let (s', rc) = begin s isolation_read_committed answers.clone answers.begun in
        let w' = with_thd w (with_ctx w.counts.thd s') in
        if rc == stoolap_ok then (record w' { bulk_owns_tx = true }, true) else (w', false)

  unfoldable pub flush_bulk_buffer : Writer → Bool → Answers → Writer × Rc
  unfolding open_chunks flush_through
  flush_bulk_buffer w partial answers =
      if w.bulk_rows == 0
      then (w, ok)
      else let w0 = record w { bulk_rows = 0 } in
        if partial && w0.bulk_fk
        then (let (w1, opened) = open_chunks w0 answers in
            if opened then flush_through w1 answers else (w1, generic))
        else flush_through w0 answers

  -- `per_row`: stoolap_thd_needs_per_row_dup_handling; `new_buffer`: stoolap_row_buffer_new gives
  -- one; `through_sql`: stoolap_writes_through_sql
  unfoldable pub start_bulk_insert : Writer → Bool → Bool → Option ℕ → Bool → Writer
  unfolding with_thd
  start_bulk_insert w per_row new_buffer clone through_sql =
      let w0 = record w { bulk_active = false; bulk_owns_tx = false; bulk_rows = 0 } in
      if per_row
      then w0
      else if not (w0.has_row_buffer || new_buffer)
      then w0
      else let s = db (get_thd_ctx w.counts.thd) clone in
        record (with_thd w0 (with_ctx w.counts.thd s)) {
          has_row_buffer = true;
          bulk_fk = elim s.db [ none ↦ false | some _ ↦ through_sql ];
          bulk_active = true;
        }

  unfoldable pub end_bulk_insert : Writer → Answers → Writer × Rc
  end_bulk_insert w answers =
      if not w.bulk_active
      then (w, ok)
      else flush_bulk_buffer (record w { bulk_active = false }) false answers

  -- A chunk that fails ends the transaction that the chunks share.
  end_chunks : Writer → Rc → ℕ → Writer
  unfolding with_thd
  end_chunks w err rolled_back =
      let s = get_thd_ctx w.counts.thd in
      if not (is_ok err) && w.bulk_owns_tx
      then record (with_thd w
          (with_ctx w.counts.thd (if has_tx s then (rollback s rolled_back).0 else s))) {
            bulk_owns_tx = false;
          }
      else w

  -- The AUTO_INCREMENT column's value, where the table has one, and whether it is unsigned.
  note_id : Writer → Option (Bool × ℤ) → Writer
  unfolding with_thd
  note_id w none = w
  note_id w (some (is_unsigned, sv)) =
      let thd = w.counts.thd in
      with_thd w (with_engine thd (note_written thd.engine w.counts.table is_unsigned sv))

  -- `added`: the rows in the buffer with this one
  bulk_row : Writer → Written → Answers → Writer × Rc
  unfolding end_chunks
  bulk_row w (rejected (some err) message) answers = (w, err)
  bulk_row w (rejected none message) answers = (w, generic)
  bulk_row w (wrote n) answers =
      let w0 = record w { bulk_rows = n } in
      if ltb n bulk_flush_rows
      then (w0, ok)
      else let (w1, err) = flush_bulk_buffer w0 true answers in
        (end_chunks w1 err answers.rolled_back, err)

  written_row : Writer → Written → Writer × Rc
  unfolding failed_write apply_count_delta
  written_row w (wrote affected) = (apply_count_delta w (pos affected), ok)
  written_row w (rejected err message) = failed_write w err message

  single_row : Writer → Answers → Writer × Rc
  unfolding direct_write_db written_row
  single_row w answers =
      let (w', has_db) = direct_write_db w answers.clone in
      if has_db
      then written_row (record w' { cur_row_id_valid = false }) answers.written
      else (w', internal_error)

  -- `auto`: what update_auto_increment returns; `id` is read after it.
  unfoldable pub write_row : Writer → Rc → Option (Bool × ℤ) → Written → Answers → Writer × Rc
  unfolding note_id bulk_row single_row
  write_row w auto id added answers =
      if is_empty w.counts.table
      then (w, internal_error)
      else let w0 = record w { last_dup_key = none } in
        if not (is_ok auto)
        then (w0, auto)
        else let w1 = note_id w0 id in
          if w1.bulk_active then bulk_row w1 added answers else single_row w1 answers

  deleted : Writer → Written → Writer × Rc
  unfolding failed_write apply_count_delta
  deleted w (wrote affected) =
      if affected == 0 then (w, record_deleted) else (apply_count_delta w (neg (pos affected)), ok)
  deleted w (rejected err message) = failed_write w err message

  -- `keyed`: key_row_id gives the row's id
  unfoldable pub delete_row : Writer → Bool → Answers → Writer × Rc
  unfolding direct_write_db deleted
  delete_row w keyed answers =
      if is_empty w.counts.table
      then (w, internal_error)
      else let w0 = record w { cur_row_id_valid = w.cur_row_id_valid || keyed } in
        let (w1, has_db) = direct_write_db w0 answers.clone in
        if has_db then deleted w1 answers.written else (w1, internal_error)

  updated : Writer → Written → Writer × Rc
  unfolding failed_write
  updated w (wrote affected) = (w, if affected == 0 then record_deleted else ok)
  updated w (rejected err message) = failed_write w err message

  -- `no_fields`: write_set names none
  unfoldable pub update_row : Writer → Bool → Bool → Answers → Writer × Rc
  unfolding direct_write_db updated
  update_row w keyed no_fields answers =
      if is_empty w.counts.table
      then (w, internal_error)
      else let w0 = record w { cur_row_id_valid = w.cur_row_id_valid || keyed } in
        if no_fields
        then (w0, ok)
        else let (w1, has_db) = direct_write_db w0 answers.clone in
          if has_db then updated w1 answers.written else (w1, internal_error)
