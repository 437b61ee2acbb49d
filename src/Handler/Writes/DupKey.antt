-- ===== src/Handler/Writes/DupKey.antt =====
-- The duplicate key that an insert leaves for get_dup_key.
use stoolap_mariadb.Common.{
  ℕ, ◌≡◌, arith, refl, Bool, true, false, Option, none, some, Bytes, is_empty,
}
use stoolap_mariadb.Common.Int.{ℤ}
use stoolap_mariadb.Handler.Schema.{Rc}
use stoolap_mariadb.Handler.Errors.{ErrorClass}
use stoolap_mariadb.Handler.Writes.{
  Writer, Written, wrote, rejected, Answers, is_dup, write_error, failed_write, flushed,
  flush_through, open_chunks, flush_bulk_buffer, end_chunks, note_id, bulk_row, written_row,
  single_row, write_row, direct_write_db, apply_count_delta, with_thd,
}

module _ (error_class : Bytes → ErrorClass × Option ℕ) where
  write_error-dup :
      (w : Writer) (message : Bytes)
      → w.last_dup_key ≡ none
      → is_dup (write_error error_class w message).1 ≡ false
      → (write_error error_class w message).0.last_dup_key ≡ none
  unfolding write_error
  write_error-dup w message h d = ground arith

  direct_write_db-dup :
      (w : Writer) (clone : Option ℕ) → (direct_write_db w clone).0.last_dup_key ≡ w.last_dup_key
  unfolding direct_write_db with_thd
  direct_write_db-dup w clone = refl

  open_chunks-dup :
      (w : Writer) (answers : Answers)
      → (open_chunks error_class w answers).0.last_dup_key ≡ w.last_dup_key
  unfolding open_chunks with_thd
  open_chunks-dup w answers = ground arith

  flush_through-dup :
      (w : Writer) (answers : Answers)
      → w.last_dup_key ≡ none
      → is_dup (flush_through error_class w answers).1 ≡ false
      → (flush_through error_class w answers).0.last_dup_key ≡ none
  unfolding flush_through flushed apply_count_delta direct_write_db with_thd write_error
  flush_through-dup w answers h d = ground arith

  flush_bulk_buffer-dup :
      (w : Writer) (partial : Bool) (answers : Answers)
      → w.last_dup_key ≡ none
      → is_dup (flush_bulk_buffer error_class w partial answers).1 ≡ false
      → (flush_bulk_buffer error_class w partial answers).0.last_dup_key ≡ none
  unfolding flush_bulk_buffer
  flush_bulk_buffer-dup w partial answers h d =
      let w0 = record w { bulk_rows = 0 } in
      let w1 = (open_chunks error_class w0 answers).0 in
      ground (
        arith,
        open_chunks-dup w0 answers,
        flush_through-dup w0 answers,
        flush_through-dup w1 answers,
      )

  end_chunks-dup :
      (w : Writer) (err : Rc) (rolled_back : ℕ)
      → (end_chunks error_class w err rolled_back).last_dup_key ≡ w.last_dup_key
  unfolding end_chunks with_thd
  end_chunks-dup w err rolled_back = ground arith

  bulk_row-dup :
      (w : Writer) (added : Written) (answers : Answers)
      → w.last_dup_key ≡ none
      → is_dup (bulk_row error_class w added answers).1 ≡ false
      → (bulk_row error_class w added answers).0.last_dup_key ≡ none
  unfolding bulk_row
  bulk_row-dup w (rejected (some err) message) answers h d = ground arith
  bulk_row-dup w (rejected none message) answers h d = ground arith
  bulk_row-dup w (wrote n) answers h d =
      let w0 = record w { bulk_rows = n } in
      let flush = flush_bulk_buffer error_class w0 true answers in
      ground (
        arith,
        flush_bulk_buffer-dup w0 true answers,
        end_chunks-dup flush.0 flush.1 answers.rolled_back,
      )

  single_row-dup :
      (w : Writer) (answers : Answers)
      → w.last_dup_key ≡ none
      → is_dup (single_row error_class w answers).1 ≡ false
      → (single_row error_class w answers).0.last_dup_key ≡ none
  unfolding single_row written_row failed_write apply_count_delta direct_write_db with_thd
      write_error
  single_row-dup w answers h d = ground arith

  note_id-dup :
      (w : Writer) (id : Option (Bool × ℤ))
      → (note_id error_class w id).last_dup_key ≡ w.last_dup_key
  unfolding note_id with_thd
  note_id-dup w none = refl
  note_id-dup w (some (is_unsigned, sv)) = refl

  -- An insert that does not report a duplicate leaves no duplicate key from an earlier statement.
  write_row-last_dup_key :
      (w : Writer) (auto : Rc) (id : Option (Bool × ℤ)) (added : Written) (answers : Answers)
      → is_empty w.counts.table ≡ false
      → is_dup (write_row error_class w auto id added answers).1 ≡ false
      → (write_row error_class w auto id added answers).0.last_dup_key ≡ none
  unfolding write_row
  write_row-last_dup_key w auto id added answers ne d =
      let w1 = note_id error_class (record w { last_dup_key = none }) id in
      ground (
        arith,
        note_id-dup (record w { last_dup_key = none }) id,
        bulk_row-dup w1 added answers,
        single_row-dup w1 answers,
      )
