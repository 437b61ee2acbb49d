-- ===== src/Handler/Writes/Bulk.antt =====
-- The chunks of a bulk insert share a transaction, which no failed chunk leaves open.
use stoolap_mariadb.Common.{
  ℕ, ◌≤◌, ◌≡◌, arith, refl, Bool, true, false, Option, none, some, Bytes, is_empty,
}
use stoolap_mariadb.Common.Int.{ℤ, pos}
use stoolap_mariadb.ThdContext.{has_tx, db, begin, rollback}
use stoolap_mariadb.Handler.Schema.{Rc, ok, is_ok}
use stoolap_mariadb.Handler.Errors.{ErrorClass}
use stoolap_mariadb.Handler.Session.{get_thd_ctx, with_ctx, trans_register_statement}
use stoolap_mariadb.Handler.Counts.Layers.{adjust_records_cache-tx, invalidate_records_cache-tx}
use stoolap_mariadb.Handler.Writes.{
  Writer, Written, wrote, rejected, Answers, bulk_flush_rows, write_error, flushed, flush_through,
  open_chunks, flush_bulk_buffer, end_chunks, note_id, bulk_row, write_row, direct_write_db,
  apply_count_delta, with_thd,
}

-- The transaction of the connection that the writer's THD stands for.
abbrev pub in_transaction : Writer → Bool
in_transaction w = has_tx (get_thd_ctx w.counts.thd)

-- Every transaction that is open was opened by the bulk insert.
abbrev pub OwnTx : Writer → Type 0
OwnTx w = in_transaction w ≡ true → w.bulk_owns_tx ≡ true

module _ (error_class : Bytes → ErrorClass × Option ℕ) where
  open_chunks-OwnTx :
      (w : Writer) (answers : Answers) → OwnTx w → OwnTx (open_chunks error_class w answers).0
  unfolding open_chunks with_thd get_thd_ctx with_ctx begin db
  open_chunks-OwnTx w answers o t = ground arith

  note_id-tx :
      (w : Writer) (id : Option (Bool × ℤ))
      → let w' = note_id error_class w id in
        (in_transaction w' ≡ in_transaction w)
        × (w'.bulk_owns_tx ≡ w.bulk_owns_tx)
        × (w'.bulk_active ≡ w.bulk_active)
        × (w'.counts.table ≡ w.counts.table)
  unfolding note_id with_thd get_thd_ctx
  note_id-tx w none = ground arith
  note_id-tx w (some (is_unsigned, sv)) = ground arith

  direct_write_db-tx :
      (w : Writer) (clone : Option ℕ)
      → (in_transaction (direct_write_db w clone).0 ≡ in_transaction w)
        × ((direct_write_db w clone).0.bulk_owns_tx ≡ w.bulk_owns_tx)
  unfolding direct_write_db with_thd get_thd_ctx with_ctx db trans_register_statement
  direct_write_db-tx w clone = ground arith

  flushed-tx :
      (w : Writer) (written : Written)
      → (in_transaction (flushed error_class w written).0 ≡ in_transaction w)
        × ((flushed error_class w written).0.bulk_owns_tx ≡ w.bulk_owns_tx)
  unfolding flushed apply_count_delta write_error
  flushed-tx w (wrote affected) = (adjust_records_cache-tx w.counts (pos affected), refl)
  flushed-tx w (rejected err message) = ground (arith, invalidate_records_cache-tx w.counts)

  flush_through-tx :
      (w : Writer) (answers : Answers)
      → (in_transaction (flush_through error_class w answers).0 ≡ in_transaction w)
        × ((flush_through error_class w answers).0.bulk_owns_tx ≡ w.bulk_owns_tx)
  unfolding flush_through
  flush_through-tx w answers = ground (
    arith,
    direct_write_db-tx w answers.clone,
    flushed-tx (record ((direct_write_db w answers.clone).0) { cur_row_id_valid = false })
        answers.written,
  )

  flush_bulk_buffer-OwnTx :
      (w : Writer) (partial : Bool) (answers : Answers)
      → OwnTx w
      → OwnTx (flush_bulk_buffer error_class w partial answers).0
  unfolding flush_bulk_buffer
  flush_bulk_buffer-OwnTx w partial answers o t =
      let w0 = record w { bulk_rows = 0 } in
      let w1 = (open_chunks error_class w0 answers).0 in
      ground (
        arith,
        open_chunks-OwnTx w0 answers o,
        flush_through-tx w0 answers,
        flush_through-tx w1 answers,
      )

  end_chunks-in_transaction :
      (w : Writer) (err : Rc) (rolled_back : ℕ)
      → OwnTx w
      → is_ok err ≡ false
      → in_transaction (end_chunks error_class w err rolled_back) ≡ false
  unfolding end_chunks with_thd get_thd_ctx with_ctx rollback
  end_chunks-in_transaction w err rolled_back o e = ground arith

  -- Where every open transaction is the bulk insert's own, a row whose chunk fails to go in leaves no
  -- transaction open.
  pub write_row-in_transaction :
      (w : Writer) (id : Option (Bool × ℤ)) (n : ℕ) (answers : Answers)
      → is_empty w.counts.table ≡ false
      → w.bulk_active ≡ true
      → OwnTx w
      → bulk_flush_rows ≤ n
      → is_ok (write_row error_class w ok id (wrote n) answers).1 ≡ false
      → in_transaction (write_row error_class w ok id (wrote n) answers).0 ≡ false
  unfolding write_row bulk_row is_ok
  write_row-in_transaction w id n answers ne a o le e =
      let w0 = record w { last_dup_key = none } in
      let noted = note_id-tx w0 id in
      let w1 = record (note_id error_class w0 id) { bulk_rows = n } in
      let own : OwnTx w1 = λ t. ground (arith, noted, o) in
      let flush = flush_bulk_buffer error_class w1 true answers in
      let ended =
        end_chunks-in_transaction flush.0 flush.1 answers.rolled_back
          (flush_bulk_buffer-OwnTx w1 true answers own) in
      ground (arith, noted, ended)
