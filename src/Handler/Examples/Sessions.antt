-- ===== src/Handler/Examples/Sessions.antt =====
-- Sessions, savepoints, counts and writes at concrete values.
use stoolap_mariadb.Common.{
  ◌≡◌, ◌≢◌, arith, refl, true, false, not, ◌&&◌, ◌==◌, none, some, [], ◌∷◌, Bytes, codes,
  if◌then◌else◌, find, bytes_eq,
}
use stoolap_mariadb.Common.Int.{pos, negsuc}
use stoolap_mariadb.ThdContext.{
  begins, commits, rolls_back, begun, refused, has_tx, end_statement, stoolap_ok,
}
use stoolap_mariadb.ThdContext
use stoolap_mariadb.ThdContext.Lifecycle.{open_after}
use stoolap_mariadb.Handler.Schema.{ok, is_ok}
use stoolap_mariadb.Handler.Errors.{raise_commit_error, report_stoolap_error}
use stoolap_mariadb.Handler.Session.{
  get_thd_ctx, commit_cb, close_connection_cb, Answers, serializable, trans_register_statement,
  with_ctx,
}
use stoolap_mariadb.Handler.Transactions.{
  commit_cb_lem, close_connection_cb-ends_all, thd_tx, real_end, locks, does_commit, switches,
  after_callbacks,
}
use stoolap_mariadb.Handler.Savepoints.{
  savepoint_sql, format_savepoint_slot, savepoint_sql-injective, savepoint_rollback_cb,
  savepoint_rollback_cb-counts, decimal,
}
use stoolap_mariadb.Handler.Counts.{adjust_records_cache}
use stoolap_mariadb.Handler.Counts.Layers.{adjust_records_cache-agrees, is_some}
use stoolap_mariadb.ThdContext.Counts.{moved}
use stoolap_mariadb.Handler.AutoIncrement.{
  get_auto_increment, max_of, note_written, with_engine, get_auto_increment-note_written,
}
use stoolap_mariadb.Handler.Writes.{Writer, write_row, wrote, rejected, is_dup, bulk_flush_rows}
use stoolap_mariadb.Handler.Writes
use stoolap_mariadb.Handler.Writes.Bulk.{write_row-in_transaction, in_transaction}
use stoolap_mariadb.Samples.{
  table, class_of, idle_thd, writing_thd, writing_context, sample_handler, sample_share,
  sample_engine,
}

abbrev answers : Answers
answers = record {
  statement = 0;
  statement_message = [];
  transaction = 1;
  transaction_message = codes "deadlock";
}

commit_cb_lem_example :
    let (thd', rc) = commit_cb class_of writing_thd true answers in
    let statement_ok = end_statement (get_thd_ctx writing_thd) 0 == stoolap_ok in
    let commit_it = statement_ok && real_end writing_thd true in
    (thd_tx thd' ≡ (if commit_it then none else some 9))
    × (thd'.trace ≡ (if commit_it then commits 9 ∷ [] else []))
    × (rc ≡ (
        if not statement_ok
        then (raise_commit_error class_of []).rc
        else if commit_it && not (1 == stoolap_ok)
        then (raise_commit_error class_of (codes "deadlock")).rc
        else ok))
commit_cb_lem_example = commit_cb_lem class_of writing_thd true answers writing_context 9 refl refl

close_connection_cb-ends_all_example :
    open_after
      (close_connection_cb (
        after_callbacks class_of idle_thd (
          locks false none (begun 4)
          ∷ does_commit true answers
          ∷ switches true serializable
          ∷ locks false none (begun 5)
          ∷ []))).0.trace
    ≡ some none
close_connection_cb-ends_all_example =
    close_connection_cb-ends_all class_of idle_thd
      (locks false none (begun 4)
        ∷ does_commit true answers
        ∷ switches true serializable
        ∷ locks false none (begun 5)
        ∷ [])
      refl

savepoint_sql-injective_example :
    savepoint_sql (codes "ROLLBACK TO SAVEPOINT") (format_savepoint_slot 12)
    ≢ savepoint_sql (codes "ROLLBACK TO SAVEPOINT") (format_savepoint_slot 120)
savepoint_sql-injective_example =
    savepoint_sql-injective (codes "ROLLBACK TO SAVEPOINT") 12 120 (omega arith) (omega arith)
      (omega arith) (λ e. absurd (omega arith))

savepoint_sql_test :
    savepoint_sql (codes "SAVEPOINT") (format_savepoint_slot 120) ≡ codes "SAVEPOINT sp120"
unfolding savepoint_sql format_savepoint_slot decimal
savepoint_sql_test = ground arith

savepoint_rollback_cb-counts_example :
    let thd' =
      (savepoint_rollback_cb class_of writing_thd (format_savepoint_slot 1) (stoolap_ok, [])).thd in
    (ThdContext.records_lookup (get_thd_ctx thd') table
      ≡ ThdContext.records_lookup (get_thd_ctx writing_thd) table)
    × ((get_thd_ctx thd').dirty_record_tables ≡ [])
unfolding get_thd_ctx
savepoint_rollback_cb-counts_example =
    savepoint_rollback_cb-counts class_of writing_thd (format_savepoint_slot 1) [] table refl

adjust_records_cache-agrees_example :
    let h' = adjust_records_cache sample_handler (negsuc 2) in
    (ThdContext.records_lookup (get_thd_ctx h'.thd) table ≡ moved 8 (negsuc 2))
    × (h'.cached_records_valid ≡ is_some (moved 8 (negsuc 2)))
    × (h'.cached_records_valid ≡ true
        → (moved 8 (negsuc 2) ≡ some h'.cached_records) × (h'.stats_records ≡ h'.cached_records))
unfolding get_thd_ctx ThdContext.records_lookup find bytes_eq
adjust_records_cache-agrees_example =
    adjust_records_cache-agrees sample_handler (negsuc 2) refl refl refl (omega arith) refl

abbrev new_table : Bytes
new_table = codes "u"

get_auto_increment-note_written_example :
    let noted = with_engine idle_thd (note_written sample_engine new_table false (pos 50)) in
    (get_auto_increment noted new_table true 1 1 1 none (max_of (pos 100))).first_value ≡ 51
unfolding find bytes_eq
get_auto_increment-note_written_example =
    get_auto_increment-note_written idle_thd new_table false 50 none (max_of (pos 100)) refl
      (omega arith) (omega arith)

abbrev sample_writer : Writer
sample_writer = record {
  counts = record sample_handler { thd = record idle_thd { in_explicit_txn = false } };
  share = sample_share;
  bulk_active = true;
  bulk_rows = 49999;
  bulk_fk = true;
  bulk_owns_tx = false;
  last_dup_key = some 2;
  errkey = none;
  cur_row_id_valid = false;
  has_row_buffer = true;
}

abbrev failing : Writes.Answers
failing = record {
  clone = none;
  begun = begun 6;
  written = rejected none (codes "deadlock");
  rolled_back = 0;
}

write_row-in_transaction_example :
    in_transaction (write_row class_of sample_writer ok none (wrote 50000) failing).0 ≡ false
unfolding write_row is_ok is_dup Writes.flush_bulk_buffer Writes.write_error get_thd_ctx
    ThdContext.begin ThdContext.db trans_register_statement with_ctx report_stoolap_error
write_row-in_transaction_example =
    write_row-in_transaction class_of sample_writer none 50000 failing refl refl
      (λ t. absurd (ground arith)) (omega arith) refl
