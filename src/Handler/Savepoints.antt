-- ===== src/Handler/Savepoints.antt =====
-- The savepoints of src/ha_stoolap.cc: MariaDB keeps a slot for each, which holds the name stoolap
-- knows it by. What stoolap_tx_exec answers is an argument, with the transaction's message.
pub mod Digits
use stoolap_mariadb.Common.{
  ℕ, zero, suc, ◌+◌, ◌-◌, ◌*◌, ◌/◌, ◌%◌, ◌^◌, ◌≤◌, ◌<◌, ◌≡◌, ◌≢◌, arith, refl, ap, sym, ◌∙◌, true,
  not, [], ◌∷◌, ◌++◌, Option, none, some, Bytes, codes, ltb, ◌==◌, if◌then◌else◌, length, take,
  length-append, take-of_le, append-cancel_left,
}
use stoolap_mariadb.ThdContext.{
  Context, State, has_tx, take_savepoint_id, invalidate_dirty_records, stoolap_ok,
}
use stoolap_mariadb.ThdContext
use stoolap_mariadb.Handler.Schema.{Rc, ok, generic}
use stoolap_mariadb.Handler.Errors.{ErrorClass, report_stoolap_error}
use stoolap_mariadb.Handler.Session.{Thd, get_thd_ctx, with_ctx}

-- StoolapSavepointSlot
pub record Slot : Type 0 where
  pub id : ℕ
  pub name : Bytes

-- %llu, by at most `width` digits
digits : ℕ → ℕ → Bytes
digits zero n = []
digits (suc width) n =
    let rest = digits width (n / 10) in
    if ltb n 10 then (48 + n) ∷ [] else rest ++ ((48 + n % 10) ∷ [])

-- A uint64_t has at most 20 digits.
unfoldable pub decimal : ℕ → Bytes
unfolding digits
decimal n = digits 20 n

-- snprintf into a buffer of `size` bytes, the last of them a 0
abbrev snprintf : ℕ → Bytes → Bytes
snprintf size text = take (size - 1) text

unfoldable pub format_savepoint_slot : ℕ → Slot
format_savepoint_slot id = record { id = id; name = snprintf 24 (codes "sp" ++ decimal id) }

unfoldable pub savepoint_sql : Bytes → Slot → Bytes
savepoint_sql verb slot = snprintf 64 (verb ++ (codes " " ++ slot.name))

-- What a callback does: the THD, the slot, the SQL that it ran on the transaction, and its code.
pub record Done : Type 0 where
  pub thd : Thd
  pub slot : Slot
  pub sql : Option Bytes
  pub rc : Rc

module _ (error_class : Bytes → ErrorClass × Option ℕ) where
  sql_rc : ℕ × Bytes → Rc
  sql_rc (status, message) =
      if status == stoolap_ok then ok else (report_stoolap_error error_class message).rc

  unfoldable pub savepoint_set_cb : Thd → Slot → ℕ × Bytes → Done
  unfolding sql_rc
  savepoint_set_cb thd slot answer =
      let s = get_thd_ctx thd in
      if not (has_tx s)
      then record { thd = with_ctx thd s; slot = slot; sql = none; rc = generic }
      else let (s', id) = take_savepoint_id s in
        let named = format_savepoint_slot id in
        record {
          thd = with_ctx thd s';
          slot = named;
          sql = some (savepoint_sql (codes "SAVEPOINT") named);
          rc = sql_rc answer;
        }

  unfoldable pub savepoint_release_cb : Thd → Slot → ℕ × Bytes → Done
  unfolding sql_rc
  savepoint_release_cb thd slot answer =
      let thd' = with_ctx thd (get_thd_ctx thd) in
      if not (has_tx (get_thd_ctx thd))
      then record { thd = thd'; slot = slot; sql = none; rc = ok }
      else record {
        thd = thd';
        slot = slot;
        sql = some (savepoint_sql (codes "RELEASE SAVEPOINT") slot);
        rc = sql_rc answer;
      }

  unfoldable pub savepoint_rollback_cb : Thd → Slot → ℕ × Bytes → Done
  unfolding sql_rc
  savepoint_rollback_cb thd slot answer =
      let s = get_thd_ctx thd in
      if not (has_tx s)
      then record { thd = with_ctx thd s; slot = slot; sql = none; rc = ok }
      else record {
        thd = with_ctx thd (if answer.0 == stoolap_ok then invalidate_dirty_records s else s);
        slot = slot;
        sql = some (savepoint_sql (codes "ROLLBACK TO SAVEPOINT") slot);
        rc = sql_rc answer;
      }

digit_value : ℕ → Bytes → ℕ
digit_value acc [] = acc
digit_value acc (d ∷ ds) = digit_value (acc * 10 + (d - 48)) ds

digit_value-append :
    (acc : ℕ) (xs ys : Bytes) → digit_value acc (xs ++ ys) ≡ digit_value (digit_value acc xs) ys
unfolding digit_value
digit_value-append acc [] ys = refl
digit_value-append acc (x ∷ xs) ys = digit_value-append (acc * 10 + (x - 48)) xs ys

pow_below : (width n : ℕ) → n < 10 ^ suc width → n / 10 < 10 ^ width
pow_below width n h = ground arith

digits-digit_value : (width n : ℕ) → n < 10 ^ width → digit_value 0 (digits width n) ≡ n
unfolding digits digit_value
digits-digit_value zero n h = ground arith
digits-digit_value (suc width) n h = ground (
  arith,
  digits-digit_value width (n / 10) (pow_below width n h),
  digit_value-append 0 (digits width (n / 10)) ((48 + n % 10) ∷ []),
)

length-digits : (width n : ℕ) → length (digits width n) ≤ width
unfolding digits
length-digits zero n = ground arith
length-digits (suc width) n = ground (
  arith,
  length-digits width (n / 10),
  length-append (digits width (n / 10)) ((48 + n % 10) ∷ []),
)

length-decimal : (n : ℕ) → length (decimal n) ≤ 20
unfolding decimal
length-decimal n = length-digits 20 n

decimal-digit_value : (n : ℕ) → n < 2 ^ 64 → digit_value 0 (decimal n) ≡ n
unfolding decimal
decimal-digit_value n h = digits-digit_value 20 n (ground arith)

name-format_savepoint_slot : (id : ℕ) → (format_savepoint_slot id).name ≡ codes "sp" ++ decimal id
unfolding format_savepoint_slot
name-format_savepoint_slot id =
    take-of_le 23 (codes "sp" ++ decimal id) (ground (arith, length-decimal id))

-- The SQL that a callback runs on a slot's savepoint, complete.
savepoint_sql-format_savepoint_slot :
    (verb : Bytes) (id : ℕ)
    → length verb ≤ 40
    → savepoint_sql verb (format_savepoint_slot id) ≡ verb ++ (codes " sp" ++ decimal id)
unfolding savepoint_sql
savepoint_sql-format_savepoint_slot verb id h = rw (name-format_savepoint_slot id) (
    take-of_le 63 (verb ++ (codes " sp" ++ decimal id))
      (ground (arith, length-decimal id, length-append verb (codes " sp" ++ decimal id))))

same_id :
    (verb : Bytes) (i j : ℕ)
    → length verb ≤ 40
    → i < 2 ^ 64
    → j < 2 ^ 64
    → savepoint_sql verb (format_savepoint_slot i) ≡ savepoint_sql verb (format_savepoint_slot j)
    → i ≡ j
same_id verb i j h hi hj e =
    let same : verb ++ (codes " sp" ++ decimal i) ≡ verb ++ (codes " sp" ++ decimal j) =
      sym (savepoint_sql-format_savepoint_slot verb i h)
      ∙ e
      ∙ savepoint_sql-format_savepoint_slot verb j h in
    let named : codes " sp" ++ decimal i ≡ codes " sp" ++ decimal j =
      append-cancel_left verb (codes " sp" ++ decimal i) (codes " sp" ++ decimal j) same in
    let ids = append-cancel_left (codes " sp") (decimal i) (decimal j) named in
    sym (decimal-digit_value i hi) ∙ ap (digit_value 0) ids ∙ decimal-digit_value j hj

-- A savepoint callback's SQL names one savepoint of the connection: with a verb of at most 40 bytes no
-- buffer cuts it off, so that two slots with different ids have different SQL.
pub savepoint_sql-injective :
    (verb : Bytes) (i j : ℕ)
    → length verb ≤ 40
    → i < 2 ^ 64
    → j < 2 ^ 64
    → i ≢ j
    → savepoint_sql verb (format_savepoint_slot i) ≢ savepoint_sql verb (format_savepoint_slot j)
savepoint_sql-injective verb i j h hi hj ne e = ne (same_id verb i j h hi hj e)

-- After a ROLLBACK TO SAVEPOINT that stoolap runs, the connection's own row counts are still those
-- that the writes after the savepoint have moved, and no table counts as dirty any more.
pub savepoint_rollback_cb-counts :
    (error_class : Bytes → ErrorClass × Option ℕ) (thd : Thd) (slot : Slot) (message table : Bytes)
    → has_tx (get_thd_ctx thd) ≡ true
    → let thd' = (savepoint_rollback_cb error_class thd slot (stoolap_ok, message)).thd in
      (ThdContext.records_lookup (get_thd_ctx thd') table
        ≡ ThdContext.records_lookup (get_thd_ctx thd) table)
      × ((get_thd_ctx thd').dirty_record_tables ≡ [])
unfolding savepoint_rollback_cb get_thd_ctx with_ctx invalidate_dirty_records
    ThdContext.records_lookup
savepoint_rollback_cb-counts error_class thd slot message table h = ground arith
