-- ===== src/Pushdown/Direct/Errors.antt =====
-- The errors that try_direct_modify shows to the client, and the buffer that its count reads.
use stoolap_mariadb.Common.{
  ℕ, ◌≡◌, refl, Bool-cases, inl, inr, Bool, true, false, not, ◌&&◌, ◌||◌, List, [], ◌∷◌, ◌++◌, map,
  Option, none, some, Bytes, ◌==◌, if◌then◌else◌, is_empty, bytes_eq,
}
use stoolap_mariadb.ThdContext.{db, stoolap_ok}
use stoolap_mariadb.Handler.Schema.{Share}
use stoolap_mariadb.Handler.Errors.{
  ErrorClass, unknown, generic_error, dup_key, no_referenced, row_referenced, deadlock,
  table_exists, no_table, not_supported, report_stoolap_error, ha_error_of, get_errmsg,
}
use stoolap_mariadb.Handler.Schema.{
  found_dupp_key, no_referenced_row, row_is_referenced, lock_deadlock, table_exist, no_such_table,
}
use stoolap_mariadb.Sqlgen.Assign.{Guard}
use stoolap_mariadb.Pushdown.Run.{Call, has_db}
use stoolap_mariadb.Pushdown.Direct.{
  is_guards, guard_shown, guard_overflow_error, guarded, failed_modify, prints, reported, printed,
  Shown, ModifyAnswers, calls_made, errors_of, run_modify, try_written, try_direct_modify,
}
use stoolap_mariadb.Pushdown.Direct.Calls.{no_calls}
use stoolap_mariadb.Pushdown.Statement.{Session, Select, Items}
use stoolap_mariadb.Pushdown.Guards.{can_direct_modify}
use stoolap_mariadb.Handler.Session.{Thd, get_thd_ctx}
use stoolap_mariadb.Sqlgen.Gen.{Outcome, wrote, refused}
use stoolap_mariadb.Sqlgen.Modify.{Modified}

-- The error of a class, with the message that stoolap gave
abbrev pub class_error : ErrorClass → Bytes → Shown
class_error dup_key message = printed found_dupp_key message
class_error no_referenced message = printed no_referenced_row message
class_error row_referenced message = printed row_is_referenced message
class_error deadlock message = printed lock_deadlock message
class_error table_exists message = printed table_exist message
class_error no_table message = printed no_such_table message
class_error _ message = reported (get_errmsg message)

-- The check's own, with its column, where the message is the overflow that a check makes
abbrev pub shown_for : Option Guard → ErrorClass → Bytes → Shown
shown_for none c message = class_error c message
shown_for (some g) c message =
    if bytes_eq message guard_overflow_error
    then guarded g.error g.column
    else class_error c message

abbrev pub guard_of : Outcome Modified → Option Guard
guard_of (wrote m g) = m.guard
guard_of (refused why) = none

module _ (error_class : Bytes → ErrorClass × Option ℕ) (share : Share) where
  by_class :
      (message : Bytes) (c : ErrorClass)
      → (error_class message).0 ≡ c
      → is_empty message ≡ false
      → map reported (report_stoolap_error error_class message).raised
          ++ (if prints (report_stoolap_error error_class message).rc
              then printed (report_stoolap_error error_class message).rc message ∷ []
              else [])
        ≡ class_error (error_class message).0 message ∷ []
  unfolding prints report_stoolap_error ha_error_of
  by_class message unknown e h = rw (e, h) refl
  by_class message generic_error e h = rw (e, h) refl
  by_class message dup_key e h = rw e refl
  by_class message no_referenced e h = rw e refl
  by_class message row_referenced e h = rw e refl
  by_class message deadlock e h = rw e refl
  by_class message table_exists e h = rw e refl
  by_class message no_table e h = rw e refl
  by_class message not_supported e h = rw (e, h) refl

  failed_modify-shown :
      (guard : Option Guard) (message : Bytes)
      → is_empty message ≡ false
      → (failed_modify error_class share guard message).0
        ≡ shown_for guard (error_class message).0 message ∷ []
  unfolding failed_modify is_guards guard_shown
  failed_modify-shown none message h = rw h (by_class message (error_class message).0 refl h)
  failed_modify-shown (some g) message h =
      elim (Bool-cases (bytes_eq message guard_overflow_error)) [
        | inl mine ↦ rw mine refl
        | inr other ↦ rw (other, h) (by_class message (error_class message).0 refl h)
      ]

no_calls-append : (xs : List Call) (c : Call) (ys : List Call) → no_calls (xs ++ (c ∷ ys)) ≡ false
unfolding no_calls
no_calls-append [] c ys = refl
no_calls-append (x ∷ xs) c ys = refl

-- Of a run on a database where `d`, which has ended well where `ran`
shown_once :
    (d ran : Bool) (made : List Call) (shown : List Shown) (one : Shown)
    → no_calls made ≡ false
    → shown ≡ one ∷ []
    → (if d && not ran then shown else [])
      ≡ (if no_calls (if d then made else []) || (d && ran) then [] else one ∷ [])
unfolding no_calls
shown_once false ran made shown one h k = refl
shown_once true true made shown one h k = rw h refl
shown_once true false made shown one h k = rw h k

try_written-shown :
    (error_class : Bytes → ErrorClass × Option ℕ) (share : Share) (thd : Thd) (can : Bool)
    (generated : Outcome Modified) (a : ModifyAnswers)
    → is_empty a.message ≡ false
    → let t = try_written error_class share thd can generated a in
      t.shown ≡ (
        if no_calls t.calls || t.hit
        then []
        else shown_for (guard_of generated) (error_class a.message).0 a.message ∷ [])
unfolding try_written run_modify calls_made errors_of no_calls
try_written-shown error_class share thd true (wrote m g) a h =
    shown_once (has_db (db (get_thd_ctx thd) a.clone)) (a.exec == stoolap_ok) _
      (failed_modify error_class share m.guard a.message).0
      (shown_for m.guard (error_class a.message).0 a.message) (no_calls-append _ _ _)
      (failed_modify-shown error_class share m.guard a.message h)
try_written-shown error_class share thd false (wrote m g) a h = refl
try_written-shown error_class share thd can (refused why) a h = refl

-- A statement that stoolap refuses with a message shows the client just one error: where the generator
-- has put a check into a SET value and the message is kGuardOverflowError, the check's own error with
-- its column; else that of the message's class, which is ER_GET_ERRMSG with the message where the class
-- has no error of its own. A statement that is not run, or succeeds, shows none.
pub try_direct_modify-shown :
    (error_class : Bytes → ErrorClass × Option ℕ) (share : Share) (session : Session) (s : Select)
    (values : Items) (generated : Outcome Modified) (thd : Thd) (a : ModifyAnswers)
    → is_empty a.message ≡ false
    → let t = try_direct_modify error_class share session s values generated thd a in
      t.shown ≡ (
        if no_calls t.calls || t.hit
        then []
        else shown_for (guard_of generated) (error_class a.message).0 a.message ∷ [])
unfolding try_direct_modify
try_direct_modify-shown error_class share session s values generated thd a h =
    try_written-shown error_class share thd (can_direct_modify session s values true) generated a h
