-- ===== src/Pushdown/Direct.antt =====
-- try_direct_modify of src/ha_stoolap_select.cc, an UPDATE or DELETE run as one statement of stoolap,
-- and the methods of src/ha_stoolap.cc that ask whether one may be. What the FFI answers is an
-- argument.
pub mod Calls
pub mod Errors
pub mod Count
use stoolap_mariadb.Common.{
  ℕ, ◌+◌, ◌≡◌, refl, Bool, true, false, not, ◌&&◌, ◌||◌, List, [], ◌∷◌, ◌++◌, map, Option, none,
  some, Bytes, codes, ltb, ◌==◌, if◌then◌else◌, length, is_empty, bytes_eq,
}
use stoolap_mariadb.Common.Int.{ℤ, pos, negsuc, pos_part, pattern64}
use stoolap_mariadb.ThdContext.{State, db, stoolap_ok}
use stoolap_mariadb.Packet.{
  Read, done, truncated, fault, ◌>>=◌, byte_at, pkt_le32, pkt_i64, pkt_parse_header,
}
use stoolap_mariadb.Handler.Schema.{
  Share, Rc, ok, found_dupp_key, no_referenced_row, row_is_referenced, lock_deadlock, table_exist,
  no_such_table, generic, internal_error, wrong_command,
}
use stoolap_mariadb.Handler.Errors.{ErrorClass, Raised, report_stoolap_error, errkey_from_view}
use stoolap_mariadb.Handler.Session.{Thd, get_thd_ctx, with_ctx}
use stoolap_mariadb.Handler.Writes.{is_dup}
use stoolap_mariadb.Handler.DirectDml.{modified, failed}
use stoolap_mariadb.Handler.DirectDml as Dml
use stoolap_mariadb.Sqlgen.Gen.{Outcome, wrote, refused}
use stoolap_mariadb.Sqlgen.Assign.{Guard, GuardError}
use stoolap_mariadb.Sqlgen.Modify.{Modified}
use stoolap_mariadb.Pushdown.Statement.{Session, OptItem, Items, Select}
use stoolap_mariadb.Pushdown.Fields.{opt_ci_string}
use stoolap_mariadb.Pushdown.Guards.{can_direct_modify}
use stoolap_mariadb.Pushdown.Run.{Call, call_on, has_db}

-- STOOLAP_TYPE_INTEGER
abbrev pub type_integer : ℕ
type_integer = 1

count_cell : Bytes → ℕ × ℕ → Read (Option ℕ)
count_cell buf (at, cols) =
    if not (cols == 1) || ltb (length buf) (at + 4 + 1 + 8) then done none else do
      rows ← pkt_le32 buf at
      tag ← byte_at buf (at + 4)
      v ← pkt_i64 buf (at + 5)
      done (if (rows == 1) && (tag == type_integer) then some (pos_part v) else none)

or_none : Read (Option ℕ) → Read (Option ℕ)
or_none truncated = done none
or_none r = r

-- count_rows, of the status and the buffer: none where it returns false.
unfoldable pub count_rows : ℕ × Option Bytes → Read (Option ℕ)
unfolding count_cell or_none
count_rows (status, none) = done none
count_rows (status, some buf) =
    if not (status == stoolap_ok)
    then done none
    else or_none (do header ← pkt_parse_header buf 0; count_cell buf header)

-- Its answer; no packet makes it a fault.
rows_counted : Read (Option ℕ) → Option ℕ
rows_counted (done n) = n
rows_counted _ = none

-- What is raised to the client: by report_stoolap_error; the ModifyGuard's error with its column; the
-- error of a class, with the message.
pub data Shown : Type 0 where
  reported : Raised → Shown
  guarded : GuardError → Bytes → Shown
  printed : Rc → Bytes → Shown

-- The answers to: the clone, the first count, the statement with the rows it affected and its
-- message, and the count after it
pub record ModifyAnswers : Type 0 where
  pub clone : Option ℕ
  pub before : ℕ × Option Bytes
  pub exec : ℕ
  pub rows : ℤ
  pub message : Bytes
  pub after : ℕ × Option Bytes

-- The calls are the newest first. `hit`: whether g_stats.direct_modify_hits grows.
pub record Tried : Type 0 where
  pub thd : Thd
  pub calls : List Call
  pub shown : List Shown
  pub hit : Bool
  pub answer : Dml.Modified

-- kGuardOverflowError
unfoldable pub guard_overflow_error : Bytes
guard_overflow_error =
    codes "type error: Integer overflow in arithmetic operation: "
    ++ codes "9223372036854775807 and 4242"

prints : Rc → Bool
prints found_dupp_key = true
prints no_referenced_row = true
prints row_is_referenced = true
prints lock_deadlock = true
prints table_exist = true
prints no_such_table = true
prints _ = false

is_guards : Option Guard → Bytes → Bool
unfolding guard_overflow_error
is_guards none message = false
is_guards (some g) message = bytes_eq message guard_overflow_error

guard_shown : Option Guard → List Shown
guard_shown none = []
guard_shown (some g) = guarded g.error g.column ∷ []

count_or : Option ℕ → ℕ → ℕ
count_or none n = n
count_or (some m) n = m

is_positive : ℤ → Bool
is_positive (pos n) = ltb 0 n
is_positive (negsuc n) = false

module _ (error_class : Bytes → ErrorClass × Option ℕ) (share : Share) where
  -- The rc, the errors and the key that a failed statement leaves
  failed_modify : Option Guard → Bytes → List Shown × Dml.Modified
  unfolding prints is_guards guard_shown
  failed_modify guard message =
      if is_guards guard message
      then (guard_shown guard, failed generic none)
      else let report = report_stoolap_error error_class message in
        let text = if is_empty message then codes "unknown error" else message in
        (
          map reported report.raised
              ++ (if prints report.rc then printed report.rc text ∷ [] else []),
          failed report.rc (
              if is_dup report.rc then some (errkey_from_view error_class message share) else none),
        )

  found_rows : Modified → ModifyAnswers → Option ℕ
  unfolding rows_counted is_positive
  found_rows m a =
      if is_empty m.count_sql
      then none
      else if not m.one_row
      then rows_counted (count_rows a.before)
      else if is_positive a.rows
      then some (pattern64 a.rows)
      else rows_counted (count_rows a.after)

  -- The statement, with a count before it or after it
  calls_made : State → Modified → ModifyAnswers → List Call
  unfolding is_positive
  calls_made s m a =
      let counts = not (is_empty m.count_sql) in
      let ran = a.exec == stoolap_ok in
      let before = if counts && not m.one_row then call_on s m.count_sql ∷ [] else [] in
      let after =
        if counts && m.one_row && not (is_positive a.rows) && ran
        then call_on s m.count_sql ∷ []
        else [] in
      if has_db s then after ++ (call_on s m.sql ∷ before) else []

  errors_of : State → Modified → ModifyAnswers → List Shown
  unfolding failed_modify
  errors_of s m a =
      if has_db s && not (a.exec == stoolap_ok) then (failed_modify m.guard a.message).0 else []

  answer_of : State → Modified → ModifyAnswers → Dml.Modified
  unfolding failed_modify found_rows count_or
  answer_of s m a =
      if not (has_db s)
      then failed internal_error none
      else if not (a.exec == stoolap_ok)
      then (failed_modify m.guard a.message).1
      else modified (pattern64 a.rows) (count_or (found_rows m a) (pattern64 a.rows))

  run_modify : Thd → Modified → ModifyAnswers → Tried
  unfolding calls_made errors_of answer_of
  run_modify thd m a =
      let s = db (get_thd_ctx thd) a.clone in
      record {
        thd = with_ctx thd s;
        calls = calls_made s m a;
        shown = errors_of s m a;
        hit = has_db s && (a.exec == stoolap_ok);
        answer = answer_of s m a;
      }

  not_tried : Thd → Tried
  not_tried thd = record {
    thd = thd;
    calls = [];
    shown = [];
    hit = false;
    answer = failed wrong_command none;
  }

  try_written : Thd → Bool → Outcome Modified → ModifyAnswers → Tried
  unfolding run_modify not_tried
  try_written thd can (wrote m g) a = if can then run_modify thd m a else not_tried thd
  try_written thd can (refused why) a = not_tried thd

  -- `generated`: gen_modify of the statement, which can_direct_modify tries too.
  unfoldable pub try_direct_modify :
      Session → Select → Items → Outcome Modified → Thd → ModifyAnswers → Tried
  unfolding try_written
  try_direct_modify session s values generated thd a =
      try_written thd (can_direct_modify session s values true) generated a

is_written : Outcome Modified → Bool
is_written (wrote m g) = true
is_written (refused why) = false

-- Whether cond_push takes the condition `it`: `generated` is gen_modify with it.
unfoldable pub cond_push : Session → Select → Items → OptItem → Outcome Modified → Bool
unfolding is_written
cond_push session s values it generated =
    can_direct_modify session s values (is_written generated)
    && (session.trust_bin || not (opt_ci_string it))

-- direct_update_rows_init and direct_delete_rows_init
unfoldable pub direct_rows_init : Session → Select → Items → Outcome Modified → Rc
unfolding is_written
direct_rows_init session s values generated =
    if can_direct_modify session s values (is_written generated) then ok else wrong_command
