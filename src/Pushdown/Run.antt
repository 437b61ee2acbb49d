-- ===== src/Pushdown/Run.antt =====
-- run_pushdown of src/ha_stoolap_select.cc, the rows of a pushed query, and the handlers that read
-- them. What the FFI answers is an argument; the times that it takes, and logging, are left out.
pub mod Scan
use stoolap_mariadb.Common.{
  ℕ, Bool, true, false, not, ◌&&◌, List, [], ◌∷◌, ◌++◌, Option, none, some, Bytes, codes, ◌==◌,
  if◌then◌else◌,
}
use stoolap_mariadb.ThdContext.{State, Begun, db, stoolap_ok}
use stoolap_mariadb.Handler.Schema.{Rc, ok, generic, internal_error, end_of_file, is_ok}
use stoolap_mariadb.Handler.Session.{Thd, get_thd_ctx, with_ctx, register_trx}

-- stoolap_query or stoolap_exec on the connection's database, or their twins on its transaction
pub data Call : Type 0 where
  on_db : Bytes → Call
  on_tx : ℕ → Bytes → Call

unfoldable pub call_on : State → Bytes → Call
call_on s sql = elim s.tx [ none ↦ on_db sql | some tx ↦ on_tx tx sql ]

unfoldable pub has_db : State → Bool
has_db s = elim s.db [ none ↦ false | some h ↦ true ]

-- `clone`, `begun`: what opening the database and a transaction would give. `query`: the query's
-- status. `rows`, `cursor`: the pointers are not null. `filled`: the status of
-- stoolap_rows_into_cursor.
pub record RunAnswers : Type 0 where
  pub clone : Option ℕ
  pub begun : Begun
  pub query : ℕ
  pub rows : Bool
  pub cursor : Bool
  pub filled : ℕ

-- PushdownRows::take
unfoldable pub take_rows : RunAnswers → Bool
take_rows a = a.rows && (a.cursor && (a.filled == stoolap_ok))

-- The calls are the newest first; whether there are rows is last.
run_on : Thd → Bytes → Bool → RunAnswers → Thd × List Call × Bool
unfolding call_on take_rows
run_on thd sql explain a =
    let s = get_thd_ctx thd in
    let explained = if explain then call_on s (codes "EXPLAIN " ++ sql) ∷ [] else [] in
    (thd, call_on s sql ∷ explained, (a.query == stoolap_ok) && take_rows a)

unfoldable pub run_pushdown : Thd → Bytes → Bool → RunAnswers → Thd × List Call × Bool
unfolding run_on has_db
run_pushdown thd sql explain a =
    let s = db (get_thd_ctx thd) a.clone in
    if not (has_db s)
    then (with_ctx thd s, [], false)
    else let (thd', rc) = register_trx (with_ctx thd s) a.clone a.begun in
      if not (is_ok rc) then (thd', [], false) else run_on thd' sql explain a

-- PushdownRows: whether it has its cursor, and `described`
pub record Rows : Type 0 where
  pub cursor : Bool
  pub described : Bool

pub data RowStatus : Type 0 where
  row done failed : RowStatus

-- `described`: what stoolap_cursor_set_fields answers. `target`: the error of a store callback.
pub record RowAnswers : Type 0 where
  pub described : ℕ
  pub next : RowStatus
  pub target : Rc

-- The rows after it, the code, and whether an error is raised: PushdownRows::fail
fail_rows : Rows → Rows × Rc × Bool
fail_rows r = (record r { cursor = false }, generic, true)

next_answer : Rows → RowStatus → Rc → Rows × Rc × Bool
unfolding fail_rows
next_answer r row target = (r, ok, false)
next_answer r done target = (r, end_of_file, false)
next_answer r failed target = if is_ok target then fail_rows r else (r, target, false)

-- PushdownRows::next, and next_row of the handlers
unfoldable pub next_row : Rows → RowAnswers → Rows × Rc × Bool
unfolding fail_rows next_answer
next_row r a =
    if not r.cursor
    then (r, end_of_file, false)
    else if not r.described && not (a.described == stoolap_ok)
    then fail_rows r
    else next_answer (record r { described = true }) a.next a.target

unfoldable pub init_scan : Rows → Rc
init_scan r = if r.cursor then ok else internal_error

unfoldable pub end_scan : Rows → Rows × Rc
end_scan r = (record r { cursor = false }, ok)
