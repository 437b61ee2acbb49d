-- ===== src/Handler/Session.antt =====
-- The connection's side of src/ha_stoolap.cc: get_thd_ctx, register_trx and the handlerton's
-- callbacks of transactions. What the FFI answers is an argument.
use stoolap_mariadb.Common.{
  ℕ, Bool, true, not, ◌||◌, List, Option, none, some, Bytes, ◌==◌, if◌then◌else◌,
}
use stoolap_mariadb.Bridge.{Engine}
use stoolap_mariadb.ThdContext.{
  Context, new_context, State, TxCall, Begun, has_tx, begin, commit, rollback, destroy,
  end_statement, stoolap_ok,
}
use stoolap_mariadb.Handler.Schema.{Rc, ok, generic}
use stoolap_mariadb.Handler.Errors.{ErrorClass, raise_commit_error}

-- MariaDB's enum_tx_isolation
pub data TxIsolation : Type 0 where
  read_uncommitted read_committed repeatable_read serializable : TxIsolation

-- STOOLAP_ISOLATION_READ_COMMITTED, STOOLAP_ISOLATION_SNAPSHOT
abbrev pub isolation_read_committed : ℕ
isolation_read_committed = 0

abbrev pub isolation_snapshot : ℕ
isolation_snapshot = 1

unfoldable pub stoolap_isolation : TxIsolation → ℕ
stoolap_isolation repeatable_read = isolation_snapshot
stoolap_isolation serializable = isolation_snapshot
stoolap_isolation _ = isolation_read_committed

-- A THD, as the engine sees it: its ha_data, its options NOT_AUTOCOMMIT | BEGIN, the scopes that
-- trans_register_ha was called for; with the Engine and the FFI's transactions.
pub record Thd : Type 0 where
  pub ha_data : Option Context
  pub in_explicit_txn : Bool
  pub tx_isolation : TxIsolation
  pub registered_statement : Bool
  pub registered_all : Bool
  pub engine : Engine
  pub trace : List TxCall

abbrev pub ctx_or_new : Option Context → Context
ctx_or_new none = new_context
ctx_or_new (some ctx) = ctx

-- The context that get_thd_ctx returns, made where the THD has none.
unfoldable pub get_thd_ctx : Thd → State
get_thd_ctx thd = record { ctx = ctx_or_new thd.ha_data; engine = thd.engine; trace = thd.trace }

-- The THD after what was done through its context.
unfoldable pub with_ctx : Thd → State → Thd
with_ctx thd s = record thd { ha_data = some s.ctx; engine = s.engine; trace = s.trace }

unfoldable pub trans_register_statement : Thd → Thd
trans_register_statement thd = record thd { registered_statement = true }

unfoldable pub trans_register_all : Thd → Thd
trans_register_all thd = record thd { registered_all = true }

-- A `begin` whose failure is HA_ERR_GENERIC.
begin_or_fail : Thd → ℕ → Option ℕ → Begun → Thd × Rc
unfolding get_thd_ctx with_ctx
begin_or_fail thd isolation clone answer =
    let (s, rc) = begin (get_thd_ctx thd) isolation clone answer in
    (with_ctx thd s, if rc == stoolap_ok then ok else generic)

unfoldable pub register_trx : Thd → Option ℕ → Begun → Thd × Rc
unfolding trans_register_statement trans_register_all get_thd_ctx with_ctx begin_or_fail
register_trx thd clone answer =
    let thd1 = trans_register_statement (with_ctx thd (get_thd_ctx thd)) in
    if not thd1.in_explicit_txn
    then (thd1, ok)
    else let thd2 = trans_register_all thd1 in
      if has_tx (get_thd_ctx thd2)
      then (thd2, ok)
      else begin_or_fail thd2 (stoolap_isolation thd2.tx_isolation) clone answer

-- F_UNLCK ends a statement.
unfoldable pub external_lock : Thd → Bool → Option ℕ → Begun → Thd × Rc
external_lock thd unlock clone answer = if unlock then (thd, ok) else register_trx thd clone answer

-- What the FFI answers to the end of a statement and of a transaction, with the messages.
pub record Answers : Type 0 where
  pub statement : ℕ
  pub statement_message : Bytes
  pub transaction : ℕ
  pub transaction_message : Bytes

module _ (error_class : Bytes → ErrorClass × Option ℕ) where
  end_commit : Thd → State → Bool → Answers → Thd × Rc
  unfolding with_ctx
  end_commit thd s all answers =
      if not (end_statement s answers.statement == stoolap_ok)
      then (with_ctx thd s, (raise_commit_error error_class answers.statement_message).rc)
      else if not (all || not thd.in_explicit_txn) || not (has_tx s)
      then (with_ctx thd s, ok)
      else let (s', rc) = commit s answers.transaction in
        (
          with_ctx thd s',
          if rc == stoolap_ok
              then ok
              else (raise_commit_error error_class answers.transaction_message).rc,
        )

  unfoldable pub commit_cb : Thd → Bool → Answers → Thd × Rc
  unfolding end_commit get_thd_ctx
  commit_cb thd all answers = elim thd.ha_data [
    | none ↦ (thd, ok)
    | some _ ↦ end_commit thd (get_thd_ctx thd) all answers
  ]

-- A failed end of the statement is only logged.
end_rollback : Thd → State → Bool → Answers → Thd × Rc
unfolding with_ctx
end_rollback thd s all answers =
    if not (all || not thd.in_explicit_txn) || not (has_tx s)
    then (with_ctx thd s, ok)
    else let (s', rc) = rollback s answers.transaction in
      (with_ctx thd s', if rc == stoolap_ok then ok else generic)

unfoldable pub rollback_cb : Thd → Bool → Answers → Thd × Rc
unfolding end_rollback get_thd_ctx
rollback_cb thd all answers = elim thd.ha_data [
  | none ↦ (thd, ok)
  | some _ ↦ end_rollback thd (get_thd_ctx thd) all answers
]

closed : Thd → Option Context → Thd
unfolding get_thd_ctx
closed thd none = thd
closed thd (some ctx) =
    let s = destroy (get_thd_ctx thd) in
    record thd { ha_data = none; engine = s.engine; trace = s.trace }

unfoldable pub close_connection_cb : Thd → Thd × Rc
unfolding closed
close_connection_cb thd = (closed thd thd.ha_data, ok)

unfoldable pub start_consistent_snapshot_cb : Thd → Option ℕ → Begun → Thd × Rc
unfolding trans_register_statement trans_register_all get_thd_ctx with_ctx
start_consistent_snapshot_cb thd clone answer =
    let s = get_thd_ctx thd in
    if has_tx s
    then (with_ctx thd s, ok)
    else let (s', rc) = begin s isolation_snapshot clone answer in
      let thd' = with_ctx thd s' in
      if rc == stoolap_ok
      then (trans_register_all (trans_register_statement thd'), ok)
      else (thd', generic)
