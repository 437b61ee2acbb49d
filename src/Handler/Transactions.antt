-- ===== src/Handler/Transactions.antt =====
-- What the callbacks of a connection do to its transaction, over all they may be called with.
use stoolap_mariadb.Common.{
  ℕ, ◌≡◌, ◌≢◌, arith, Bool, true, false, not, ◌&&◌, ◌||◌, List, [], ◌∷◌, Option, none, some, Bytes,
  ◌==◌, if◌then◌else◌,
}
use stoolap_mariadb.ThdContext.{
  Context, begins, commits, rolls_back, Begun, begun, refused, begin, commit, rollback, destroy,
  end_statement, stoolap_ok,
}
use stoolap_mariadb.ThdContext.Lifecycle.{open_after}
use stoolap_mariadb.Handler.Schema.{ok, generic}
use stoolap_mariadb.Handler.Errors.{ErrorClass, raise_commit_error}
use stoolap_mariadb.Handler.Session.{
  Thd, TxIsolation, stoolap_isolation, get_thd_ctx, register_trx, external_lock, Answers, commit_cb,
  rollback_cb, close_connection_cb, start_consistent_snapshot_cb,
}

-- The transaction that the connection holds, none where it has no context.
abbrev pub thd_tx : Thd → Option ℕ
thd_tx thd = elim thd.ha_data [ none ↦ none | some ctx ↦ ctx.tx ]

-- A status that is not STOOLAP_OK goes with a `begin` that gives no handle.
abbrev pub Answered : Begun → Type 0
Answered (begun raw) = Unit {0}
Answered (refused rc) = rc ≢ stoolap_ok

abbrev pub has_handle : Option ℕ → Bool
has_handle none = false
has_handle (some raw) = true

abbrev pub handle_or : ℕ → Option ℕ → ℕ
handle_or n none = n
handle_or n (some raw) = raw

-- Registering a statement succeeds only with a transaction open where the session is in an explicit
-- one: the one it had, with no call of the FFI, or else one begun by one call at the session's
-- isolation (snapshot for REPEATABLE READ and SERIALIZABLE). In autocommit none is begun or ended.
register_trx_lem :
    (thd : Thd) (clone : Option ℕ) (answer : Begun)
    → Answered answer
    → (register_trx thd clone answer).1 ≡ ok
    → let thd' = (register_trx thd clone answer).0 in
      let begins_one = thd.in_explicit_txn && not (has_handle (thd_tx thd)) in
      (thd'.registered_statement ≡ true)
      × (has_handle (thd_tx thd') ≡ (thd.in_explicit_txn || has_handle (thd_tx thd)))
      × ((if begins_one then none else thd_tx thd') ≡ (if begins_one then none else thd_tx thd))
      × (thd'.trace ≡ (
          if begins_one
          then begins (handle_or 0 (thd_tx thd')) (stoolap_isolation thd.tx_isolation) ∷ thd.trace
          else thd.trace))
unfolding register_trx begin
register_trx_lem thd clone answer a h = ground arith

-- Whether the callback ends the transaction: COMMIT, or the end of an autocommit statement.
abbrev pub real_end : Thd → Bool → Bool
real_end thd all = all || not thd.in_explicit_txn

-- A commit callback with a transaction open commits it where the commit is real and the statement
-- ended well; else the transaction stays open with no call of the FFI. A failure of either is the
-- code that raise_commit_error returns.
pub commit_cb_lem :
    (error_class : Bytes → ErrorClass × Option ℕ) (thd : Thd) (all : Bool) (answers : Answers)
    (ctx : Context) (raw : ℕ)
    → thd.ha_data ≡ some ctx
    → ctx.tx ≡ some raw
    → let (thd', rc) = commit_cb error_class thd all answers in
      let statement_ok = end_statement (get_thd_ctx thd) answers.statement == stoolap_ok in
      let commit_it = statement_ok && real_end thd all in
      (thd_tx thd' ≡ (if commit_it then none else some raw))
      × (thd'.trace ≡ (if commit_it then commits raw ∷ thd.trace else thd.trace))
      × (rc ≡ (
          if not statement_ok
          then (raise_commit_error error_class answers.statement_message).rc
          else if commit_it && not (answers.transaction == stoolap_ok)
          then (raise_commit_error error_class answers.transaction_message).rc
          else ok))
unfolding commit_cb commit
commit_cb_lem error_class thd all answers ctx raw h h' = ground arith

-- A rollback callback that is real rolls an open transaction back, however the statement ended.
rollback_cb_lem :
    (thd : Thd) (all : Bool) (answers : Answers) (ctx : Context) (raw : ℕ)
    → thd.ha_data ≡ some ctx
    → ctx.tx ≡ some raw
    → let (thd', rc) = rollback_cb thd all answers in
      (thd_tx thd' ≡ (if real_end thd all then none else some raw))
      × (thd'.trace ≡ (if real_end thd all then rolls_back raw ∷ thd.trace else thd.trace))
      × (rc ≡ (if real_end thd all && not (answers.transaction == stoolap_ok) then generic else ok))
unfolding rollback_cb rollback
rollback_cb_lem thd all answers ctx raw h h' = ground arith

pub data Callback : Type 0 where
  locks : Bool → Option ℕ → Begun → Callback
  does_commit does_rollback : Bool → Answers → Callback
  does_snapshot : Option ℕ → Begun → Callback
  closes : Callback
  switches : Bool → TxIsolation → Callback

-- The connection after a callback; `switches` is what MariaDB sets.
abbrev pub after_callback : (Bytes → ErrorClass × Option ℕ) → Thd → Callback → Thd
after_callback class thd (locks unlock clone answer) = (external_lock thd unlock clone answer).0
after_callback class thd (does_commit all answers) = (commit_cb class thd all answers).0
after_callback class thd (does_rollback all answers) = (rollback_cb thd all answers).0
after_callback class thd (does_snapshot clone answer) =
    (start_consistent_snapshot_cb thd clone answer).0
after_callback class thd closes = (close_connection_cb thd).0
after_callback class thd (switches explicit isolation) = record thd {
  in_explicit_txn = explicit;
  tx_isolation = isolation;
}

abbrev pub after_callbacks : (Bytes → ErrorClass × Option ℕ) → Thd → List Callback → Thd
after_callbacks class thd [] = thd
after_callbacks class thd (c ∷ cs) = after_callbacks class (after_callback class thd c) cs

-- The FFI's log is right so far and leaves open what the connection holds.
abbrev pub OwnsTx : Thd → Type 0
OwnsTx thd = open_after thd.trace ≡ some (thd_tx thd)

after_callback-OwnsTx :
    (class : Bytes → ErrorClass × Option ℕ) (thd : Thd) (c : Callback)
    → OwnsTx thd
    → OwnsTx (after_callback class thd c)
unfolding external_lock register_trx commit_cb rollback_cb close_connection_cb
    start_consistent_snapshot_cb begin commit rollback destroy
after_callback-OwnsTx class thd (locks unlock clone answer) h = ground arith
after_callback-OwnsTx class thd (does_commit all answers) h = ground arith
after_callback-OwnsTx class thd (does_rollback all answers) h = ground arith
after_callback-OwnsTx class thd (does_snapshot clone answer) h = ground arith
after_callback-OwnsTx class thd closes h = ground arith
after_callback-OwnsTx class thd (switches explicit isolation) h = ground arith

after_callbacks-OwnsTx :
    (class : Bytes → ErrorClass × Option ℕ) (thd : Thd) (cs : List Callback)
    → OwnsTx thd
    → OwnsTx (after_callbacks class thd cs)
after_callbacks-OwnsTx class thd [] h = h
after_callbacks-OwnsTx class thd (c ∷ cs) h =
    after_callbacks-OwnsTx class (after_callback class thd c) cs
      (after_callback-OwnsTx class thd c h)

-- From a connection whose log is right, after any callbacks with any answers of the FFI and any
-- change of session options, closing the connection leaves no transaction open: each that was begun
-- has been committed or rolled back once, and never two were open.
pub close_connection_cb-ends_all :
    (class : Bytes → ErrorClass × Option ℕ) (thd : Thd) (cs : List Callback)
    → OwnsTx thd
    → open_after (close_connection_cb (after_callbacks class thd cs)).0.trace ≡ some none
unfolding close_connection_cb destroy
close_connection_cb-ends_all class thd cs h = ground (arith, after_callbacks-OwnsTx class thd cs h)
