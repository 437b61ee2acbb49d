-- ===== src/Pushdown/Direct/Calls.antt =====
-- The statements that try_direct_modify gives stoolap.
use stoolap_mariadb.Common.{
  ℕ, ◌≡◌, refl, sym, subst, ◌∙◌, arith, Bool, true, false, not, ◌&&◌, ◌||◌, List, [], ◌∷◌, ◌++◌,
  Option, none, some, Bytes, ◌==◌, if◌then◌else◌, is_empty,
}
use stoolap_mariadb.ThdContext.{State, db, stoolap_ok}
use stoolap_mariadb.Handler.Schema.{Share}
use stoolap_mariadb.Handler.Errors.{ErrorClass}
use stoolap_mariadb.Handler.Session.{Thd, get_thd_ctx, with_ctx}
use stoolap_mariadb.Handler.Transactions.{thd_tx}
use stoolap_mariadb.Sqlgen.Items as Tree
use stoolap_mariadb.Sqlgen.Gen.{State as GenState, Outcome, wrote, refused, Env}
use stoolap_mariadb.Sqlgen.Comments.{ClosedSql}
use stoolap_mariadb.Sqlgen.Assign as Assign
use stoolap_mariadb.Sqlgen.Modify.{Target, Setting, Modified, gen_modify}
use stoolap_mariadb.Sqlgen.Modify.Safe.{gen_modify-Closed}
use stoolap_mariadb.Pushdown.Statement.{Session, Items, Select, select}
use stoolap_mariadb.Pushdown.Guards.{every_table_is_stoolap, can_direct_modify}
use stoolap_mariadb.Pushdown.Tables.{base_tables, all_true, every_table_is_stoolap_lem}
use stoolap_mariadb.Pushdown.Run.{Call, on_db, on_tx, call_on, has_db}
use stoolap_mariadb.Pushdown.Direct.{
  is_positive, calls_made, ModifyAnswers, run_modify, try_written, try_direct_modify,
}

abbrev pub text_of : Call → Bytes
text_of (on_db sql) = sql
text_of (on_tx tx sql) = sql

abbrev pub tx_of : Call → Option ℕ
tx_of (on_db sql) = none
tx_of (on_tx tx sql) = some tx

-- A call's text is closed but for comments, and it is made on the connection's transaction, where
-- there is one.
abbrev pub AllRight : Option ℕ → List Call → Type 0
AllRight tx [] = Unit
AllRight tx (c ∷ cs) = (ClosedSql (text_of c) × (tx_of c ≡ tx)) × AllRight tx cs

AllRight-append :
    (tx : Option ℕ) (xs ys : List Call) → AllRight tx xs → AllRight tx ys → AllRight tx (xs ++ ys)
AllRight-append tx [] ys h k = k
AllRight-append tx (c ∷ xs) ys h k = (h.0, AllRight-append tx xs ys h.1 k)

AllRight-if :
    (tx : Option ℕ) (b : Bool) (xs ys : List Call)
    → AllRight tx xs
    → AllRight tx ys
    → AllRight tx (if b then xs else ys)
AllRight-if tx true xs ys h k = h
AllRight-if tx false xs ys h k = k

call_on-right : (s : State) (sql : Bytes) → ClosedSql sql → AllRight s.tx (call_on s sql ∷ [])
unfolding call_on
call_on-right s sql h = on_either s.tx
  where
    on_either :
        (tx : Option ℕ) → AllRight tx ((elim tx [ none ↦ on_db sql | some t ↦ on_tx t sql ]) ∷ [])
    on_either none = ((h, refl), tt)
    on_either (some t) = ((h, refl), tt)

tx_kept : (thd : Thd) (clone : Option ℕ) → (db (get_thd_ctx thd) clone).tx ≡ thd_tx thd
unfolding db get_thd_ctx
tx_kept thd clone = ground arith

abbrev IsClosed : Modified → Type 0
IsClosed m = ClosedSql m.sql × ClosedSql m.count_sql

unfoldable pub no_calls : List Call → Bool
no_calls [] = true
no_calls (c ∷ cs) = false

module _ (error_class : Bytes → ErrorClass × Option ℕ) (share : Share) where
  run_modify-right :
      (thd : Thd) (m : Modified) (a : ModifyAnswers)
      → IsClosed m
      → AllRight (thd_tx thd) (run_modify error_class share thd m a).calls
  unfolding run_modify calls_made
  run_modify-right thd m a h =
      let s = db (get_thd_ctx thd) a.clone in
      let same = tx_kept thd a.clone in
      let sql = subst (λ x. AllRight x (call_on s m.sql ∷ [])) same (call_on-right s m.sql h.0) in
      let count =
        subst (λ x. AllRight x (call_on s m.count_sql ∷ [])) same
          (call_on-right s m.count_sql h.1) in
      let counts = not (is_empty m.count_sql) in
      let before =
        AllRight-if (thd_tx thd) (counts && not m.one_row) (call_on s m.count_sql ∷ []) [] count
          tt in
      let after =
        AllRight-if (thd_tx thd)
          (counts && m.one_row && not (is_positive a.rows) && (a.exec == stoolap_ok))
          (call_on s m.count_sql ∷ []) [] count tt in
      let run = AllRight-append (thd_tx thd) (call_on s m.sql ∷ []) _ sql before in
      AllRight-if (thd_tx thd) (has_db s) _ [] (AllRight-append (thd_tx thd) _ _ after run) tt

  run_modify-tx :
      (thd : Thd) (m : Modified) (a : ModifyAnswers)
      → thd_tx (run_modify error_class share thd m a).thd ≡ thd_tx thd
  unfolding run_modify with_ctx
  run_modify-tx thd m a = ground (arith, tx_kept thd a.clone)

allowed :
    (session : Session) (s : Select) (values : Items)
    → can_direct_modify session s values true ≡ true
    → ((every_table_is_stoolap s).0 ≡ true)
      × (session.prepare ≡ false)
      × (session.in_sub_stmt ≡ false)
unfolding can_direct_modify
allowed session (select i w h os gs xs ts us) values can = ground arith

module _ (error_class : Bytes → ErrorClass × Option ℕ) (share : Share) where
  try_written-right :
      (thd : Thd) (can : Bool) (generated : Outcome Modified) (a : ModifyAnswers)
      → ((m : Modified) (g : GenState) → generated ≡ wrote m g → IsClosed m)
      → let t = try_written error_class share thd can generated a in
        AllRight (thd_tx thd) t.calls
        × (thd_tx t.thd ≡ thd_tx thd)
        × (no_calls t.calls || can ≡ true)
  unfolding try_written no_calls
  try_written-right thd true (wrote m g) a h = (
    run_modify-right error_class share thd m a (h m g refl),
    run_modify-tx error_class share thd m a,
    ground arith,
  )
  try_written-right thd false (wrote m g) a h = (tt, refl, refl)
  try_written-right thd can (refused why) a h = (tt, refl, refl)

-- Each statement that a direct UPDATE or DELETE gives stoolap, the count of the rows it finds too,
-- ends outside quotes at the depth of parentheses where it begins, where quotes and parentheses alone
-- are read, and with comments read too unless it opens one; and it is made on the connection's
-- transaction where there is one, which stays as it is. One is made only outside PREPARE, triggers and
-- stored functions, and where all the base tables, of subqueries too, are stoolap's.
pub try_direct_modify-calls :
    (error_class : Bytes → ErrorClass × Option ℕ) (share : Share) (env : Env)
    (modes : Assign.Session) (target : Target) (settings : Option (List Setting))
    (where_cond : Option Tree.Item) (session : Session) (s : Select) (values : Items) (thd : Thd)
    (a : ModifyAnswers)
    → let generated = gen_modify env modes (some target) settings where_cond in
      let t = try_direct_modify error_class share session s values generated thd a in
      AllRight (thd_tx thd) t.calls
      × (thd_tx t.thd ≡ thd_tx thd)
      × (no_calls t.calls || all_true (base_tables s) ≡ true)
      × (no_calls t.calls || not session.prepare && not session.in_sub_stmt ≡ true)
unfolding try_direct_modify
try_direct_modify-calls error_class share env modes target settings where_cond session s values thd
      a =
    let can = can_direct_modify session s values true in
    let generated = gen_modify env modes (some target) settings where_cond in
    let (right, tx, gate) =
      try_written-right error_class share thd can generated a
        (λ m g e. gen_modify-Closed env modes target settings where_cond m g e) in
    let t = try_written error_class share thd can generated a in
    (
      right,
      tx,
      gated (no_calls t.calls) can _ gate
          (λ c. sym (every_table_is_stoolap_lem s).0 ∙ (allowed session s values c).0),
      gated (no_calls t.calls) can _ gate
          (λ c. let (all, prepare, sub) = allowed session s values c in rw (prepare, sub) refl),
    )
  where
    gated :
        (none_made can ok : Bool)
        → none_made || can ≡ true
        → (can ≡ true → ok ≡ true)
        → none_made || ok ≡ true
    gated true can ok h k = refl
    gated false can ok h k = k h
