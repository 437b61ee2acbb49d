-- ===== src/Pushdown/Factories/Safety.antt =====
-- What a handler that a factory gives has passed, and how its query ran.
use stoolap_mariadb.Common.{
  suc, ◌≡◌, refl, sym, subst, ap, ◌∙◌, arith, Bool, true, false, ◌||◌, List, [], ◌∷◌, ◌++◌, Option,
  none, some, Bytes, codes, if◌then◌else◌,
}
use stoolap_mariadb.ThdContext.{db, begin}
use stoolap_mariadb.Handler.Schema.{is_ok}
use stoolap_mariadb.Handler.Session.{Thd, get_thd_ctx, with_ctx, register_trx}
use stoolap_mariadb.Handler.Transactions.{Answered, thd_tx, has_handle}
use stoolap_mariadb.Sqlgen.Gen.{State as GenState, Outcome, wrote, refused, Env}
use stoolap_mariadb.Sqlgen.Items as Tree
use stoolap_mariadb.Sqlgen.Comments.{ClosedSql, Closed-ClosedSql}
use stoolap_mariadb.Sqlgen.Node.{gen_select}
use stoolap_mariadb.Sqlgen.Node.Safe.{fine_text, gen_select-Fine}
use stoolap_mariadb.Pushdown.Statement.{Session, Select}
use stoolap_mariadb.Pushdown.Guards.{every_table_is_stoolap, can_pushdown_select}
use stoolap_mariadb.Pushdown.Tables.{base_tables, all_true, some_table, every_table_is_stoolap_lem}
use stoolap_mariadb.Pushdown.Run.{Call, call_on, RunAnswers, run_pushdown, has_db}
use stoolap_mariadb.Pushdown.Factories.{
  Server, count_miss, with_rows, run_written, create_stoolap_select_handler,
}

-- A query that gives rows ran after its SQL was registered, on the transaction where there is one: in
-- an explicit transaction there is. EXPLAIN of it ran before where that is asked for.
pub run_pushdown-rows :
    (thd : Thd) (sql : Bytes) (explain : Bool) (a : RunAnswers) (thd' : Thd) (calls : List Call)
    → Answered a.begun
    → run_pushdown thd sql explain a ≡ (thd', calls, true)
    → (calls
        ≡ call_on (get_thd_ctx thd') sql
          ∷ (if explain then call_on (get_thd_ctx thd') (codes "EXPLAIN " ++ sql) ∷ [] else []))
      × (has_handle (thd_tx thd') ≡ (thd.in_explicit_txn || has_handle (thd_tx thd)))
unfolding run_pushdown has_db register_trx begin db get_thd_ctx with_ctx is_ok
run_pushdown-rows thd sql explain a thd' calls h e = ground arith

ran :
    (v : Server) (explain : Bool) (a : RunAnswers) (text : Bytes) (g : GenState) (v' : Server)
    (sql : Bytes) (out : Thd × List Call × Bool)
    → run_pushdown v.thd text explain a ≡ out
    → with_rows v text out ≡ (v', some sql)
    → ((g' : GenState) × (wrote text g ≡ wrote sql g'))
      × (run_pushdown v.thd sql explain a ≡ (v'.thd, v'.calls, true))
      × (v'.hits ≡ suc v.hits)
      × (v'.misses ≡ v.misses)
unfolding with_rows
ran v explain a text g v' sql (thd, calls, false) r e = cc
ran v explain a text g v' sql (thd, calls, true) r e =
    let same : text ≡ sql = cc in
    let server : record v { thd = thd; calls = calls; hits = suc v.hits } ≡ v' = ap (λ p. p.0) e in
    (
      (g, ap (λ x. wrote x g) same),
      subst (λ x. run_pushdown v.thd x explain a ≡ (v'.thd, v'.calls, true)) same
          (r ∙ ap (λ x. (x.thd, x.calls, true)) server),
      sym (ap (λ x. x.hits) server),
      sym (ap (λ x. x.misses) server),
    )

-- A factory that gives a handler ran what the generator has written.
pub run_written-some :
    (v : Server) (explain : Bool) (a : RunAnswers) (r : Outcome Bytes) (v' : Server) (sql : Bytes)
    → run_written v explain a r ≡ (v', some sql)
    → ((g : GenState) × (r ≡ wrote sql g))
      × (run_pushdown v.thd sql explain a ≡ (v'.thd, v'.calls, true))
      × (v'.hits ≡ suc v.hits)
      × (v'.misses ≡ v.misses)
unfolding run_written
run_written-some v explain a (refused why) v' sql e = cc
run_written-some v explain a (wrote text g) v' sql e =
    ran v explain a text g v' sql (run_pushdown v.thd text explain a) refl e

pub pushable :
    (thd : Session) (s : Select) (in_unit : Bool)
    → can_pushdown_select thd s in_unit ≡ true
    → ((every_table_is_stoolap s).0 ≡ true)
      × ((every_table_is_stoolap s).1 ≡ true)
      × (thd.prepare ≡ false)
      × (thd.in_sub_stmt ≡ false)
unfolding can_pushdown_select
pushable thd s in_unit h = ground arith

pub some_only :
    (v v' : Server) (sql : Bytes) (b : Bool) (r : Server × Option Bytes)
    → (if b then r else (count_miss v, none)) ≡ (v', some sql)
    → (b ≡ true) × (r ≡ (v', some sql))
some_only v v' sql true r e = (refl, e)
some_only v v' sql false r e = cc

-- A handler for a whole SELECT is given only outside PREPARE, triggers and stored functions, and
-- only where all its base tables, of its derived tables and its subqueries too, are stoolap's, and
-- there is one; where quotes and parentheses alone are read, its SQL ends outside quotes at the depth
-- where it begins, however the names and the literals are spelt, and with comments read too unless it
-- opens one; it ran on the transaction of the connection, which there is in an explicit transaction,
-- after its EXPLAIN where that is asked for; and it counts as one hit.
pub create_stoolap_select_handler_lem :
    (env : Env) (session : Session) (explain : Bool) (v : Server) (s : Select)
    (in_unit alone : Bool) (tree : Tree.Select) (a : RunAnswers) (v' : Server) (sql : Bytes)
    → Answered a.begun
    → create_stoolap_select_handler env session explain v s in_unit alone tree a ≡ (v', some sql)
    → ((session.prepare ≡ false) × (session.in_sub_stmt ≡ false))
      × ((all_true (base_tables s) ≡ true) × (some_table (base_tables s) ≡ true))
      × ClosedSql sql
      × ((v'.calls
            ≡ call_on (get_thd_ctx v'.thd) sql
              ∷ (if explain
                  then call_on (get_thd_ctx v'.thd) (codes "EXPLAIN " ++ sql) ∷ []
                  else []))
          × (has_handle (thd_tx v'.thd) ≡ (v.thd.in_explicit_txn || has_handle (thd_tx v.thd))))
      × ((v'.hits ≡ suc v.hits) × (v'.misses ≡ v.misses))
unfolding create_stoolap_select_handler
create_stoolap_select_handler_lem env session explain v s in_unit alone tree a v' sql h e =
    let (can, r) = some_only v v' sql _ (run_written v explain a (gen_select env alone tree)) e in
    let ((g, w), run, hits, misses) =
      run_written-some v explain a (gen_select env alone tree) v' sql r in
    let (all, any, prepare, sub) = pushable session s in_unit can in
    let tables = every_table_is_stoolap_lem s in
    (
      (prepare, sub),
      (sym tables.0 ∙ all, sym tables.1 ∙ any),
      Closed-ClosedSql sql (fine_text _ sql g w (gen_select-Fine env alone tree)),
      run_pushdown-rows v.thd sql explain a v'.thd v'.calls h run,
      (hits, misses),
    )
