-- ===== src/Pushdown/Factories/Parts.antt =====
-- The handlers of a set operation and of a derived table: what the factories give them for.
use stoolap_mariadb.Common.{
  suc, ◌≡◌, refl, sym, ap, ◌∙◌, arith, Bool, true, false, not, ◌&&◌, ◌||◌, List, [], ◌∷◌, ◌++◌,
  Option, none, some, Bytes, codes, if◌then◌else◌,
}
use stoolap_mariadb.Handler.Session.{get_thd_ctx}
use stoolap_mariadb.Handler.Transactions.{Answered, thd_tx, has_handle}
use stoolap_mariadb.Sqlgen.Gen.{Env}
use stoolap_mariadb.Sqlgen.Items as Tree
use stoolap_mariadb.Sqlgen.Comments.{ClosedSql, Closed-ClosedSql}
use stoolap_mariadb.Sqlgen.Node.{gen_unit}
use stoolap_mariadb.Sqlgen.Node.Safe.{fine_text, gen_unit-Fine}
use stoolap_mariadb.Pushdown.Statement.{Session, Selects, Query, no_selects, leg, query}
use stoolap_mariadb.Pushdown.Guards.{every_table_is_stoolap, is_select, can_pushdown_select}
use stoolap_mariadb.Pushdown.Tables.{
  base_tables, leg_tables, query_tables, all_true, some_table, every_table_is_stoolap_lem,
}
use stoolap_mariadb.Pushdown.Run.{call_on, RunAnswers}
use stoolap_mariadb.Pushdown.Factories.{
  Server, run_written, all_pushable, legs_of, has_legs, tops_are_stoolap,
  create_stoolap_derived_handler,
}
use stoolap_mariadb.Pushdown.Factories.Safety.{
  pushable, some_only, run_written-some, run_pushdown-rows,
}

all_true-append : (bs cs : List Bool) → all_true (bs ++ cs) ≡ all_true bs && all_true cs
all_true-append [] cs = refl
all_true-append (true ∷ bs) cs = all_true-append bs cs
all_true-append (false ∷ bs) cs = refl

some_table-append : (bs cs : List Bool) → some_table (bs ++ cs) ≡ some_table bs || some_table cs
unfolding some_table
some_table-append [] cs = refl
some_table-append (b ∷ bs) cs = refl

all_pushable-tables :
    (thd : Session) (ss : Selects) → all_pushable thd ss ≡ true → all_true (leg_tables ss) ≡ true
unfolding all_pushable leg_tables
all_pushable-tables thd no_selects h = refl
all_pushable-tables thd (leg s ss) h =
    let can : can_pushdown_select thd s false ≡ true = ground arith in
    let more : all_pushable thd ss ≡ true = ground arith in
    let first = sym (every_table_is_stoolap_lem s).0 ∙ (pushable thd s false can).0 in
    let others = all_pushable-tables thd ss more in
    all_true-append (base_tables s) (leg_tables ss) ∙ rw (first, others) refl

tops_are_stoolap_lem :
    (ss : Selects) (all any : Bool)
    → (tops_are_stoolap ss all any).0 && (tops_are_stoolap ss all any).1
      ≡ all && (all_true (leg_tables ss) && (any || some_table (leg_tables ss)))
unfolding tops_are_stoolap leg_tables some_table
tops_are_stoolap_lem no_selects all any = ground arith
tops_are_stoolap_lem (leg s ss) false any = refl
tops_are_stoolap_lem (leg s ss) true any = ground (
  arith,
  (every_table_is_stoolap_lem s).0,
  (every_table_is_stoolap_lem s).1,
  all_true-append (base_tables s) (leg_tables ss),
  some_table-append (base_tables s) (leg_tables ss),
  tops_are_stoolap_lem ss (every_table_is_stoolap s).0 (any || (every_table_is_stoolap s).1),
)

tables_of_legs : (q : Query) → leg_tables (legs_of q) ≡ query_tables q
unfolding legs_of query_tables
tables_of_legs (query distinct ss os gs) = refl

none_differs :
    (v v' : Server) (sql : Bytes) (b : Bool) (r : Server × Option Bytes)
    → (if b then (v, none) else r) ≡ (v', some sql)
    → (b ≡ false) × (r ≡ (v', some sql))
none_differs v v' sql true r e = cc
none_differs v v' sql false r e = (refl, e)

-- A handler for a derived table is given only where all the base tables of its query expression are
-- stoolap's; in a SELECT, only where the statement has another engine's table, or none of stoolap's,
-- so that no handler takes the whole statement; where quotes and parentheses alone are read, its SQL
-- ends outside quotes at the depth where it begins, and with comments read too unless it opens one; it
-- ran on the transaction of the connection, which there is in an explicit transaction, after its
-- EXPLAIN where that is asked for, and it counts as one hit.
pub create_stoolap_derived_handler_lem :
    (env : Env) (session : Session) (explain : Bool) (v : Server) (tops : Selects) (q : Query)
    (tree : Tree.Query) (a : RunAnswers) (v' : Server) (sql : Bytes)
    → Answered a.begun
    → create_stoolap_derived_handler env session explain v tops q tree a ≡ (v', some sql)
    → (all_true (query_tables q) ≡ true)
      × (is_select session.command && (all_true (leg_tables tops) && some_table (leg_tables tops))
          ≡ false)
      × ClosedSql sql
      × ((v'.calls
            ≡ call_on (get_thd_ctx v'.thd) sql
              ∷ (if explain
                  then call_on (get_thd_ctx v'.thd) (codes "EXPLAIN " ++ sql) ∷ []
                  else []))
          × (has_handle (thd_tx v'.thd) ≡ (v.thd.in_explicit_txn || has_handle (thd_tx v.thd))))
      × ((v'.hits ≡ suc v.hits) × (v'.misses ≡ v.misses))
unfolding create_stoolap_derived_handler
create_stoolap_derived_handler_lem env session explain v tops q tree a v' sql h e =
    let (all, any) = tops_are_stoolap tops true false in
    let taken = not (has_legs (legs_of q)) || is_select session.command && (all && any) in
    let (over, e1) = none_differs v v' sql taken _ e in
    let (can, r) = some_only v v' sql _ (run_written v explain a (gen_unit env tree)) e1 in
    let ((g, w), run, hits, misses) = run_written-some v explain a (gen_unit env tree) v' sql r in
    (
      ap all_true (sym (tables_of_legs q)) ∙ all_pushable-tables session (legs_of q) can,
      ground (arith, over, tops_are_stoolap_lem tops true false),
      Closed-ClosedSql sql (fine_text _ sql g w (gen_unit-Fine env tree)),
      run_pushdown-rows v.thd sql explain a v'.thd v'.calls h run,
      (hits, misses),
    )
