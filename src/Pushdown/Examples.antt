-- ===== src/Pushdown/Examples.antt =====
-- Pushed statements on small trees.
use stoolap_mariadb.Common.{
  ◌≤◌, ◌≡◌, ◌≢◌, refl, ap, ◌∙◌, arith, true, false, ◌&&◌, ◌||◌, List, [], ◌∷◌, ◌++◌, none, some,
  codes, if◌then◌else◌,
}
use stoolap_mariadb.Common.Int.{pos}
use stoolap_mariadb.ThdContext.{begun, begin, db, stoolap_ok}
use stoolap_mariadb.Handler.Schema.{ok, is_ok, generic}
use stoolap_mariadb.Handler.Session.{get_thd_ctx, with_ctx, register_trx}
use stoolap_mariadb.Handler.Transactions.{thd_tx, has_handle}
use stoolap_mariadb.Packet.{done, fault}
use stoolap_mariadb.Samples.{idle_thd, writing_thd, class_of, sample_share}
use stoolap_mariadb.Sqlgen.Gen.{wrote}
use stoolap_mariadb.Sqlgen.Items.{other_linkage}
use stoolap_mariadb.Sqlgen.Comments.{ClosedSql}
use stoolap_mariadb.Sqlgen.Modify.{gen_modify}
use stoolap_mariadb.Sqlgen.Node.{gen_select, gen_unit}
use stoolap_mariadb.Sqlgen.Examples.{
  env, a_select, a_query, select_text, after_select, gen_select_test, gen_unit_test, session,
  target, settings, where_name, modified, after_update,
}
use stoolap_mariadb.Pushdown.Statement.{
  select_command, update_command, Session, Info, Select, Selects, Query, no_item, no_items,
  no_selects, leg, select, no_tables, entry, base, derived, query, no_units,
}
use stoolap_mariadb.Pushdown.Guards.{every_table_is_stoolap_impl, is_select, can_pushdown_select}
use stoolap_mariadb.Pushdown.Tables.{base_tables, leg_tables, query_tables, all_true, some_table}
use stoolap_mariadb.Pushdown.Run.{
  call_on, RunAnswers, run_pushdown, Rows, RowAnswers, row, failed, end_scan, next_row,
}
use stoolap_mariadb.Pushdown.Run.Scan.{
  errors_raised, codes_returned, only_ends, next_row-raises_once,
}
use stoolap_mariadb.Pushdown.Factories.{
  Server, run_written, create_stoolap_select_handler, create_stoolap_derived_handler,
}
use stoolap_mariadb.Pushdown.Factories.Safety.{create_stoolap_select_handler_lem}
use stoolap_mariadb.Pushdown.Factories.Parts.{create_stoolap_derived_handler_lem}
use stoolap_mariadb.Pushdown.Direct.{ModifyAnswers, count_rows, try_direct_modify}
use stoolap_mariadb.Pushdown.Direct.Calls.{AllRight, no_calls, try_direct_modify-calls}
use stoolap_mariadb.Pushdown.Direct.Errors.{try_direct_modify-shown, class_error}
use stoolap_mariadb.Pushdown.Direct.Count.{packed_count, count_rows-packed}

abbrev selecting : Session
selecting = record {
  prepare = false;
  in_procedure = false;
  in_sub_stmt = false;
  command = select_command;
  interceptor = false;
  ignore = false;
  trust_bin = false;
}

abbrev info : Info
info = record {
  linkage = other_linkage;
  distinct = false;
  table_count = 2;
  item_count = 1;
  side_effect = false;
  rand = false;
  unlocked = true;
  explicit_limit = false;
  limited = false;
}

-- Two tables of stoolap
abbrev stmt : Select
stmt =
    select info no_item no_item no_items no_items no_items
      (entry no_item no_item no_item (base true) no_tables
        (entry no_item no_item no_item (base true) no_tables no_tables))
      no_units

abbrev run_answers : RunAnswers
run_answers = record {
  clone = none;
  begun = begun 5;
  query = 0;
  rows = true;
  cursor = true;
  filled = 0;
}

abbrev server : Server
server = record { thd = idle_thd; hits = 3; misses = 1; calls = [] }

server_after : Server
unfolding run_written
server_after = (run_written server true run_answers (wrote select_text after_select)).0

select_handler_test :
    create_stoolap_select_handler env selecting true server stmt false true a_select run_answers
    ≡ (server_after, some select_text)
unfolding create_stoolap_select_handler can_pushdown_select run_written server_after run_pushdown
    register_trx begin db get_thd_ctx with_ctx every_table_is_stoolap_impl gen_select is_ok
select_handler_test = ap (run_written server true run_answers) gen_select_test ∙ refl

create_stoolap_select_handler_lem_example :
    ((selecting.prepare ≡ false) × (selecting.in_sub_stmt ≡ false))
    × ((all_true (base_tables stmt) ≡ true) × (some_table (base_tables stmt) ≡ true))
    × ClosedSql select_text
    × ((server_after.calls
          ≡ call_on (get_thd_ctx server_after.thd) select_text
            ∷ (call_on (get_thd_ctx server_after.thd) (codes "EXPLAIN " ++ select_text) ∷ []))
        × (has_handle (thd_tx server_after.thd) ≡ true))
    × ((server_after.hits ≡ 4) × (server_after.misses ≡ 1))
create_stoolap_select_handler_lem_example =
    create_stoolap_select_handler_lem env selecting true server stmt false true a_select run_answers
      server_after select_text tt select_handler_test

-- The derived table reads the two tables, the statement a table of another engine too.
abbrev mixed : Selects
mixed =
    leg
      (select info no_item no_item no_items no_items no_items
        (entry no_item no_item no_item
          (derived (query false (leg stmt no_selects) no_items no_items)) no_tables
          (entry no_item no_item no_item (base false) no_tables no_tables))
        no_units)
      no_selects

abbrev derived_query : Query
derived_query = query false (leg stmt no_selects) no_items no_items

derived_handler_test :
    create_stoolap_derived_handler env selecting true server mixed derived_query a_query run_answers
    ≡ (server_after, some select_text)
unfolding create_stoolap_derived_handler can_pushdown_select run_written server_after run_pushdown
    register_trx begin db get_thd_ctx with_ctx every_table_is_stoolap_impl gen_unit is_ok is_select
derived_handler_test = ap (run_written server true run_answers) gen_unit_test ∙ refl

create_stoolap_derived_handler_lem_example :
    (all_true (query_tables derived_query) ≡ true)
    × (is_select selecting.command && (all_true (leg_tables mixed) && some_table (leg_tables mixed))
        ≡ false)
    × ClosedSql select_text
    × ((server_after.calls
          ≡ call_on (get_thd_ctx server_after.thd) select_text
            ∷ (call_on (get_thd_ctx server_after.thd) (codes "EXPLAIN " ++ select_text) ∷ []))
        × (has_handle (thd_tx server_after.thd) ≡ true))
    × ((server_after.hits ≡ 4) × (server_after.misses ≡ 1))
create_stoolap_derived_handler_lem_example =
    create_stoolap_derived_handler_lem env selecting true server mixed derived_query a_query
      run_answers server_after select_text tt derived_handler_test

abbrev opened : Rows
opened = record { cursor = true; described = false }

abbrev two_rows : List RowAnswers
two_rows =
    record { described = 0; next = row; target = ok }
    ∷ record { described = 0; next = failed; target = ok }
    ∷ record { described = 0; next = failed; target = ok }
    ∷ []

abbrev first_row : RowAnswers
first_row = record { described = 1; next = row; target = ok }

next_row-raises_once_example :
    let (r', rc, raised) = next_row opened first_row in
    (errors_raised opened (first_row ∷ two_rows) ≤ 1)
    × (raised ≡ true
        → (rc ≡ generic)
          × (r'.cursor ≡ false)
          × (errors_raised r' two_rows ≡ 0)
          × (codes_returned r' two_rows ≡ only_ends two_rows))
    × (errors_raised (end_scan opened).0 two_rows ≡ 0)
    × (codes_returned (end_scan opened).0 two_rows ≡ only_ends two_rows)
next_row-raises_once_example = next_row-raises_once opened first_row two_rows

next_row-raises_once_test : errors_raised opened two_rows ≡ 1
unfolding errors_raised next_row is_ok
next_row-raises_once_test = refl

abbrev updating : Session
updating = record selecting { command = update_command }

abbrev one_table : Select
one_table =
    select (record info { table_count = 1 }) no_item no_item no_items no_items no_items
      (entry no_item no_item no_item (base true) no_tables no_tables) no_units

abbrev refusing : ModifyAnswers
refusing = record {
  clone = none;
  before = (0, some (packed_count (codes "COUNT(*)") 3));
  exec = 1;
  rows = pos 0;
  message = codes "duplicate";
  after = (0, none);
}

try_direct_modify-calls_example :
    let generated = gen_modify env session (some target) settings (some where_name) in
    let t =
      try_direct_modify class_of sample_share updating one_table no_items generated writing_thd
        refusing in
    AllRight (some 9) t.calls
    × (thd_tx t.thd ≡ some 9)
    × (no_calls t.calls || all_true (base_tables one_table) ≡ true)
    × (no_calls t.calls || true ≡ true)
try_direct_modify-calls_example =
    try_direct_modify-calls class_of sample_share env session target settings (some where_name)
      updating one_table no_items writing_thd refusing

try_direct_modify-shown_example :
    let t =
      try_direct_modify class_of sample_share updating one_table no_items
        (wrote modified after_update)
        writing_thd
        refusing in
    t.shown ≡ (
      if no_calls t.calls || t.hit
      then []
      else class_error (class_of (codes "duplicate")).0 (codes "duplicate") ∷ [])
try_direct_modify-shown_example =
    try_direct_modify-shown class_of sample_share updating one_table no_items
      (wrote modified after_update) writing_thd refusing refl

count_rows-packed_example :
    (count_rows (stoolap_ok, some (packed_count (codes "COUNT(*)") 3)) ≡ done (some 3))
    × (count_rows (0, some (1 ∷ 0 ∷ [])) ≢ fault)
count_rows-packed_example =
    count_rows-packed (codes "COUNT(*)") 3 (0, some (1 ∷ 0 ∷ [])) (omega arith) (omega arith)
