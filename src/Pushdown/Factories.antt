-- ===== src/Pushdown/Factories.antt =====
-- The factories of src/ha_stoolap_select.cc that give MariaDB a handler for a whole SELECT, a set
-- operation or a derived table. A statement is given as this file reads it and as the generator of
-- SQL does.
pub mod Safety
pub mod Parts
use stoolap_mariadb.Common.{
  ℕ, suc, ◌≡◌, refl, Bool, true, false, not, ◌&&◌, ◌||◌, List, [], ◌∷◌, Option, none, some, Bytes,
  if◌then◌else◌,
}
use stoolap_mariadb.Handler.Session.{Thd}
use stoolap_mariadb.Sqlgen.Gen.{Outcome, wrote, refused, Env}
use stoolap_mariadb.Sqlgen.Items as Tree
use stoolap_mariadb.Sqlgen.Node.{gen_select, gen_unit}
use stoolap_mariadb.Pushdown.Statement.{
  Command, select_command, Session, Select, Selects, Query, no_selects, leg, query,
}
use stoolap_mariadb.Pushdown.Guards.{every_table_is_stoolap, is_select, can_pushdown_select}
use stoolap_mariadb.Pushdown.Run.{Call, RunAnswers, run_pushdown}

-- The connection, g_stats.pushdown_hits and pushdown_misses, and the calls of the FFI
pub record Server : Type 0 where
  pub thd : Thd
  pub hits : ℕ
  pub misses : ℕ
  pub calls : List Call

unfoldable pub count_miss : Server → Server
count_miss v = record v { misses = suc v.misses }

with_rows : Server → Bytes → Thd × List Call × Bool → Server × Option Bytes
unfolding count_miss
with_rows v sql (thd, calls, true) =
    (record v { thd = thd; calls = calls; hits = suc v.hits }, some sql)
with_rows v sql (thd, calls, false) = (count_miss (record v { thd = thd; calls = calls }), none)

-- Runs what the generator has written; a handler is its SQL, over the rows that it took.
unfoldable pub run_written : Server → Bool → RunAnswers → Outcome Bytes → Server × Option Bytes
unfolding with_rows count_miss
run_written v explain a (wrote sql g) = with_rows v sql (run_pushdown v.thd sql explain a)
run_written v explain a (refused why) = (count_miss v, none)

all_pushable : Session → Selects → Bool
all_pushable thd no_selects = true
all_pushable thd (leg s ss) = can_pushdown_select thd s false && all_pushable thd ss

legs_of : Query → Selects
legs_of (query distinct ss os gs) = ss

has_legs : Selects → Bool
has_legs no_selects = false
has_legs (leg s ss) = true

has_next_leg : Selects → Bool
unfolding has_legs
has_next_leg no_selects = false
has_next_leg (leg s ss) = has_legs ss

-- all_stoolap and any, over the statement's own SELECTs
tops_are_stoolap : Selects → Bool → Bool → Bool × Bool
tops_are_stoolap no_selects all any = (all, any)
tops_are_stoolap (leg s ss) all any =
    let (leg_all, leg_any) = every_table_is_stoolap s in
    let rest = tops_are_stoolap ss leg_all (any || leg_any) in if all then rest else (all, any)

-- `explain`: stoolap_thd_explain_pushdown
module _ (env : Env) (session : Session) (explain : Bool) where
  unfoldable pub create_stoolap_select_handler :
      Server → Select → Bool → Bool → Tree.Select → RunAnswers → Server × Option Bytes
  unfolding run_written count_miss
  create_stoolap_select_handler v s in_unit alone tree a =
      if can_pushdown_select session s in_unit
      then run_written v explain a (gen_select env alone tree)
      else (count_miss v, none)

  unfoldable pub create_stoolap_unit_handler :
      Server → Query → Tree.Query → RunAnswers → Server × Option Bytes
  unfolding run_written count_miss all_pushable legs_of has_next_leg
  create_stoolap_unit_handler v q tree a =
      if not (has_next_leg (legs_of q))
      then (v, none)
      else if all_pushable session (legs_of q)
      then run_written v explain a (gen_unit env tree)
      else (count_miss v, none)

  -- `tops`: the SELECTs of the whole statement
  unfoldable pub create_stoolap_derived_handler :
      Server → Selects → Query → Tree.Query → RunAnswers → Server × Option Bytes
  unfolding run_written count_miss all_pushable legs_of has_legs tops_are_stoolap
  create_stoolap_derived_handler v tops q tree a =
      let (all, any) = tops_are_stoolap tops true false in
      if not (has_legs (legs_of q)) || is_select session.command && (all && any)
      then (v, none)
      else if all_pushable session (legs_of q)
      then run_written v explain a (gen_unit env tree)
      else (count_miss v, none)
