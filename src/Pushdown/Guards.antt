-- ===== src/Pushdown/Guards.antt =====
-- The conditions of src/ha_stoolap_select.cc on a statement: every_table_is_stoolap,
-- can_pushdown_select and can_direct_modify.
use stoolap_mariadb.Common.{Bool, true, false, not, ◌&&◌, ◌||◌, ◌==◌}
use stoolap_mariadb.Pushdown.Statement.{
  Command, select_command, update_command, delete_command, Session, Info, Item, OptItem, Items,
  Selects, Select, Tables, Source, Query, Units, field, func, sum, cond, ref, subselect, other_item,
  no_item, an_item, no_items, item, no_selects, leg, select, no_tables, entry, no_table, base,
  derived, query, no_units, inner,
}
use stoolap_mariadb.Pushdown.Fields.{
  opt_ci_string, any_ci_string, any_on_ci, opt_decimal, any_decimal, any_on_decimal, not_as_written,
  any_bare,
}

-- The answer, and has_any_table after it: a walk stops at the first table of another engine.
unfoldable pub walk_then : Bool × Bool → (Bool → Bool × Bool) → Bool × Bool
walk_then (false, any) next = (false, any)
walk_then (true, any) next = next any

unfoldable pub base_is_stoolap : Bool → Bool → Bool × Bool
base_is_stoolap stoolap any = (stoolap, true)

unfoldable mutual
  unfolding walk_then base_is_stoolap

  pub every_table_is_stoolap_impl : Select → Bool → Bool × Bool
  every_table_is_stoolap_impl (select i w h os gs xs ts us) any =
      walk_then (tables_are_stoolap ts any) (λ a. units_are_stoolap us a)

  pub tables_are_stoolap : Tables → Bool → Bool × Bool
  tables_are_stoolap no_tables any = (true, any)
  tables_are_stoolap (entry on prep sj source nested ts) any =
      walk_then (source_is_stoolap source any) (λ a. tables_are_stoolap ts a)

  pub source_is_stoolap : Source → Bool → Bool × Bool
  source_is_stoolap no_table any = (true, any)
  source_is_stoolap (base stoolap) any = base_is_stoolap stoolap any
  source_is_stoolap (derived q) any = query_is_stoolap q any

  pub query_is_stoolap : Query → Bool → Bool × Bool
  query_is_stoolap (query distinct ss os gs) any = legs_are_stoolap ss any

  pub legs_are_stoolap : Selects → Bool → Bool × Bool
  legs_are_stoolap no_selects any = (true, any)
  legs_are_stoolap (leg s ss) any =
      walk_then (every_table_is_stoolap_impl s any) (λ a. legs_are_stoolap ss a)

  pub units_are_stoolap : Units → Bool → Bool × Bool
  units_are_stoolap no_units any = (true, any)
  units_are_stoolap (inner q us) any =
      walk_then (query_is_stoolap q any) (λ a. units_are_stoolap us a)

unfoldable pub every_table_is_stoolap : Select → Bool × Bool
every_table_is_stoolap s = every_table_is_stoolap_impl s false

unfoldable pub is_select : Command → Bool
is_select select_command = true
is_select _ = false

is_update : Command → Bool
is_update update_command = true
is_update _ = false

is_delete : Command → Bool
is_delete delete_command = true
is_delete _ = false

is_nothing : OptItem → Bool
is_nothing no_item = true
is_nothing (an_item i) = false

is_empty : Items → Bool
is_empty no_items = true
is_empty _ = false

const_item : Item → Bool
const_item (field c f) = c
const_item (func c xs) = c
const_item (sum c count xs) = c
const_item (cond c xs) = c
const_item (ref c i) = c
const_item (subselect c exists ss) = c
const_item (other_item c) = c

-- The chain's first table is no derived one.
first_is_base : Tables → Bool
first_is_base no_tables = false
first_is_base (entry on prep sj (derived q) nested ts) = false
first_is_base (entry on prep sj source nested ts) = true

counts_constant : Items → Bool
unfolding const_item
counts_constant (item (sum c true (item a no_items)) is) = const_item a
counts_constant _ = false

-- COUNT(*) over a single base table, and no more
bare_count : Select → Bool
unfolding is_nothing is_empty first_is_base counts_constant
bare_count (select i w h os gs xs ts us) =
    (i.table_count == 1)
    && (i.item_count == 1)
    && is_nothing w
    && is_nothing h
    && is_empty gs
    && is_empty os
    && not i.explicit_limit
    && first_is_base ts
    && counts_constant xs

info_of : Select → Info
info_of (select i w h os gs xs ts us) = i

-- `in_unit`: there is a sel_unit.
unfoldable pub can_pushdown_select : Session → Select → Bool → Bool
unfolding every_table_is_stoolap is_select bare_count info_of
can_pushdown_select thd s in_unit =
    let i = info_of s in
    let (all, any) = every_table_is_stoolap s in
    not in_unit
    && not thd.prepare
    && not thd.in_procedure
    && not thd.in_sub_stmt
    && is_select thd.command
    && not thd.interceptor
    && not i.side_effect
    && not i.rand
    && i.unlocked
    && (all && any)
    && not (bare_count s)

items_unsafe_for_pushdown : Session → OptItem → Bool
items_unsafe_for_pushdown thd root = not thd.trust_bin && opt_ci_string root || opt_decimal root

any_unsafe : Session → Items → Bool
any_unsafe thd xs = not thd.trust_bin && any_ci_string xs || any_decimal xs

-- Before the SQL is tried: `values` are lex->value_list.
may_modify : Session → Select → Items → Bool
unfolding every_table_is_stoolap is_update is_delete is_empty items_unsafe_for_pushdown any_unsafe
may_modify thd (select i w h os gs xs ts us) values =
    let (all, any) = every_table_is_stoolap (select i w h os gs xs ts us) in
    not thd.prepare
    && not thd.in_procedure
    && not thd.in_sub_stmt
    && (is_update thd.command || is_delete thd.command)
    && (i.table_count == 1)
    && is_empty os
    && not i.limited
    && not i.side_effect
    && not (items_unsafe_for_pushdown thd w)
    && not (any_on_ci ts && not thd.trust_bin)
    && not (any_on_decimal ts)
    && not (is_update thd.command && (any_unsafe thd values || any_bare not_as_written xs))
    && (all && any)
    && not (is_delete thd.command && thd.ignore)

-- `generated`: gen_modify has written the statement.
unfoldable pub can_direct_modify : Session → Select → Items → Bool → Bool
unfolding may_modify
can_direct_modify thd s values generated = may_modify thd s values && generated
