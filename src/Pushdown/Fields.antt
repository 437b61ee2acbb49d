-- ===== src/Pushdown/Fields.antt =====
-- The walkers of src/ha_stoolap_select.cc over a statement's items: whether they read a string whose
-- collation folds values, or a column that stoolap does not hold as MariaDB's own value, where stoolap
-- would compare it.
use stoolap_mariadb.Common.{
  ℕ, zero, suc, Bool, true, false, not, ◌&&◌, ◌||◌, Option, none, some, if◌then◌else◌,
}
use stoolap_mariadb.Types.{Field, FieldType, newdecimal, Enc, plain, field_enc}
use stoolap_mariadb.Sqlgen.Items.{Linkage, intersect_type, except_type}
use stoolap_mariadb.Pushdown.Statement.{
  Item, OptItem, Items, Selects, Select, Tables, Query, field, func, sum, cond, ref, subselect,
  other_item, no_item, an_item, no_items, item, gap, no_selects, leg, select, no_tables, entry,
  derived, query,
}

unfoldable pub is_ci : Option Field → Bool
is_ci none = false
is_ci (some f) =
    if not f.has_charset then false else elim f.charset [ none ↦ false | some cs ↦ not cs.binsort ]

is_decimal : FieldType → Bool
is_decimal newdecimal = true
is_decimal _ = false

is_plain : Enc → Bool
is_plain plain = true
is_plain _ = false

unfoldable pub field_not_as_written : Field → Bool
unfolding is_decimal is_plain
field_not_as_written f = is_decimal f.real_type || not (is_plain (field_enc f))

unfoldable pub not_as_written : Option Field → Bool
not_as_written none = false
not_as_written (some f) = field_not_as_written f

-- A bare field of the list that `unsafe` takes
unfoldable pub any_bare : (Option Field → Bool) → Items → Bool
any_bare unsafe no_items = false
any_bare unsafe (gap is) = any_bare unsafe is
any_bare unsafe (item (field c f) is) = unsafe f || any_bare unsafe is
any_bare unsafe (item i is) = any_bare unsafe is

items_of : Select → Items
items_of (select i w h os gs xs ts us) = xs

-- strip_to_bare_field, of at most so many hops: the field, where the item is one or refers to one.
bare_field : ℕ → Item → Option (Option Field)
bare_field zero i = none
bare_field (suc n) (field c f) = some f
bare_field (suc n) (ref c (an_item i)) = bare_field n i
bare_field (suc n) _ = none

has_next : Selects → Bool
has_next (leg s (leg s' ss)) = true
has_next _ = false

is_set_operation : Linkage → Bool
is_set_operation intersect_type = true
is_set_operation except_type = true
is_set_operation _ = false

linkage_of : Select → Linkage
linkage_of (select i w h os gs xs ts us) = i.linkage

any_set_operation : Selects → Bool
unfolding is_set_operation linkage_of
any_set_operation no_selects = false
any_set_operation (leg s ss) = is_set_operation (linkage_of s) || any_set_operation ss

unfoldable mutual
  unfolding is_ci any_bare items_of bare_field has_next any_set_operation

  pub item_uses_ci_string : Item → Bool
  item_uses_ci_string (field c f) = is_ci f
  item_uses_ci_string (func c xs) = any_ci_string xs
  item_uses_ci_string (sum c count xs) = any_ci_string xs
  item_uses_ci_string (cond c xs) = any_ci_string xs
  item_uses_ci_string (ref c i) = opt_ci_string i
  item_uses_ci_string (subselect c exists ss) = subselect_ci exists ss
  item_uses_ci_string (other_item c) = false

  pub opt_ci_string : OptItem → Bool
  opt_ci_string no_item = false
  opt_ci_string (an_item i) = item_uses_ci_string i

  -- order_list_uses_ci_string too
  pub any_ci_string : Items → Bool
  any_ci_string no_items = false
  any_ci_string (gap is) = any_ci_string is
  any_ci_string (item i is) = item_uses_ci_string i || any_ci_string is

  pub subselect_ci : Bool → Selects → Bool
  subselect_ci exists no_selects = false
  subselect_ci exists (leg s ss) =
      select_lex_pushdown_uses_ci s (not exists)
      || (not exists && any_bare is_ci (items_of s))
      || subselect_ci exists ss

  pub select_lex_pushdown_uses_ci : Select → Bool → Bool
  select_lex_pushdown_uses_ci (select i w h os gs xs ts us) projection =
      opt_ci_string w
      || opt_ci_string h
      || any_ci_string os
      || any_ci_string gs
      || any_on_ci ts
      || (projection && projected_ci i.distinct xs)
      || derived_ci projection ts

  pub projected_ci : Bool → Items → Bool
  projected_ci distinct no_items = false
  projected_ci distinct (gap is) = projected_ci distinct is
  projected_ci distinct (item i is) =
      elim (bare_field 8 i) [ none ↦ item_uses_ci_string i | some f ↦ distinct && is_ci f ]
      || projected_ci distinct is

  -- any_on_expr_matches_chain, any_on_expr_matches
  pub any_on_ci : Tables → Bool
  any_on_ci no_tables = false
  any_on_ci (entry on prep sj source nested ts) =
      opt_ci_string on || opt_ci_string prep || opt_ci_string sj || any_on_ci nested || any_on_ci ts

  pub derived_ci : Bool → Tables → Bool
  derived_ci projection no_tables = false
  derived_ci projection (entry on prep sj (derived q) nested ts) =
      query_ci projection q || derived_ci projection ts
  derived_ci projection (entry on prep sj source nested ts) = derived_ci projection ts

  -- unit_pushdown_uses_ci, where there is more than one SELECT
  pub query_ci : Bool → Query → Bool
  query_ci projection (query distinct ss os gs) =
      if has_next ss
      then legs_ci true ss
        || ((distinct || any_set_operation ss || any_ci_string os || any_ci_string gs)
            && legs_project_ci ss)
      else legs_ci projection ss

  pub legs_ci : Bool → Selects → Bool
  legs_ci projection no_selects = false
  legs_ci projection (leg s ss) = select_lex_pushdown_uses_ci s projection || legs_ci projection ss

  pub legs_project_ci : Selects → Bool
  legs_project_ci no_selects = false
  legs_project_ci (leg (select i w h os gs xs ts us) ss) = any_ci_string xs || legs_project_ci ss

unfoldable mutual
  unfolding not_as_written any_bare items_of

  pub item_uses_decimal_field : Item → Bool
  item_uses_decimal_field (field c f) = not_as_written f
  item_uses_decimal_field (func c xs) = any_decimal xs
  item_uses_decimal_field (sum c count xs) = any_decimal xs
  item_uses_decimal_field (cond c xs) = any_decimal xs
  item_uses_decimal_field (ref c i) = opt_decimal i
  item_uses_decimal_field (subselect c exists ss) = subselect_decimal exists ss
  item_uses_decimal_field (other_item c) = false

  pub opt_decimal : OptItem → Bool
  opt_decimal no_item = false
  opt_decimal (an_item i) = item_uses_decimal_field i

  -- order_list_uses_decimal too
  pub any_decimal : Items → Bool
  any_decimal no_items = false
  any_decimal (gap is) = any_decimal is
  any_decimal (item i is) = item_uses_decimal_field i || any_decimal is

  pub subselect_decimal : Bool → Selects → Bool
  subselect_decimal exists no_selects = false
  subselect_decimal exists (leg s ss) =
      select_lex_uses_decimal_field s (not exists)
      || (not exists && any_bare not_as_written (items_of s))
      || subselect_decimal exists ss

  pub select_lex_uses_decimal_field : Select → Bool → Bool
  select_lex_uses_decimal_field (select i w h os gs xs ts us) projection =
      opt_decimal w
      || opt_decimal h
      || any_decimal os
      || any_decimal gs
      || any_on_decimal ts
      || (projection && projected_decimal xs)
      || derived_decimal projection ts

  pub projected_decimal : Items → Bool
  projected_decimal no_items = false
  projected_decimal (gap is) = projected_decimal is
  projected_decimal (item (field c f) is) = projected_decimal is
  projected_decimal (item i is) = item_uses_decimal_field i || projected_decimal is

  pub any_on_decimal : Tables → Bool
  any_on_decimal no_tables = false
  any_on_decimal (entry on prep sj source nested ts) =
      opt_decimal on
      || opt_decimal prep
      || opt_decimal sj
      || any_on_decimal nested
      || any_on_decimal ts

  pub derived_decimal : Bool → Tables → Bool
  derived_decimal projection no_tables = false
  derived_decimal projection (entry on prep sj (derived q) nested ts) =
      query_decimal projection q || derived_decimal projection ts
  derived_decimal projection (entry on prep sj source nested ts) = derived_decimal projection ts

  pub query_decimal : Bool → Query → Bool
  query_decimal projection (query distinct ss os gs) = legs_decimal projection ss

  pub legs_decimal : Bool → Selects → Bool
  legs_decimal projection no_selects = false
  legs_decimal projection (leg s ss) =
      select_lex_uses_decimal_field s projection || legs_decimal projection ss
