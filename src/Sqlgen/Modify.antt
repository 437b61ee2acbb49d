-- ===== src/Sqlgen/Modify.antt =====
-- A single-table UPDATE or DELETE, as src/stoolap_sqlgen.cc writes it: `modify`, `pk_equality` and
-- gen_modify.
pub mod Safe
use stoolap_mariadb.Common.{
  ℕ, ◌+◌, ◌-◌, ◌^◌, Bool, true, false, not, ◌&&◌, ◌||◌, List, [], ◌∷◌, ◌++◌, Option, none, some,
  Bytes, String, codes, ltb, leb, ◌==◌, if◌then◌else◌,
}
use stoolap_mariadb.Common.Int.{ℤ, pos, negsuc, pos_part, neg_part}
use stoolap_mariadb.Handler.Savepoints.{decimal}
use stoolap_mariadb.Types.{
  CharSet, Field, FieldType, tiny, short, int24, long, year, double, varchar, var_string, tiny_blob,
  blob, medium_blob, long_blob,
}
use stoolap_mariadb.Sqlgen.Items.{
  Attrs, FieldTable, BoundField, FuncType, eq_func, FuncInfo, CondType, cond_and, cond_or,
  other_cond, Item, OptItem, Items, column, ref, constant, null_item, param, func, cond, no_items,
  item, attrs_of, real_item,
}
use stoolap_mariadb.Sqlgen.Classes.{Class, int, real, str, unsafe, is_class, cls}
use stoolap_mariadb.Sqlgen.Gen.{
  Gen, State, Outcome, wrote, refused, ◌>>=◌, pure, emit, fail, require, within, ◌⊕◌, signed, ident,
  Env, fresh,
}
use stoolap_mariadb.Sqlgen.Funcs.{Arg, condition, expr}
use stoolap_mariadb.Sqlgen.Node.{node}
use stoolap_mariadb.Sqlgen.Assign.{Session, Guard, GuardError, Assigned, assignment}

-- The primary key's only column, where it has one; `table` is the TABLE.
key_column : ℕ → ℕ → Item → Bool
key_column table pk (column a (some f)) = elim f.table [
  | none ↦ false
  | some t ↦ t.table == table && (f.field.field_index == pk)
]
key_column table pk _ = false

is_eq : FuncType → Bool
is_eq eq_func = true
is_eq _ = false

key_equals : ℕ → ℕ → FuncInfo → Items → Bool
unfolding key_column is_eq
key_equals table pk f (item a (item b no_items)) =
    is_eq f.functype
    && (key_column table pk (real_item a) && (attrs_of b).const_item
        || key_column table pk (real_item b) && (attrs_of a).const_item)
key_equals table pk f _ = false

unfoldable mutual
  unfolding key_equals

  pub pk_equality : ℕ → ℕ → Item → Bool
  pk_equality table pk (cond a cond_and xs) = any_pk_equality table pk xs
  pk_equality table pk (func a f xs) = key_equals table pk f xs
  pk_equality table pk _ = false

  pub any_pk_equality : ℕ → ℕ → Items → Bool
  any_pk_equality table pk no_items = false
  any_pk_equality table pk (item i is) = pk_equality table pk i || any_pk_equality table pk is

-- The table that get_table_list gives, where it is one stored table: its TABLE_LIST, TABLE and name,
-- whether it has CHECK constraints or an ON UPDATE default, its primary key's only column
pub record Target : Type 0 where
  pub list : ℕ
  pub table : ℕ
  pub name : Bytes
  pub has_checks : Bool
  pub has_update_default : Bool
  pub pk : Option ℕ

-- A SET list: each target with its value, none where the values have run out
pub record Setting : Type 0 where
  pub target : Item
  pub value : Option Item

-- The statement, its guard, and the count of the rows found: its SQL, empty for none, and one_row
pub record Modified : Type 0 where
  pub sql : Bytes
  pub guard : Option Guard
  pub count_sql : Bytes
  pub one_row : Bool

-- The SET list's text, the changes that it makes, and the guard
pub record Sets : Type 0 where
  pub text : Bytes
  pub changes : Bytes
  pub guard : Option Guard

is_nothing : Bytes → Bool
is_nothing [] = true
is_nothing (c ∷ s) = false

add_change : Session → Bytes → Bytes → Bytes → Bytes → Bytes
unfolding is_nothing
add_change session name set stored changes =
    if session.changed_only
    then changes
      ++ ((if is_nothing changes then [] else codes " OR ")
          ++ (name ++ (codes "." ++ (set ++ (codes " IS DISTINCT FROM " ++ stored)))))
    else changes

push_assigned : ℕ → Gen Bytes
push_assigned address s = wrote [] (record s { assigned = address ∷ s.assigned })

clear_assigned : Gen Bytes
clear_assigned s = wrote [] (record s { assigned = [] })

is_table : ℕ → Option FieldTable → Bool
is_table table none = false
is_table table (some t) = t.table == table

module _ (env : Env) (session : Session) where
  set_one : Target → Item → BoundField → Item → Sets → Bool → Gen Sets
  unfolding assignment add_change push_assigned is_table
  set_one t target fl v so_far first = require (is_table t.table fl.table) "SET target" (do
    let name = ident fl.field.name
    one ← assignment session target fl (record { of = v; node = node env v }) so_far.guard
    pushed ← push_assigned fl.address
    pure (record {
      text =
          so_far.text
          ++ ((if first then [] else codes ", ") ++ (name ++ (codes " = " ++ one.text)));
      changes = add_change session (ident t.name) name one.stored so_far.changes;
      guard = one.guard;
    }))

  set_field : Target → Item → Item → Sets → Bool → Gen Sets
  unfolding set_one
  set_field t (column a (some fl)) v so_far first = set_one t (column a (some fl)) fl v so_far first
  set_field t _ v so_far first = fail "SET target"

  set_target : Target → Setting → Sets → Bool → Gen Sets
  unfolding set_field
  set_target t s so_far first = elim s.value [
    | none ↦ fail "SET without a value"
    | some v ↦ set_field t s.target v so_far first
  ]

  set_list : Target → List Setting → Sets → Bool → Gen Sets
  unfolding set_target
  set_list t [] so_far first = pure so_far
  set_list t (s ∷ ss) so_far first = do next ← set_target t s so_far first; set_list t ss next false

  update_head : Target → List Setting → Gen Sets
  unfolding set_list clear_assigned
  update_head t settings = require (not t.has_checks) "CHECK constraint" (
      require (not t.has_update_default) "ON UPDATE default" (do
        let head = codes "UPDATE " ++ (ident t.name ++ codes " SET ")
        sets ← set_list t settings (record { text = head; changes = []; guard = none }) true
        cleared ← clear_assigned
        pure sets))

  -- The statement up to its WHERE: `settings` of an UPDATE, none of a DELETE
  head : Target → Option (List Setting) → Gen Sets
  unfolding update_head
  head t (some settings) = update_head t settings
  head t none =
      pure (record { text = codes "DELETE FROM " ++ ident t.name; changes = []; guard = none })

  where_text : Option Item → Gen Bytes
  where_text none = emit []
  where_text (some w) = condition (record { of = w; node = node env w })

  nullable : Option Item → Bool
  nullable none = false
  nullable (some w) = (attrs_of w).maybe_null

  filter_text : Bytes → Bytes → Bool → Bytes
  unfolding is_nothing
  filter_text cond_sql changes may_be_null =
      if not (is_nothing changes) && not (is_nothing cond_sql)
      then codes " WHERE ("
        ++ (cond_sql
            ++ (codes ")"
                ++ ((if may_be_null
                      then codes " AND ((" ++ (cond_sql ++ codes ") IS NOT NULL)")
                      else [])
                    ++ (codes " AND (" ++ (changes ++ codes ")")))))
      else if not (is_nothing changes)
      then codes " WHERE (" ++ (changes ++ codes ")")
      else if not (is_nothing cond_sql)
      then codes " WHERE " ++ cond_sql
      else []

  count_text : Bytes → Bytes → Bytes → Bytes
  unfolding is_nothing
  count_text name cond_sql changes =
      if is_nothing changes
      then []
      else codes "SELECT COUNT(*) FROM "
        ++ (name ++ (if is_nothing cond_sql then [] else codes " WHERE " ++ cond_sql))

  finds_one : Target → Bytes → Option Item → Bool
  unfolding is_nothing
  finds_one t changes none = false
  finds_one t changes (some w) =
      not (is_nothing changes) && elim t.pk [ none ↦ false | some pk ↦ pk_equality t.table pk w ]

  -- alias_[t] = name
  name_table : Target → Gen Bytes
  name_table t s = wrote [] (record s { alias = (t.list, ident t.name) ∷ s.alias })

  modify : Option Target → Option (List Setting) → Option Item → Gen Modified
  unfolding head where_text nullable filter_text count_text finds_one name_table
  modify none settings where_cond = fail "modified table"
  modify (some t) settings where_cond = do
    named ← name_table t
    sets ← head t settings
    cond_sql ← where_text where_cond
    pure (record {
      sql = sets.text ++ filter_text cond_sql sets.changes (nullable where_cond);
      guard = sets.guard;
      count_sql = count_text (ident t.name) cond_sql sets.changes;
      one_row = finds_one t sets.changes where_cond;
    })

  unfoldable pub gen_modify : Option Target → Option (List Setting) → Option Item → Outcome Modified
  unfolding modify
  gen_modify t settings where_cond = modify t settings where_cond fresh
