-- ===== src/Sqlgen/Query.antt =====
-- A query expression of src/stoolap_sqlgen.cc: its legs with their set operations and its own ORDER BY
-- and LIMIT; and the subqueries that stand in an expression.
pub mod Safe
pub mod Refs
use stoolap_mariadb.Common.{
  ℕ, ◌+◌, ◌-◌, Bool, true, false, not, ◌&&◌, ◌||◌, List, [], ◌∷◌, ◌++◌, Option, none, some, Bytes,
  codes, leb, ltb, ◌==◌, if◌then◌else◌, length, get_elem?,
}
use stoolap_mariadb.Sqlgen.Items.{
  Attrs, BoundField, FieldTable, RefType, plain_ref, direct_ref, view_ref, outer_ref, aggregate_ref,
  other_ref, SubType, singlerow_subs, exists_subs, in_subs, other_subs, Linkage, union_type,
  intersect_type, except_type, other_linkage, Limit, QueryInfo, Item, column, attrs_of, real_item,
}
use stoolap_mariadb.Sqlgen.Classes.{Class, unsafe, is_class, cls, comparable, orderable}
use stoolap_mariadb.Sqlgen.Gen.{
  Gen, State, wrote, refused, ◌>>=◌, pure, emit, fail, require, within, ◌⊕◌, find_at, has_at, ident,
  pos_name, Env,
}
use stoolap_mariadb.Sqlgen.Funcs.{Arg, expr}
use stoolap_mariadb.Sqlgen.Sums.{Key}
use stoolap_mariadb.Sqlgen.Select.{Names, Leg, limit}

pub record QueryCode : Type 0 where
  pub info : QueryInfo
  pub types : List Item
  pub legs : List Leg
  pub global_limit : Option Limit
  pub global_order : List Key

is_union : Linkage → Bool
is_union union_type = true
is_union _ = false

-- Whether a leg after the first compares rows
dedups : List Leg → Bool
unfolding is_union
dedups [] = false
dedups (l ∷ ls) = l.info.distinct || not (is_union l.info.linkage) || dedups ls

all_word : Bool → Bytes
all_word distinct = if distinct then [] else codes "ALL "

link_word : Linkage → Bool → Gen Bytes
unfolding all_word
link_word union_type distinct = emit (codes " UNION " ++ all_word distinct)
link_word intersect_type distinct = emit (codes " INTERSECT " ++ all_word distinct)
link_word except_type distinct = emit (codes " EXCEPT " ++ all_word distinct)
link_word other_linkage distinct = fail "set operation"

leg_text : List Class → Names → Leg → Gen Bytes
leg_text cols names l =
    require (not (l.ordered || l.info.limit.explicit_limit)) "set operation leg ORDER BY / LIMIT"
      (require (length l.items == length cols) "set operation columns" (l.write names (some cols)))

more_legs : List Class → List Leg → Gen Bytes
unfolding link_word leg_text
more_legs cols [] = emit []
more_legs cols (l ∷ ls) =
    link_word l.info.linkage l.info.distinct ⊕ (leg_text cols none l ⊕ more_legs cols ls)

-- The column of a set operation's result that an ORDER item names; hidden ones stand in front.
position : QueryInfo → ℕ → Option BoundField → Option ℕ
position u columns none = none
position u columns (some f) = elim f.table [
  | none ↦ none
  | some t ↦ elim u.table [
    | none ↦ none
    | some (table, fields) ↦
        let i = f.field.field_index in
        let hidden = fields - columns in
        if not (t.table == table) || ltb fields columns || ltb i hidden || leb columns (i - hidden)
        then none
        else some (i - hidden)
  ]
]

bound_field : Item → Option (Option BoundField)
bound_field (column a f) = some f
bound_field _ = none

position_name : Names → ℕ → Gen Bytes
position_name none i = emit (pos_name i)
position_name (some names) i = elim (get_elem? names i) [
  | none ↦ fail "derived column names"
  | some name ↦ emit (ident name)
]

reset_exists : Gen Bytes
reset_exists s = wrote [] (record s { exists_list = false })

module _ (env : Env) where
  column_classes : Bool → List Item → Gen (List Class)
  column_classes dedup [] = pure []
  column_classes dedup (t ∷ ts) =
      require (not (is_class (cls t) unsafe)) "set operation column type" (
        require (not dedup || orderable env.trust_bin t) "set operation compare type"
          (do rest ← column_classes dedup ts; pure (cls t ∷ rest)))

  key_at : QueryInfo → ℕ → Names → Bool → Item → Gen Bytes
  unfolding position position_name bound_field
  key_at u columns names desc i = elim (bound_field i) [
    | none ↦ fail "order item"
    | some f ↦ elim (position u columns f) [
      | none ↦ fail "set operation ORDER BY"
      | some n ↦ require (orderable env.trust_bin i) "ORDER / GROUP type" (
          position_name names n
          ⊕ emit (if desc then codes " DESC NULLS LAST" else codes " ASC NULLS FIRST"))
    ]
  ]

  global_keys : QueryInfo → ℕ → Names → Bytes → List Key → Gen Bytes
  unfolding key_at
  global_keys u columns names before [] = emit []
  global_keys u columns names before (k ∷ ks) =
      elim k.of [
        | none ↦ fail "order item"
        | some x ↦ emit before ⊕ key_at u columns names k.desc (real_item x.of)
      ]
      ⊕ global_keys u columns names (codes ", ") ks

  global_text : QueryCode → ℕ → Names → Gen Bytes
  unfolding global_keys
  global_text q columns names = elim q.global_limit [
    | none ↦ emit []
    | some l ↦
        require (not l.with_ties) "WITH TIES"
          (global_keys q.info columns names (codes " ORDER BY ") q.global_order ⊕ limit l)
  ]

  set_operation : QueryCode → Names → Leg → List Leg → Gen Bytes
  unfolding dedups more_legs leg_text column_classes global_text reset_exists
  set_operation q names first others = require (not q.info.recursive) "recursive CTE" (
      reset_exists ⊕ do
        cols ← column_classes (dedups others) q.types
        (leg_text cols names first ⊕ (more_legs cols others ⊕ global_text q (length cols) names)))

  -- unit, of the legs
  unit_of : QueryCode → Names → List Leg → Gen Bytes
  unfolding set_operation
  unit_of q names [] = fail "empty query expression"
  unit_of q names (first ∷ []) = first.write names none
  unit_of q names (first ∷ (l ∷ ls)) = set_operation q names first (l ∷ ls)

  unfoldable pub unit : QueryCode → Names → Gen Bytes
  unfolding unit_of
  unit q names = unit_of q names q.legs

  -- `exists_list_ = true;` before it
  mark_exists : Gen Bytes → Gen Bytes
  mark_exists g s = g (record s { exists_list = true })

  unfoldable pub exists : QueryCode → Gen Bytes
  unfolding mark_exists
  exists q = within (codes "(EXISTS (") (codes "))") (mark_exists (unit q none))

  one_column : Item → List Item → Gen Bytes
  one_column left (i ∷ []) =
      require (comparable env.trust_bin left i none) "IN subquery types" (emit [])
  one_column left _ = fail "IN subquery columns"

  legs_fit : Item → List Leg → Gen Bytes
  unfolding one_column
  legs_fit left [] = emit []
  legs_fit left (l ∷ ls) = one_column left l.items ⊕ legs_fit left ls

  some_leg : List Leg → Bool
  some_leg [] = false
  some_leg (l ∷ ls) = true

  unfoldable pub in_subquery : Option Arg → QueryCode → Gen Bytes
  unfolding legs_fit some_leg
  in_subquery none q = fail "IN subquery left"
  in_subquery (some left) q = require ((attrs_of left.of).cols == 1) "IN subquery left" (
      require (some_leg q.legs) "IN subquery columns" (
        legs_fit left.of q.legs
        ⊕ within (codes "(") (codes ")")
            (expr left ⊕ within (codes " IN (") (codes ")") (unit q none))))

  unfoldable pub subselect : SubType → Option Arg → QueryCode → Gen Bytes
  subselect singlerow_subs left q = within (codes "(") (codes ")") (unit q none)
  subselect exists_subs left q = exists q
  subselect in_subs left q = in_subquery left q
  subselect other_subs left q = fail "ANY / ALL subquery"

  -- in_optimizer, whose second argument is a subquery
  unfoldable pub optimized : SubType → Arg → QueryCode → Gen Bytes
  optimized exists_subs a q = exists q
  optimized in_subs a q = in_subquery (some a) q
  optimized _ a q = fail "ANY / ALL subquery"

alias_of : Option BoundField → Gen (Bytes × Bytes)
alias_of none s = refused "unbound field"
alias_of (some f) s = elim f.table [
  | none ↦ refused "unbound field"
  | some t ↦
      if has_at f.address s.assigned
      then refused "SET reads a column it assigned"
      else elim (find_at t.list s.alias) [
        | none ↦ refused "field of unknown table"
        | some alias ↦ wrote (alias, f.field.name) s
      ]
]

unfoldable pub field : Option BoundField → Gen Bytes
unfolding alias_of
field f = do found ← alias_of f; emit (found.0 ++ (codes "." ++ ident found.1))

target : Option Arg → Gen Bytes
target none = fail "dangling reference"
target (some x) = expr x

-- A view's column: the item that the reference points at, by its address
view : ℕ → Option Arg → Gen Bytes
unfolding target
view at none s = target none s
view at (some x) s = elim (find_at at s.view_cols) [
  | some text ↦ wrote text s
  | none ↦ target (some x) s
]

unfoldable pub reference : RefType → ℕ → Option Arg → Gen Bytes
unfolding target view
reference other_ref at x = fail "reference type"
reference view_ref at x = view at x
reference _ at x = target x
