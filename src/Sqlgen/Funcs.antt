-- ===== src/Sqlgen/Funcs.antt =====
-- The functions of src/stoolap_sqlgen.cc that write values, conditions and calls. An argument comes
-- with what `node` writes for it.
pub mod Safe
pub mod Calls
use stoolap_mariadb.Common.{
  ℕ, ◌+◌, ◌-◌, ◌*◌, ◌/◌, ◌%◌, Bool, true, false, not, ◌&&◌, ◌||◌, List, [], ◌∷◌, ◌++◌, Option, none,
  some, Bytes, String, bytes_eq, codes, leb, ltb, ◌==◌, if◌then◌else◌, length, take, drop, map,
}
use stoolap_mariadb.Types.{CharSet}
use stoolap_mariadb.Sqlgen.Items.{
  Attrs, FuncType, eq_func, ne_func, lt_func, le_func, gt_func, ge_func, equal_func, isnull_func,
  isnotnull_func, not_func, between_func, in_func, like_func, in_optimizer_func, neg_func,
  case_searched_func, case_simple_func, other_func, FuncInfo, CondType, cond_and, cond_or,
  other_cond, Item, column, attrs_of,
}
use stoolap_mariadb.Sqlgen.Classes.{
  Class, int, real, str, unsafe, is_class, numeric, cls, comparable, branches,
}
use stoolap_mariadb.Sqlgen.Gen.{Gen, emit, fail, require, within, ◌⊕◌, Env}
use stoolap_mariadb.Sqlgen.Literals.{literal, temporal_literal}

-- An Item* with what node writes for it
pub record Arg : Type 0 where
  pub of : Item
  pub node : Gen Bytes

is_column : Item → Bool
is_column (column a f) = true
is_column _ = false

unfoldable pub condition : Arg → Gen Bytes
condition x = require (attrs_of x.of).is_bool "non-boolean condition" x.node

unfoldable pub expr : Arg → Gen Bytes
unfolding is_column
expr x =
    if is_column x.of || not (attrs_of x.of).is_bool
    then x.node
    else within (codes "CAST(") (codes " AS INTEGER)") x.node

unfoldable pub branch : Class → Arg → Gen Bytes
branch result x =
    if not (is_class result real) || not (is_class (cls x.of) int)
    then expr x
    else within (codes "CAST(") (codes " AS FLOAT)") (expr x)

more_of : Bytes → (Arg → Gen Bytes) → List Arg → Gen Bytes
more_of sep write [] = emit []
more_of sep write (x ∷ xs) = emit sep ⊕ (write x ⊕ more_of sep write xs)

-- Each argument, `sep` between two
unfoldable pub separated : Bytes → (Arg → Gen Bytes) → List Arg → Gen Bytes
unfolding more_of
separated sep write [] = emit []
separated sep write (x ∷ xs) = write x ⊕ more_of sep write xs

unfoldable pub args_csv : List Arg → Gen Bytes
args_csv = separated (codes ", ") expr

items_of : List Arg → List Item
items_of = map (λ x. x.of)

unfoldable pub parens : Gen Bytes → Gen Bytes
parens = within (codes "(") (codes ")")

unfoldable pub binop : Arg → Bytes → Arg → Gen Bytes
unfolding parens
binop a op b = parens (expr a ⊕ (emit op ⊕ expr b))

all_comparable : Bool → Item → Option CharSet → List Arg → Bool
all_comparable trust_bin a cc [] = true
all_comparable trust_bin a cc (x ∷ xs) =
    comparable trust_bin a x.of cc && all_comparable trust_bin a cc xs

unfoldable pub whens_of : (Arg → Gen Bytes) → Class → List Arg → List Arg → Gen Bytes
whens_of write rc (w ∷ ws) (t ∷ ts) =
    emit (codes " WHEN ")
    ⊕ (write w ⊕ (emit (codes " THEN ") ⊕ (branch rc t ⊕ whens_of write rc ws ts)))
whens_of write rc _ _ = emit []

unfoldable pub else_of : Class → List Arg → Gen Bytes
else_of rc [] = emit []
else_of rc (x ∷ xs) = emit (codes " ELSE ") ⊕ branch rc x

module _ (env : Env) where
  second_literal : FuncInfo → Arg → Arg → Bytes → Option Bytes → Gen Bytes
  unfolding parens binop
  second_literal f a b op (some lit) = parens (emit lit ⊕ (emit op ⊕ expr b))
  second_literal f a b op none =
      require (comparable env.trust_bin a.of b.of f.compare_collation) "comparison" (binop a op b)

  first_literal : FuncInfo → Arg → Arg → Bytes → Option Bytes → Gen Bytes
  unfolding second_literal parens
  first_literal f a b op (some lit) = parens (expr a ⊕ (emit op ⊕ emit lit))
  first_literal f a b op none =
      second_literal f a b op (temporal_literal env b.of a.of f.compare_type)

  compare : FuncInfo → Bytes → List Arg → String → Gen Bytes
  unfolding first_literal
  compare f op (a ∷ b ∷ []) why =
      first_literal f a b op (temporal_literal env a.of b.of f.compare_type)
  compare f op _ why = fail why

  is_null : Bytes → List Arg → Gen Bytes
  is_null closing (a ∷ []) = within (codes "(") closing (expr a)
  is_null closing _ = fail "IS NULL"

  negation : List Arg → Gen Bytes
  negation (a ∷ []) = within (codes "(NOT ") (codes ")") (condition a)
  negation _ = fail "NOT"

  between_op : FuncInfo → Bytes
  between_op f = if f.negated then codes " NOT BETWEEN " else codes " BETWEEN "

  between_values : FuncInfo → Arg → Arg → Arg → Gen Bytes
  unfolding between_op parens
  between_values f a b c =
      require
        (comparable env.trust_bin a.of b.of f.compare_collation
          && comparable env.trust_bin a.of c.of f.compare_collation)
        "BETWEEN"
        (parens (expr a ⊕ (emit (between_op f) ⊕ (expr b ⊕ (emit (codes " AND ") ⊕ expr c)))))

  between_literals : FuncInfo → Arg → Arg → Arg → Option Bytes → Option Bytes → Gen Bytes
  unfolding between_op between_values parens
  between_literals f a b c (some lo) (some hi) =
      parens (expr a ⊕ (emit (between_op f) ⊕ (emit lo ⊕ (emit (codes " AND ") ⊕ emit hi))))
  between_literals f a b c _ _ = between_values f a b c

  between : FuncInfo → List Arg → Gen Bytes
  unfolding between_literals
  between f (a ∷ b ∷ c ∷ []) =
      between_literals f a b c (temporal_literal env a.of b.of none)
        (temporal_literal env a.of c.of none)
  between f _ = fail "BETWEEN"

  in_list : FuncInfo → List Arg → Gen Bytes
  unfolding all_comparable args_csv parens
  in_list f (a ∷ x ∷ xs) = require ((attrs_of a.of).cols == 1) "IN" (
      require (all_comparable env.trust_bin a.of f.compare_collation (x ∷ xs)) "IN value" (
        parens (
          expr a
          ⊕ within (if f.negated then codes " NOT IN (" else codes " IN (") (codes ")")
              (args_csv (x ∷ xs)))))
  in_list f _ = fail "IN"

  sorts_bytes : Option CharSet → Bool
  sorts_bytes none = false
  sorts_bytes (some cs) = cs.binsort

  like : FuncInfo → List Arg → Gen Bytes
  unfolding sorts_bytes parens
  like f (a ∷ b ∷ []) =
      require
        (is_class (cls a.of) str
          && (f.escape == 92)
          && (env.trust_bin || sorts_bytes f.compare_collation))
        "LIKE"
        (require ((attrs_of b.of).basic_const && is_class (cls b.of) str) "LIKE pattern" (
          parens (
            expr a
            ⊕ (emit (if f.negated then codes " NOT LIKE " else codes " LIKE ")
                ⊕ literal (attrs_of b.of)))))
  like f _ = fail "LIKE"

  minus : Item → List Arg → Gen Bytes
  minus self (a ∷ []) =
      require (numeric (cls a.of) && not (is_class (cls self) unsafe)) "unary minus"
        (within (codes "(-") (codes ")") (expr a))
  minus self _ = fail "unary minus"

  case_searched : Item → List Arg → Gen Bytes
  unfolding items_of whens_of else_of
  case_searched self args =
      let whens = length args / 2 in
      let results = drop whens args in
      require (branches self (items_of results)) "CASE result types" (
        within (codes "(CASE") (codes " END)") (
          whens_of condition (cls self) (take whens args) results
          ⊕ else_of (cls self) (drop whens results)))

  -- MariaDB gives a CASE with a value that value's argument first, so there is one.
  case_simple : Item → FuncInfo → List Arg → Gen Bytes
  unfolding items_of whens_of else_of all_comparable
  case_simple self f [] = fail "CASE value types"
  case_simple self f (a ∷ args) =
      let whens = length args / 2 in
      let results = drop whens args in
      require (all_comparable env.trust_bin a.of f.compare_collation (take whens args))
        "CASE value types"
        (require (branches self (items_of results)) "CASE result types" (
          within (codes "(CASE ") (codes " END)") (
            expr a
            ⊕ (whens_of expr (cls self) (take whens args) results
                ⊕ else_of (cls self) (drop whens results)))))

  arithmetic : Item → Bytes → List Arg → Gen Bytes
  unfolding binop
  arithmetic self name (a ∷ b ∷ []) =
      let rc = cls self in
      require
        (numeric (cls a.of)
          && numeric (cls b.of)
          && numeric rc
          && (not (bytes_eq name (codes "/")) || is_class rc real))
        "arithmetic" (binop a (codes " " ++ (name ++ codes " ")) b)
  arithmetic self name _ = fail "arithmetic"

  absolute : Item → List Arg → Gen Bytes
  absolute self (a ∷ []) =
      require (numeric (cls a.of) && numeric (cls self)) "ABS"
        (within (codes "ABS(") (codes ")") (expr a))
  absolute self _ = fail "ABS"

  coalesce : Item → Bytes → List Arg → Gen Bytes
  unfolding items_of
  coalesce self opening args =
      require (leb 1 (length args) && branches self (items_of args)) "COALESCE types"
        (within opening (codes ")") (separated (codes ", ") (branch (cls self)) args))

  null_if : Arg → Arg → Gen Bytes
  unfolding args_csv
  null_if a b =
      require (comparable env.trust_bin a.of b.of none) "NULLIF"
        (within (codes "NULLIF(") (codes ")") (args_csv (a ∷ b ∷ [])))

  nullif : List Arg → Gen Bytes
  unfolding null_if
  nullif (a ∷ b ∷ []) = null_if a b
  nullif (a ∷ b ∷ c ∷ []) = null_if a b
  nullif _ = fail "NULLIF"

  if_func : Item → List Arg → Gen Bytes
  unfolding items_of
  if_func self (c ∷ a ∷ b ∷ []) = require (branches self (items_of (a ∷ b ∷ []))) "IF" (
      within (codes "(CASE WHEN ") (codes " END)") (
        condition c
        ⊕ (emit (codes " THEN ")
            ⊕ (branch (cls self) a ⊕ (emit (codes " ELSE ") ⊕ branch (cls self) b)))))
  if_func self _ = fail "IF"

  char_length : List Arg → Gen Bytes
  char_length (a ∷ []) =
      require (is_class (cls a.of) str) "CHAR_LENGTH"
        (within (codes "LENGTH(") (codes ")") (expr a))
  char_length _ = fail "CHAR_LENGTH"

  all_strings : List Arg → Bool
  all_strings [] = true
  all_strings (x ∷ xs) = is_class (cls x.of) str && all_strings xs

  concat : List Arg → Gen Bytes
  unfolding all_strings parens
  concat args =
      require (all_strings args) "CONCAT argument" (parens (separated (codes " || ") expr args))

  named : Bytes → String → Bool
  named name s = bytes_eq name (codes s)

  named_func : Item → Bytes → List Arg → Gen Bytes
  unfolding named arithmetic absolute coalesce nullif if_func char_length concat
  named_func self name args =
      if named name "+" || named name "-" || named name "*" || named name "/"
      then arithmetic self name args
      else if named name "abs"
      then absolute self args
      else if named name "coalesce"
      then coalesce self (codes "COALESCE(") args
      else if named name "ifnull"
      then coalesce self (codes "IFNULL(") args
      else if named name "nullif"
      then nullif args
      else if named name "if"
      then if_func self args
      else if named name "char_length" || named name "character_length"
      then char_length args
      else if named name "concat"
      then concat args
      else fail "function"

  -- The switch of func, `in_optimizer` being what that method writes for these arguments
  func_of : FuncType → Item → FuncInfo → List Arg → Gen Bytes → Gen Bytes
  unfolding compare is_null negation between in_list like minus case_searched case_simple named_func
  func_of eq_func self f args in_optimizer = compare f (codes " = ") args "comparison"
  func_of ne_func self f args in_optimizer = compare f (codes " <> ") args "comparison"
  func_of lt_func self f args in_optimizer = compare f (codes " < ") args "comparison"
  func_of le_func self f args in_optimizer = compare f (codes " <= ") args "comparison"
  func_of gt_func self f args in_optimizer = compare f (codes " > ") args "comparison"
  func_of ge_func self f args in_optimizer = compare f (codes " >= ") args "comparison"
  func_of equal_func self f args in_optimizer =
      compare f (codes " IS NOT DISTINCT FROM ") args "<=>"
  func_of isnull_func self f args in_optimizer = is_null (codes " IS NULL)") args
  func_of isnotnull_func self f args in_optimizer = is_null (codes " IS NOT NULL)") args
  func_of not_func self f args in_optimizer = negation args
  func_of between_func self f args in_optimizer = between f args
  func_of in_func self f args in_optimizer = in_list f args
  func_of like_func self f args in_optimizer = like f args
  func_of in_optimizer_func self f args in_optimizer = in_optimizer
  func_of neg_func self f args in_optimizer = minus self args
  func_of case_searched_func self f args in_optimizer = case_searched self args
  func_of case_simple_func self f args in_optimizer = case_simple self f args
  func_of other_func self f args in_optimizer = named_func self f.func_name args

  unfoldable pub func : Item → FuncInfo → List Arg → Gen Bytes → Gen Bytes
  unfolding func_of
  func self f args in_optimizer =
      require f.plain_schema "sql_mode function variant"
        (func_of f.functype self f args in_optimizer)

conds : Bytes → List Arg → Gen Bytes
conds sep [] = fail "empty condition"
conds sep (x ∷ xs) = within (codes "(") (codes ")") (separated sep condition (x ∷ xs))

unfoldable pub cond : CondType → List Arg → Gen Bytes
unfolding conds
cond cond_and args = conds (codes " AND ") args
cond cond_or args = conds (codes " OR ") args
cond other_cond args = fail "condition type"
