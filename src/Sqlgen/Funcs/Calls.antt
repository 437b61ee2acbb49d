-- ===== src/Sqlgen/Funcs/Calls.antt =====
-- What `func` and the methods that it calls write is closed where it is for their arguments.
use stoolap_mariadb.Common.{
  ◌/◌, ◌≡◌, refl, Bool, true, false, List, [], ◌∷◌, Option, none, some, Bytes, String, codes, arith,
  bytes_eq_iff, if◌then◌else◌, length, ◌||◌,
}
use stoolap_mariadb.Sqlgen.Items.{
  FuncType, eq_func, ne_func, lt_func, le_func, gt_func, ge_func, equal_func, isnull_func,
  isnotnull_func, not_func, between_func, in_func, like_func, in_optimizer_func, neg_func,
  case_searched_func, case_simple_func, other_func, FuncInfo, Item, attrs_of,
}
use stoolap_mariadb.Sqlgen.Classes.{cls}
use stoolap_mariadb.Sqlgen.Gen.{Gen, within, Env}
use stoolap_mariadb.Sqlgen.Lexer.{Closed, Closed-of, Closed-append, lex, step, outside}
use stoolap_mariadb.Sqlgen.Safe.{
  Safe, Safe-fail, Safe-require, Safe-if, Safe-emit, Safe-emit_closed, ◌▸◌, Safe-within, Closed-if,
}
use stoolap_mariadb.Sqlgen.Literals.Safe.{literal-Safe, temporal_literal-Closed, ClosedOption}
use stoolap_mariadb.Sqlgen.Funcs.Safe.{
  AllSafe, condition-Safe, expr-Safe, parens-Safe, binop-Safe, branch-Safe, separated-Safe,
  args_csv-Safe, whens_of-Safe, else_of-Safe, take-AllSafe, drop-AllSafe,
}
use stoolap_mariadb.Sqlgen.Funcs.{
  Arg, condition, expr, branch, second_literal, first_literal, compare, is_null, negation,
  between_op, between_values, between_literals, between, in_list, like, minus, case_searched,
  case_simple, arithmetic, absolute, coalesce, null_if, nullif, if_func, char_length, concat, named,
  named_func, func_of, func,
}

module _ (env : Env) where
  second_literal-Safe :
      (f : FuncInfo) (a b : Arg) (op : Bytes) (lit : Option Bytes)
      → ClosedOption lit
      → Safe a.node
      → Safe b.node
      → Closed op
      → Safe (second_literal env f a b op lit)
  unfolding second_literal
  second_literal-Safe f a b op none hl ha hb ho = Safe-require _ _ (binop-Safe a op b ha hb ho)
  second_literal-Safe f a b op (some lit) hl ha hb ho =
      parens-Safe (Safe-emit_closed hl ▸ Safe-emit_closed ho ▸ expr-Safe b hb)

  first_literal-Safe :
      (f : FuncInfo) (a b : Arg) (op : Bytes) (lit : Option Bytes)
      → ClosedOption lit
      → Safe a.node
      → Safe b.node
      → Closed op
      → Safe (first_literal env f a b op lit)
  unfolding first_literal
  first_literal-Safe f a b op none hl ha hb ho =
      second_literal-Safe f a b op _ (temporal_literal-Closed env b.of a.of f.compare_type) ha hb ho
  first_literal-Safe f a b op (some lit) hl ha hb ho =
      parens-Safe (expr-Safe a ha ▸ Safe-emit_closed ho ▸ Safe-emit_closed hl)

  compare-Safe :
      (f : FuncInfo) (op : Bytes) (xs : List Arg) (why : String)
      → Closed op
      → AllSafe xs
      → Safe (compare env f op xs why)
  unfolding compare
  compare-Safe f op (a ∷ b ∷ []) why ho all =
      first_literal-Safe f a b op _ (temporal_literal-Closed env a.of b.of f.compare_type) all.0
        all.1.0 ho
  compare-Safe f op _ why ho all = Safe-fail _

  is_null-Safe :
      (closing : Bytes) (xs : List Arg)
      → lex (outside 1) closing ≡ outside 0
      → AllSafe xs
      → Safe (is_null env closing xs)
  unfolding is_null lex step
  is_null-Safe closing (a ∷ []) h all = Safe-within _ _ refl h (expr-Safe a all.0)
  is_null-Safe closing _ h all = Safe-fail _

  negation-Safe : (xs : List Arg) → AllSafe xs → Safe (negation env xs)
  unfolding negation lex step
  negation-Safe (a ∷ []) all = Safe-within _ _ refl refl (condition-Safe a all.0)
  negation-Safe _ all = Safe-fail _

  between_op-Closed : (f : FuncInfo) → Closed (between_op env f)
  unfolding between_op lex step
  between_op-Closed f = Closed-if f.negated (Closed-of _ refl) (Closed-of _ refl)

  between_values-Safe :
      (f : FuncInfo) (a b c : Arg)
      → Safe a.node
      → Safe b.node
      → Safe c.node
      → Safe (between_values env f a b c)
  unfolding between_values lex step
  between_values-Safe f a b c ha hb hc = Safe-require _ _ (
      parens-Safe (
        expr-Safe a ha
        ▸ Safe-emit_closed (between_op-Closed f)
        ▸ expr-Safe b hb
        ▸ Safe-emit _ refl
        ▸ expr-Safe c hc))

  between_literals-Safe :
      (f : FuncInfo) (a b c : Arg) (lo hi : Option Bytes)
      → ClosedOption lo
      → ClosedOption hi
      → Safe a.node
      → Safe b.node
      → Safe c.node
      → Safe (between_literals env f a b c lo hi)
  unfolding between_literals lex step
  between_literals-Safe f a b c (some lo) (some hi) hlo hhi ha hb hc = parens-Safe (
      expr-Safe a ha
      ▸ Safe-emit_closed (between_op-Closed f)
      ▸ Safe-emit_closed hlo
      ▸ Safe-emit _ refl
      ▸ Safe-emit_closed hhi)
  between_literals-Safe f a b c none hi hlo hhi ha hb hc = between_values-Safe f a b c ha hb hc
  between_literals-Safe f a b c (some lo) none hlo hhi ha hb hc =
      between_values-Safe f a b c ha hb hc

  between-Safe : (f : FuncInfo) (xs : List Arg) → AllSafe xs → Safe (between env f xs)
  unfolding between
  between-Safe f (a ∷ b ∷ c ∷ []) all =
      between_literals-Safe f a b c _ _ (temporal_literal-Closed env a.of b.of none)
        (temporal_literal-Closed env a.of c.of none) all.0 all.1.0 all.1.1.0
  between-Safe f _ all = Safe-fail _

  in_list-Safe : (f : FuncInfo) (xs : List Arg) → AllSafe xs → Safe (in_list env f xs)
  unfolding in_list lex step
  in_list-Safe f (a ∷ x ∷ xs) all = Safe-require _ _ (
      Safe-require _ _
        (parens-Safe (expr-Safe a all.0 ▸ in_values f.negated (args_csv-Safe (x ∷ xs) all.1))))
    where
      in_values :
          {g : Gen Bytes} (negated : Bool)
          → Safe g
          → Safe (within (if negated then codes " NOT IN (" else codes " IN (") (codes ")") g)
      in_values true h = Safe-within _ _ refl refl h
      in_values false h = Safe-within _ _ refl refl h
  in_list-Safe f _ all = Safe-fail _

  like-Safe : (f : FuncInfo) (xs : List Arg) → AllSafe xs → Safe (like env f xs)
  unfolding like lex step
  like-Safe f (a ∷ b ∷ []) all = Safe-require _ _ (
      Safe-require _ _ (
        parens-Safe (
          expr-Safe a all.0
          ▸ Safe-emit_closed (Closed-if f.negated (Closed-of _ refl) (Closed-of _ refl))
          ▸ literal-Safe (attrs_of b.of))))
  like-Safe f _ all = Safe-fail _

  minus-Safe : (self : Item) (xs : List Arg) → AllSafe xs → Safe (minus env self xs)
  unfolding minus lex step
  minus-Safe self (a ∷ []) all = Safe-require _ _ (Safe-within _ _ refl refl (expr-Safe a all.0))
  minus-Safe self _ all = Safe-fail _

  case_searched-Safe : (self : Item) (xs : List Arg) → AllSafe xs → Safe (case_searched env self xs)
  unfolding case_searched lex step
  case_searched-Safe self xs all =
      let n = length xs / 2 in
      Safe-require _ _ (
        Safe-within _ _ refl refl (
          whens_of-Safe condition (cls self) _ _ condition-Safe (take-AllSafe n xs all)
            (drop-AllSafe n xs all)
          ▸ else_of-Safe (cls self) _ (drop-AllSafe n _ (drop-AllSafe n xs all))))

  case_simple-Safe :
      (self : Item) (f : FuncInfo) (xs : List Arg) → AllSafe xs → Safe (case_simple env self f xs)
  unfolding case_simple lex step
  case_simple-Safe self f [] all = Safe-fail _
  case_simple-Safe self f (a ∷ xs) all =
      let n = length xs / 2 in
      Safe-require _ _ (
        Safe-require _ _ (
          Safe-within _ _ refl refl (
            expr-Safe a all.0
            ▸ whens_of-Safe expr (cls self) _ _ expr-Safe (take-AllSafe n xs all.1)
                (drop-AllSafe n xs all.1)
            ▸ else_of-Safe (cls self) _ (drop-AllSafe n _ (drop-AllSafe n xs all.1)))))

  arithmetic-Safe :
      (self : Item) (name : Bytes) (xs : List Arg)
      → Closed name
      → AllSafe xs
      → Safe (arithmetic env self name xs)
  unfolding arithmetic lex step
  arithmetic-Safe self name (a ∷ b ∷ []) hn all = Safe-require _ _ (
      binop-Safe a _ b all.0 all.1.0 (
        Closed-append _ _ (Closed-of (codes " ") refl)
          (Closed-append name _ hn (Closed-of (codes " ") refl))))
  arithmetic-Safe self name _ hn all = Safe-fail _

  absolute-Safe : (self : Item) (xs : List Arg) → AllSafe xs → Safe (absolute env self xs)
  unfolding absolute lex step
  absolute-Safe self (a ∷ []) all = Safe-require _ _ (Safe-within _ _ refl refl (expr-Safe a all.0))
  absolute-Safe self _ all = Safe-fail _

  coalesce-Safe :
      (self : Item) (opening : Bytes) (xs : List Arg)
      → lex (outside 0) opening ≡ outside 1
      → AllSafe xs
      → Safe (coalesce env self opening xs)
  unfolding coalesce lex step
  coalesce-Safe self opening xs ho all = Safe-require _ _ (
      Safe-within _ _ ho refl (
        separated-Safe (codes ", ") (branch (cls self)) xs (Closed-of _ refl)
          (branch-Safe (cls self)) all))

  null_if-Safe : (a b : Arg) → Safe a.node → Safe b.node → Safe (null_if env a b)
  unfolding null_if lex step
  null_if-Safe a b ha hb =
      Safe-require _ _ (Safe-within _ _ refl refl (args_csv-Safe (a ∷ b ∷ []) (ha, (hb, tt))))

  nullif-Safe : (xs : List Arg) → AllSafe xs → Safe (nullif env xs)
  unfolding nullif
  nullif-Safe (a ∷ b ∷ []) all = null_if-Safe a b all.0 all.1.0
  nullif-Safe (a ∷ b ∷ c ∷ []) all = null_if-Safe a b all.0 all.1.0
  nullif-Safe _ all = Safe-fail _

  if_func-Safe : (self : Item) (xs : List Arg) → AllSafe xs → Safe (if_func env self xs)
  unfolding if_func lex step
  if_func-Safe self (c ∷ a ∷ b ∷ []) all = Safe-require _ _ (
      Safe-within _ _ refl refl (
        condition-Safe c all.0
        ▸ Safe-emit _ refl
        ▸ branch-Safe (cls self) a all.1.0
        ▸ Safe-emit _ refl
        ▸ branch-Safe (cls self) b all.1.1.0))
  if_func-Safe self _ all = Safe-fail _

  char_length-Safe : (xs : List Arg) → AllSafe xs → Safe (char_length env xs)
  unfolding char_length lex step
  char_length-Safe (a ∷ []) all = Safe-require _ _ (Safe-within _ _ refl refl (expr-Safe a all.0))
  char_length-Safe _ all = Safe-fail _

  concat-Safe : (xs : List Arg) → AllSafe xs → Safe (concat env xs)
  unfolding concat lex step
  concat-Safe xs all =
      Safe-require _ _
        (parens-Safe (separated-Safe (codes " || ") expr xs (Closed-of _ refl) expr-Safe all))

  -- The four operators are closed texts.
  operator-Closed :
      (name : Bytes)
      → (named env name "+" || named env name "-" || named env name "*" || named env name "/")
        ≡ true
      → Closed name
  unfolding named lex step
  operator-Closed name h = Closed-of name (
      ground (
        arith,
        bytes_eq_iff name (codes "+"),
        bytes_eq_iff name (codes "-"),
        bytes_eq_iff name (codes "*"),
        bytes_eq_iff name (codes "/"),
      ))

  operator-Safe :
      (self : Item) (name : Bytes) (xs : List Arg) (is_operator : Bool) {rest : Gen Bytes}
      → (named env name "+" || named env name "-" || named env name "*" || named env name "/")
        ≡ is_operator
      → AllSafe xs
      → Safe rest
      → Safe (if is_operator then arithmetic env self name xs else rest)
  operator-Safe self name xs true h all hr =
      arithmetic-Safe self name xs (operator-Closed name h) all
  operator-Safe self name xs false h all hr = hr

  named_func-Safe :
      (self : Item) (name : Bytes) (xs : List Arg) → AllSafe xs → Safe (named_func env self name xs)
  unfolding named_func lex step
  named_func-Safe self name xs all = operator-Safe self name xs _ refl all (
      Safe-if (named env name "abs") (absolute-Safe self xs all) (
        Safe-if (named env name "coalesce") (coalesce-Safe self (codes "COALESCE(") xs refl all) (
          Safe-if (named env name "ifnull") (coalesce-Safe self (codes "IFNULL(") xs refl all) (
            Safe-if (named env name "nullif") (nullif-Safe xs all) (
              Safe-if (named env name "if") (if_func-Safe self xs all) (
                Safe-if (named env name "char_length" || named env name "character_length")
                  (char_length-Safe xs all)
                  (Safe-if (named env name "concat") (concat-Safe xs all)
                    (Safe-fail "function"))))))))

  func_of-Safe :
      (t : FuncType) (self : Item) (f : FuncInfo) (xs : List Arg) (in_optimizer : Gen Bytes)
      → AllSafe xs
      → Safe in_optimizer
      → Safe (func_of env t self f xs in_optimizer)
  unfolding func_of lex step
  func_of-Safe eq_func self f xs opt all ho = compare-Safe f _ xs _ (Closed-of _ refl) all
  func_of-Safe ne_func self f xs opt all ho = compare-Safe f _ xs _ (Closed-of _ refl) all
  func_of-Safe lt_func self f xs opt all ho = compare-Safe f _ xs _ (Closed-of _ refl) all
  func_of-Safe le_func self f xs opt all ho = compare-Safe f _ xs _ (Closed-of _ refl) all
  func_of-Safe gt_func self f xs opt all ho = compare-Safe f _ xs _ (Closed-of _ refl) all
  func_of-Safe ge_func self f xs opt all ho = compare-Safe f _ xs _ (Closed-of _ refl) all
  func_of-Safe equal_func self f xs opt all ho = compare-Safe f _ xs _ (Closed-of _ refl) all
  func_of-Safe isnull_func self f xs opt all ho = is_null-Safe _ xs refl all
  func_of-Safe isnotnull_func self f xs opt all ho = is_null-Safe _ xs refl all
  func_of-Safe not_func self f xs opt all ho = negation-Safe xs all
  func_of-Safe between_func self f xs opt all ho = between-Safe f xs all
  func_of-Safe in_func self f xs opt all ho = in_list-Safe f xs all
  func_of-Safe like_func self f xs opt all ho = like-Safe f xs all
  func_of-Safe in_optimizer_func self f xs opt all ho = ho
  func_of-Safe neg_func self f xs opt all ho = minus-Safe self xs all
  func_of-Safe case_searched_func self f xs opt all ho = case_searched-Safe self xs all
  func_of-Safe case_simple_func self f xs opt all ho = case_simple-Safe self f xs all
  func_of-Safe other_func self f xs opt all ho = named_func-Safe self f.func_name xs all

  pub func-Safe :
      (self : Item) (f : FuncInfo) (xs : List Arg) (in_optimizer : Gen Bytes)
      → AllSafe xs
      → Safe in_optimizer
      → Safe (func env self f xs in_optimizer)
  unfolding func
  func-Safe self f xs opt all ho = Safe-require _ _ (func_of-Safe f.functype self f xs opt all ho)
