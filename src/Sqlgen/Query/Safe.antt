-- ===== src/Sqlgen/Query/Safe.antt =====
-- What is written for query expressions, subqueries, references and columns is closed where it is for
-- their parts.
use stoolap_mariadb.Common.{
  ℕ, refl, Bool, List, [], ◌∷◌, Option, none, some, Bytes, codes, get_elem?, length,
}
use stoolap_mariadb.Sqlgen.Items.{
  SubType, singlerow_subs, exists_subs, in_subs, other_subs, Linkage, union_type, intersect_type,
  except_type, other_linkage, QueryInfo, Item, real_item,
}
use stoolap_mariadb.Sqlgen.Classes.{Class, cls}
use stoolap_mariadb.Sqlgen.Gen.{Gen, Env}
use stoolap_mariadb.Sqlgen.Lexer.{
  Closed, Closed-of, Opens-of, Closes-of, Closed-append, ident-Closed, pos_name-Closed, lex, step,
}
use stoolap_mariadb.Sqlgen.Safe.{
  Yields, Yields-pure, Yields-bind, Yields-require, Safe, Safe-fail, Safe-require, Safe-emit,
  Safe-emit_closed, ◌▸◌, Safe-within, Safe-within-Opens, Closed-if, Safe-option,
}
use stoolap_mariadb.Sqlgen.Funcs.{Arg}
use stoolap_mariadb.Sqlgen.Funcs.Safe.{expr-Safe}
use stoolap_mariadb.Sqlgen.Sums.{Key}
use stoolap_mariadb.Sqlgen.Sums.Safe.{OptionSafe}
use stoolap_mariadb.Sqlgen.Select.{Names, Leg}
use stoolap_mariadb.Sqlgen.Select.Safe.{limit-Safe}
use stoolap_mariadb.Sqlgen.Query.{
  QueryCode, dedups, all_word, link_word, leg_text, more_legs, position, bound_field, position_name,
  reset_exists, column_classes, key_at, global_keys, global_text, set_operation, unit_of, unit,
  mark_exists, exists, one_column, legs_fit, in_subquery, subselect, optimized,
}

abbrev pub LegSafe : Leg → Type 0
LegSafe l = (names : Names) (cols : Option (List Class)) → Safe (l.write names cols)

abbrev pub LegsSafe : List Leg → Type 0
LegsSafe [] = Unit
LegsSafe (l ∷ ls) = LegSafe l × LegsSafe ls

abbrev Anything : List Class → Type 0
Anything cols = Unit

link_word-Safe : (l : Linkage) (distinct : Bool) → Safe (link_word l distinct)
unfolding link_word all_word lex step
link_word-Safe union_type distinct = Safe-emit_closed (
    Closed-append (codes " UNION ") _ (Closed-of _ refl)
      (Closed-if distinct (Closed-of [] refl) (Closed-of _ refl)))
link_word-Safe intersect_type distinct = Safe-emit_closed (
    Closed-append (codes " INTERSECT ") _ (Closed-of _ refl)
      (Closed-if distinct (Closed-of [] refl) (Closed-of _ refl)))
link_word-Safe except_type distinct = Safe-emit_closed (
    Closed-append (codes " EXCEPT ") _ (Closed-of _ refl)
      (Closed-if distinct (Closed-of [] refl) (Closed-of _ refl)))
link_word-Safe other_linkage distinct = Safe-fail _

leg_text-Safe :
    (cols : List Class) (names : Names) (l : Leg) → LegSafe l → Safe (leg_text cols names l)
unfolding leg_text
leg_text-Safe cols names l h = Safe-require _ _ (Safe-require _ _ (h names (some cols)))

more_legs-Safe : (cols : List Class) (ls : List Leg) → LegsSafe ls → Safe (more_legs cols ls)
unfolding more_legs lex
more_legs-Safe cols [] all = Safe-emit [] refl
more_legs-Safe cols (l ∷ ls) all =
    link_word-Safe l.info.linkage l.info.distinct
    ▸ leg_text-Safe cols none l all.0
    ▸ more_legs-Safe cols ls all.1

position_name-Safe : (names : Names) (i : ℕ) → Safe (position_name names i)
unfolding position_name
position_name-Safe none i = Safe-emit_closed (pos_name-Closed i)
position_name-Safe (some names) i =
    Safe-option (get_elem? names i) _ _ (Safe-fail _) (λ name. Safe-emit_closed (ident-Closed name))

reset_exists-Safe : Safe reset_exists
unfolding reset_exists lex
reset_exists-Safe = record {
  run = λ s good. (
    Closed-of [] refl,
    record { aliases = good.aliases; numbers = good.numbers; views = good.views },
  );
}

module _ (env : Env) where
  column_classes-Yields :
      (dedup : Bool) (ts : List Item) → Yields Anything (column_classes env dedup ts)
  unfolding column_classes
  column_classes-Yields dedup [] = Yields-pure Anything [] tt
  column_classes-Yields dedup (t ∷ ts) = Yields-require Anything _ _ _ (
      Yields-require Anything _ _ _ (
        Yields-bind Anything Anything _ _ (column_classes-Yields dedup ts)
          λ rest u. Yields-pure Anything (cls t ∷ rest) tt))

  key_at-Safe :
      (u : QueryInfo) (columns : ℕ) (names : Names) (desc : Bool) (i : Item)
      → Safe (key_at env u columns names desc i)
  unfolding key_at lex step
  key_at-Safe u columns names desc i = Safe-option (bound_field i) _ _ (Safe-fail _) λ f.
      Safe-option (position u columns f) _ _ (Safe-fail _) λ n. Safe-require _ _ (
        position_name-Safe names n
        ▸ Safe-emit_closed (Closed-if desc (Closed-of _ refl) (Closed-of _ refl)))

  global_keys-Safe :
      (u : QueryInfo) (columns : ℕ) (names : Names) (before : Bytes) (ks : List Key)
      → Closed before
      → Safe (global_keys env u columns names before ks)
  unfolding global_keys lex step
  global_keys-Safe u columns names before [] h = Safe-emit [] refl
  global_keys-Safe u columns names before (k ∷ ks) h =
      Safe-option k.of _ _ (Safe-fail _)
        (λ x. Safe-emit_closed h ▸ key_at-Safe u columns names k.desc (real_item x.of))
      ▸ global_keys-Safe u columns names (codes ", ") ks (Closed-of _ refl)

  global_text-Safe :
      (q : QueryCode) (columns : ℕ) (names : Names) → Safe (global_text env q columns names)
  unfolding global_text lex step
  global_text-Safe q columns names = Safe-option q.global_limit _ _ (Safe-emit [] refl) λ l.
      Safe-require _ _ (
        global_keys-Safe q.info columns names (codes " ORDER BY ") q.global_order (Closed-of _ refl)
        ▸ limit-Safe l)

  set_operation-Safe :
      (q : QueryCode) (names : Names) (first : Leg) (others : List Leg)
      → LegSafe first
      → LegsSafe others
      → Safe (set_operation env q names first others)
  unfolding set_operation
  set_operation-Safe q names first others hf ho = Safe-require _ _ (
      reset_exists-Safe
      ▸ Yields-bind Anything Closed _ _ (column_classes-Yields (dedups others) q.types) λ cols u.
        leg_text-Safe cols names first hf
        ▸ more_legs-Safe cols others ho
        ▸ global_text-Safe q (length cols) names)

  unit_of-Safe :
      (q : QueryCode) (names : Names) (ls : List Leg) → LegsSafe ls → Safe (unit_of env q names ls)
  unfolding unit_of
  unit_of-Safe q names [] all = Safe-fail _
  unit_of-Safe q names (first ∷ []) all = all.0 names none
  unit_of-Safe q names (first ∷ (l ∷ ls)) all =
      set_operation-Safe q names first (l ∷ ls) all.0 all.1

  pub unit-Safe : (q : QueryCode) (names : Names) → LegsSafe q.legs → Safe (unit env q names)
  unfolding unit
  unit-Safe q names all = unit_of-Safe q names q.legs all

  mark_exists-Safe : {g : Gen Bytes} → Safe g → Safe (mark_exists env g)
  unfolding mark_exists
  mark_exists-Safe h = record {
    run = λ s good.
        h.run _ (record { aliases = good.aliases; numbers = good.numbers; views = good.views });
  }

  exists-Safe : (q : QueryCode) → LegsSafe q.legs → Safe (exists env q)
  unfolding exists lex step
  exists-Safe q all =
      Safe-within-Opens 2 _ _ (Opens-of 2 (codes "(EXISTS (") refl) (Closes-of 2 (codes "))") refl)
        (mark_exists-Safe (unit-Safe q none all))

  one_column-Safe : (left : Item) (is : List Item) → Safe (one_column env left is)
  unfolding one_column lex
  one_column-Safe left (i ∷ []) = Safe-require _ _ (Safe-emit [] refl)
  one_column-Safe left _ = Safe-fail _

  legs_fit-Safe : (left : Item) (ls : List Leg) → Safe (legs_fit env left ls)
  unfolding legs_fit lex
  legs_fit-Safe left [] = Safe-emit [] refl
  legs_fit-Safe left (l ∷ ls) = one_column-Safe left l.items ▸ legs_fit-Safe left ls

  in_subquery-Safe :
      (left : Option Arg) (q : QueryCode)
      → OptionSafe left
      → LegsSafe q.legs
      → Safe (in_subquery env left q)
  unfolding in_subquery lex step
  in_subquery-Safe none q h all = Safe-fail _
  in_subquery-Safe (some left) q h all = Safe-require _ _ (
      Safe-require _ _ (
        legs_fit-Safe left.of q.legs
        ▸ Safe-within _ _ refl refl
            (expr-Safe left h ▸ Safe-within _ _ refl refl (unit-Safe q none all))))

  pub subselect-Safe :
      (t : SubType) (left : Option Arg) (q : QueryCode)
      → OptionSafe left
      → LegsSafe q.legs
      → Safe (subselect env t left q)
  unfolding subselect lex step
  subselect-Safe singlerow_subs left q h all = Safe-within _ _ refl refl (unit-Safe q none all)
  subselect-Safe exists_subs left q h all = exists-Safe q all
  subselect-Safe in_subs left q h all = in_subquery-Safe left q h all
  subselect-Safe other_subs left q h all = Safe-fail _

  pub optimized-Safe :
      (t : SubType) (a : Arg) (q : QueryCode)
      → Safe a.node
      → LegsSafe q.legs
      → Safe (optimized env t a q)
  unfolding optimized
  optimized-Safe exists_subs a q h all = exists-Safe q all
  optimized-Safe in_subs a q h all = in_subquery-Safe (some a) q h all
  optimized-Safe singlerow_subs a q h all = Safe-fail _
  optimized-Safe other_subs a q h all = Safe-fail _
