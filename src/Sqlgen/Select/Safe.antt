-- ===== src/Sqlgen/Select/Safe.antt =====
-- A SELECT's text is closed where its parts' are.
use stoolap_mariadb.Common.{
  ℕ, ◌+◌, ◌≡◌, refl, Bool, true, false, List, [], ◌∷◌, Option, none, some, Bytes, String, codes,
  ◌==◌, get_elem?,
}
use stoolap_mariadb.Handler.Savepoints.{decimal}
use stoolap_mariadb.Sqlgen.Items.{Attrs, Limit}
use stoolap_mariadb.Sqlgen.Classes.{Class}
use stoolap_mariadb.Sqlgen.Gen.{Env, ident, pos_name}
use stoolap_mariadb.Sqlgen.Lexer.{
  Closed, Closed-of, Closed-append, decimal-Closed, ident-Closed, pos_name-Closed, lex, step,
  outside,
}
use stoolap_mariadb.Sqlgen.Safe.{
  Yields, Yields-bind, Safe, Safe-fail, Safe-require, Safe-if, Safe-emit, Safe-emit_closed, ◌▸◌,
  Safe-within, Closed-if, Safe-option,
}
use stoolap_mariadb.Sqlgen.Funcs.{Arg}
use stoolap_mariadb.Sqlgen.Funcs.Safe.{AllSafe, condition-Safe, expr-Safe, branch-Safe}
use stoolap_mariadb.Sqlgen.Sums.{Key}
use stoolap_mariadb.Sqlgen.Sums.Safe.{OptionSafe, KeysSafe, order_list-Safe}
use stoolap_mariadb.Sqlgen.Select.{
  Names, SelectCode, limit_value, offset_value, limit, leg_value, list_value, list_name, list_item,
  select_list, where_parts, group_by, having_text, group_order, order_by, select_body, take_exists,
  select_tables, select, wheres_of,
}
use stoolap_mariadb.Sqlgen.Select.Joins.{JoinOk, EntriesSafe, wheres_of-AllSafe}
use stoolap_mariadb.Sqlgen.Select.Lists.{join_list-Yields, AllSafe-append}

-- What is asked of the parts
pub record SelectSafe (s : SelectCode) : Type 0 where
  pub items : AllSafe s.items
  pub tables : EntriesSafe s.tables
  pub where_cond : OptionSafe s.where_cond
  pub group : KeysSafe s.group
  pub having : OptionSafe s.having
  pub order : KeysSafe s.order

limit_value-Safe :
    (o : Option Attrs) (why : String) (before : Bytes)
    → Closed before
    → Safe (limit_value o why before)
unfolding limit_value
limit_value-Safe none why before h = Safe-fail _
limit_value-Safe (some a) why before h =
    Safe-require _ _
      (Safe-emit_closed (Closed-append before (decimal a.val_uint) h (decimal-Closed a.val_uint)))

offset_value-Safe : (o : Option Attrs) → Safe (offset_value o)
unfolding offset_value lex step
offset_value-Safe none = Safe-emit [] refl
offset_value-Safe (some a) = limit_value-Safe (some a) _ _ (Closed-of (codes " OFFSET ") refl)

pub limit-Safe : (l : Limit) → Safe (limit l)
unfolding limit lex step
limit-Safe l =
    Safe-if _
      (limit_value-Safe l.select_limit _ _ (Closed-of (codes " LIMIT ") refl)
        ▸ offset_value-Safe l.offset_limit)
      (Safe-emit [] refl)

leg_value-Safe :
    (distinct : Bool) (x : Arg) (want : Class) → Safe x.node → Safe (leg_value distinct x want)
unfolding leg_value
leg_value-Safe distinct x want h = Safe-require _ _ (Safe-require _ _ (branch-Safe want x h))

list_value-Safe :
    (distinct : Bool) (x : Arg) (cols : Option (List Class)) (n : ℕ)
    → Safe x.node
    → Safe (list_value distinct x cols n)
unfolding list_value
list_value-Safe distinct x none n h = expr-Safe x h
list_value-Safe distinct x (some cols) n h =
    Safe-option (get_elem? cols n) _ _ (Safe-fail _) (λ want. leg_value-Safe distinct x want h)

list_name-Safe :
    (names : Names) (cols : Option (List Class)) (n : ℕ) → Safe (list_name names cols n)
unfolding list_name lex step
list_name-Safe (some names) cols n = Safe-option (get_elem? names n) _ _ (Safe-fail _) (λ name.
    Safe-emit_closed
      (Closed-append (codes " AS ") (ident name) (Closed-of _ refl) (ident-Closed name)))
list_name-Safe none (some cols) n =
    Safe-emit_closed
      (Closed-append (codes " AS ") (pos_name n) (Closed-of _ refl) (pos_name-Closed n))
list_name-Safe none none n = Safe-emit [] refl

module _ (env : Env) where
  list_item-Safe :
      (distinct : Bool) (names : Names) (cols : Option (List Class)) (n : ℕ) (x : Arg)
      → Safe x.node
      → Safe (list_item env distinct names cols n x)
  unfolding list_item lex step
  list_item-Safe distinct names cols n x h = Safe-require _ _ (
      Safe-require _ _ (
        Safe-emit_closed (Closed-if (n == 0) (Closed-of [] refl) (Closed-of _ refl))
        ▸ list_value-Safe distinct x cols n h
        ▸ list_name-Safe names cols n))

  select_list-Safe :
      (distinct : Bool) (names : Names) (cols : Option (List Class)) (n : ℕ) (xs : List Arg)
      → AllSafe xs
      → Safe (select_list env distinct names cols n xs)
  unfolding select_list lex
  select_list-Safe distinct names cols n [] all = Safe-emit [] refl
  select_list-Safe distinct names cols n (x ∷ xs) all =
      list_item-Safe distinct names cols n x all.0
      ▸ select_list-Safe distinct names cols (n + 1) xs all.1

  where_parts-Safe :
      (opening : Bytes) (cs : List Arg)
      → lex (outside 0) opening ≡ outside 1
      → AllSafe cs
      → Safe (where_parts env opening cs)
  unfolding where_parts lex step
  where_parts-Safe opening [] ho all = Safe-emit [] refl
  where_parts-Safe opening (c ∷ cs) ho all =
      Safe-within opening _ ho refl (condition-Safe c all.0)
      ▸ where_parts-Safe (codes " AND (") cs refl all.1

  group_by-Safe : (ks : List Key) → KeysSafe ks → Safe (group_by env ks)
  unfolding group_by lex step
  group_by-Safe [] all = Safe-emit [] refl
  group_by-Safe (k ∷ ks) all = Safe-emit _ refl ▸ order_list-Safe env.trust_bin false (k ∷ ks) all

  having_text-Safe : (o : Option Arg) → OptionSafe o → Safe (having_text env o)
  unfolding having_text lex step
  having_text-Safe none h = Safe-emit [] refl
  having_text-Safe (some c) h = Safe-emit _ refl ▸ condition-Safe c h

  group_order-Safe :
      (matters : Bool) (ks : List Key) → KeysSafe ks → Safe (group_order env matters ks)
  unfolding group_order lex step
  group_order-Safe matters [] all = Safe-emit [] refl
  group_order-Safe matters (k ∷ ks) all =
      Safe-if _ (Safe-emit _ refl ▸ order_list-Safe env.trust_bin true (k ∷ ks) all)
        (Safe-emit [] refl)

  order_by-Safe : (s : SelectCode) → SelectSafe s → Safe (order_by env s)
  unfolding order_by lex step
  order_by-Safe s h =
      Safe-if _ (group_order-Safe _ s.group h.group)
        (Safe-emit _ refl ▸ order_list-Safe env.trust_bin true s.order h.order)

  select_body-Safe :
      (s : SelectCode) (any_row : Bool) (names : Names) (cols : Option (List Class))
      (from : Bytes × List Arg)
      → SelectSafe s
      → JoinOk from
      → Safe (select_body env s any_row names cols from)
  unfolding select_body lex step
  select_body-Safe s any_row names cols (from, merged) h hf =
      Safe-if _ (Safe-emit _ refl) (
        Safe-emit_closed (Closed-if s.info.select_distinct (Closed-of _ refl) (Closed-of _ refl))
        ▸ select_list-Safe s.info.select_distinct names cols 0 s.items h.items)
      ▸ Safe-emit_closed (Closed-append (codes " FROM ") from (Closed-of _ refl) hf.0)
      ▸ where_parts-Safe (codes " WHERE (") _ refl (
          AllSafe-append (wheres_of s.where_cond) merged
            (wheres_of-AllSafe s.where_cond h.where_cond) hf.1)
      ▸ group_by-Safe s.group h.group
      ▸ having_text-Safe s.having h.having
      ▸ order_by-Safe s h
      ▸ limit-Safe s.info.limit

  take_exists-Yields : Yields (λ b. Unit) (take_exists env)
  unfolding take_exists
  take_exists-Yields = record {
    run = λ s good.
        (tt, record { aliases = good.aliases; numbers = good.numbers; views = good.views });
  }

  select_tables-Safe :
      (s : SelectCode) (any_row : Bool) (names : Names) (cols : Option (List Class))
      → SelectSafe s
      → Safe (select_tables env s any_row names cols)
  unfolding select_tables
  select_tables-Safe s any_row names cols h = Safe-require _ _ (
      Safe-require _ _ (
        Safe-require _ _ (
          Yields-bind JoinOk Closed _ _ (join_list-Yields s.tables h.tables)
            λ from hf. select_body-Safe s any_row names cols from h hf)))

  pub select-Safe :
      (s : SelectCode) (names : Names) (cols : Option (List Class))
      → SelectSafe s
      → Safe (select env s names cols)
  unfolding select
  select-Safe s names cols h = Safe-require _ _ (
      Safe-require _ _ (
        Yields-bind (λ b. Unit) Closed _ _ take_exists-Yields
          λ any_row u. select_tables-Safe s any_row names cols h))
