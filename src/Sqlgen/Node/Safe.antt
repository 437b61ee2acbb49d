-- ===== src/Sqlgen/Node/Safe.antt =====
-- All the text that the generator writes is closed where comments are not read, by induction on
-- MariaDB's tree.
use stoolap_mariadb.Common.{◌≡◌, subst, Bool, true, false, none, some, Bytes, if◌then◌else◌}
use stoolap_mariadb.Sqlgen.Items.{
  Item, OptItem, Items, Orders, Query, Selects, Select, Tables, Source, column, ref, constant,
  null_item, param, other_item, no_window, func, cond, sum, window, subselect, no_item, an_item,
  no_items, item, no_orders, order, no_query, query, no_selects, leg, select, no_tables, entry,
  stored, nested, derived,
}
use stoolap_mariadb.Sqlgen.Gen.{State, Env, Outcome, wrote, refused, fresh}
use stoolap_mariadb.Sqlgen.Lexer.{Closed}
use stoolap_mariadb.Sqlgen.Comments.{ClosedSql, Closed-ClosedSql}
use stoolap_mariadb.Sqlgen.Safe.{IsGood, Fine, Safe, Safe-fail}
use stoolap_mariadb.Sqlgen.Literals.Safe.{literal-Safe}
use stoolap_mariadb.Sqlgen.Funcs.Safe.{AllSafe, cond-Safe}
use stoolap_mariadb.Sqlgen.Funcs.Calls.{func-Safe}
use stoolap_mariadb.Sqlgen.Sums.Safe.{OptionSafe, KeysSafe, sum-Safe, window-Safe}
use stoolap_mariadb.Sqlgen.Select.{Merge}
use stoolap_mariadb.Sqlgen.Select.Joins.{MergeSafe, SourceSafe, EntriesSafe}
use stoolap_mariadb.Sqlgen.Select.Lists.{join_list-Yields}
use stoolap_mariadb.Sqlgen.Select.Safe.{SelectSafe, select-Safe}
use stoolap_mariadb.Sqlgen.Query.Safe.{LegsSafe, unit-Safe, subselect-Safe, optimized-Safe}
use stoolap_mariadb.Sqlgen.Query.Refs.{field-Safe, reference-Safe}
use stoolap_mariadb.Sqlgen.Node.{
  node, args, opt_arg, keys, in_optimizer, query_code, legs, select_code, entries, source_code,
  merge_of, gen_select, gen_unit,
}

if_merge :
    (test : Bool) (m : Merge) → MergeSafe (some m) → MergeSafe (if test then some m else none)
if_merge true m h = h
if_merge false m h = tt

module _ (env : Env) where
  mutual
    unfolding node

    pub node-Safe : (i : Item) → Safe (node env i)
    node-Safe (column a f) = field-Safe f
    node-Safe (ref a t at i) = reference-Safe t at _ (opt_arg-Safe i)
    node-Safe (constant a) = literal-Safe a
    node-Safe (null_item a) = literal-Safe a
    node-Safe (param a) = Safe-fail _
    node-Safe (other_item a) = Safe-fail _
    node-Safe (no_window a) = Safe-fail _
    node-Safe (func a f xs) =
        func-Safe env (func a f xs) f _ _ (args-Safe xs) (in_optimizer-Safe xs)
    node-Safe (cond a c xs) = cond-Safe c _ (args-Safe xs)
    node-Safe (sum a s xs) = sum-Safe env.trust_bin s false _ (args-Safe xs)
    node-Safe (window a s xs partition sorted frame) =
        window-Safe env.trust_bin s _ _ _ frame (args-Safe xs) (keys-Safe partition)
          (keys-Safe sorted)
    node-Safe (subselect a t left q) = subselect-Safe env t _ _ (opt_arg-Safe left) (query-Safe q)

    args-Safe : (xs : Items) → AllSafe (args env xs)
    args-Safe no_items = tt
    args-Safe (item i is) = (node-Safe i, args-Safe is)

    opt_arg-Safe : (i : OptItem) → OptionSafe (opt_arg env i)
    opt_arg-Safe no_item = tt
    opt_arg-Safe (an_item i) = node-Safe i

    keys-Safe : (os : Orders) → KeysSafe (keys env os)
    keys-Safe no_orders = tt
    keys-Safe (order i desc os) = (opt_arg-Safe i, keys-Safe os)

    in_optimizer-Safe : (xs : Items) → Safe (in_optimizer env xs)
    in_optimizer-Safe (item i (item (subselect a t left q) no_items)) =
        optimized-Safe env t _ _ (node-Safe i) (query-Safe q)
    in_optimizer-Safe _ = Safe-fail _

    query-Safe : (q : Query) → LegsSafe (query_code env q).legs
    query-Safe no_query = tt
    query-Safe (query u types selects global_limit global_order) = legs-Safe selects

    legs-Safe : (ss : Selects) → LegsSafe (legs env ss)
    legs-Safe no_selects = tt
    legs-Safe (leg s ss) =
        ((λ names cols. select-Safe env (select_code env s) names cols (code-Safe s)), legs-Safe ss)

    code-Safe : (s : Select) → SelectSafe (select_code env s)
    code-Safe (select s items from where_cond group having sorted) = record {
      items = args-Safe items;
      tables = entries-Safe from;
      where_cond = opt_arg-Safe where_cond;
      group = keys-Safe group;
      having = opt_arg-Safe having;
      order = keys-Safe sorted;
    }

    entries-Safe : (ts : Tables) → EntriesSafe (entries env ts)
    entries-Safe no_tables = tt
    entries-Safe (entry t on source ts) = ((opt_arg-Safe on, source-Safe source), entries-Safe ts)

    source-Safe : (s : Source) → SourceSafe (source_code env s)
    source-Safe (stored name) = tt
    source-Safe (nested ts) = join_list-Yields (entries env ts) (entries-Safe ts)
    source-Safe (derived q columns names) =
        (merge_of-Safe q, λ asked. unit-Safe env (query_code env q) asked (query-Safe q))

    merge_of-Safe : (q : Query) → MergeSafe (merge_of env q)
    merge_of-Safe
          (query u types
            (leg
              (select s items
                (entry b no_item (stored (some name)) no_tables)
                where_cond
                group
                having
                sorted)
              more)
            global_limit
            global_order) =
        if_merge _ _ (opt_arg-Safe where_cond)
    merge_of-Safe _ = tt

pub fresh-IsGood : IsGood fresh
fresh-IsGood = record { aliases = tt; numbers = tt; views = tt }

pub gen_select-Fine : (env : Env) (alone : Bool) (s : Select) → Fine Closed (gen_select env alone s)
unfolding gen_select
gen_select-Fine env true s = (select-Safe env _ none none (code-Safe env s)).run fresh fresh-IsGood
gen_select-Fine env false s = tt

pub gen_unit-Fine : (env : Env) (q : Query) → Fine Closed (gen_unit env q)
unfolding gen_unit
gen_unit-Fine env q = (unit-Safe env _ none (query-Safe env q)).run fresh fresh-IsGood

pub fine_text :
    (r : Outcome Bytes) (text : Bytes) (s : State) → r ≡ wrote text s → Fine Closed r → Closed text
fine_text (wrote t s') text s e h = let same : t ≡ text = cc in subst Closed same h.0
fine_text (refused why) text s e h = cc

-- The SELECT that is pushed down, and the query expression: where quotes and parentheses alone are
-- read, from outside quotes at any depth of parentheses, they end outside quotes at that depth, and
-- never close a parenthesis that they have not opened, end a statement, or hold an escape in a text
-- literal, whatever the names and the literals of the statement hold. With comments read too, so it is
-- of a text unless it opens one.
pub gen_select-Closed :
    (env : Env) (alone : Bool) (s : Select) (q : Query) (text text' : Bytes) (g g' : State)
    → gen_select env alone s ≡ wrote text g
    → gen_unit env q ≡ wrote text' g'
    → ClosedSql text × ClosedSql text'
gen_select-Closed env alone s q text text' g g' e e' = (
  Closed-ClosedSql text (fine_text _ text g e (gen_select-Fine env alone s)),
  Closed-ClosedSql text' (fine_text _ text' g' e' (gen_unit-Fine env q)),
)
