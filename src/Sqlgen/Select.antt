-- ===== src/Sqlgen/Select.antt =====
-- A SELECT, its FROM and a query expression, as src/stoolap_sqlgen.cc writes them from their parts: an
-- item comes with what node writes for it, a nested join, a leg and a derived table with what
-- join_list, select and unit write.
pub mod Joins
pub mod Lists
pub mod Safe
use stoolap_mariadb.Common.{
  ℕ, ◌+◌, ◌-◌, Bool, true, false, not, ◌&&◌, ◌||◌, List, [], ◌∷◌, ◌++◌, Option, none, some, Bytes,
  String, codes, leb, ltb, ◌==◌, if◌then◌else◌, length, get_elem?, map,
}
use stoolap_mariadb.Handler.Savepoints.{decimal}
use stoolap_mariadb.Types.{text_is_utf8}
use stoolap_mariadb.Sqlgen.Items.{
  ResultType, string_result, Attrs, BoundField, Linkage, union_type, intersect_type, except_type,
  other_linkage, Limit, SelectInfo, QueryInfo, TableInfo, Item, column, attrs_of, real_item,
}
use stoolap_mariadb.Sqlgen.Classes.{
  Class, int, real, unsafe, is_class, cls, is_null_item, orderable,
}
use stoolap_mariadb.Sqlgen.Gen.{
  Gen, State, wrote, refused, ◌>>=◌, pure, emit, fail, require, within, ◌⊕◌, find_at, ident,
  pos_name, Env,
}
use stoolap_mariadb.Sqlgen.Funcs.{Arg, condition, expr, branch}
use stoolap_mariadb.Sqlgen.Sums.{Key, order_list}

-- The columns' names that a query expression is to give
abbrev pub Names : Type 0
Names = Option (List Bytes)

-- What mergeable_base finds without alias_: the base table's TABLE_LIST and name, whether each item
-- of the SELECT is a column, and its WHERE
pub record Merge : Type 0 where
  pub base : ℕ
  pub name : Bytes
  pub all_columns : Bool
  pub where_cond : Option Arg

pub data SourceCode : Type 0 where
  stored : Option Bytes → SourceCode
  nested : Gen (Bytes × List Arg) → SourceCode
  derived :
      Option Merge
      → (Names → Gen Bytes)
      → Option (List (Bytes × ℕ))
      → Option (List Bytes)
      → SourceCode

pub record Entry : Type 0 where
  pub info : TableInfo
  pub on : Option Arg
  pub source : SourceCode

pub record SelectCode : Type 0 where
  pub info : SelectInfo
  pub items : List Arg
  pub tables : List Entry
  pub where_cond : Option Arg
  pub group : List Key
  pub having : Option Arg
  pub order : List Key

-- A leg of a query expression: its items, and select of it with the names and the result's classes
pub record Leg : Type 0 where
  pub info : SelectInfo
  pub items : List Item
  pub ordered : Bool
  pub write : Names → Option (List Class) → Gen Bytes

limit_value : Option Attrs → String → Bytes → Gen Bytes
limit_value none why before = fail why
limit_value (some a) why before =
    require (a.const_item && not a.is_null) why (emit (before ++ decimal a.val_uint))

offset_value : Option Attrs → Gen Bytes
unfolding limit_value
offset_value none = emit []
offset_value (some a) = limit_value (some a) "OFFSET value" (codes " OFFSET ")

unfoldable pub limit : Limit → Gen Bytes
unfolding limit_value offset_value
limit l =
    if l.explicit_limit
    then limit_value l.select_limit "LIMIT value" (codes " LIMIT ") ⊕ offset_value l.offset_limit
    else emit []

-- `alias_[t] = alias` with a number of its own
new_alias : ℕ → Bytes → Gen Bytes
new_alias table letter s =
    let alias = letter ++ decimal s.next_alias in
    wrote alias (record s { alias = (table, alias) ∷ s.alias; next_alias = s.next_alias + 1 })

view_columns : Bytes → List (Bytes × ℕ) → List (ℕ × Bytes)
view_columns alias [] = []
view_columns alias ((name, at) ∷ rest) =
    (at, alias ++ (codes "." ++ ident name)) ∷ view_columns alias rest

-- Later ones replace earlier ones of the same item.
add_views : List (ℕ × Bytes) → List (ℕ × Bytes) → List (ℕ × Bytes)
add_views [] old = old
add_views (v ∷ vs) old = add_views vs (v ∷ old)

set_views : Bytes → List (Bytes × ℕ) → Gen Bytes
unfolding view_columns add_views
set_views alias columns s =
    wrote [] (record s { view_cols = add_views (view_columns alias columns) s.view_cols })

first_names : List (Bytes × ℕ) → List Bytes
first_names = map (λ c. c.0)

derived_text : Bytes → Gen Bytes → Gen Bytes
derived_text alias body = within (codes "(") (codes ")") body ⊕ emit (codes " AS " ++ alias)

derived_columns : (Names → Gen Bytes) → Bytes → Option (List (Bytes × ℕ)) → Names → Gen Bytes
unfolding set_views derived_text first_names
derived_columns unit alias (some columns) names =
    set_views alias columns ⊕ derived_text alias (unit (some (first_names columns)))
derived_columns unit alias none (some names) = derived_text alias (unit (some names))
derived_columns unit alias none none = fail "derived without columns"

base_ref : ℕ → Option Bytes → Gen Bytes
unfolding new_alias
base_ref table none = fail "table without share"
base_ref table (some name) = do
  alias ← new_alias table (codes "t")
  emit (ident name ++ (codes " AS " ++ alias))

is_known : Option Bytes → Bool
is_known none = false
is_known (some alias) = true

-- mergeable_base
merge_now : TableInfo → Option Merge → Gen (Option Merge)
unfolding is_known
merge_now t none s = wrote none s
merge_now t (some m) s =
    if (t.outer || t.embedded_outer) && not m.all_columns || is_known (find_at m.base s.alias)
    then wrote none s
    else wrote (some m) s

-- The text, and the merged derived table's WHERE
unfoldable pub table_ref : TableInfo → SourceCode → Gen (Bytes × Option Arg)
unfolding base_ref merge_now derived_columns new_alias
table_ref t (stored name) = do text ← base_ref t.address name; pure (text, none)
table_ref t (nested join) = fail "parenthesized join"
table_ref t (derived m unit columns names) = do
  found ← merge_now t m
  elim found [
    | some m' ↦ do text ← base_ref m'.base (some m'.name); pure (text, m'.where_cond)
    | none ↦ do
      alias ← new_alias t.address (codes "d")
      text ← derived_columns unit alias columns names
      pure (text, none)
  ]

unfoldable pub join_word : Bool → Entry → Bytes
join_word first e =
    if first
    then []
    else if e.info.outer
    then codes " LEFT JOIN "
    else elim e.on [ none ↦ codes " CROSS JOIN " | some c ↦ codes " JOIN " ]

unfoldable pub merged_on : Option Arg → Gen Bytes
merged_on none = emit []
merged_on (some c) = within (codes " AND (") (codes ")") (condition c)

unfoldable pub wheres_of : Option Arg → List Arg
wheres_of none = []
wheres_of (some c) = c ∷ []

-- What follows the table: its ON, and the WHERE that goes to the SELECT's own
on_text : Bool → Entry → Option Arg → Gen (Bytes × List Arg)
unfolding merged_on wheres_of
on_text first e m = elim e.on [
  | some c ↦
      require (not first) "ON on first table"
        (do text ← within (codes " ON (") (codes ")") (condition c) ⊕ merged_on m; pure (text, []))
  | none ↦ require (not e.info.outer) "outer join without ON" (pure ([], wheres_of m))
]

plain_entry : Bool → Entry → Gen (Bytes × List Arg)
unfolding join_word table_ref on_text
plain_entry first e = do
  table ← table_ref e.info e.source
  on ← on_text first e table.1
  pure (join_word first e ++ (table.0 ++ on.0), on.1)

opening_group : Bool → Entry → SourceCode → Gen (Bytes × List Arg)
unfolding plain_entry
opening_group true e (nested join) = elim e.on [
  | none ↦ if e.info.outer then plain_entry true e else join
  | some c ↦ plain_entry true e
]
opening_group first e source = plain_entry first e

join_entry : Bool → Entry → Gen (Bytes × List Arg)
unfolding opening_group
join_entry first e = require (not e.info.semi_join) "semi-join nest" (
    require (not (first && e.info.outer)) "outer join on first table"
      (opening_group first e e.source))

join_entries : Bool → List Entry → Gen (Bytes × List Arg)
unfolding join_entry
join_entries first [] = pure ([], [])
join_entries first (e ∷ es) = do
  one ← join_entry first e
  rest ← join_entries false es
  pure (one.0 ++ rest.0, one.1 ++ rest.1)

-- The entries are in MariaDB's reverse order.
backwards : List Entry → List Entry → List Entry
backwards [] done = done
backwards (e ∷ es) done = backwards es (e ∷ done)

unfoldable pub join_list : List Entry → Gen (Bytes × List Arg)
unfolding join_entries backwards
join_list [] = fail "empty join list"
join_list (e ∷ es) = join_entries true (backwards (e ∷ es) [])

is_string : ResultType → Bool
is_string string_result = true
is_string _ = false

is_column : Item → Bool
is_column (column a f) = true
is_column _ = false

-- A result that the reader would decode from hex
hex_result : Item → Bool
unfolding is_string is_column
hex_result i =
    is_string (attrs_of i).cmp_type
    && not (text_is_utf8 (attrs_of i).collation)
    && not (is_column (real_item i))

leg_value : Bool → Arg → Class → Gen Bytes
leg_value distinct x want =
    let have = cls x.of in
    let widens = is_class want real && is_class have int in
    require (is_null_item x.of || is_class have want || widens) "set operation column types"
      (require (not (distinct && widens)) "DISTINCT leg widened to DOUBLE" (branch want x))

list_value : Bool → Arg → Option (List Class) → ℕ → Gen Bytes
unfolding leg_value
list_value distinct x none n = expr x
list_value distinct x (some cols) n = elim (get_elem? cols n) [
  | none ↦ fail "set operation columns"
  | some want ↦ leg_value distinct x want
]

list_name : Names → Option (List Class) → ℕ → Gen Bytes
list_name (some names) cols n = elim (get_elem? names n) [
  | none ↦ fail "derived column names"
  | some name ↦ emit (codes " AS " ++ ident name)
]
list_name none (some cols) n = emit (codes " AS " ++ pos_name n)
list_name none none n = emit []

module _ (env : Env) where
  list_item : Bool → Names → Option (List Class) → ℕ → Arg → Gen Bytes
  unfolding hex_result list_value list_name
  list_item distinct names cols n x =
      require (not (distinct && not (orderable env.trust_bin x.of))) "DISTINCT type" (
        require (not (hex_result x.of)) "binary / non-utf8 string result" (
          emit (if n == 0 then [] else codes ", ")
          ⊕ (list_value distinct x cols n ⊕ list_name names cols n)))

  select_list : Bool → Names → Option (List Class) → ℕ → List Arg → Gen Bytes
  unfolding list_item
  select_list distinct names cols n [] = emit []
  select_list distinct names cols n (x ∷ xs) =
      list_item distinct names cols n x ⊕ select_list distinct names cols (n + 1) xs

  where_parts : Bytes → List Arg → Gen Bytes
  where_parts opening [] = emit []
  where_parts opening (c ∷ cs) =
      within opening (codes ")") (condition c) ⊕ where_parts (codes " AND (") cs

  all_const : List Key → Bool
  all_const [] = true
  all_const (k ∷ ks) =
      elim k.of [ none ↦ false | some x ↦ (attrs_of x.of).const_item ] && all_const ks

  group_by : List Key → Gen Bytes
  group_by [] = emit []
  group_by (k ∷ ks) = emit (codes " GROUP BY ") ⊕ order_list env.trust_bin false (k ∷ ks)

  having_text : Option Arg → Gen Bytes
  having_text none = emit []
  having_text (some c) = emit (codes " HAVING ") ⊕ condition c

  group_order : Bool → List Key → Gen Bytes
  group_order matters [] = emit []
  group_order matters (k ∷ ks) =
      if matters
      then emit (codes " ORDER BY ") ⊕ order_list env.trust_bin true (k ∷ ks)
      else emit []

  order_by : SelectCode → Gen Bytes
  unfolding all_const group_order
  order_by s =
      if all_const s.order
      then group_order (env.is_top s.info.address || s.info.limit.explicit_limit) s.group
      else emit (codes " ORDER BY ") ⊕ order_list env.trust_bin true s.order

  -- From the select list on; `from` is the FROM with its merged WHEREs.
  select_body : SelectCode → Bool → Names → Option (List Class) → Bytes × List Arg → Gen Bytes
  unfolding select_list where_parts group_by having_text order_by wheres_of
  select_body s any_row names cols (from, merged_where) =
      let distinct = s.info.select_distinct in
      let head =
        if any_row && not s.info.with_sum_func
        then emit (codes "SELECT 1")
        else emit (if distinct then codes "SELECT DISTINCT " else codes "SELECT ")
          ⊕ select_list distinct names cols 0 s.items in
      head
      ⊕ (emit (codes " FROM " ++ from)
          ⊕ (where_parts (codes " WHERE (") (wheres_of s.where_cond ++ merged_where)
              ⊕ (group_by s.group ⊕ (having_text s.having ⊕ (order_by s ⊕ limit s.info.limit)))))

  -- Reads exists_list_ and resets it.
  take_exists : Gen Bool
  take_exists s = wrote s.exists_list (record s { exists_list = false })

  -- FROM comes first: each table has its alias before an expression names it.
  select_tables : SelectCode → Bool → Names → Option (List Class) → Gen Bytes
  unfolding select_body
  select_tables s any_row names cols = require (not s.info.limit.with_ties) "WITH TIES" (
      require (not s.info.found_rows) "SQL_CALC_FOUND_ROWS" (
        require (not (s.info.table_count == 0)) "no table"
          (do from ← join_list s.tables; select_body s any_row names cols from)))

  unfoldable pub select : SelectCode → Names → Option (List Class) → Gen Bytes
  unfolding select_tables take_exists
  select s names cols = require (not s.info.olap) "WITH ROLLUP" (
      require (not s.info.tvc) "VALUES"
        (do any_row ← take_exists; select_tables s any_row names cols))
