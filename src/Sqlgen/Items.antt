-- ===== src/Sqlgen/Items.antt =====
-- What src/stoolap_sqlgen.cc reads of MariaDB's parse tree: items, ORDER lists, SELECT_LEX and its unit,
-- TABLE_LIST. A virtual method is a field of what it answers. An `address` is a pointer, compared only.
use stoolap_mariadb.Common.{ℕ, Bool, List, Option, Bytes}
use stoolap_mariadb.Common.Int.{ℤ}
use stoolap_mariadb.Types.{CharSet, Field, FieldType}

-- Item_result
pub data ResultType : Type 0 where
  int_result real_result decimal_result string_result time_result row_result : ResultType

-- A character of a number's text, as snprintf's "%.17g" and my_decimal's to_string write them. A digit
-- counts modulo 10.
pub data Mark : Type 0 where
  digit : ℕ → Mark
  point exponent plus minus : Mark

-- `is_bool`: type_handler()->is_bool_type(). `val_real`: the value by "%.17g", none unless finite.
-- `const_is_null`: get_item_const() gives an item whose const_is_null() is true.
-- `packed`: val_datetime_packed or val_time_packed, none for a NULL. `str_minlen`: the mbminlen of
-- val_str's character set, 0 where it has none.
pub record Attrs : Type 0 where
  pub is_bool : Bool
  pub cmp_type : ResultType
  pub field_type : FieldType
  pub unsigned_flag : Bool
  pub basic_const : Bool
  pub const_item : Bool
  pub is_null : Bool
  pub maybe_null : Bool
  pub const_is_null : Bool
  pub cols : ℕ
  pub collation : Option CharSet
  pub max_length : ℕ
  pub val_int : ℤ
  pub val_uint : ℕ
  pub val_real : Option (List Mark)
  pub val_decimal : Option (List Mark)
  pub val_str : Option Bytes
  pub str_minlen : ℕ
  pub str_chars : ℕ
  pub packed : Option ℤ

-- Field::table: its TABLE, and the TABLE_LIST of pos_in_table_list
pub record FieldTable : Type 0 where
  pub table : ℕ
  pub list : ℕ

pub record BoundField : Type 0 where
  pub address : ℕ
  pub field : Field
  pub table : Option FieldTable
  pub not_null : Bool
  pub field_length : ℕ

pub data RefType : Type 0 where
  plain_ref direct_ref view_ref outer_ref aggregate_ref other_ref : RefType

pub data FuncType : Type 0 where
  eq_func ne_func lt_func le_func gt_func ge_func equal_func isnull_func isnotnull_func : FuncType
  not_func between_func in_func like_func in_optimizer_func neg_func : FuncType
  case_searched_func case_simple_func other_func : FuncType

-- `plain_schema`: no schema, or MariaDB's own. `compare_type`: compare_type_handler()->field_type().
pub record FuncInfo : Type 0 where
  pub functype : FuncType
  pub func_name : Bytes
  pub plain_schema : Bool
  pub negated : Bool
  pub escape : ℕ
  pub compare_collation : Option CharSet
  pub compare_type : Option FieldType

pub data CondType : Type 0 where
  cond_and cond_or other_cond : CondType

pub data SumType : Type 0 where
  count_func count_distinct_func sum_func sum_distinct_func avg_func min_func max_func : SumType
  row_number_func rank_func dense_rank_func lag_func lead_func other_sum : SumType

pub data SubType : Type 0 where
  singlerow_subs exists_subs in_subs other_subs : SubType

pub data Precedence : Type 0 where
  preceding current following : Precedence

-- Window_frame_bound, Window_frame
pub record Bound : Type 0 where
  pub precedence : Precedence
  pub offset : Option Attrs

pub record Frame : Type 0 where
  pub rows : Bool
  pub excludes_none : Bool
  pub top_bound : Option Bound
  pub bottom_bound : Option Bound

pub data Linkage : Type 0 where
  union_type intersect_type except_type other_linkage : Linkage

-- limit_params
pub record Limit : Type 0 where
  pub explicit_limit : Bool
  pub with_ties : Bool
  pub select_limit : Option Attrs
  pub offset_limit : Option Attrs

-- `olap`: olap is not UNSPECIFIED_OLAP_TYPE. `select_distinct`, `found_rows`: its options.
pub record SelectInfo : Type 0 where
  pub address : ℕ
  pub olap : Bool
  pub tvc : Bool
  pub found_rows : Bool
  pub select_distinct : Bool
  pub table_count : ℕ
  pub with_sum_func : Bool
  pub limit : Limit
  pub linkage : Linkage
  pub distinct : Bool
  pub mergeable : Bool
  pub window_funcs : Bool
  pub rand : Bool

-- `table`: the TABLE of a set operation's result, and how many fields it has
pub record QueryInfo : Type 0 where
  pub recursive : Bool
  pub table : Option (ℕ × ℕ)

-- `outer`: outer_join is LEFT or RIGHT; `embedded_outer`: so is the nest's that holds it.
pub record TableInfo : Type 0 where
  pub address : ℕ
  pub outer : Bool
  pub semi_join : Bool
  pub embedded_outer : Bool

-- The `window` of no function or no specification is `no_window`. A `query` whose first_select is
-- null has no selects. An entry's source is what t->derived, t->nested_join and t->table say in
-- that order: a derived table has its field_translation, or else the names of its TABLE's fields.
mutual
  pub data Item : Type 0 where
    column : Attrs → Option BoundField → Item
    ref : Attrs → RefType → ℕ → OptItem → Item
    constant null_item param other_item no_window : Attrs → Item
    func : Attrs → FuncInfo → Items → Item
    cond : Attrs → CondType → Items → Item
    sum : Attrs → SumType → Items → Item
    window : Attrs → SumType → Items → Orders → Orders → Option Frame → Item
    subselect : Attrs → SubType → OptItem → Query → Item

  pub data OptItem : Type 0 where
    no_item : OptItem
    an_item : Item → OptItem

  pub data Items : Type 0 where
    no_items : Items
    item : Item → Items → Items

  pub data Orders : Type 0 where
    no_orders : Orders
    order : OptItem → Bool → Orders → Orders

  pub data Query : Type 0 where
    no_query : Query
    query : QueryInfo → Items → Selects → Option Limit → Orders → Query

  pub data Selects : Type 0 where
    no_selects : Selects
    leg : Select → Selects → Selects

  pub data Select : Type 0 where
    select : SelectInfo → Items → Tables → OptItem → Orders → OptItem → Orders → Select

  pub data Tables : Type 0 where
    no_tables : Tables
    entry : TableInfo → OptItem → Source → Tables → Tables

  pub data Source : Type 0 where
    stored : Option Bytes → Source
    nested : Tables → Source
    derived : Query → Option (List (Bytes × ℕ)) → Option (List Bytes) → Source

unfoldable pub attrs_of : Item → Attrs
attrs_of (column a f) = a
attrs_of (ref a t k i) = a
attrs_of (constant a) = a
attrs_of (null_item a) = a
attrs_of (param a) = a
attrs_of (other_item a) = a
attrs_of (no_window a) = a
attrs_of (func a f xs) = a
attrs_of (cond a c xs) = a
attrs_of (sum a s xs) = a
attrs_of (window a s xs p o f) = a
attrs_of (subselect a t l q) = a

-- Item::real_item
unfoldable mutual
  pub real_item : Item → Item
  real_item (ref a t k i) = real_or (ref a t k no_item) i
  real_item i = i

  pub real_or : Item → OptItem → Item
  real_or i no_item = i
  real_or i (an_item x) = real_item x
