-- ===== src/Sqlgen/Node.antt =====
-- The recursion of src/stoolap_sqlgen.cc over MariaDB's tree: `node` for an item, and the parts of
-- selects, joins and query expressions.
pub mod Safe
pub mod Aliases
use stoolap_mariadb.Common.{
  Bool, true, false, not, ◌&&◌, List, [], ◌∷◌, Option, none, some, Bytes, if◌then◌else◌,
}
use stoolap_mariadb.Sqlgen.Items.{
  Item, OptItem, Items, Orders, Query, Selects, Select, Tables, Source, column, ref, constant,
  null_item, param, other_item, no_window, func, cond, sum, window, subselect, no_item, an_item,
  no_items, item, no_orders, order, no_query, query, no_selects, leg, select, no_tables, entry,
  stored, nested, derived, SelectInfo, TableInfo, QueryInfo, real_item,
}
use stoolap_mariadb.Sqlgen.Gen.{Gen, Outcome, refused, fail, Env, fresh}
use stoolap_mariadb.Sqlgen.Literals.{literal}
use stoolap_mariadb.Sqlgen.Funcs
use stoolap_mariadb.Sqlgen.Funcs.{Arg}
use stoolap_mariadb.Sqlgen.Sums
use stoolap_mariadb.Sqlgen.Sums.{Key}
use stoolap_mariadb.Sqlgen.Select.{Names, Merge, SourceCode, Entry, SelectCode, Leg, join_list}
use stoolap_mariadb.Sqlgen.Select as Selecting
use stoolap_mariadb.Sqlgen.Query.{QueryCode, unit, optimized, field, reference}
use stoolap_mariadb.Sqlgen.Query as Querying

unfoldable pub list_of : Items → List Item
list_of no_items = []
list_of (item i is) = i ∷ list_of is

is_column : Item → Bool
is_column (column a f) = true
is_column _ = false

all_columns : Items → Bool
unfolding is_column
all_columns no_items = true
all_columns (item i is) = is_column (real_item i) && all_columns is

has_orders : Orders → Bool
has_orders no_orders = false
has_orders (order i d os) = true

-- What mergeable_base asks of a derived table's SELECT
merges : SelectInfo → QueryInfo → TableInfo → Bool
merges s q b =
    s.mergeable
    && not s.window_funcs
    && not s.tvc
    && not s.olap
    && not s.rand
    && not q.recursive
    && not b.outer

info_of : Select → SelectInfo
info_of (select s items from where_cond group having sorted) = s

items_of : Select → List Item
items_of (select s items from where_cond group having sorted) = list_of items

ordered : Select → Bool
unfolding has_orders
ordered (select s items from where_cond group having sorted) = has_orders sorted

module _ (env : Env) where
  unfoldable mutual
    unfolding all_columns merges info_of items_of ordered

    pub node : Item → Gen Bytes
    node (column a f) = field f
    node (ref a t at i) = reference t at (opt_arg i)
    node (constant a) = literal a
    node (null_item a) = literal a
    node (param a) = fail "parameter without a value"
    node (other_item a) = fail "item type"
    node (no_window a) = fail "window"
    node (func a f xs) = Funcs.func env (func a f xs) f (args xs) (in_optimizer xs)
    node (cond a c xs) = Funcs.cond c (args xs)
    node (sum a s xs) = Sums.sum env.trust_bin s false (args xs)
    node (window a s xs partition sorted frame) =
        Sums.window env.trust_bin s (args xs) (keys partition) (keys sorted) frame
    node (subselect a t left q) = Querying.subselect env t (opt_arg left) (query_code q)

    pub args : Items → List Arg
    args no_items = []
    args (item i is) = record { of = i; node = node i } ∷ args is

    pub opt_arg : OptItem → Option Arg
    opt_arg no_item = none
    opt_arg (an_item i) = some (record { of = i; node = node i })

    pub keys : Orders → List Key
    keys no_orders = []
    keys (order i desc os) = record { of = opt_arg i; desc = desc } ∷ keys os

    pub in_optimizer : Items → Gen Bytes
    in_optimizer (item i (item (subselect a t left q) no_items)) =
        optimized env t (record { of = i; node = node i }) (query_code q)
    in_optimizer _ = fail "in_optimizer shape"

    pub query_code : Query → QueryCode
    query_code no_query = record {
      info = record { recursive = false; table = none };
      types = [];
      legs = [];
      global_limit = none;
      global_order = [];
    }
    query_code (query u types selects global_limit global_order) = record {
      info = u;
      types = list_of types;
      legs = legs selects;
      global_limit = global_limit;
      global_order = keys global_order;
    }

    pub legs : Selects → List Leg
    legs no_selects = []
    legs (leg s ss) =
        record {
          info = info_of s;
          items = items_of s;
          ordered = ordered s;
          write = λ names cols. Selecting.select env (select_code s) names cols;
        }
        ∷ legs ss

    pub select_code : Select → SelectCode
    select_code (select s items from where_cond group having sorted) = record {
      info = s;
      items = args items;
      tables = entries from;
      where_cond = opt_arg where_cond;
      group = keys group;
      having = opt_arg having;
      order = keys sorted;
    }

    pub entries : Tables → List Entry
    entries no_tables = []
    entries (entry t on source ts) =
        record { info = t; on = opt_arg on; source = source_code source } ∷ entries ts

    pub source_code : Source → SourceCode
    source_code (stored name) = Selecting.stored name
    source_code (nested ts) = Selecting.nested (join_list (entries ts))
    source_code (derived q columns names) =
        Selecting.derived (merge_of q) (λ asked. unit env (query_code q) asked) columns names

    pub merge_of : Query → Option Merge
    merge_of
          (query u types
            (leg
              (select s items
                (entry b no_item (stored (some name)) no_tables)
                where_cond
                group
                having
                sorted)
              more)
            global_limit
            global_order) =
        if merges s u b
        then some (record {
          base = b.address;
          name = name;
          all_columns = all_columns items;
          where_cond = opt_arg where_cond;
        })
        else none
    merge_of _ = none

-- gen_select and gen_unit, for a SELECT that has no next one where `alone`. `out` is set for `wrote`,
-- `why` for `refused`.
module _ (env : Env) where
  unfoldable pub gen_select : Bool → Select → Outcome Bytes
  gen_select alone s =
      if alone
      then Selecting.select env (select_code env s) none none fresh
      else refused "set operation leg"

  unfoldable pub gen_unit : Query → Outcome Bytes
  gen_unit q = unit env (query_code env q) none fresh
