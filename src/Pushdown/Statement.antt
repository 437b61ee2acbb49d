-- ===== src/Pushdown/Statement.antt =====
-- What src/ha_stoolap_select.cc reads of a statement: a THD, and SELECT_LEX with its items, its FROM
-- and its units. The same tree is read by src/stoolap_sqlgen.cc as Sqlgen.Items holds it.
use stoolap_mariadb.Common.{ℕ, Bool, Option}
use stoolap_mariadb.Types.{Field}
use stoolap_mariadb.Sqlgen.Items.{Linkage}

pub data Command : Type 0 where
  select_command update_command delete_command other_command : Command

-- `prepare`: its arena is_stmt_prepare. `interceptor`: lex->result is a result interceptor. `ignore`:
-- lex->ignore. `trust_bin`: stoolap_thd_trust_binary_strings.
pub record Session : Type 0 where
  pub prepare : Bool
  pub in_procedure : Bool
  pub in_sub_stmt : Bool
  pub command : Command
  pub interceptor : Bool
  pub ignore : Bool
  pub trust_bin : Bool

-- `side_effect`, `rand`: of `uncacheable`. `unlocked`: select_lock is NONE. `limited`: there is a
-- select_limit.
pub record Info : Type 0 where
  pub linkage : Linkage
  pub distinct : Bool
  pub table_count : ℕ
  pub item_count : ℕ
  pub side_effect : Bool
  pub rand : Bool
  pub unlocked : Bool
  pub explicit_limit : Bool
  pub limited : Bool

-- Each item begins with its const_item(). An aggregate says whether it is COUNT. A subquery says
-- whether it is EXISTS, and has the SELECTs of its unit. `gap` is a null pointer in a list. A
-- TABLE_LIST has its on_expr, prep_on_expr and sj_on_expr, what is read there, and its nested join;
-- the tables of one list are a chain of next_local or a join list. A base table says whether its
-- handlerton is stoolap_hton. A unit has its union_distinct and its global_parameters' ORDER and GROUP.
mutual
  pub data Item : Type 0 where
    field : Bool → Option Field → Item
    func : Bool → Items → Item
    sum : Bool → Bool → Items → Item
    cond : Bool → Items → Item
    ref : Bool → OptItem → Item
    subselect : Bool → Bool → Selects → Item
    other_item : Bool → Item

  pub data OptItem : Type 0 where
    no_item : OptItem
    an_item : Item → OptItem

  pub data Items : Type 0 where
    no_items : Items
    item : Item → Items → Items
    gap : Items → Items

  pub data Selects : Type 0 where
    no_selects : Selects
    leg : Select → Selects → Selects

  pub data Select : Type 0 where
    select : Info → OptItem → OptItem → Items → Items → Items → Tables → Units → Select

  pub data Tables : Type 0 where
    no_tables : Tables
    entry : OptItem → OptItem → OptItem → Source → Tables → Tables → Tables

  pub data Source : Type 0 where
    no_table : Source
    base : Bool → Source
    derived : Query → Source

  pub data Query : Type 0 where
    query : Bool → Selects → Items → Items → Query

  pub data Units : Type 0 where
    no_units : Units
    inner : Query → Units → Units
