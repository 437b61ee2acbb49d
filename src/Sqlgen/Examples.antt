-- ===== src/Sqlgen/Examples.antt =====
-- The generator of SQL on small statements.
use stoolap_mariadb.Common.{
  ℕ, ◌≢◌, ◌≡◌, ◌↔◌, refl, arith, true, false, List, [], ◌∷◌, ◌++◌, Option, none, some, Bytes, codes,
}
use stoolap_mariadb.Common.Int.{pos, negsuc}
use stoolap_mariadb.Types.{Field, long, varchar}
use stoolap_mariadb.Samples.{utf8mb4_bin, id_field, name_field}
use stoolap_mariadb.Sqlgen.Items.{
  Attrs, BoundField, FuncInfo, TableInfo, eq_func, neg_func, Item, no_item, an_item, no_items, item,
  no_orders, Query, query, no_selects, leg, Select, select, no_tables, entry, stored, column,
  constant, func, int_result, string_result, other_linkage,
}
use stoolap_mariadb.Sqlgen.Gen.{State, wrote, Env, find_at, ident, name_quote, text_quote, fresh}
use stoolap_mariadb.Sqlgen.Comments.{ClosedSql, sql_read, opens_comment, comment}
use stoolap_mariadb.Sqlgen.Lexer.{outside, step}
use stoolap_mariadb.Sqlgen.Gen.{require, emit, pure, ◌⊕◌, has_at, within, fail}
use stoolap_mariadb.Sqlgen.Items.{attrs_of, real_item}
use stoolap_mariadb.Sqlgen.Select as Selecting
use stoolap_mariadb.Sqlgen.Select.{join_list}
use stoolap_mariadb.Sqlgen.Query.{field}
use stoolap_mariadb.Sqlgen.Funcs.{expr, condition}
use stoolap_mariadb.Sqlgen.Funcs.{func as func_text}
use stoolap_mariadb.Sqlgen.Query.{unit}
use stoolap_mariadb.Sqlgen.Gen.{doubled, signed}
use stoolap_mariadb.Handler.Savepoints.{decimal}
use stoolap_mariadb.Types.{field_enc, text_is_utf8}
use stoolap_mariadb.Sqlgen.Classes.{is_class, cls, comparable, is_null_item, numeric, cs_safe}
use stoolap_mariadb.Sqlgen.Literals.{literal, has_escape, temporal_literal, quoted}
use stoolap_mariadb.Sqlgen.Node.{node, select_code, query_code}
use stoolap_mariadb.Sqlgen.Node.{gen_select, gen_unit}
use stoolap_mariadb.Sqlgen.Node.Safe.{gen_select-Closed}
use stoolap_mariadb.Sqlgen.Node.Aliases.{gen_select-aliases}
use stoolap_mariadb.Sqlgen.Assign.{int_range, in_range, Session}
use stoolap_mariadb.Sqlgen.Assign.Range.{in_range-low_bits, number_of, low_bits}
use stoolap_mariadb.Sqlgen.Modify.{pk_equality, Target, Setting, Modified, gen_modify}
use stoolap_mariadb.Sqlgen.Modify.Safe.{gen_modify-Closed}

abbrev pub env : Env
env = record {
  trust_bin = false;
  is_top = λ select. false;
  parse = λ any text. none;
  unpack_date = λ v. (0, 0, 0);
}

abbrev int_attrs : Attrs
int_attrs = record {
  is_bool = false;
  cmp_type = int_result;
  field_type = long;
  unsigned_flag = false;
  basic_const = false;
  const_item = false;
  is_null = false;
  maybe_null = false;
  const_is_null = false;
  cols = 1;
  collation = none;
  max_length = 11;
  val_int = pos 0;
  val_uint = 0;
  val_real = none;
  val_decimal = none;
  val_str = none;
  str_minlen = 0;
  str_chars = 0;
  packed = none;
}

abbrev text_attrs : Attrs
text_attrs = record int_attrs {
  cmp_type = string_result;
  field_type = varchar;
  collation = some utf8mb4_bin;
}

bound : ℕ → Field → BoundField
bound address f = record {
  address = address;
  field = f;
  table = some (record { table = 70; list = 7 });
  not_null = true;
  field_length = 40;
}

id_item : Item
unfolding bound
id_item = column int_attrs (some (bound 1 id_field))

name_item : Item
unfolding bound
name_item = column text_attrs (some (bound 2 name_field))

-- it's, with a quote in it
abbrev text : Bytes
text = codes "it" ++ (text_quote ∷ codes "s")

literal_item : Item
literal_item = constant (record text_attrs {
  basic_const = true;
  const_item = true;
  val_str = some text;
  str_minlen = 1;
  str_chars = 4;
})

two : Item
two = constant (record int_attrs { basic_const = true; const_item = true; val_int = pos 2 })

equals : FuncInfo
equals = record {
  functype = eq_func;
  func_name = codes "=";
  plain_schema = true;
  negated = false;
  escape = 0;
  compare_collation = some utf8mb4_bin;
  compare_type = none;
}

unfoldable pub where_name : Item
unfolding name_item literal_item equals
where_name =
    func (record int_attrs { is_bool = true }) equals (item name_item (item literal_item no_items))

plain_table : ℕ → TableInfo
plain_table address = record {
  address = address;
  outer = false;
  semi_join = false;
  embedded_outer = false;
}

unfoldable pub a_select : Select
unfolding id_item where_name plain_table
a_select =
    select
      (record {
        address = 3;
        olap = false;
        tvc = false;
        found_rows = false;
        select_distinct = false;
        table_count = 2;
        with_sum_func = false;
        limit = record {
          explicit_limit = false;
          with_ties = false;
          select_limit = none;
          offset_limit = none;
        };
        linkage = other_linkage;
        distinct = false;
        mergeable = true;
        window_funcs = false;
        rand = false;
      })
      (item id_item no_items)
      (entry (plain_table 8) no_item (stored (some (codes "u")))
        (entry (plain_table 7) no_item (stored (some (codes "t"))) no_tables))
      (an_item where_name) no_orders no_item no_orders

unfoldable pub a_query : Query
unfolding a_select
a_query =
    query (record { recursive = false; table = none }) no_items (leg a_select no_selects) none
      no_orders

abbrev quoted_name : Bytes → Bytes
quoted_name s = name_quote ∷ (s ++ (name_quote ∷ []))

abbrev dotted : Bytes → Bytes → Bytes
dotted table name = table ++ (codes "." ++ quoted_name name)

-- The quote of the literal is doubled.
abbrev condition_text : Bytes → Bytes
condition_text table =
    codes "("
    ++ (dotted table (codes "name")
        ++ (codes " = "
            ++ (text_quote ∷ (codes "it" ++ (text_quote ∷ text_quote ∷ codes "s")))
            ++ (text_quote ∷ codes ")")))

abbrev pub select_text : Bytes
select_text =
    codes "SELECT "
    ++ (dotted (codes "t0") (codes "id")
        ++ (codes " FROM "
            ++ (quoted_name (codes "t")
                ++ (codes " AS t0 CROSS JOIN "
                    ++ (quoted_name (codes "u")
                        ++ (codes " AS t1 WHERE ("
                            ++ (condition_text (codes "t0") ++ codes ")")))))))

abbrev pub after_select : State
after_select = record fresh { alias = (8, codes "t1") ∷ (7, codes "t0") ∷ []; next_alias = 2 }

pub gen_select_test : gen_select env true a_select ≡ wrote select_text after_select
unfolding gen_select a_select Selecting.select require select_code join_list emit pure ◌⊕◌ attrs_of
    expr field has_at find_at within condition fail func_text temporal_literal is_class cls
    field_enc text_is_utf8 comparable is_null_item numeric cs_safe literal has_escape
    Selecting.limit decimal ident doubled quoted
gen_select_test = refl

pub gen_unit_test : gen_unit env a_query ≡ wrote select_text after_select
unfolding gen_unit a_query unit query_code Selecting.select require select_code join_list emit pure
    ◌⊕◌ attrs_of expr field has_at find_at within condition fail func_text temporal_literal is_class
    cls field_enc text_is_utf8 comparable is_null_item numeric cs_safe literal has_escape
    Selecting.limit decimal ident doubled quoted
gen_unit_test = refl

gen_select-Closed_example : ClosedSql select_text × ClosedSql select_text
gen_select-Closed_example =
    gen_select-Closed env true a_select a_query select_text select_text after_select after_select
      gen_select_test gen_unit_test

abbrev t0 : Bytes
t0 = codes "t0"

abbrev t1 : Bytes
t1 = codes "t1"

gen_select-aliases_example : (t0 ≢ t1) × (t0 ≢ t1)
unfolding find_at
gen_select-aliases_example =
    gen_select-aliases env true a_select a_query select_text select_text after_select after_select 7
      8 7 8 t0 t1 t0 t1 gen_select_test gen_unit_test (omega arith) (omega arith) refl refl
      (omega arith) refl refl (omega arith)

abbrev pub session : Session
session = record {
  strict = true;
  changed_only = true;
  zero_for_negative_zero = true;
  not_fixed_dec = 39;
}

abbrev pub target : Target
target = record {
  list = 7;
  table = 70;
  name = codes "t";
  has_checks = false;
  has_update_default = false;
  pk = some 0;
}

unfoldable pub settings : Option (List Setting)
unfolding id_item two
settings = some (record { target = id_item; value = some two } ∷ [])

abbrev pub modified : Modified
modified = record {
  sql =
      codes "UPDATE "
      ++ (quoted_name (codes "t")
          ++ (codes " SET "
              ++ (quoted_name (codes "id")
                  ++ (codes " = 2 WHERE ("
                      ++ (condition_text (quoted_name (codes "t"))
                          ++ (codes ") AND ("
                              ++ (dotted (quoted_name (codes "t")) (codes "id")
                                  ++ codes " IS DISTINCT FROM (2))")))))));
  guard = none;
  count_sql =
      codes "SELECT COUNT(*) FROM "
      ++ (quoted_name (codes "t") ++ (codes " WHERE " ++ condition_text (quoted_name (codes "t"))));
  one_row = false;
}

abbrev pub after_update : State
after_update = record fresh { alias = (7, quoted_name (codes "t")) ∷ [] }

pub gen_modify_test :
    gen_modify env session (some target) settings (some where_name) ≡ wrote modified after_update
unfolding gen_modify settings where_name require emit pure ◌⊕◌ attrs_of expr field has_at find_at
    within condition fail func_text temporal_literal is_class cls field_enc text_is_utf8 comparable
    is_null_item numeric cs_safe literal has_escape decimal ident doubled quoted int_range in_range
    node signed pk_equality real_item
gen_modify_test = refl

gen_modify-Closed_example : ClosedSql modified.sql × ClosedSql modified.count_sql
gen_modify-Closed_example =
    gen_modify-Closed env session target settings (some where_name) modified after_update
      gen_modify_test

-- An INT takes 2147483647, and its 32 bits are the number.
in_range-low_bits_example :
    (in_range (negsuc 2147483647, pos 2147483647) (pos 2147483647) ≡ true)
    ↔ (number_of false 32 (low_bits 32 (pos 2147483647)) ≡ pos 2147483647)
unfolding int_range
in_range-low_bits_example =
    in_range-low_bits id_field (negsuc 2147483647, pos 2147483647) (pos 2147483647) refl

-- - over a bound -5
negated_five : Item
unfolding equals
negated_five =
    func int_attrs (record equals { functype = neg_func; func_name = codes "-" })
      (item
        (constant (record int_attrs { basic_const = true; const_item = true; val_int = negsuc 4 }))
        no_items)

-- Its text reads as a comment: a parenthesis stays open.
minus_comment_test :
    (node env negated_five fresh ≡ wrote (codes "(--5)") fresh)
    × (sql_read (outside 0) (codes "(--5)") ≡ comment)
unfolding node negated_five func_text require within expr cls is_class numeric literal signed
    decimal attrs_of fail sql_read opens_comment step is_null_item emit
minus_comment_test = (refl, refl)
