-- ===== src/Handler/Examples/Tables.antt =====
-- Tables, their keys and their values at concrete ones.
use stoolap_mariadb.Common.{
  ◌↔◌, true, ◌≡◌, arith, refl, false, some, [], ◌∷◌, ◌++◌, Bytes, codes, get_elem?, length,
  if◌then◌else◌,
}
use stoolap_mariadb.Common.Int.{ℤ, pos, negsuc}
use stoolap_mariadb.Types.{field_enc, is_string_type}
use stoolap_mariadb.Types.Encode.{Cell, integer}
use stoolap_mariadb.Handler.Sql.{
  quote, quote_ident, max_sql, count_sql, truncate_sql, analyze_sql, read_max, read_table,
  quote_ident-read,
}
use stoolap_mariadb.Handler.Errors.{
  unique_key_by_ordinal, unique_clauses, unique_key_by_ordinal_lem, raise_commit_error,
  raise_commit_error-raised, names_other_object, ha_error_of,
}
use stoolap_mariadb.Handler.Columns.{stoolap_column_kind}
use stoolap_mariadb.Handler.Refusals.{
  refuse_unenforceable_keys, refuse_unenforceable_keys_lem, UniquePart, Unenforceable, is_ci_string,
  prefix_unique_part, ci_string_unique_part,
}
use stoolap_mariadb.Handler.Cells.{extract_field, extract_field-stoolap_column_kind, value_kind}
use stoolap_mariadb.Samples.{class_of, sample_share, id_field}

unique_key_by_ordinal_lem_example :
    unique_key_by_ordinal sample_share 1 ≡ get_elem? (unique_clauses sample_share) 1
unique_key_by_ordinal_lem_example = unique_key_by_ordinal_lem sample_share 1

unique_key_by_ordinal_test : unique_key_by_ordinal sample_share 1 ≡ some 2
unfolding unique_key_by_ordinal
unique_key_by_ordinal_test = ground arith

raise_commit_error-raised_example :
    let report = raise_commit_error class_of (codes "unique") in
    let class = (class_of (codes "unique")).0 in
    (length report.raised ≡ (if names_other_object class then 0 else 1))
    × (report.rc ≡ ha_error_of class)
raise_commit_error-raised_example = raise_commit_error-raised class_of b'u' (codes "nique")

refuse_unenforceable_keys_lem_example :
    (refuse_unenforceable_keys sample_share ≡ true) ↔ UniquePart Unenforceable sample_share.keys
refuse_unenforceable_keys_lem_example = refuse_unenforceable_keys_lem sample_share

refuse_unenforceable_keys_test : refuse_unenforceable_keys sample_share ≡ false
unfolding refuse_unenforceable_keys prefix_unique_part ci_string_unique_part is_ci_string
    is_string_type
refuse_unenforceable_keys_test = refl

packed : ℤ → ℤ
packed v = v

abbrev past_max : Cell ℤ
past_max = record {
  is_null = false;
  val_int = negsuc 0;
  val_real = 0;
  val_str = [];
  get_date = λ time_only. pos 0;
  timestamp_secs = pos 0;
  timestamp_usec = 0;
}

extract_field-stoolap_column_kind_example :
    stoolap_column_kind id_field ≡ value_kind (integer (negsuc 0))
unfolding extract_field field_enc
extract_field-stoolap_column_kind_example =
    extract_field-stoolap_column_kind packed id_field past_max (integer (negsuc 0)) refl refl

named : Bytes → Bytes
named path = path

-- `o"x`, a name with a quote in it
abbrev quoted_name : Bytes
quoted_name = codes "o" ++ (quote ∷ codes "x")

quote_ident-read_example :
    (read_max (max_sql quoted_name (codes "t")) ≡ some (quoted_name, codes "t"))
    × (read_table (codes "SELECT COUNT(*) FROM ") (count_sql (codes "t")) ≡ some (codes "t"))
    × (read_table (codes "TRUNCATE TABLE ") (truncate_sql (codes "t")) ≡ some (codes "t"))
    × (read_table (codes "ANALYZE TABLE ") (analyze_sql (codes "t")) ≡ some (codes "t"))
quote_ident-read_example = quote_ident-read quoted_name (codes "t")

-- The quote is doubled.
quote_ident_test :
    quote_ident quoted_name ≡ quote ∷ (codes "o" ++ (quote ∷ quote ∷ (codes "x" ++ (quote ∷ []))))
unfolding quote_ident
quote_ident_test = refl
