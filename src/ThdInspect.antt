-- ===== src/ThdInspect.antt =====
-- src/stoolap_thd_inspect.cc: what the handler asks of a statement's LEX.
pub mod ForeignKeys
pub mod Examples
use stoolap_mariadb.Common.{
  ℕ, ◌≡◌, refl, arith, Bool, true, false, not, ◌&&◌, ◌||◌, List, [], ◌∷◌, ◌++◌, map, Option, none,
  some, Bytes, codes, if◌then◌else◌, is_empty,
}

-- lex->sql_command
pub data SqlCommand : Type 0 where
  update_cmd delete_cmd alter_table_cmd create_index_cmd drop_index_cmd other_cmd : SqlCommand

-- lex->duplicates
pub data Duplicates : Type 0 where
  dup_error dup_replace dup_update : Duplicates

-- Foreign_key, with its enum_fk_options
pub record ForeignKey : Type 0 where
  pub columns : List Bytes
  pub ref_db : Bytes
  pub ref_table : Bytes
  pub ref_columns : List Bytes
  pub delete_opt : ℕ
  pub update_opt : ℕ

-- A Key of alter_info.key_list
pub data KeyDef : Type 0 where
  foreign : ForeignKey → KeyDef
  other_key : KeyDef

-- StoolapThdForeignKey
pub record ThdForeignKey : Type 0 where
  pub column : Bytes
  pub parent_path : Bytes
  pub parent_column : Bytes
  pub on_delete : ℕ
  pub on_update : ℕ

-- The first of query_tables: its opened table's normalized_path, its database and name
pub record AlterTarget : Type 0 where
  pub opened : Option Bytes
  pub db : Bytes
  pub table_name : Bytes

-- `drops`: each of the drop_list, whether it is a column, and its name. `changes`: each field of
-- create_list, by its `change` and its name. `renames`: each of alter_list, by its name and its new name.
pub record Lex : Type 0 where
  pub command : SqlCommand
  pub ignore : Bool
  pub duplicates : Duplicates
  pub keys : List KeyDef
  pub target : Option AlterTarget
  pub drops : List (Bool × Bytes)
  pub changes : List (Bytes × Bytes)
  pub renames : List (Bytes × Bytes)

is_modify : SqlCommand → Bool
is_modify update_cmd = true
is_modify delete_cmd = true
is_modify _ = false

-- A null THD or LEX is none.
unfoldable pub is_update_or_delete : Option Lex → Bool
unfolding is_modify
is_update_or_delete none = false
is_update_or_delete (some lex) = is_modify lex.command

handles_duplicates : Duplicates → Bool
handles_duplicates dup_error = false
handles_duplicates dup_replace = true
handles_duplicates dup_update = true

unfoldable pub needs_per_row_dup_handling : Option Lex → Bool
unfolding handles_duplicates
needs_per_row_dup_handling none = false
needs_per_row_dup_handling (some lex) = lex.ignore || handles_duplicates lex.duplicates

alters : SqlCommand → Bool
alters alter_table_cmd = true
alters create_index_cmd = true
alters drop_index_cmd = true
alters _ = false

-- StoolapThdAltered: path, renames and dropped
pub record Altered : Type 0 where
  pub path : Bytes
  pub renames : List (Bytes × Bytes)
  pub dropped : List Bytes

dropped_columns : List (Bool × Bytes) → List Bytes
dropped_columns [] = []
dropped_columns ((is_column, name) ∷ ds) =
    let rest = dropped_columns ds in if is_column then name ∷ rest else rest

-- Those whose first name is given
changed : List (Bytes × Bytes) → List (Bytes × Bytes)
changed [] = []
changed ((old, new) ∷ cs) =
    let rest = changed cs in if is_empty old then rest else (old, new) ∷ rest

-- Those whose new name is given
renamed : List (Bytes × Bytes) → List (Bytes × Bytes)
renamed [] = []
renamed ((old, new) ∷ cs) =
    let rest = renamed cs in if is_empty new then rest else (old, new) ∷ rest

-- lower_case_table_names is 1; my_casedn_str and tablename_to_filename
module _ (lowers : Bool) (casedn : Bytes → Bytes) (encoded : Bytes → Bytes) where
  unfoldable pub file_name : Bytes → Bytes
  file_name name = encoded (if lowers then casedn name else name)

  first_or_empty : List Bytes → Bytes
  first_or_empty [] = []
  first_or_empty (c ∷ cs) = c

  definition : Bytes → ForeignKey → Bytes → ThdForeignKey
  unfolding file_name first_or_empty
  definition child_db fk column = record {
    column = column;
    parent_path =
        file_name (if is_empty fk.ref_db then child_db else fk.ref_db)
        ++ (codes "/" ++ file_name fk.ref_table);
    parent_column = first_or_empty fk.ref_columns;
    on_delete = fk.delete_opt;
    on_update = fk.update_opt;
  }

  at_most_one : List Bytes → Bool
  at_most_one [] = true
  at_most_one (c ∷ []) = true
  at_most_one _ = false

  only_one : List Bytes → Bool → Option Bytes
  only_one (c ∷ []) true = some c
  only_one _ _ = none

  -- The column of a key that stoolap enforces
  single : ForeignKey → Option Bytes
  unfolding at_most_one only_one
  single fk = only_one fk.columns (at_most_one fk.ref_columns)

  -- `out` is what has been pushed so far.
  from_keys : Bytes → List KeyDef → List ThdForeignKey → List ThdForeignKey × Bool
  unfolding single definition
  from_keys child_db [] out = (out, true)
  from_keys child_db (other_key ∷ ks) out = from_keys child_db ks out
  from_keys child_db (foreign fk ∷ ks) out = elim (single fk) [
    | none ↦ (out, false)
    | some c ↦ from_keys child_db ks (out ++ (definition child_db fk c ∷ []))
  ]

  unfoldable pub stoolap_thd_foreign_keys : Option Lex → Bytes → List ThdForeignKey × Bool
  unfolding from_keys
  stoolap_thd_foreign_keys none child_db = ([], true)
  stoolap_thd_foreign_keys (some lex) child_db = from_keys child_db lex.keys []

  path_of : AlterTarget → Bytes
  unfolding file_name
  path_of t = elim t.opened [
    | some path ↦ path
    | none ↦ file_name t.db ++ (codes "/" ++ file_name t.table_name)
  ]

  altered_from : Lex → Option AlterTarget → Option Altered
  unfolding path_of dropped_columns changed renamed
  altered_from lex none = none
  altered_from lex (some t) = some (record {
    path = path_of t;
    renames = changed lex.changes ++ renamed lex.renames;
    dropped = dropped_columns lex.drops;
  })

  -- none where it returns false
  unfoldable pub stoolap_thd_altered_table : Option Lex → Option Altered
  unfolding altered_from alters
  stoolap_thd_altered_table none = none
  stoolap_thd_altered_table (some lex) =
      if not (alters lex.command) then none else altered_from lex lex.target
