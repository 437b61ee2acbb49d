-- ===== src/Handler/Ddl.antt =====
-- create, delete_table and rename_table of src/ha_stoolap.cc, with create_stoolap_table: what they
-- ask of stoolap and what they do to the Engine. What the FFI answers is an argument.
use stoolap_mariadb.Common.{
  ℕ, suc, ◌≡◌, arith, refl, Bool, true, false, not, ◌||◌, List, [], ◌∷◌, Option, none, some, Bytes,
  ◌==◌, if◌then◌else◌, bytes_eq,
}
use stoolap_mariadb.Types.{Field}
use stoolap_mariadb.Bridge.{
  Engine, mark_reconciled, drop_reconciled, records_drop, records_lookup, records_set,
  ai_invalidate,
}
use stoolap_mariadb.Bridge.RowCounts.{records_lookup-after_call, records_lookup-ne, sets, drops}
use stoolap_mariadb.Handler.Schema.{KeyPart, Key, Share, Rc, ok, is_ok, unsupported, out_of_mem}
use stoolap_mariadb.Handler.Errors.{ErrorClass, report_stoolap_error}
use stoolap_mariadb.Handler.Columns.{ColumnKind, stoolap_column_kind}
use stoolap_mariadb.Handler.Refusals.{refuse_unenforceable_keys, refuse_unsupported_columns}

-- StoolapColumnDef, StoolapKeyDef (STOOLAP_KEYDEF_*), StoolapForeignKeyDef; the parts are fields' numbers.
pub record ColumnDef : Type 0 where
  pub name : Bytes
  pub kind : ColumnKind
  pub nullable : Bool
  pub auto_increment : Bool

pub data KeyDefKind : Type 0 where
  primary unique plain_index : KeyDefKind

pub record KeyDef : Type 0 where
  pub name : Bytes
  pub parts : List ℕ
  pub kind : KeyDefKind

pub record ForeignKeyDef : Type 0 where
  pub column : Bytes
  pub parent : Bytes
  pub parent_column : Option Bytes
  pub on_delete : ℕ
  pub on_update : ℕ

-- The table that an ALTER copies, its renamed and its dropped columns.
pub record Altered : Type 0 where
  pub table : Bytes
  pub renames : List (Bytes × Bytes)
  pub drops : List Bytes

-- The arguments of stoolap_create_table
pub record Creation : Type 0 where
  pub table : Bytes
  pub columns : List ColumnDef
  pub keys : List KeyDef
  pub foreign_keys : List ForeignKeyDef
  pub altered : Option Altered
  pub if_not_exists : Bool

unfoldable pub column_defs : List Field → Option (List ColumnDef)
column_defs [] = some []
column_defs (f ∷ fs) =
    let rest = column_defs fs in
    elim (stoolap_column_kind f) [
      | none ↦ none
      | some k ↦ elim rest [
        | none ↦ none
        | some defs ↦ some (
            record {
              name = f.name;
              kind = k;
              nullable = f.maybe_null;
              auto_increment = f.auto_increment;
            }
            ∷ defs)
      ]
    ]

part_fields : List KeyPart → List ℕ
part_fields [] = []
part_fields (kp ∷ kps) = kp.field.field_index ∷ part_fields kps

key_def_kind : Share → ℕ → Key → KeyDefKind
key_def_kind form i k =
    if i == form.primary_key then primary else if k.no_same then unique else plain_index

key_defs : Share → ℕ → List Key → List KeyDef
unfolding part_fields key_def_kind
key_defs form i [] = []
key_defs form i (k ∷ ks) =
    record { name = k.name; parts = part_fields k.parts; kind = key_def_kind form i k }
    ∷ key_defs form (suc i) ks

-- What stoolap_create_table answers
pub data Created : Type 0 where
  created index_failed : Created
  failed : Bytes → Created

answer_rc : (Bytes → ErrorClass × Option ℕ) → Created → Rc
answer_rc class created = ok
answer_rc class index_failed = ok
answer_rc class (failed message) = (report_stoolap_error class message).rc

-- The foreign keys of the statement: none where stoolap_thd_foreign_keys refuses a composite one.
-- `parent` is a path, which `table_of` (stoolap_table_from_path) names.
foreign_keys_of : (Bytes → Bytes) → List ForeignKeyDef → List ForeignKeyDef
foreign_keys_of table_of [] = []
foreign_keys_of table_of (fk ∷ fks) =
    record fk { parent = table_of fk.parent } ∷ foreign_keys_of table_of fks

altered_of : (Bytes → Bytes) → Option Altered → Option Altered
altered_of table_of none = none
altered_of table_of (some a) = some (record a { table = table_of a.table })

module _ (error_class : Bytes → ErrorClass × Option ℕ) (table_of : Bytes → Bytes) where
  create_with :
      Bytes
      → Share
      → Bool
      → List ColumnDef
      → List ForeignKeyDef
      → Option Altered
      → Created
      → Option Creation × Rc
  unfolding answer_rc key_defs foreign_keys_of altered_of
  create_with table form if_not_exists columns fks altered answer = (
    some (record {
      table = table;
      columns = columns;
      keys = key_defs form 0 form.keys;
      foreign_keys = foreign_keys_of table_of fks;
      altered = altered_of table_of altered;
      if_not_exists = if_not_exists;
    }),
    answer_rc error_class answer,
  )

  -- `parsed` is what the statement's parser read, none for a composite foreign key; `altered` the
  -- table that an ALTER copies. Both are read only `with_fks`. The request is none where the FFI is
  -- not called.
  unfoldable pub create_stoolap_table :
      Bytes
      → Share
      → Bool
      → Bool
      → Option (List ForeignKeyDef)
      → Option Altered
      → Created
      → Option Creation × Rc
  unfolding create_with
  create_stoolap_table table form if_not_exists with_fks parsed altered answer =
      elim (column_defs form.fields) [
        | none ↦ (none, unsupported)
        | some columns ↦
            if not with_fks
            then create_with table form if_not_exists columns [] none answer
            else elim parsed [
              | none ↦ (none, unsupported)
              | some fks ↦ create_with table form if_not_exists columns fks altered answer
            ]
      ]

  created_engine : Engine → Bytes → Rc → Engine
  created_engine e table rc = if is_ok rc then mark_reconciled e table else e

  -- `has_db`: a database handle can be had
  unfoldable pub create :
      Engine
      → Bytes
      → Share
      → Bool
      → Option (List ForeignKeyDef)
      → Option Altered
      → Created
      → Engine × Option Creation × Rc
  unfolding created_engine
  create e name form has_db parsed altered answer =
      if refuse_unenforceable_keys form || refuse_unsupported_columns form
      then (e, none, unsupported)
      else if not has_db
      then (e, none, out_of_mem)
      else let (request, rc) =
          create_stoolap_table (table_of name) form false true parsed altered answer in
        (created_engine e (table_of name) rc, request, rc)

  -- `answer`: none for STOOLAP_OK, else the message
  unfoldable pub delete_table : Engine → Bytes → Bool → Option Bytes → Engine × Rc
  delete_table e name has_db answer =
      let flat = table_of name in
      if not has_db then (e, out_of_mem) else elim answer [
        | none ↦ (ai_invalidate (records_drop (drop_reconciled e flat) flat), ok)
        | some message ↦ (e, (report_stoolap_error error_class message).rc)
      ]

  move_count : Engine → Bytes → Option ℕ → Engine
  move_count e to none = e
  move_count e to (some count) = records_set e to count

  unfoldable pub rename_table : Engine → Bytes → Bytes → Bool → Option Bytes → Engine × Rc
  unfolding move_count
  rename_table e from to has_db answer =
      let flat_from = table_of from in
      let flat_to = table_of to in
      if not has_db then (e, out_of_mem) else elim answer [
        | some message ↦ (e, (report_stoolap_error error_class message).rc)
        | none ↦
            let e1 = mark_reconciled (drop_reconciled e flat_from) flat_to in
            let e2 = move_count e1 flat_to (records_lookup e1 flat_from) in
            (ai_invalidate (records_drop e2 flat_from), ok)
      ]

reconciled-records_lookup :
    (e : Engine) (from to k : Bytes)
    → records_lookup (mark_reconciled (drop_reconciled e from) to) k ≡ records_lookup e k
unfolding mark_reconciled drop_reconciled records_lookup
reconciled-records_lookup e from to k = refl

ai_invalidate-records_lookup :
    (e : Engine) (k : Bytes)
    → (records_lookup (ai_invalidate e) k ≡ records_lookup e k) × ((ai_invalidate e).ai_next ≡ [])
unfolding ai_invalidate records_lookup
ai_invalidate-records_lookup e k = (refl, refl)

-- After a rename of a table to another name, the new name has the row count that the old one had
-- where there was one, the old name has none, no other table's count changes, and no cursor of
-- AUTO_INCREMENT is left.
rename_table-records :
    (error_class : Bytes → ErrorClass × Option ℕ) (table_of : Bytes → Bytes) (e : Engine)
    (from to k : Bytes) (count : ℕ)
    → bytes_eq (table_of from) (table_of to) ≡ false
    → records_lookup e (table_of from) ≡ some count
    → let e' = (rename_table error_class table_of e from to true none).0 in
      (records_lookup e' k ≡ (
        if bytes_eq (table_of from) k
        then none
        else if bytes_eq (table_of to) k
        then some count
        else records_lookup e k))
      × (e'.ai_next ≡ [])
unfolding rename_table move_count
rename_table-records error_class table_of e from to k count ne h =
    let old = table_of from in
    let new = table_of to in
    let e1 = mark_reconciled (drop_reconciled e old) new in
    let e2 = records_set e1 new count in
    ground (
      arith,
      ai_invalidate-records_lookup (records_drop e2 old) k,
      records_lookup-after_call e2 (drops old) k,
      records_lookup-after_call e1 (sets new count) k,
      reconciled-records_lookup e old new k,
      reconciled-records_lookup e old new old,
      records_lookup-ne e old count h,
    )
