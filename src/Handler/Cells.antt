-- ===== src/Handler/Cells.antt =====
-- extract_field and encode_cell of src/ha_stoolap.cc: the value that stoolap gets of a field.
use stoolap_mariadb.Common.{
  ◌≡◌, ◌≢◌, ◌⊎◌, inl, inr, sym, Bool-cases, arith, refl, Bool, true, false, not, ◌&&◌, Option, none,
  some, if◌then◌else◌,
}
use stoolap_mariadb.Common.Int.{ℤ, is_negative}
use stoolap_mariadb.Types.{
  Field, FieldType, Enc, plain, packed_time, utc_micros, index, hex, field_enc, is_string_type,
  tiny, short, long, longlong, int24, year, bit, float, double, newdecimal,
}
use stoolap_mariadb.Types.Encode.{
  Cell, Value, null, integer, float64, text, encode_field, encode_as,
}
use stoolap_mariadb.Handler.Columns
use stoolap_mariadb.Handler.Columns.{ColumnKind, stoolap_column_kind, plain_kind, kind_of}

is_longlong : FieldType → Bool
is_longlong longlong = true
is_longlong _ = false

module _ {Time : Type 0} where
  extract_integer : Field → Cell Time → Option Value
  unfolding is_longlong
  extract_integer f cell =
      if is_longlong f.real_type && f.is_unsigned && is_negative cell.val_int
      then none
      else some (integer cell.val_int)

  -- The switch on the type, for a field stored as it is.
  extract_plain : FieldType → Field → Cell Time → Option Value
  unfolding extract_integer
  extract_plain tiny f cell = extract_integer f cell
  extract_plain short f cell = extract_integer f cell
  extract_plain long f cell = extract_integer f cell
  extract_plain longlong f cell = extract_integer f cell
  extract_plain int24 f cell = extract_integer f cell
  extract_plain year f cell = extract_integer f cell
  extract_plain bit f cell = extract_integer f cell
  extract_plain float f cell = some (float64 cell.val_real)
  extract_plain double f cell = some (float64 cell.val_real)
  extract_plain newdecimal f cell = some (text cell.val_str)
  extract_plain t f cell = if is_string_type t then some (text cell.val_str) else none

is_plain : Enc → Bool
is_plain plain = true
is_plain _ = false

module _ {Time : Type 0} (pack_time : Time → ℤ) where
  -- none: the C++ `return false`
  unfoldable pub extract_field : Field → Cell Time → Option Value
  unfolding extract_plain is_plain
  extract_field f cell =
      if cell.is_null
      then some null
      else if not (is_plain (field_enc f))
      then encode_field pack_time f cell
      else extract_plain f.real_type f cell

abbrev pub value_kind : Value → Option ColumnKind
value_kind null = none
value_kind (integer v) = some Columns.integer
value_kind (float64 v) = some Columns.float64
value_kind (text v) = some Columns.text

plain_case :
    {Time : Type 0} (t : FieldType) (f : Field) (cell : Cell Time) (v : Value)
    → extract_plain t f cell ≡ some v
    → value_kind v ≡ plain_kind t
unfolding extract_plain plain_kind
plain_case tiny f cell v h = ground arith
plain_case short f cell v h = ground arith
plain_case long f cell v h = ground arith
plain_case longlong f cell v h = ground arith
plain_case int24 f cell v h = ground arith
plain_case year f cell v h = ground arith
plain_case bit f cell v h = ground arith
plain_case float f cell v h = ground arith
plain_case double f cell v h = ground arith
plain_case newdecimal f cell v h = ground arith
plain_case _ f cell v h = ground arith

by_enc :
    {Time : Type 0} (pack_time : Time → ℤ) (e : Enc) (f : Field) (cell : Cell Time) (v : Value)
    → (if not (is_plain e) then encode_as pack_time e f cell else extract_plain f.real_type f cell)
      ≡ some v
    → kind_of e f.real_type ≡ value_kind v
unfolding is_plain encode_as kind_of
by_enc pack_time packed_time f cell v h = ground arith
by_enc pack_time utc_micros f cell v h = ground arith
by_enc pack_time index f cell v h = ground arith
by_enc pack_time hex f cell v h = ground arith
by_enc pack_time plain f cell v h = sym (plain_case f.real_type f cell v h)

-- A value that a field gives, but NULL, has the type of the column that create() made for the field.
pub extract_field-stoolap_column_kind :
    {Time : Type 0} (pack_time : Time → ℤ) (f : Field) (cell : Cell Time) (v : Value)
    → cell.is_null ≡ false
    → extract_field pack_time f cell ≡ some v
    → stoolap_column_kind f ≡ value_kind v
unfolding extract_field stoolap_column_kind encode_field
extract_field-stoolap_column_kind pack_time f cell v n h =
    by_enc pack_time (field_enc f) f cell v (ground arith)

none_case :
    {Time : Type 0} (t : FieldType) (f : Field) (cell : Cell Time)
    → f.real_type ≡ t
    → extract_plain t f cell ≡ none
    → (plain_kind t ≡ none)
      ⊎ ((t ≡ longlong) × (f.is_unsigned ≡ true) × (is_negative cell.val_int ≡ true))
unfolding extract_plain plain_kind
none_case longlong f cell e h = inr (refl, ground arith, ground arith)
none_case tiny f cell e h = ground arith
none_case short f cell e h = ground arith
none_case long f cell e h = ground arith
none_case int24 f cell e h = ground arith
none_case year f cell e h = ground arith
none_case bit f cell e h = ground arith
none_case _ f cell e h = ground arith

none_by_enc :
    {Time : Type 0} (pack_time : Time → ℤ) (e : Enc) (f : Field) (cell : Cell Time)
    → (if not (is_plain e) then encode_as pack_time e f cell else extract_plain f.real_type f cell)
      ≡ none
    → (kind_of e f.real_type ≡ none)
      ⊎ ((f.real_type ≡ longlong) × (f.is_unsigned ≡ true) × (is_negative cell.val_int ≡ true))
unfolding is_plain encode_as kind_of
none_by_enc pack_time packed_time f cell h = ground arith
none_by_enc pack_time utc_micros f cell h = ground arith
none_by_enc pack_time index f cell h = ground arith
none_by_enc pack_time hex f cell h = ground arith
none_by_enc pack_time plain f cell h = none_case f.real_type f cell refl h

-- A field that create() has a column for is refused a value only where it is a BIGINT UNSIGNED past
-- INT64_MAX.
extract_field-none :
    {Time : Type 0} (pack_time : Time → ℤ) (f : Field) (cell : Cell Time)
    → stoolap_column_kind f ≢ none
    → extract_field pack_time f cell ≡ none
    → (f.real_type ≡ longlong) × (f.is_unsigned ≡ true) × (is_negative cell.val_int ≡ true)
unfolding extract_field stoolap_column_kind encode_field
extract_field-none pack_time f cell k h = elim (Bool-cases cell.is_null) [
  | inl n ↦ ground arith
  | inr n ↦ elim (none_by_enc pack_time (field_enc f) f cell (ground arith)) [
    | inl e ↦ absurd (k e)
    | inr r ↦ r
  ]
]
