-- ===== src/Types.antt =====
-- src/stoolap_types.h: how each MariaDB column type is stored in stoolap. A Field is the record of
-- what this code reads of it; MariaDB's conversions of dates are arguments.
pub mod Hex
pub mod Encode
pub mod Store
pub mod Examples
use stoolap_mariadb.Common.{
  ℕ, Bool, true, false, not, ◌&&◌, ◌||◌, Option, none, some, Bytes, bytes_eq, codes, leb, ◌==◌,
  if◌then◌else◌,
}

-- CHARSET_INFO: `is_bin` is the test `cs == &my_charset_bin`, `utf8mb4` is
-- `cs->cset == my_charset_utf8mb4_bin.cset`.
pub record CharSet : Type 0 where
  pub cs_name : Bytes
  pub unicode : Bool
  pub binsort : Bool
  pub nopad : Bool
  pub mbminlen : ℕ
  pub mbmaxlen : ℕ
  pub is_bin : Bool
  pub utf8mb4 : Bool

-- enum_field_types
pub data FieldType : Type 0 where
  decimal tiny short long float double null_type timestamp longlong int24 : FieldType
  date time datetime year newdate varchar bit timestamp2 datetime2 time2 : FieldType
  blob_compressed varchar_compressed newdecimal enumeration set_type : FieldType
  tiny_blob medium_blob long_blob blob var_string string geometry : FieldType

-- `ptr` and `null_ptr` are offsets into table->record[0].
pub record Field : Type 0 where
  pub name : Bytes
  pub field_index : ℕ
  pub real_type : FieldType
  pub has_charset : Bool
  pub charset : Option CharSet
  pub traditional : Bool
  pub is_unsigned : Bool
  pub decimals : ℕ
  pub pack_length : ℕ
  pub char_length : ℕ
  pub length_bytes : ℕ
  pub compressed : Bool
  pub maybe_null : Bool
  pub blob_flag : Bool
  pub auto_increment : Bool
  pub max_data_length : ℕ
  pub ptr : ℕ
  pub null_ptr : Option ℕ
  pub null_bit : ℕ

pub data Enc : Type 0 where
  plain packed_time utc_micros index hex : Enc

unfoldable pub text_is_utf8 : Option CharSet → Bool
text_is_utf8 none = false
text_is_utf8 (some cs) =
    if cs.unicode then cs.mbminlen == 1 else bytes_eq cs.cs_name (codes "ascii")

-- VARCHAR, VAR_STRING, STRING and the four BLOB types, as the switches of the code list them.
unfoldable pub is_string_type : FieldType → Bool
is_string_type varchar = true
is_string_type var_string = true
is_string_type string = true
is_string_type tiny_blob = true
is_string_type blob = true
is_string_type medium_blob = true
is_string_type long_blob = true
is_string_type _ = false

string_enc : Field → Enc
string_enc f = if text_is_utf8 f.charset then plain else if not f.traditional then plain else hex

enc_of : FieldType → Field → Enc
unfolding string_enc
enc_of date f = packed_time
enc_of newdate f = packed_time
enc_of datetime f = packed_time
enc_of datetime2 f = packed_time
enc_of time f = packed_time
enc_of time2 f = packed_time
enc_of timestamp f = utc_micros
enc_of timestamp2 f = utc_micros
enc_of enumeration f = index
enc_of set_type f = index
enc_of varchar f = string_enc f
enc_of var_string f = string_enc f
enc_of string f = string_enc f
enc_of tiny_blob f = string_enc f
enc_of blob f = string_enc f
enc_of medium_blob f = string_enc f
enc_of long_blob f = string_enc f
enc_of _ f = plain

unfoldable pub field_enc : Field → Enc
unfolding enc_of
field_enc f = enc_of f.real_type f

unfoldable pub hex_keeps_order : Field → Bool
hex_keeps_order f = elim f.charset [ none ↦ true | some cs ↦ cs.is_bin || (cs.mbmaxlen == 1) ]

pub data TimeType : Type 0 where
  time_only date_only date_time : TimeType

time_type_of : FieldType → TimeType
time_type_of time = time_only
time_type_of time2 = time_only
time_type_of date = date_only
time_type_of newdate = date_only
time_type_of _ = date_time

unfoldable pub packed_time_type : Field → TimeType
unfolding time_type_of
packed_time_type f = time_type_of f.real_type

-- STOOLAP_FIELD_*: how stoolap_cursor_next writes a field itself; `store` leaves it to the callback.
pub data FieldKind : Type 0 where
  store int real_double real_float text : FieldKind

pub record Described : Type 0 where
  pub kind : FieldKind
  pub length : ℕ
  pub unsigned : Bool
  pub max_chars : ℕ

abbrev pub left_to_store : Described
left_to_store = record { kind = store; length = 0; unsigned = false; max_chars = 0 }

is_utf8mb4 : Option CharSet → Bool
is_utf8mb4 none = false
is_utf8mb4 (some cs) = cs.utf8mb4

describe_int : Field → Described
describe_int f = record left_to_store {
  kind = int;
  length = f.pack_length;
  unsigned = f.is_unsigned;
}

-- `not_fixed_dec`: MariaDB's NOT_FIXED_DEC
describe_real : ℕ → Field → FieldKind → Described
describe_real not_fixed_dec f k =
    if leb not_fixed_dec f.decimals && not f.is_unsigned
    then record left_to_store { kind = k }
    else left_to_store

describe_varchar : Field → Described
unfolding is_utf8mb4
describe_varchar f =
    if not f.compressed && is_utf8mb4 f.charset
    then record left_to_store { kind = text; length = f.length_bytes; max_chars = f.char_length }
    else left_to_store

describe_as : ℕ → FieldType → Field → Described
unfolding describe_int describe_real describe_varchar
describe_as dec tiny f = describe_int f
describe_as dec short f = describe_int f
describe_as dec int24 f = describe_int f
describe_as dec long f = describe_int f
describe_as dec longlong f = describe_int f
describe_as dec double f = describe_real dec f real_double
describe_as dec float f = describe_real dec f real_float
describe_as dec varchar f = describe_varchar f
describe_as dec _ f = left_to_store

unfoldable pub describe_field : ℕ → Field → Described
unfolding describe_as
describe_field not_fixed_dec f = describe_as not_fixed_dec f.real_type f
