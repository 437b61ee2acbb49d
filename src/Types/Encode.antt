-- ===== src/Types/Encode.antt =====
-- The writer of src/stoolap_types.h: pack_field_time and encode_field. MariaDB's get_date and
-- pack_time are arguments; a double is its 64 bits.
use stoolap_mariadb.Common.{ℕ, ◌+◌, ◌*◌, Bool, true, false, Option, none, some, Bytes}
use stoolap_mariadb.Common.Int.{ℤ, sub_ℕ, pos_part, neg_part}
use stoolap_mariadb.Types.{
  Field, Enc, plain, packed_time, utc_micros, index, hex, field_enc, TimeType, time_only, date_only,
  date_time, packed_time_type,
}
use stoolap_mariadb.Types.Hex.{to_hex}

-- The value that a Field holds, by each of the ways in which it is read.
pub record Cell (Time : Type 0) : Type 0 where
  pub is_null : Bool
  pub val_int : ℤ
  pub val_real : ℕ
  pub val_str : Bytes
  -- get_date, with TIME_ONLY or else with FUZZY_DATES | INVALID_DATES
  pub get_date : Bool → Time
  pub timestamp_secs : ℤ
  pub timestamp_usec : ℕ

-- StoolapValue
pub data Value : Type 0 where
  null : Value
  integer : ℤ → Value
  float64 : ℕ → Value
  text : Bytes → Value

is_time_only : TimeType → Bool
is_time_only time_only = true
is_time_only date_only = false
is_time_only date_time = false

-- secs * 1000000 + usec, in int64_t, which the seconds of a TIMESTAMP do not fill
abbrev pub micros : ℤ → ℕ → ℤ
micros secs usec = sub_ℕ (pos_part secs * 1000000 + usec) (neg_part secs * 1000000)

module _ {Time : Type 0} (pack_time : Time → ℤ) where
  unfoldable pub pack_field_time : Field → Cell Time → ℤ
  unfolding is_time_only
  pack_field_time f cell = pack_time (cell.get_date (is_time_only (packed_time_type f)))

  unfoldable pub encode_as : Enc → Field → Cell Time → Option Value
  unfolding pack_field_time
  encode_as packed_time f cell = some (integer (pack_field_time f cell))
  encode_as utc_micros f cell = some (integer (micros cell.timestamp_secs cell.timestamp_usec))
  encode_as index f cell = some (integer cell.val_int)
  encode_as hex f cell = some (text (to_hex cell.val_str))
  encode_as plain f cell = none

  -- none: the C++ `return false`
  unfoldable pub encode_field : Field → Cell Time → Option Value
  unfolding encode_as
  encode_field f cell = encode_as (field_enc f) f cell
