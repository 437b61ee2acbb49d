-- ===== src/Types/Store.antt =====
-- The readers of src/stoolap_types.h: store_int and store_text. What they do to the Field is a Write;
-- MariaDB's unpack_time is an argument.
use stoolap_mariadb.Common.{
  ℕ, ◌+◌, ◌*◌, ◌/◌, ◌%◌, ◌≤◌, ◌<◌, ◌≡◌, ◌≢◌, ◌⊎◌, arith, refl, Bool, true, false, not, ◌&&◌, [],
  ◌∷◌, ◌++◌, Option, none, some, Bytes, leb, ◌==◌, if◌then◌else◌, length, take, take-of_le,
  Bool-cases, inl, inr,
}
use stoolap_mariadb.Common.Int.{ℤ, pos, tdiv, tmod, pattern64}
use stoolap_mariadb.Types.{
  Field, FieldType, varchar, CharSet, Enc, packed_time, utc_micros, hex, field_enc, TimeType,
  packed_time_type, text_is_utf8, enc_of, decimal,
}
use stoolap_mariadb.Types.Hex.{from_hex, to_hex, from_hex-to_hex, AllBytes}
use stoolap_mariadb.Types.Encode.{Cell, integer, encode_field}

-- How a Field is written: Field::store of a number, a double or a text in a character set (none for
-- my_charset_bin), store_time_dec, store_TIME, raw bytes at Field::ptr, the
-- NULL bit, and a BLOB made to point at bytes of the handler (set_ptr).
pub data Write (Time : Type 0) : Type 0 where
  number : ℤ → Bool → Write Time
  real : ℕ → Write Time
  chars : Bytes → Option CharSet → Write Time
  time_dec : Time → ℕ → Write Time
  timestamp : ℤ → ℕ → Write Time
  at_ptr : Bytes → Write Time
  set_null set_notnull : Write Time
  set_ptr : Bytes → Write Time

module _ {Time : Type 0} (unpack_time : ℤ → TimeType → Time) where
  store_int_as : Enc → Field → ℤ → Write Time
  store_int_as packed_time f v = time_dec (unpack_time v (packed_time_type f)) f.decimals
  store_int_as utc_micros f v = timestamp (tdiv v 1000000) (pattern64 (tmod v 1000000))
  store_int_as _ f v = number v f.is_unsigned

  unfoldable pub store_int : Field → ℤ → Write Time
  unfolding store_int_as
  store_int f v = store_int_as (field_enc f) f v

unfoldable pub is_varchar : FieldType → Bool
is_varchar varchar = true
is_varchar _ = false

has_utf8mb4 : Option CharSet → Bool
has_utf8mb4 none = false
has_utf8mb4 (some cs) = cs.utf8mb4

-- `*f->ptr = (uchar) n` or int2store(f->ptr, (uint16) n), then the bytes
length_prefix : ℕ → ℕ → Bytes
length_prefix length_bytes n =
    if length_bytes == 1 then n % 256 ∷ [] else (n % 256) ∷ (n / 256 % 256) ∷ []

unfoldable pub store_utf8 : {Time : Type 0} → Field → Bytes → Write Time
unfolding is_varchar has_utf8mb4 length_prefix
store_utf8 f s =
    if is_varchar f.real_type
      && not f.compressed
      && has_utf8mb4 f.charset
      && leb (length s) f.char_length
    then at_ptr (length_prefix f.length_bytes (length s) ++ s)
    else chars s f.charset

-- The bytes where the text is hex, else the text itself.
decoded : {Time : Type 0} → Option Bytes → Bytes → Option CharSet → Write Time
decoded (some bytes) s cs = chars bytes cs
decoded none s cs = chars s cs

store_other : {Time : Type 0} → Enc → Field → Bytes → Write Time
unfolding decoded
store_other hex f s = decoded (from_hex s) s f.charset
store_other _ f s = chars s f.charset

unfoldable pub store_text : {Time : Type 0} → Field → Bytes → Write Time
unfolding store_utf8 store_other
store_text f s = if text_is_utf8 f.charset then store_utf8 f s else store_other (field_enc f) f s

hex_of_type : (t : FieldType) (f : Field) → enc_of t f ≡ hex → text_is_utf8 f.charset ≡ false
unfolding enc_of
hex_of_type decimal f e = ground arith
hex_of_type _ f e = ground arith

-- A binary or non-utf8 field gets back, in its own character set, the bytes that the writer turned
-- into hex.
pub store_text-to_hex :
    {Time : Type 0} (f : Field) (s : Bytes)
    → field_enc f ≡ hex
    → AllBytes s
    → store_text {Time = Time} f (to_hex s) ≡ chars s f.charset
unfolding store_text field_enc
store_text-to_hex f s e h = rw (hex_of_type f.real_type f e, e, store_other, from_hex-to_hex s h)

-- A TIMESTAMP's value, as the writer makes it, is read back as its seconds and microseconds.
pub store_int-encode_field :
    {Time : Type 0} (unpack_time : ℤ → TimeType → Time) (pack_time : Time → ℤ) (f : Field)
    (cell : Cell Time) (secs : ℕ) (v : ℤ)
    → field_enc f ≡ utc_micros
    → cell.timestamp_secs ≡ pos secs
    → cell.timestamp_usec < 1000000
    → encode_field pack_time f cell ≡ some (integer v)
    → store_int unpack_time f v ≡ timestamp (pos secs) cell.timestamp_usec
unfolding store_int encode_field
store_int-encode_field unpack_time pack_time f cell secs v e p u w =
    let at : v ≡ pos (secs * 1000000 + cell.timestamp_usec) = ground arith in
    rw (e, at) (ground arith)

-- What a VARCHAR's record bytes hold, by its length bytes.
abbrev pub varchar_value : ℕ → Bytes → Bytes
varchar_value length_bytes [] = []
varchar_value length_bytes (a ∷ s) =
    if length_bytes == 1 then take a s else elim s [ [] ↦ [] | b ∷ s' ↦ take (a + 256 * b) s' ]

short_prefix :
    (k c : ℕ) (s : Bytes)
    → ((k ≡ 1) × (c * 4 < 256)) ⊎ ((k ≡ 2) × (c * 4 < 65536))
    → length s ≤ c
    → varchar_value k (length_prefix k (length s) ++ s) ≡ s
unfolding length_prefix
short_prefix k c s (inl h) le = rw (h.0) (take-of_le (length s % 256) s (omega arith))
short_prefix k c s (inr h) le =
    rw (h.0) (take-of_le (length s % 256 + 256 * (length s / 256 % 256)) s (omega arith))

other_not_hex :
    {Time : Type 0} (enc : Enc) (f : Field) (s : Bytes)
    → enc ≢ hex
    → store_other {Time = Time} enc f s ≡ chars s f.charset
unfolding store_other
other_not_hex hex f s ne = absurd (ne refl)
other_not_hex _ f s ne = refl

store_other-ne :
    {Time : Type 0} (enc : Enc) (f : Field) (s r : Bytes)
    → store_other {Time = Time} enc f s ≢ at_ptr r
unfolding store_other
store_other-ne hex f s r = ground arith
store_other-ne _ f s r = ground arith

fast_path :
    {Time : Type 0} (f : Field) (s r : Bytes)
    → store_text {Time = Time} f s ≡ at_ptr r
    → (length s ≤ f.char_length) × (r ≡ length_prefix f.length_bytes (length s) ++ s)
unfolding store_text
fast_path {Time} f s r e = elim (Bool-cases (text_is_utf8 f.charset)) [
  | inl p ↦ ground arith
  | inr p ↦ absurd (store_other-ne {Time = Time} (field_enc f) f s r (rw (p, store_text) at e))
]

-- The fast path of a utf8mb4 VARCHAR writes a record that holds the whole text: its length fits
-- the length bytes, which are one where four bytes a character stay below 256, and two where they
-- stay below 65536.
pub store_text-varchar :
    {Time : Type 0} (f : Field) (s r : Bytes)
    → ((f.length_bytes ≡ 1) × (f.char_length * 4 < 256))
      ⊎ ((f.length_bytes ≡ 2) × (f.char_length * 4 < 65536))
    → store_text {Time = Time} f s ≡ at_ptr r
    → varchar_value f.length_bytes r ≡ s
store_text-varchar f s r h e =
    let (fits, at) = fast_path f s r e in rw at (short_prefix f.length_bytes f.char_length s h fits)

-- A text that is neither a VARCHAR's nor hex goes to Field::store as it is.
pub store_text-not_hex :
    {Time : Type 0} (f : Field) (s : Bytes)
    → is_varchar f.real_type ≡ false
    → field_enc f ≢ hex
    → store_text {Time = Time} f s ≡ chars s f.charset
unfolding store_text
store_text-not_hex {Time} f s nv ne = elim (Bool-cases (text_is_utf8 f.charset)) [
  | inl p ↦ rw (p, store_utf8, nv)
  | inr p ↦ rw (p, other_not_hex {Time = Time} (field_enc f) f s ne)
]

pub store_text-is_hex :
    {Time : Type 0} (f : Field) (s own : Bytes)
    → field_enc f ≡ hex
    → from_hex s ≡ some own
    → store_text {Time = Time} f s ≡ chars own f.charset
unfolding store_text field_enc
store_text-is_hex f s own e h = rw (hex_of_type f.real_type f e, e, store_other, h)
