-- ===== src/Handler/Keys.antt =====
-- What src/ha_stoolap.cc knows of a key part: whether stoolap compares it as MariaDB does
-- (key_part_needs_filter, key_part_pads), and what index_flags offers on it.
use stoolap_mariadb.Common.{
  ◌≡◌, ◌⊎◌, arith, Bool, true, false, not, ◌&&◌, ◌||◌, Option, none, some, if◌then◌else◌,
}
use stoolap_mariadb.Types.{
  Field, FieldType, CharSet, Enc, hex, field_enc, is_string_type, hex_keeps_order, newdecimal,
  enumeration, set_type,
}
use stoolap_mariadb.Handler.Schema.{KeyPart}

-- A string of a character set that is not binary, whose collation folds values or pads them.
folds_or_pads : Bool → Option CharSet → Bool
folds_or_pads trust_bin none = false
folds_or_pads trust_bin (some cs) =
    if cs.is_bin || trust_bin then false else not cs.binsort || not cs.nopad

unfoldable pub key_part_needs_filter : Bool → KeyPart → Bool
unfolding folds_or_pads
key_part_needs_filter trust_bin kp =
    if kp.prefix
    then true
    else if is_string_type kp.field.real_type
    then folds_or_pads trust_bin kp.field.charset
    else false

abbrev pub sorts_bytes : Option CharSet → Bool
sorts_bytes none = false
sorts_bytes (some cs) = cs.binsort

unfoldable pub key_part_pads : Bool → KeyPart → Bool
key_part_pads trust_bin kp =
    key_part_needs_filter trust_bin kp && not kp.prefix && sorts_bytes kp.field.charset

abbrev pub is_hex : Enc → Bool
is_hex hex = true
is_hex _ = false

-- A hex text that stoolap orders otherwise than MariaDB does
abbrev pub hex_out_of_order : Field → Bool
hex_out_of_order f = is_hex (field_enc f) && not (hex_keeps_order f)

unfoldable pub encoded_type : FieldType → Bool
encoded_type newdecimal = true
encoded_type enumeration = true
encoded_type set_type = true
encoded_type _ = false

-- Whether index_flags gives HA_READ_NEXT | HA_READ_RANGE | HA_READ_ORDER | HA_KEY_SCAN_NOT_ROR for
-- the part, else 0.
unfoldable pub index_flags : KeyPart → Bool
index_flags kp =
    if is_string_type kp.field.real_type
    then not (hex_out_of_order kp.field) && sorts_bytes kp.field.charset
    else not (encoded_type kp.field.real_type)

-- contains_unsafe_part of read_range_first, for one part
unfoldable pub unsafe_part : Bool → KeyPart → Bool
unsafe_part trust_bin kp =
    if is_string_type kp.field.real_type
    then hex_out_of_order kp.field || key_part_needs_filter trust_bin kp
    else encoded_type kp.field.real_type

-- The collation, where there is one, is binary, or sorts bytes and does not pad, or is trusted to.
abbrev pub Bytewise : Bool → Option CharSet → Type 0
Bytewise trust_bin none = Unit
Bytewise trust_bin (some cs) =
    (cs.is_bin ≡ true) ⊎ ((trust_bin ≡ true) ⊎ ((cs.binsort ≡ true) × (cs.nopad ≡ true)))

-- Hex of its texts sorts as they do: they are bytes, or of one-byte characters.
abbrev pub HexSorts : Option CharSet → Type 0
HexSorts none = Unit
HexSorts (some cs) = (cs.is_bin ≡ true) ⊎ (cs.mbmaxlen ≡ 1)

-- A string part that read_range_first hands to stoolap, in a session that does not trust bytes,
-- covers its whole column, stoolap's text of it sorts as its bytes do, and so does its collation,
-- which is binary or pads nothing: index_flags offers an order on it.
pub unsafe_part-index_flags :
    (kp : KeyPart) (cs : CharSet)
    → is_string_type kp.field.real_type ≡ true
    → kp.field.charset ≡ some cs
    → (cs.is_bin ≡ true → cs.binsort ≡ true)
    → unsafe_part false kp ≡ false
    → (kp.prefix ≡ false)
      × (hex_out_of_order kp.field ≡ false)
      × (cs.binsort ≡ true)
      × ((cs.is_bin || cs.nopad) ≡ true)
      × (index_flags kp ≡ true)
unfolding unsafe_part index_flags key_part_needs_filter
unsafe_part-index_flags kp cs t c b h = ground arith

-- A padded part is one that MariaDB filters, whose collation pads with spaces and sorts bytes.
pub key_part_pads_lem :
    (trust_bin : Bool) (kp : KeyPart)
    → key_part_pads trust_bin kp ≡ true
    → (key_part_needs_filter trust_bin kp ≡ true)
      × (trust_bin ≡ false)
      × ((cs : CharSet)
          → kp.field.charset ≡ some cs
          → (cs.binsort ≡ true) × (cs.nopad ≡ false) × (cs.is_bin ≡ false))
unfolding key_part_pads key_part_needs_filter
key_part_pads_lem trust_bin kp h = (ground arith, ground arith, λ cs c. ground arith)
