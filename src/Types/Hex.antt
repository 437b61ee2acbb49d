-- ===== src/Types/Hex.antt =====
-- Binary strings in stoolap: uppercase hex, two digits to a byte (encode_field, hex_nibble, and the
-- decoding loops of store_text and of store_blob_owned in src/stoolap_packet.h).
use stoolap_mariadb.Common.{
  ℕ, ◌+◌, ◌-◌, ◌*◌, ◌/◌, ◌%◌, ◌<◌, ◌≡◌, arith, refl, Bool, true, false, ◌&&◌, ◌||◌, [], ◌∷◌, Option,
  none, some, Bytes, leb, ltb, ◌==◌, if◌then◌else◌,
}

-- digits[n] of "0123456789ABCDEF"
unfoldable pub hex_digit : ℕ → ℕ
hex_digit n = if ltb n 10 then b'0' + n else b'A' + (n - 10)

unfoldable pub to_hex : Bytes → Bytes
unfolding hex_digit
to_hex [] = []
to_hex (p ∷ s) = hex_digit (p / 16) ∷ hex_digit (p % 16) ∷ to_hex s

-- none: the C++ -1
unfoldable pub hex_nibble : ℕ → Option ℕ
hex_nibble c =
    if leb b'0' c && leb c b'9'
    then some (c - b'0')
    else if leb b'A' c && leb c b'F'
    then some (c - b'A' + 10)
    else if leb b'a' c && leb c b'f'
    then some (c - b'a' + 10)
    else none

join_nibbles : Option ℕ → Option ℕ → Option Bytes → Option Bytes
join_nibbles (some hi) (some lo) (some rest) = some ((hi * 16 + lo) ∷ rest)
join_nibbles _ _ _ = none

-- none: an odd length, or a character that is no digit
unfoldable pub from_hex : Bytes → Option Bytes
unfolding hex_nibble join_nibbles
from_hex [] = some []
from_hex (c ∷ []) = none
from_hex (c ∷ d ∷ s) = join_nibbles (hex_nibble c) (hex_nibble d) (from_hex s)

abbrev pub AllBytes : Bytes → Type 0
AllBytes [] = Unit {0}
AllBytes (p ∷ s) = (p < 256) × AllBytes s

nibble-digit : (n : ℕ) → n < 16 → hex_nibble (hex_digit n) ≡ some n
unfolding hex_nibble hex_digit
nibble-digit n h = ground arith

-- What the writer stores for a binary value is read back as that value.
pub from_hex-to_hex : (s : Bytes) → AllBytes s → from_hex (to_hex s) ≡ some s
unfolding from_hex to_hex
from_hex-to_hex [] h = refl
from_hex-to_hex (p ∷ s) h =
    rw
      (
        nibble-digit (p / 16) (omega arith),
        nibble-digit (p % 16) (omega arith),
        from_hex-to_hex s h.1,
      )
      (ground arith)

-- memcmp's order, shorter first: how stoolap orders TEXT and MariaDB a binary string.
unfoldable pub bytes_lt : Bytes → Bytes → Bool
bytes_lt _ [] = false
bytes_lt [] (y ∷ ys) = true
bytes_lt (x ∷ xs) (y ∷ ys) = ltb x y || ((x == y) && bytes_lt xs ys)

digit_order :
    (m n : ℕ)
    → m < 16
    → n < 16
    → (ltb (hex_digit m) (hex_digit n) ≡ ltb m n) × ((hex_digit m == hex_digit n) ≡ (m == n))
unfolding hex_digit
digit_order m n h k = ground arith

-- The hex of two binary values orders in stoolap as the values do in MariaDB.
pub bytes_lt-to_hex :
    (a b : Bytes) → AllBytes a → AllBytes b → bytes_lt (to_hex a) (to_hex b) ≡ bytes_lt a b
unfolding bytes_lt to_hex
bytes_lt-to_hex [] [] h k = refl
bytes_lt-to_hex (p ∷ a) [] h k = refl
bytes_lt-to_hex [] (q ∷ b) h k = refl
bytes_lt-to_hex (p ∷ a) (q ∷ b) h k = ground (
  arith,
  digit_order (p / 16) (q / 16) (omega arith) (omega arith),
  digit_order (p % 16) (q % 16) (omega arith) (omega arith),
  bytes_lt-to_hex a b h.1 k.1,
)
