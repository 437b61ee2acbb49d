-- ===== src/Packet/RoundTrip.antt =====
-- The packed format as the comment at the head of src/stoolap_packet.h lays it out, written by an
-- encoder, and the readers of Packet against it.
use stoolap_mariadb.Common.{
  ℕ, suc, ◌+◌, ◌/◌, ◌%◌, ◌^◌, ◌≤◌, ◌<◌, ◌≡◌, arith, refl, ap, sym, ◌∙◌, subst, false, List, [], ◌∷◌,
  ◌++◌, Bytes, ltb, length, get_elem?, take, drop, length-append, append_assoc, take-length-append,
  drop-length-append,
}
use stoolap_mariadb.Common.Int.{signed64}
use stoolap_mariadb.Packet.{
  Read, done, byte_at, pkt_le16, pkt_le32, pkt_le64, pkt_i64, skip_names, pkt_parse_header,
}

abbrev pub le16_bytes : ℕ → Bytes
le16_bytes v = (v % 256) ∷ (v / 2 ^ 8 % 256) ∷ []

abbrev pub le32_bytes : ℕ → Bytes
le32_bytes v = (v % 256) ∷ (v / 2 ^ 8 % 256) ∷ (v / 2 ^ 16 % 256) ∷ (v / 2 ^ 24 % 256) ∷ []

abbrev pub le64_bytes : ℕ → Bytes
le64_bytes v = le32_bytes (v % 2 ^ 32) ++ le32_bytes (v / 2 ^ 32)

abbrev pub packed_names : List Bytes → Bytes
packed_names [] = []
packed_names (name ∷ names) = le16_bytes (length name) ++ (name ++ packed_names names)

-- u32 col_count, and for each column u16 name_len and the name
abbrev pub packed_header : List Bytes → Bytes
packed_header names = le32_bytes (length names) ++ packed_names names

-- The payloads: an integer, float or timestamp by its 64 bits.
pub data Packed : Type 0 where
  null : Packed
  integer float boolean timestamp : ℕ → Packed
  text json blob : Bytes → Packed

abbrev pub packed_bytes : Bytes → Bytes
packed_bytes s = le32_bytes (length s) ++ s

-- u8 type_tag and the payload
abbrev pub packed_cell : Packed → Bytes
packed_cell null = 0 ∷ []
packed_cell (integer w) = 1 ∷ le64_bytes w
packed_cell (float w) = 2 ∷ le64_bytes w
packed_cell (text s) = 3 ∷ packed_bytes s
packed_cell (boolean b) = 4 ∷ b ∷ []
packed_cell (timestamp w) = 5 ∷ le64_bytes w
packed_cell (json s) = 6 ∷ packed_bytes s
packed_cell (blob s) = 7 ∷ packed_bytes s

-- A u16 name length, a u32 count and byte count, an i64: what the widths of the format hold.
abbrev pub Fits : Packed → Type 0
Fits null = Unit {0}
Fits (integer w) = w < 2 ^ 64
Fits (float w) = w < 2 ^ 64
Fits (boolean b) = Unit {0}
Fits (timestamp w) = w < 2 ^ 64
Fits (text s) = length s < 2 ^ 32
Fits (json s) = length s < 2 ^ 32
Fits (blob s) = length s < 2 ^ 32

get_elem?-append :
    (pre xs : Bytes) (i : ℕ) → get_elem? (pre ++ xs) (length pre + i) ≡ get_elem? xs i
get_elem?-append [] xs i = rw (zero_add i)
  where
    zero_add : (n : ℕ) → 0 + n ≡ n
    zero_add n = omega arith
get_elem?-append (x ∷ pre) xs i =
    subst (λ n. get_elem? (x ∷ pre ++ xs) n ≡ get_elem? xs i) (shift (length pre) i)
      (get_elem?-append pre xs i)
  where
    shift : (n i : ℕ) → suc (n + i) ≡ suc n + i
    shift n i = omega arith

get_elem?-append_zero : (pre xs : Bytes) → get_elem? (pre ++ xs) (length pre) ≡ get_elem? xs 0
get_elem?-append_zero [] xs = refl
get_elem?-append_zero (x ∷ pre) xs = get_elem?-append_zero pre xs

-- The bytes `xs` stand in the buffer from p on.
abbrev pub At : Bytes → ℕ → Bytes → Type 0
At buf p xs = (pre : Bytes) × (rest : Bytes) × (buf ≡ pre ++ (xs ++ rest)) × (p ≡ length pre)

pub At-append_left : (buf : Bytes) (p : ℕ) (xs ys : Bytes) → At buf p (xs ++ ys) → At buf p xs
At-append_left buf p xs ys (pre, rest, e, l) =
    (pre, ys ++ rest, e ∙ ap (◌++◌ pre) (append_assoc xs ys rest), l)

pub At-append_right :
    (buf : Bytes) (p : ℕ) (xs ys : Bytes) → At buf p (xs ++ ys) → At buf (p + length xs) ys
At-append_right buf p xs ys (pre, rest, e, l) = (
  pre ++ xs,
  rest,
  e ∙ ap (◌++◌ pre) (append_assoc xs ys rest) ∙ sym (append_assoc pre xs (ys ++ rest)),
  omega (arith, length-append pre xs),
)

pub At-le : (buf : Bytes) (p : ℕ) (xs : Bytes) → At buf p xs → p + length xs ≤ length buf
At-le buf p xs (pre, rest, e, l) =
    omega (arith, ap length e, length-append pre (xs ++ rest), length-append xs rest)

pub At-take : (buf : Bytes) (p : ℕ) (xs : Bytes) → At buf p xs → take (length xs) (drop p buf) ≡ xs
At-take buf p xs (pre, rest, e, l) =
    rw (e, l, drop-length-append pre (xs ++ rest)) (take-length-append xs rest)

pub At-byte : (buf : Bytes) (p b : ℕ) (xs : Bytes) → At buf p (b ∷ xs) → byte_at buf p ≡ done b
unfolding byte_at
At-byte buf p b xs (pre, rest, e, l) = rw (e, l, get_elem?-append_zero pre (b ∷ xs ++ rest))

pub At-le16 :
    (buf : Bytes) (p v : ℕ) → v < 2 ^ 16 → At buf p (le16_bytes v) → pkt_le16 buf p ≡ done v
unfolding pkt_le16
At-le16 buf p v h (pre, rest, e, l) =
    rw
      (
        e,
        l,
        get_elem?-append_zero pre (le16_bytes v ++ rest),
        get_elem?-append pre (le16_bytes v ++ rest) 1,
      )
      (ap done (omega arith))

pub At-le32 :
    (buf : Bytes) (p v : ℕ) → v < 2 ^ 32 → At buf p (le32_bytes v) → pkt_le32 buf p ≡ done v
unfolding pkt_le32
At-le32 buf p v h (pre, rest, e, l) =
    rw
      (
        e,
        l,
        get_elem?-append_zero pre (le32_bytes v ++ rest),
        get_elem?-append pre (le32_bytes v ++ rest) 1,
        get_elem?-append pre (le32_bytes v ++ rest) 2,
        get_elem?-append pre (le32_bytes v ++ rest) 3,
      )
      (ap done (omega arith))

pub At-le64 :
    (buf : Bytes) (p v : ℕ) → v < 2 ^ 64 → At buf p (le64_bytes v) → pkt_le64 buf p ≡ done v
unfolding pkt_le64
At-le64 buf p v h at =
    let lo = le32_bytes (v % 2 ^ 32) in
    let hi = le32_bytes (v / 2 ^ 32) in
    rw
      (
        At-le32 buf p (v % 2 ^ 32) (omega arith) (At-append_left buf p lo hi at),
        At-le32 buf (p + 4) (v / 2 ^ 32) (omega arith) (At-append_right buf p lo hi at),
      )
      (ap done (omega arith))

pub At-i64 :
    (buf : Bytes) (p v : ℕ)
    → v < 2 ^ 64
    → At buf p (le64_bytes v)
    → pkt_i64 buf p ≡ done (signed64 v)
unfolding pkt_i64
At-i64 buf p v h at = rw (At-le64 buf p v h at)

abbrev pub NamesFit : List Bytes → Type 0
NamesFit [] = Unit {0}
NamesFit (name ∷ names) = (length name < 2 ^ 16) × NamesFit names

pub le→ltb_false : (a b : ℕ) → b ≤ a → ltb a b ≡ false
le→ltb_false a b h = ground arith

skip_names-packed :
    (buf : Bytes) (p : ℕ) (names : List Bytes)
    → NamesFit names
    → At buf p (packed_names names)
    → skip_names buf p (length names) ≡ done (p + length (packed_names names))
unfolding skip_names
skip_names-packed buf p [] fits at = ap done (omega arith)
skip_names-packed buf p (name ∷ names) fits at =
    let l16 = le16_bytes (length name) in
    let at16 = At-append_left buf p l16 (name ++ packed_names names) at in
    let later = At-append_right buf p l16 (name ++ packed_names names) at in
    let rest = At-append_right buf (p + 2) name (packed_names names) later in
    let room = At-le buf p l16 at16 in
    let more =
      At-le buf (p + 2) name (At-append_left buf (p + 2) name (packed_names names) later) in
    rw
      (
        le→ltb_false (length buf) (p + 2) room,
        At-le16 buf p (length name) fits.0 at16,
        le→ltb_false (length buf) (p + 2 + length name) more,
        skip_names-packed buf (p + 2 + length name) names fits.1 rest,
      )
      (ap done (omega (arith, length-append name (packed_names names))))

-- A header written for some names is parsed as their number, and the parse ends where it ends.
pub pkt_parse_header-packed_header :
    (buf : Bytes) (p : ℕ) (names : List Bytes)
    → NamesFit names
    → length names < 2 ^ 32
    → At buf p (packed_header names)
    → pkt_parse_header buf p ≡ done (p + length (packed_header names), length names)
unfolding pkt_parse_header
pkt_parse_header-packed_header buf p names fits count at =
    let l32 = le32_bytes (length names) in
    let at32 = At-append_left buf p l32 (packed_names names) at in
    let rest = At-append_right buf p l32 (packed_names names) at in
    let e : p + 4 + length (packed_names names) ≡ p + length (packed_header names) = omega arith in
    rw
      (
        le→ltb_false (length buf) (p + 4) (At-le buf p l32 at32),
        At-le32 buf p (length names) count at32,
        skip_names-packed buf (p + 4) names fits rest,
      )
      (ap {B = Read (ℕ × ℕ)} (λ q. done (q, length names)) e)
