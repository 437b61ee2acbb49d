-- ===== src/Sqlgen/Assign/Range.antt =====
-- The range that `assignment` checks an integer against, and what a column of that width holds.
use stoolap_mariadb.Common.{
  ℕ, ◌-◌, ◌*◌, ◌%◌, ◌^◌, ◌≡◌, ◌↔◌, subst, arith, Bool, true, false, none, some, ltb, if◌then◌else◌,
}
use stoolap_mariadb.Common.Int.{ℤ, pos, negsuc}
use stoolap_mariadb.Types.{Field, FieldType, tiny, short, int24, long}
use stoolap_mariadb.Sqlgen.Assign.{int_bits, range_of, int_range, in_range}

-- The bytes of an integer column
abbrev pub width : FieldType → ℕ
width tiny = 1
width short = 2
width int24 = 3
width long = 4
width _ = 8

-- A number's low bits, two's complement
abbrev pub low_bits : ℕ → ℤ → ℕ
low_bits bits (pos n) = n % 2 ^ bits
low_bits bits (negsuc n) = 2 ^ bits - 1 - n % 2 ^ bits

-- The number that the bits are
abbrev pub number_of : Bool → ℕ → ℕ → ℤ
number_of is_unsigned bits w =
    if is_unsigned
    then pos w
    else if ltb w (2 ^ (bits - 1))
    then pos w
    else negsuc (2 ^ bits - 1 - w)

one_byte :
    (u : Bool) (n : ℤ) → (in_range (range_of u 8) n ≡ true) ↔ (number_of u 8 (low_bits 8 n) ≡ n)
unfolding in_range range_of
one_byte true (pos n) = (λ h. ground arith, λ h. ground arith)
one_byte true (negsuc n) = (λ h. ground arith, λ h. ground arith)
one_byte false (pos n) = (λ h. ground arith, λ h. ground arith)
one_byte false (negsuc n) = (λ h. ground arith, λ h. ground arith)

two_bytes :
    (u : Bool) (n : ℤ) → (in_range (range_of u 16) n ≡ true) ↔ (number_of u 16 (low_bits 16 n) ≡ n)
unfolding in_range range_of
two_bytes true (pos n) = (λ h. ground arith, λ h. ground arith)
two_bytes true (negsuc n) = (λ h. ground arith, λ h. ground arith)
two_bytes false (pos n) = (λ h. ground arith, λ h. ground arith)
two_bytes false (negsuc n) = (λ h. ground arith, λ h. ground arith)

three_bytes :
    (u : Bool) (n : ℤ) → (in_range (range_of u 24) n ≡ true) ↔ (number_of u 24 (low_bits 24 n) ≡ n)
unfolding in_range range_of
three_bytes true (pos n) = (λ h. ground arith, λ h. ground arith)
three_bytes true (negsuc n) = (λ h. ground arith, λ h. ground arith)
three_bytes false (pos n) = (λ h. ground arith, λ h. ground arith)
three_bytes false (negsuc n) = (λ h. ground arith, λ h. ground arith)

four_bytes :
    (u : Bool) (n : ℤ) → (in_range (range_of u 32) n ≡ true) ↔ (number_of u 32 (low_bits 32 n) ≡ n)
unfolding in_range range_of
four_bytes true (pos n) = (λ h. ground arith, λ h. ground arith)
four_bytes true (negsuc n) = (λ h. ground arith, λ h. ground arith)
four_bytes false (pos n) = (λ h. ground arith, λ h. ground arith)
four_bytes false (negsuc n) = (λ h. ground arith, λ h. ground arith)

abbrev Kept : Bool → ℕ → ℤ × ℤ → ℤ → Type 0
Kept u bits r n = (in_range r n ≡ true) ↔ (number_of u bits (low_bits bits n) ≡ n)

by_type :
    (t : FieldType) (u : Bool) (r : ℤ × ℤ) (n : ℤ)
    → elim (int_bits t) [ none ↦ none | some bits ↦ some (range_of u bits) ] ≡ some r
    → (in_range r n ≡ true) ↔ (number_of u (8 * width t) (low_bits (8 * width t) n) ≡ n)
unfolding int_bits
by_type tiny u r n e =
    let same : range_of u 8 ≡ r = cc in subst (λ x. Kept u 8 x n) same (one_byte u n)
by_type short u r n e =
    let same : range_of u 16 ≡ r = cc in subst (λ x. Kept u 16 x n) same (two_bytes u n)
by_type int24 u r n e =
    let same : range_of u 24 ≡ r = cc in subst (λ x. Kept u 24 x n) same (three_bytes u n)
by_type long u r n e =
    let same : range_of u 32 ≡ r = cc in subst (λ x. Kept u 32 x n) same (four_bytes u n)
by_type _ u r n e = cc

-- A number is in the range that a TINYINT, SMALLINT, MEDIUMINT or INT column is given, signed or
-- not, just where the column's bytes, two's complement, keep it: what the check lets through is
-- stored as it is, and what it refuses would be changed.
pub in_range-low_bits :
    (f : Field) (r : ℤ × ℤ) (n : ℤ)
    → int_range f ≡ some r
    → (in_range r n ≡ true)
      ↔ (number_of f.is_unsigned (8 * width f.real_type) (low_bits (8 * width f.real_type) n) ≡ n)
unfolding int_range
in_range-low_bits f r n e = by_type f.real_type f.is_unsigned r n e
