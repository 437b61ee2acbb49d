-- ===== src/Common/Int.antt =====
-- Signed numbers: `negsuc n` is -(n + 1). The width of an `int64_t` is stated where it matters.
use Prim.Native.Nat.{ℕ, suc, ◌-◌, ◌/◌, ◌%◌, ◌^◌}
use mathlib.Core.Bool.{Bool, true, false}
use stoolap_mariadb.Common.Tests.{leb, if◌then◌else◌}

pub data ℤ : Type 0 where
  pos : ℕ → ℤ
  negsuc : ℕ → ℤ

abbrev pub pos_part : ℤ → ℕ
pos_part (pos n) = n
pos_part (negsuc n) = 0

abbrev pub neg_part : ℤ → ℕ
neg_part (pos n) = 0
neg_part (negsuc n) = suc n

abbrev pub sub_ℕ : ℕ → ℕ → ℤ
sub_ℕ a b = if leb b a then pos (a - b) else negsuc (b - a - 1)

abbrev pub neg : ℤ → ℤ
neg z = sub_ℕ (neg_part z) (pos_part z)

-- C's `/` and `%` by a positive constant: towards zero, the remainder with the dividend's sign.
abbrev pub tdiv : ℤ → ℕ → ℤ
tdiv (pos n) k = pos (n / k)
tdiv (negsuc n) k = sub_ℕ 0 (suc n / k)

abbrev pub tmod : ℤ → ℕ → ℤ
tmod (pos n) k = pos (n % k)
tmod (negsuc n) k = sub_ℕ 0 (suc n % k)

abbrev pub is_negative : ℤ → Bool
is_negative (pos n) = false
is_negative (negsuc n) = true

-- The number that a 64-bit pattern stands for, and the pattern of a number.
abbrev pub signed64 : ℕ → ℤ
signed64 w = if leb (2 ^ 63) w then negsuc (2 ^ 64 - 1 - w) else pos w

abbrev pub pattern64 : ℤ → ℕ
pattern64 (pos n) = n % 2 ^ 64
pattern64 (negsuc n) = 2 ^ 64 - 1 - n % 2 ^ 64
