-- ===== src/Bridge/Ladder.antt =====
-- The arithmetic of the AUTO_INCREMENT ladder: round_up_to_modulus, advance_after_reservation.
use native.Mathlib.Nat.{mod-lt, mod-eq_of_lt, le-div_iff_mul-le}
use stoolap_mariadb.Common.{
  ℕ, suc, ◌+◌, ◌-◌, ◌*◌, ◌/◌, ◌%◌, ◌≤◌, ◌<◌, ◌≡◌, ◌⊎◌, arith, leb, if◌then◌else◌,
}
use stoolap_mariadb.Bridge.{uint64_max, round_up_to_modulus, advance_after_reservation}

pub round_up_to_modulus-ge :
    (cur step offset_mod : ℕ) → cur ≤ uint64_max → cur ≤ round_up_to_modulus cur step offset_mod
unfolding round_up_to_modulus
round_up_to_modulus-ge cur step offset_mod h = ground arith

pub round_up_to_modulus-le :
    (cur step offset_mod : ℕ)
    → cur ≤ uint64_max
    → round_up_to_modulus cur step offset_mod ≤ uint64_max
unfolding round_up_to_modulus
round_up_to_modulus-le cur step offset_mod h = ground arith

pub advance_after_reservation-le :
    (first count step : ℕ)
    → first ≤ uint64_max
    → advance_after_reservation first count step ≤ uint64_max
unfolding advance_after_reservation
advance_after_reservation-le first count step h = ground arith

pub advance_after_reservation-ge :
    (first count step : ℕ) → first ≤ uint64_max → first ≤ advance_after_reservation first count step
unfolding advance_after_reservation
advance_after_reservation-ge first count step h = ground arith

mod_of_block : (q step m : ℕ) → m < step → (q * step + m) % step ≡ m
mod_of_block q step m h = grind arith

block_of : (n step : ℕ) → n ≡ (n / step) * step + n % step
block_of n step = grind arith

mul_mono : (a b s : ℕ) → a ≤ b → a * s ≤ b * s
mul_mono a b s h = grind arith

-- The least number from `cur` on in the residue class of `m`.
abbrev pub least_from : ℕ → ℕ → ℕ → ℕ
least_from cur step m =
    if leb (cur % step) m then cur / step * step + m else cur / step * step + step + m

pub least_from-mod : (cur step m : ℕ) → m < step → least_from cur step m % step ≡ m
least_from-mod cur step m h =
    ground (arith, mod_of_block (cur / step) step m h, mod_of_block (suc (cur / step)) step m h)

pub least_from-ge : (cur step m : ℕ) → 0 < step → cur ≤ least_from cur step m
least_from-ge cur step m h = ground (arith, block_of cur step, mod-lt cur h)

pub least_from-least : (cur step n : ℕ) → 0 < step → cur ≤ n → least_from cur step (n % step) ≤ n
least_from-least cur step n h le = ground (
  arith,
  block_of cur step,
  block_of n step,
  mod-lt cur h,
  mod-lt n h,
  mul_mono (cur / step) (n / step) step,
  mul_mono (suc (n / step)) (cur / step) step,
  mul_mono (suc (cur / step)) (n / step) step,
)

pub round_up_to_modulus_lem :
    (cur step offset_mod : ℕ)
    → cur ≤ uint64_max
    → 0 < step
    → round_up_to_modulus cur step offset_mod ≡ (
        if leb (least_from cur step (offset_mod % step)) uint64_max
        then least_from cur step (offset_mod % step)
        else uint64_max)
unfolding round_up_to_modulus
round_up_to_modulus_lem cur step offset_mod h pos = ground (
  arith,
  block_of cur step,
  mod-lt cur pos,
  mod-lt offset_mod pos,
  mod-eq_of_lt {n = offset_mod} {m = step},
)

-- Every id of a batch lies below the cursor that the batch leaves, unless that is saturated.
pub advance_after_reservation-gt :
    (first count step i : ℕ)
    → first ≤ uint64_max
    → 0 < step
    → i < count
    → (first + i * step < advance_after_reservation first count step)
      ⊎ (advance_after_reservation first count step ≡ uint64_max)
unfolding advance_after_reservation
advance_after_reservation-gt first count step i h pos lt = ground (
  arith,
  mul_mono i (count - 1) step,
  (le-div_iff_mul-le {k = step} {x = count - 1} {y = uint64_max} pos).0,
)
