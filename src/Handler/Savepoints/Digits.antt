-- ===== src/Handler/Savepoints/Digits.antt =====
-- The text of a number that format_savepoint_slot writes by %llu.
use stoolap_mariadb.Common.{
  ℕ, zero, suc, ◌+◌, ◌/◌, ◌%◌, ◌^◌, ◌≤◌, ◌<◌, ◌≡◌, sym, ap, ◌∙◌, arith, Bool-cases, inl, inr, ltb,
  ltb→lt, [], ◌∷◌, ◌++◌, Bytes,
}
use stoolap_mariadb.Handler.Savepoints.{digits, decimal, digit_value, decimal-digit_value}

abbrev pub AllDigits : Bytes → Type 0
AllDigits [] = Unit
AllDigits (c ∷ s) = (48 ≤ c) × (c ≤ 57) × AllDigits s

AllDigits-append : (s t : Bytes) → AllDigits s → AllDigits t → AllDigits (s ++ t)
AllDigits-append [] t hs ht = ht
AllDigits-append (c ∷ s) t hs ht = (hs.0, hs.1, AllDigits-append s t hs.2 ht)

digits-AllDigits : (width n : ℕ) → AllDigits (digits width n)
unfolding digits
digits-AllDigits zero n = tt
digits-AllDigits (suc width) n = elim (Bool-cases (ltb n 10)) [
  | inl small ↦ rw small (omega (arith, ltb→lt n 10 small))
  | inr large ↦ rw large (
      AllDigits-append (digits width (n / 10)) ((48 + n % 10) ∷ [])
        (digits-AllDigits width (n / 10)) (omega arith))
]

pub decimal-AllDigits : (n : ℕ) → AllDigits (decimal n)
unfolding decimal
decimal-AllDigits n = digits-AllDigits 20 n

-- No number of a uint64_t has another's text.
pub decimal-injective : (i j : ℕ) → i < 2 ^ 64 → j < 2 ^ 64 → decimal i ≡ decimal j → i ≡ j
decimal-injective i j hi hj e =
    sym (decimal-digit_value i hi) ∙ ap (digit_value 0) e ∙ decimal-digit_value j hj
