-- ===== src/Bridge/AutoIncrement.antt =====
-- The process-wide AUTO_INCREMENT cursors of Engine: what ai_reserve, ai_seed_and_reserve and
-- ai_note_explicit promise of the ids that they give out.
use native.Mathlib.Nat.{mod-lt}
use stoolap_mariadb.Common.{
  ℕ, suc, ◌+◌, ◌*◌, ◌%◌, ◌≤◌, ◌<◌, ◌≡◌, ◌⊎◌, inl, inr, arith, leb, some, List, Bytes, bytes_eq_refl,
  find, find-put_self, Option-cases, Bool-cases, leb→le, subst,
}
use stoolap_mariadb.Bridge.{
  Engine, uint64_max, round_up_to_modulus, advance_after_reservation, at_least_one, cursor_or_zero,
  ai_reserve, ai_note_explicit,
}
use stoolap_mariadb.Bridge.Ladder.{
  round_up_to_modulus-ge, round_up_to_modulus-le, advance_after_reservation-le,
  advance_after_reservation-gt, least_from, least_from-mod, least_from-ge, least_from-least,
  round_up_to_modulus_lem,
}
use stoolap_mariadb.Bridge.Cursors.{
  cursor_after, AiCall, after_calls, AllInRange, FromAtLeast, FromAtLeast-after_calls,
  find-ai_note_explicit,
}

-- A reservation starts at the least id of the ladder that the cursor allows, or at uint64_max when
-- the ladder has no id left: no n between the cursor and uint64_max is on it.
pub round_up_to_modulus_least :
    (cur step offset_mod : ℕ)
    → cur ≤ uint64_max
    → 0 < step
    → let r = round_up_to_modulus cur step offset_mod in
      ((cur ≤ r)
        × (r ≤ uint64_max)
        × (r % step ≡ offset_mod % step)
        × ((n : ℕ) → cur ≤ n → n % step ≡ offset_mod % step → r ≤ n))
      ⊎ ((r ≡ uint64_max) × ((n : ℕ) → cur ≤ n → n % step ≡ offset_mod % step → uint64_max < n))
round_up_to_modulus_least cur step offset_mod h pos =
    let m = offset_mod % step in
    let t = least_from cur step m in
    let least : (n : ℕ) → cur ≤ n → n % step ≡ m → t ≤ n =
      λ n le e. subst (λ k. least_from cur step k ≤ n) e (least_from-least cur step n pos le) in
    elim (Bool-cases (leb t uint64_max)) [
      | inl fits ↦
          let r : round_up_to_modulus cur step offset_mod ≡ t =
            ground (arith, round_up_to_modulus_lem cur step offset_mod h pos) in
          rw r (
            inl (
              least_from-ge cur step m pos,
              leb→le t uint64_max fits,
              least_from-mod cur step m (mod-lt offset_mod pos),
              least,
            ))
      | inr over ↦
          let r : round_up_to_modulus cur step offset_mod ≡ uint64_max =
            ground (arith, round_up_to_modulus_lem cur step offset_mod h pos) in
          inr (r, λ n le e. ground (arith, least n le e))
    ]

-- What a reservation that finds a cursor gives: an id from the cursor on.
first_from :
    (e e' : Engine) (name : Bytes) (count step offset_mod c g : ℕ)
    → FromAtLeast c (find name e.ai_next)
    → ai_reserve e name count step offset_mod ≡ (e', some g)
    → (c ≤ g) × (g ≤ uint64_max)
unfolding ai_reserve
first_from e e' name count step offset_mod c g h eq = elim (Option-cases (find name e.ai_next)) [
  | inl p ↦ absurd (rw p at h)
  | inr (n, p) ↦
      let k : FromAtLeast c (some n) = rw p at h in
      ground (
        arith,
        round_up_to_modulus-ge n (at_least_one step) offset_mod k.1,
        round_up_to_modulus-le n (at_least_one step) offset_mod k.1,
      )
]

reserved :
    (e e₁ : Engine) (name : Bytes) (cursor count step offset_mod f : ℕ)
    → find name e.ai_next ≡ some cursor
    → ai_reserve e name count step offset_mod ≡ (e₁, some f)
    → (f ≡ round_up_to_modulus cursor (at_least_one step) offset_mod)
      × (find name e₁.ai_next
          ≡ some (advance_after_reservation f (at_least_one count) (at_least_one step)))
unfolding ai_reserve
reserved e e₁ name cursor count step offset_mod f at first =
    ground (arith, find-put_self name (cursor_after cursor count step offset_mod) e.ai_next)

-- Two reservations of one table, with any calls of any connection between them that do not clear
-- the cursors: every id of the first batch is below the first id of the second, unless the
-- allocator is saturated and gives uint64_max.
pub ai_reserve-lt-ai_reserve :
    (e e₁ e₂ : Engine) (name : Bytes) (calls : List (Bytes × AiCall))
    (cursor count step offset_mod count' step' offset_mod' f g i : ℕ)
    → find name e.ai_next ≡ some cursor
    → cursor ≤ uint64_max
    → ai_reserve e name count step offset_mod ≡ (e₁, some f)
    → AllInRange calls
    → ai_reserve (after_calls e₁ calls) name count' step' offset_mod' ≡ (e₂, some g)
    → i < at_least_one count
    → (f + i * at_least_one step < g) ⊎ (g ≡ uint64_max)
ai_reserve-lt-ai_reserve e e₁ e₂ name calls cursor count step offset_mod count' step' offset_mod' f
      g i at bounded first range second lt =
    let start = round_up_to_modulus cursor (at_least_one step) offset_mod in
    let next = advance_after_reservation f (at_least_one count) (at_least_one step) in
    let r = reserved e e₁ name cursor count step offset_mod f at first in
    let small : f ≤ uint64_max =
      rw (r.0) (round_up_to_modulus-le cursor (at_least_one step) offset_mod bounded) in
    let from : FromAtLeast next (find name e₁.ai_next) = rw (r.1) (
      omega arith,
      advance_after_reservation-le f (at_least_one count) (at_least_one step) small,
    ) in
    let later =
      first_from (after_calls e₁ calls) e₂ name count' step' offset_mod' next g
        (FromAtLeast-after_calls next name e₁ calls range from) second in
    ground (
      arith,
      later,
      advance_after_reservation-gt f (at_least_one count) (at_least_one step) i small,
    )

-- An explicit id below uint64_max that is noted for a table, whose cursor is a 64-bit number, is
-- smaller than every id that ai_reserve gives of that table later: whatever reservations, notes and
-- seeds, of 64-bit seeds and values, are made of any table in between, where nothing drops the cursors
-- in between (ai_invalidate).
pub ai_note_explicit-lt-ai_reserve :
    (e e₁ : Engine) (name : Bytes) (value : ℕ) (calls : List (Bytes × AiCall))
    (count step offset_mod g : ℕ)
    → (cursor_or_zero (find name e.ai_next)) ≤ uint64_max
    → value < uint64_max
    → AllInRange calls
    → ai_reserve (after_calls (ai_note_explicit e name value) calls) name count step offset_mod
      ≡ (e₁, some g)
    → value < g
ai_note_explicit-lt-ai_reserve e e₁ name value calls count step offset_mod g bounded small range
      eq =
    let from : FromAtLeast (suc value) (find name (ai_note_explicit e name value).ai_next) =
      rw (find-ai_note_explicit e name name value)
        (ground (arith, bytes_eq_refl name, Option-cases (find name e.ai_next))) in
    (first_from (after_calls (ai_note_explicit e name value) calls) e₁ name count step offset_mod
      (suc value) g
      (FromAtLeast-after_calls (suc value) name (ai_note_explicit e name value) calls range from)
      eq).0
