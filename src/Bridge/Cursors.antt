-- ===== src/Bridge/Cursors.antt =====
-- The cursors of Engine under calls of ai_reserve, ai_seed_and_reserve and ai_note_explicit: none of
-- them moves one back.
use mathlib.Core.Option
use stoolap_mariadb.Common.{
  ℕ, ◌+◌, ◌%◌, ◌≤◌, ◌<◌, ◌≡◌, inl, inr, arith, leb, if◌then◌else◌, Option, none, some, List, [],
  ◌∷◌, Bytes, bytes_eq, bytes_eq_iff, find, find-put, ltb, Option-cases, ◌==◌, Bool-cases, subst,
  sym,
}
use stoolap_mariadb.Bridge.{
  Engine, uint64_max, round_up_to_modulus, advance_after_reservation, at_least_one, cursor_or_zero,
  ai_reserve, ai_seed_and_reserve, ai_note_explicit, word,
}
use stoolap_mariadb.Bridge.Ladder.{
  round_up_to_modulus-ge, round_up_to_modulus-le, advance_after_reservation-le,
  advance_after_reservation-ge,
}

-- The cursor after a reservation of `count` ids.
abbrev pub cursor_after : ℕ → ℕ → ℕ → ℕ → ℕ
cursor_after n count step offset_mod =
    advance_after_reservation (round_up_to_modulus n (at_least_one step) offset_mod)
      (at_least_one count) (at_least_one step)

pub cursor_after-ge :
    (n count step offset_mod : ℕ)
    → n ≤ uint64_max
    → (n ≤ cursor_after n count step offset_mod)
      × (cursor_after n count step offset_mod ≤ uint64_max)
cursor_after-ge n count step offset_mod h =
    let f = round_up_to_modulus n (at_least_one step) offset_mod in
    ground (
      arith,
      round_up_to_modulus-ge n (at_least_one step) offset_mod h,
      round_up_to_modulus-le n (at_least_one step) offset_mod h,
      advance_after_reservation-ge f (at_least_one count) (at_least_one step),
      advance_after_reservation-le f (at_least_one count) (at_least_one step),
    )

pub find-ai_reserve :
    (e : Engine) (j k : Bytes) (count step offset_mod : ℕ)
    → find k (ai_reserve e j count step offset_mod).0.ai_next ≡ (
        if bytes_eq j k
        then Option.map (λ n. cursor_after n count step offset_mod) (find j e.ai_next)
        else find k e.ai_next)
unfolding ai_reserve
find-ai_reserve e j k count step offset_mod = elim (Option-cases (find j e.ai_next)) [
  | inl p ↦ ground (arith, bytes_eq_iff j k)
  | inr (n, p) ↦ ground (arith, find-put j k (cursor_after n count step offset_mod) e.ai_next)
]

pub find-ai_seed_and_reserve :
    (e : Engine) (j k : Bytes) (seed count step offset_mod : ℕ)
    → find k (ai_seed_and_reserve e j seed count step offset_mod).0.ai_next ≡ (
        let next = cursor_or_zero (find j e.ai_next) in
        if bytes_eq j k
        then some (cursor_after (if ltb next seed then seed else next) count step offset_mod)
        else find k e.ai_next)
unfolding ai_seed_and_reserve
find-ai_seed_and_reserve e j k seed count step offset_mod = find-put j k _ e.ai_next

pub find-ai_note_explicit :
    (e : Engine) (j k : Bytes) (value : ℕ)
    → find k (ai_note_explicit e j value).ai_next ≡ (
        let next = cursor_or_zero (find j e.ai_next) in
        if value == uint64_max
        then find k e.ai_next
        else if bytes_eq j k
        then some (if leb next value then (value + 1) % word else next)
        else find k e.ai_next)
unfolding ai_note_explicit
find-ai_note_explicit e j k value =
    let next = cursor_or_zero (find j e.ai_next) in
    ground (arith, find-put j k (if leb next value then (value + 1) % word else next) e.ai_next)

-- What one connection or another does to the cursors; the table is an argument.
pub data AiCall : Type 0 where
  reserves : ℕ → ℕ → ℕ → AiCall
  seeds : ℕ → ℕ → ℕ → ℕ → AiCall
  notes : ℕ → AiCall

abbrev pub after_call : Engine → Bytes × AiCall → Engine
after_call e (j, reserves count step offset_mod) = (ai_reserve e j count step offset_mod).0
after_call e (j, seeds seed count step offset_mod) =
    (ai_seed_and_reserve e j seed count step offset_mod).0
after_call e (j, notes value) = ai_note_explicit e j value

abbrev pub after_calls : Engine → List (Bytes × AiCall) → Engine
after_calls e [] = e
after_calls e (c ∷ cs) = after_calls (after_call e c) cs

-- The arguments are uint64_t.
abbrev pub InRange : Bytes × AiCall → Type 0
InRange (j, reserves count step offset_mod) = Unit {0}
InRange (j, seeds seed count step offset_mod) = seed ≤ uint64_max
InRange (j, notes value) = value ≤ uint64_max

abbrev pub AllInRange : List (Bytes × AiCall) → Type 0
AllInRange [] = Unit {0}
AllInRange (c ∷ cs) = InRange c × AllInRange cs

abbrev pub FromAtLeast : ℕ → Option ℕ → Type 0
FromAtLeast c none = ⊥
FromAtLeast c (some n) = (c ≤ n) × (n ≤ uint64_max)

FromAtLeast-if :
    {c : ℕ} (j k : Bytes) (q : Option ℕ → Option ℕ) (e : Engine)
    → ((o : Option ℕ) → FromAtLeast c o → FromAtLeast c (q o))
    → FromAtLeast c (find k e.ai_next)
    → FromAtLeast c (if bytes_eq j k then q (find j e.ai_next) else find k e.ai_next)
FromAtLeast-if {c} j k q e step h = elim (Bool-cases (bytes_eq j k)) [
  | inl p ↦
      rw p (
        subst (λ i. FromAtLeast c (q (find i e.ai_next))) (sym ((bytes_eq_iff j k).0 p)) (step _ h))
  | inr p ↦ rw p h
]

FromAtLeast-map :
    (c count step offset_mod : ℕ) (o : Option ℕ)
    → FromAtLeast c o
    → FromAtLeast c (Option.map (λ n. cursor_after n count step offset_mod) o)
FromAtLeast-map c count step offset_mod none h = h
FromAtLeast-map c count step offset_mod (some n) h =
    ground (arith, cursor_after-ge n count step offset_mod h.1)

FromAtLeast-seed :
    (c seed count step offset_mod : ℕ) (o : Option ℕ)
    → seed ≤ uint64_max
    → FromAtLeast c o
    → FromAtLeast c (
        some (
          cursor_after
            (if ltb (cursor_or_zero o) seed then seed else cursor_or_zero o)
            count
            step
            offset_mod))
FromAtLeast-seed c seed count step offset_mod none r h = absurd h
FromAtLeast-seed c seed count step offset_mod (some n) r h =
    let next = if ltb n seed then seed else n in
    ground (arith, cursor_after-ge next count step offset_mod)

FromAtLeast-note :
    (c value : ℕ) (o : Option ℕ)
    → value < uint64_max
    → FromAtLeast c o
    → FromAtLeast c
        (some (if leb (cursor_or_zero o) value then (value + 1) % word else cursor_or_zero o))
FromAtLeast-note c value none r h = absurd h
FromAtLeast-note c value (some n) r h = ground arith

-- No call, for whatever table, moves a cursor back.
FromAtLeast-after_call :
    (c : ℕ) (name : Bytes) (e : Engine) (call : Bytes × AiCall)
    → InRange call
    → FromAtLeast c (find name e.ai_next)
    → FromAtLeast c (find name (after_call e call).ai_next)
FromAtLeast-after_call c name e (j, reserves count step offset_mod) r h =
    rw (find-ai_reserve e j name count step offset_mod)
      (FromAtLeast-if j name _ e (FromAtLeast-map c count step offset_mod) h)
FromAtLeast-after_call c name e (j, seeds seed count step offset_mod) r h =
    rw (find-ai_seed_and_reserve e j name seed count step offset_mod) (
      FromAtLeast-if j name
        (λ o. some (
          cursor_after (if ltb (cursor_or_zero o) seed then seed else cursor_or_zero o) count step
            offset_mod))
        e (λ o. FromAtLeast-seed c seed count step offset_mod o r) h)
FromAtLeast-after_call c name e (j, notes value) r h =
    rw (find-ai_note_explicit e j name value) (elim (Bool-cases (value == uint64_max)) [
      | inl p ↦ rw p h
      | inr p ↦ rw p (
          FromAtLeast-if j name
            (λ o.
              some (if leb (cursor_or_zero o) value then (value + 1) % word else cursor_or_zero o))
            e (λ o. FromAtLeast-note c value o (ground arith)) h)
    ])

pub FromAtLeast-after_calls :
    (c : ℕ) (name : Bytes) (e : Engine) (calls : List (Bytes × AiCall))
    → AllInRange calls
    → FromAtLeast c (find name e.ai_next)
    → FromAtLeast c (find name (after_calls e calls).ai_next)
FromAtLeast-after_calls c name e [] r h = h
FromAtLeast-after_calls c name e (call ∷ calls) r h =
    FromAtLeast-after_calls c name (after_call e call) calls r.1
      (FromAtLeast-after_call c name e call r.0 h)
