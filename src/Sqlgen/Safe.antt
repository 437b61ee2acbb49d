-- ===== src/Sqlgen/Safe.antt =====
-- A generator is safe when all the text it writes is closed in the sense of Sqlgen/Lexer.antt, from
-- aliases and view columns that are.
-- One rule for each way to put generators together.
use stoolap_mariadb.Common.{
  ℕ, ◌≡◌, ◌<◌, ◌⊎◌, subst, arith, ◌==◌, Bool-cases, inl, inr, Bool, true, false, List, [], ◌∷◌,
  ◌++◌, Option, none, some, Bytes, String, if◌then◌else◌,
}
use stoolap_mariadb.Handler.Savepoints.{decimal}
use stoolap_mariadb.Sqlgen.Gen.{
  State, Outcome, wrote, refused, Gen, ◌>>=◌, pure, fail, emit, ◌⊕◌, require, within, find_at,
  ident, name_quote,
}
use stoolap_mariadb.Sqlgen.Lexer.{
  outside, lex, Closed, Opens, Closes, Closed-append, Closed-within, Closed-of, Opens-of, Closes-of,
}

abbrev pub AllClosed : List (ℕ × Bytes) → Type 0
AllClosed [] = Unit
AllClosed ((k, t) ∷ m) = Closed t × AllClosed m

-- An alias with the number i
pub record IsNumbered (t : Bytes) (i : ℕ) : Type 0 where
  pub letter : ℕ
  pub plain : (letter == name_quote) ≡ false
  pub written : t ≡ letter ∷ decimal i

-- The quoted name of a table
pub record IsQuoted (t : Bytes) : Type 0 where
  pub name : Bytes
  pub written : t ≡ ident name

-- Numbers fall from below n along the list; last may stand the name of a table that is modified.
abbrev pub Numbered : ℕ → List (ℕ × Bytes) → Type 0
Numbered n [] = Unit
Numbered n ((k, t) ∷ m) =
    ((i : ℕ) × (i < n) × IsNumbered t i × Numbered i m) ⊎ (IsQuoted t × (m ≡ []))

pub record IsGood (s : State) : Type 0 where
  pub aliases : AllClosed s.alias
  pub numbers : Numbered s.next_alias s.alias
  pub views : AllClosed s.view_cols

abbrev pub Fine {ℓ} : {A : Type ℓ} → (A → Type 0) → Outcome A → Type 0
Fine P (wrote a s) = P a × IsGood s
Fine P (refused why) = Unit

-- What `g` returns fits P and leaves a good state.
pub record Yields {ℓ} {A : Type ℓ} (P : A → Type 0) (g : Gen A) : Type ℓ where
  pub run : (s : State) → IsGood s → Fine P (g s)

abbrev pub Safe : Gen Bytes → Type 0
Safe g = Yields Closed g

pub Yields-pure {ℓ} : {A : Type ℓ} (P : A → Type 0) (a : A) → P a → Yields P (pure a)
unfolding pure
Yields-pure P a h = record { run = λ s good. (h, good) }

pub Yields-fail {ℓ} : {A : Type ℓ} (P : A → Type 0) (why : String) → Yields P (fail why)
unfolding fail
Yields-fail P why = record { run = λ s good. tt }

bind_run {ℓ κ} :
    {A : Type ℓ} {B : Type κ} (P : A → Type 0) (Q : B → Type 0) (r : Outcome A) (f : A → Gen B)
    → Fine P r
    → ((a : A) → P a → Yields Q (f a))
    → Fine Q (elim r as (λ x. Outcome B) [ wrote a s' ↦ f a s' | refused why ↦ refused why ])
bind_run P Q (wrote a s) f h k = (k a h.0).run s h.1
bind_run P Q (refused why) f h k = tt

pub Yields-bind {ℓ κ} :
    {A : Type ℓ} {B : Type κ} (P : A → Type 0) (Q : B → Type 0) (g : Gen A) (f : A → Gen B)
    → Yields P g
    → ((a : A) → P a → Yields Q (f a))
    → Yields Q (g >>= f)
Yields-bind P Q g f h k = record { run = λ s good. bind_run P Q (g s) f (h.run s good) k }

pub Yields-require {ℓ} :
    {A : Type ℓ} (P : A → Type 0) (test : Bool) (why : String) (g : Gen A)
    → Yields P g
    → Yields P (require test why g)
unfolding require
Yields-require P true why g h = h
Yields-require P false why g h = Yields-fail P why

pub Yields-if {ℓ} :
    {A : Type ℓ} (P : A → Type 0) (test : Bool) (g h : Gen A)
    → Yields P g
    → Yields P h
    → Yields P (if test then g else h)
Yields-if P true g h hg hh = hg
Yields-if P false g h hg hh = hh

pub Safe-fail : (why : String) → Safe (fail why)
Safe-fail why = Yields-fail Closed why

pub Safe-require : (test : Bool) (why : String) {g : Gen Bytes} → Safe g → Safe (require test why g)
Safe-require test why {g} h = Yields-require Closed test why g h

pub Safe-if : (test : Bool) {g h : Gen Bytes} → Safe g → Safe h → Safe (if test then g else h)
Safe-if test {g} {h} hg hh = Yields-if Closed test g h hg hh

pub Safe-emit_closed : {t : Bytes} → Closed t → Safe (emit t)
unfolding emit
Safe-emit_closed h = record { run = λ s good. (h, good) }

-- A text with nothing of the source's data in it is read once, from depth 0.
pub Safe-emit : (t : Bytes) → lex (outside 0) t ≡ outside 0 → Safe (emit t)
Safe-emit t h = Safe-emit_closed (Closed-of t h)

pub Closed-if : (b : Bool) {s t : Bytes} → Closed s → Closed t → Closed (if b then s else t)
Closed-if true hs ht = hs
Closed-if false hs ht = ht

append_run :
    (a : Bytes) (r : Outcome Bytes)
    → Closed a
    → Fine Closed r
    → Fine Closed (elim r as (λ x. Outcome Bytes) [
      | refused why ↦ refused why
      | wrote b s2 ↦ wrote (a ++ b) s2
    ])
append_run a (wrote b s) ha h = (Closed-append a b ha h.0, h.1)
append_run a (refused why) ha h = tt

then_run :
    (r : Outcome Bytes) (h : Gen Bytes)
    → Fine Closed r
    → Safe h
    → Fine Closed (elim r as (λ x. Outcome Bytes) [
      | refused why ↦ refused why
      | wrote a s1 ↦ elim (h s1) as (λ x. Outcome Bytes) [
        | refused why ↦ refused why
        | wrote b s2 ↦ wrote (a ++ b) s2
      ]
    ])
then_run (wrote a s) h f k = append_run a (h s) f.0 (k.run s f.1)
then_run (refused why) h f k = tt

-- Of the parts of g ⊕ h
infixr 64 ◌▸◌
pub ◌▸◌ : {g h : Gen Bytes} → Safe g → Safe h → Safe (g ⊕ h)
unfolding ◌⊕◌
◌▸◌ {g} {h} hg hh = record { run = λ s good. then_run (g s) h (hg.run s good) hh }

within_run :
    (k : ℕ) (a b : Bytes) (r : Outcome Bytes)
    → Opens k a
    → Closes k b
    → Fine Closed r
    → Fine Closed (elim r as (λ x. Outcome Bytes) [
      | refused why ↦ refused why
      | wrote text s' ↦ wrote (a ++ (text ++ b)) s'
    ])
within_run k a b (wrote t s) ha hb h = (Closed-within k a t b ha h.0 hb, h.1)
within_run k a b (refused why) ha hb h = tt

pub Safe-within-Opens :
    (k : ℕ) (a b : Bytes) {g : Gen Bytes} → Opens k a → Closes k b → Safe g → Safe (within a b g)
unfolding within
Safe-within-Opens k a b {g} ha hb h = record {
  run = λ s good. within_run k a b (g s) ha hb (h.run s good);
}

pub Safe-within :
    (a b : Bytes) {g : Gen Bytes}
    → lex (outside 0) a ≡ outside 1
    → lex (outside 1) b ≡ outside 0
    → Safe g
    → Safe (within a b g)
Safe-within a b ha hb h = Safe-within-Opens 1 a b (Opens-of 1 a ha) (Closes-of 1 b hb) h

pub find_at-Closed :
    (k : ℕ) (m : List (ℕ × Bytes)) (t : Bytes) → AllClosed m → find_at k m ≡ some t → Closed t
unfolding find_at
find_at-Closed k [] t all e = cc
find_at-Closed k ((j, u) ∷ m) t all e = elim (Bool-cases (j == k)) [
  | inl hit ↦ let same : u ≡ t = ground arith in subst Closed same all.0
  | inr miss ↦ find_at-Closed k m t all.1 (rw miss at e)
]

pub Safe-option {ℓ} :
    {A : Type ℓ} (o : Option A) (g : Gen Bytes) (f : A → Gen Bytes)
    → Safe g
    → ((a : A) → Safe (f a))
    → Safe (elim o as (λ x. Gen Bytes) [ none ↦ g | some a ↦ f a ])
Safe-option none g f hg hf = hg
Safe-option (some a) g f hg hf = hf a
