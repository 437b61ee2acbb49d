-- ===== src/Sqlgen/Node/Aliases.antt =====
-- The aliases that the generator gives tables, from the numbers that its induction keeps.
use stoolap_mariadb.Common.{
  ℕ, ◌^◌, ◌≤◌, ◌<◌, ◌≡◌, ◌≢◌, ◌==◌, subst, ◌⊎◌, inl, inr, sym, ap, ◌∙◌, arith, Bool-cases, Bool,
  List, [], ◌∷◌, some, Bytes,
}
use stoolap_mariadb.Handler.Savepoints.{decimal}
use stoolap_mariadb.Handler.Savepoints.Digits.{decimal-injective}
use stoolap_mariadb.Sqlgen.Items.{Select, Query}
use stoolap_mariadb.Sqlgen.Gen.{State, Env, Outcome, wrote, refused, find_at, ident, name_quote}
use stoolap_mariadb.Sqlgen.Lexer.{Closed}
use stoolap_mariadb.Sqlgen.Safe.{Numbered, IsNumbered, IsQuoted, Fine}
use stoolap_mariadb.Sqlgen.Node.{gen_select, gen_unit}
use stoolap_mariadb.Sqlgen.Node.Safe.{gen_select-Fine, gen_unit-Fine}

-- What an alias of the list looks like
abbrev Shape : ℕ → Bytes → Type 0
Shape n t = ((i : ℕ) × (i < n) × IsNumbered t i) ⊎ IsQuoted t

weaken : (i n : ℕ) (t : Bytes) → i < n → Shape i t → Shape n t
weaken i n t h (inl (j, lt, num)) = inl (j, omega arith, num)
weaken i n t h (inr q) = inr q

empty_find : (k : ℕ) (m : List (ℕ × Bytes)) (t : Bytes) → m ≡ [] → find_at k m ≢ some t
unfolding find_at
empty_find k [] t h e = cc
empty_find k (p ∷ m) t h e = cc

found-Shape :
    (n k : ℕ) (m : List (ℕ × Bytes)) (t : Bytes) → Numbered n m → find_at k m ≡ some t → Shape n t
unfolding find_at
found-Shape n k [] t h e = cc
found-Shape n k ((j, u) ∷ m) t (inl (i, lt, num, rest)) e = elim (Bool-cases (j == k)) [
  | inl hit ↦
      let same : u ≡ t = ground arith in
      let first : Shape n u = inl (i, lt, num) in subst (Shape n) same first
  | inr miss ↦ weaken i n t lt (found-Shape i k m t rest (rw miss at e))
]
found-Shape n k ((j, u) ∷ m) t (inr (q, last)) e = elim (Bool-cases (j == k)) [
  | inl hit ↦
      let same : u ≡ t = ground arith in let first : Shape n u = inr q in subst (Shape n) same first
  | inr miss ↦ absurd (empty_find k m t last (rw miss at e))
]

-- A number is no alias's that has only smaller ones, nor a quoted name.
no_clash : (i : ℕ) (t : Bytes) → i < 2 ^ 64 → IsNumbered t i → Shape i t → ⊥
unfolding ident
no_clash i t h a (inl (j, lt, b)) =
    let same : decimal i ≡ decimal j = cc (a.written, b.written) in
    let number : i ≡ j = decimal-injective i j h (omega arith) same in omega arith
no_clash i t h a (inr q) =
    let letter : a.letter ≡ name_quote = cc (a.written, q.written) in
    let plain = a.plain in ground arith

aliases_differ :
    (n : ℕ) (m : List (ℕ × Bytes)) (j k : ℕ) (t : Bytes)
    → n ≤ 2 ^ 64
    → Numbered n m
    → find_at j m ≡ some t
    → find_at k m ≡ some t
    → j ≡ k
unfolding find_at
aliases_differ n [] j k t hn h ej ek = cc
aliases_differ n ((a, u) ∷ m) j k t hn (inl (i, lt, num, rest)) ej ek =
    let clash : find_at j m ≡ some u → ⊥ =
      λ e. no_clash i u (omega arith) num (found-Shape i j m u rest e) in
    let clash' : find_at k m ≡ some u → ⊥ =
      λ e. no_clash i u (omega arith) num (found-Shape i k m u rest e) in
    ground (arith, aliases_differ i m j k t (omega arith) rest)
aliases_differ n ((a, u) ∷ m) j k t hn (inr (q, last)) ej ek =
    ground (arith, empty_find j m t last, empty_find k m t last)

numbers_of :
    (r : Outcome Bytes) (text : Bytes) (g : State)
    → r ≡ wrote text g
    → Fine Closed r
    → Numbered g.next_alias g.alias
numbers_of (wrote t g') text g e h =
    let same : g' ≡ g = cc in subst (λ x. Numbered x.next_alias x.alias) same h.1.numbers
numbers_of (refused why) text g e h = cc

-- Where the generator has written a SELECT, and a query expression, with their subqueries and derived
-- tables, and has given fewer than 2 ^ 31 aliases for each, so that its counter, an int, has not
-- overflowed, two different tables of either have different aliases.
pub gen_select-aliases :
    (env : Env) (alone : Bool) (s : Select) (q : Query) (text text' : Bytes) (g g' : State)
    (j k j' k' : ℕ) (t u t' u' : Bytes)
    → gen_select env alone s ≡ wrote text g
    → gen_unit env q ≡ wrote text' g'
    → g.next_alias < 2 ^ 31
    → g'.next_alias < 2 ^ 31
    → find_at j g.alias ≡ some t
    → find_at k g.alias ≡ some u
    → j ≢ k
    → find_at j' g'.alias ≡ some t'
    → find_at k' g'.alias ≡ some u'
    → j' ≢ k'
    → (t ≢ u) × (t' ≢ u')
gen_select-aliases env alone s q text text' g g' j k j' k' t u t' u' e e' h h' ft fu d ft' fu' d' =
    (
      (λ same. d (
          aliases_differ g.next_alias g.alias j k t (omega arith)
            (numbers_of _ text g e (gen_select-Fine env alone s)) ft (fu ∙ ap some (sym same)))),
      (λ same. d' (
          aliases_differ g'.next_alias g'.alias j' k' t' (omega arith)
            (numbers_of _ text' g' e' (gen_unit-Fine env q)) ft' (fu' ∙ ap some (sym same)))),
    )
