-- ===== src/Sqlgen/Query/Refs.antt =====
-- What is written for columns and references is closed where it is for what they point at.
use stoolap_mariadb.Common.{
  ℕ, ◌≡◌, refl, Bool, true, false, Option, none, some, Bytes, codes, if◌then◌else◌,
}
use stoolap_mariadb.Sqlgen.Items.{BoundField, FieldTable, RefType, view_ref, other_ref}
use stoolap_mariadb.Sqlgen.Gen.{State, Outcome, ident, find_at, has_at, wrote, refused}
use stoolap_mariadb.Sqlgen.Lexer.{Closed, Closed-of, Closed-append, ident-Closed, lex, step}
use stoolap_mariadb.Sqlgen.Safe.{
  IsGood, Fine, Yields, Yields-bind, Safe, Safe-fail, Safe-emit_closed, find_at-Closed,
}
use stoolap_mariadb.Sqlgen.Funcs.{Arg}
use stoolap_mariadb.Sqlgen.Funcs.Safe.{expr-Safe}
use stoolap_mariadb.Sqlgen.Sums.Safe.{OptionSafe}
use stoolap_mariadb.Sqlgen.Query.{alias_of, field, target, view, reference}

-- An alias comes from alias_, a view's column from view_cols_.
abbrev Qualified : Bytes × Bytes → Type 0
Qualified p = Closed p.0

found_alias :
    (s : State) (assigned : Bool) (alias : Option Bytes) (name : Bytes) (list : ℕ)
    → IsGood s
    → find_at list s.alias ≡ alias
    → Fine Qualified (
        if assigned
        then refused "SET reads a column it assigned"
        else elim alias as (λ x. Outcome (Bytes × Bytes)) [
          | none ↦ refused "field of unknown table"
          | some a ↦ wrote (a, name) s
        ])
found_alias s true alias name list good e = tt
found_alias s false none name list good e = tt
found_alias s false (some a) name list good e = (find_at-Closed list s.alias a good.aliases e, good)

alias_of-Yields : (f : Option BoundField) → Yields Qualified (alias_of f)
unfolding alias_of
alias_of-Yields none = record { run = λ s good. tt }
alias_of-Yields (some f) = record { run = λ s good. with_table f.table s good }
  where
    with_table :
        (t : Option FieldTable) (s : State)
        → IsGood s
        → Fine Qualified (elim t as (λ x. Outcome (Bytes × Bytes)) [
          | none ↦ refused "unbound field"
          | some t ↦
              if has_at f.address s.assigned
              then refused "SET reads a column it assigned"
              else elim (find_at t.list s.alias) [
                | none ↦ refused "field of unknown table"
                | some alias ↦ wrote (alias, f.field.name) s
              ]
        ])
    with_table none s good = tt
    with_table (some t) s good =
        found_alias s (has_at f.address s.assigned) _ f.field.name t.list good refl

pub field-Safe : (f : Option BoundField) → Safe (field f)
unfolding field lex step
field-Safe f = Yields-bind Qualified Closed _ _ (alias_of-Yields f) λ found h. Safe-emit_closed (
    Closed-append found.0 _ h
      (Closed-append (codes ".") (ident found.1) (Closed-of _ refl) (ident-Closed found.1)))

target-Safe : (x : Option Arg) → OptionSafe x → Safe (target x)
unfolding target
target-Safe none h = Safe-fail _
target-Safe (some x) h = expr-Safe x h

found_view :
    (s : State) (at : ℕ) (x : Arg) (text : Option Bytes)
    → IsGood s
    → Safe x.node
    → find_at at s.view_cols ≡ text
    → Fine Closed
        (elim text as (λ y. Outcome Bytes) [ some t ↦ wrote t s | none ↦ target (some x) s ])
found_view s at x none good h e = (target-Safe (some x) h).run s good
found_view s at x (some t) good h e = (find_at-Closed at s.view_cols t good.views e, good)

view-Safe : (at : ℕ) (x : Option Arg) → OptionSafe x → Safe (view at x)
unfolding view
view-Safe at none h = record { run = λ s good. (target-Safe none tt).run s good }
view-Safe at (some x) h = record { run = λ s good. found_view s at x _ good h refl }

pub reference-Safe :
    (t : RefType) (at : ℕ) (x : Option Arg) → OptionSafe x → Safe (reference t at x)
unfolding reference
reference-Safe other_ref at x h = Safe-fail _
reference-Safe view_ref at x h = view-Safe at x h
reference-Safe _ at x h = target-Safe x h
