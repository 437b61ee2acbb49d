-- ===== src/Sqlgen/Literals/Safe.antt =====
-- The literals that src/stoolap_sqlgen.cc writes are closed texts, whatever their values are.
use stoolap_mariadb.Common.{
  ◌≡◌, refl, not, Bool, true, false, List, Option, none, some, Bytes, codes, if◌then◌else◌,
}
use stoolap_mariadb.Common.Int.{ℤ}
use stoolap_mariadb.Types.{FieldType}
use stoolap_mariadb.Sqlgen.Items.{
  ResultType, int_result, real_result, decimal_result, string_result, time_result, Mark, Attrs,
  Item, attrs_of,
}
use stoolap_mariadb.Sqlgen.Classes.{cls, is_class, time_class}
use stoolap_mariadb.Sqlgen.Gen.{emit, require, signed, Env, Parsed}
use stoolap_mariadb.Sqlgen.Lexer.{
  Closed, Closed-of, Closed-append, quoted-Closed, number_text-Closed, signed-Closed, lex, step,
}
use stoolap_mariadb.Sqlgen.Safe.{
  Safe, Safe-fail, Safe-require, Safe-if, Safe-emit, Safe-emit_closed, Closed-if,
}
use stoolap_mariadb.Sqlgen.Literals.{
  contains_any, quoted, has_escape, with_point, string_literal, decimal_literal, real_literal,
  literal_of, literal, packed_constant, parsed_text, parsed_constant, constant_of, temporal_literal,
}

with_point-Closed : (marks s : Bytes) → Closed s → Closed (with_point marks s)
unfolding with_point lex step
with_point-Closed marks s h =
    Closed-if (contains_any marks s) h
      (Closed-append s (codes ".0") h (Closed-of (codes ".0") refl))

quoted_literal-Safe :
    (s : Bytes) (bad : Bool)
    → has_escape s ≡ bad
    → Safe (require (not bad) "string escape" (emit (quoted s)))
unfolding require
quoted_literal-Safe s true h = Safe-fail _
quoted_literal-Safe s false h = Safe-emit_closed (quoted-Closed s h)

string_literal-Safe : (s : Option Bytes) → Safe (string_literal s)
unfolding string_literal
string_literal-Safe none = Safe-fail _
string_literal-Safe (some s) = quoted_literal-Safe s (has_escape s) refl

decimal_literal-Safe : (ms : Option (List Mark)) → Safe (decimal_literal ms)
unfolding decimal_literal
decimal_literal-Safe none = Safe-fail _
decimal_literal-Safe (some ms) =
    Safe-require _ _ (Safe-emit_closed (with_point-Closed (codes ".") _ (number_text-Closed ms)))

real_literal-Safe : (ms : Option (List Mark)) → Safe (real_literal ms)
unfolding real_literal
real_literal-Safe none = Safe-fail _
real_literal-Safe (some ms) =
    Safe-emit_closed (with_point-Closed (codes ".eE") _ (number_text-Closed ms))

literal_of-Safe : (t : ResultType) (a : Attrs) → Safe (literal_of t a)
unfolding literal_of
literal_of-Safe int_result a = Safe-require _ _ (Safe-emit_closed (signed-Closed a.val_int))
literal_of-Safe real_result a = real_literal-Safe a.val_real
literal_of-Safe decimal_result a = decimal_literal-Safe a.val_decimal
literal_of-Safe string_result a = string_literal-Safe a.val_str
literal_of-Safe _ a = Safe-fail _

pub literal-Safe : (a : Attrs) → Safe (literal a)
unfolding literal lex step
literal-Safe a = Safe-require _ _ (Safe-if _ (Safe-emit _ refl) (literal_of-Safe a.cmp_type a))

-- Closed, where it is there
abbrev pub ClosedOption : Option Bytes → Type 0
ClosedOption none = Unit
ClosedOption (some t) = Closed t

if_none : (b : Bool) (o : Option Bytes) → ClosedOption o → ClosedOption (if b then none else o)
if_none true o h = tt
if_none false o h = h

if_some : (b : Bool) (o : Option Bytes) → ClosedOption o → ClosedOption (if b then o else none)
if_some true o h = h
if_some false o h = tt

packed_value :
    (o : Option ℤ) (test : ℤ → Bool)
    → ClosedOption (elim o as (λ x. Option Bytes) [
      | none ↦ none
      | some v ↦ if test v then none else some (signed v)
    ])
packed_value none test = tt
packed_value (some v) test = if_none (test v) (some (signed v)) (signed-Closed v)

parsed_value :
    (o : Option Parsed) (test : Parsed → Bool)
    → ClosedOption (elim o as (λ x. Option Bytes) [
      | none ↦ none
      | some p ↦ if test p then some (signed p.packed) else none
    ])
parsed_value none test = tt
parsed_value (some p) test = if_some (test p) (some (signed p.packed)) (signed-Closed p.packed)

packed-Closed :
    (env : Env) (want_time : Bool) (k : Attrs) → ClosedOption (packed_constant env want_time k)
unfolding packed_constant
packed-Closed env want_time k = if_none _ _ (packed_value k.packed _)

parsed-Closed :
    (env : Env) (want_time : Bool) (k : Attrs) (s : Option Bytes)
    → ClosedOption (parsed_constant env want_time k s)
unfolding parsed_constant parsed_text
parsed-Closed env want_time k none = tt
parsed-Closed env want_time k (some s) = if_some _ _ (parsed_value (env.parse want_time s) _)

constant_of-Closed :
    (t : ResultType) (env : Env) (want_time : Bool) (k : Attrs)
    → ClosedOption (constant_of t env want_time k)
unfolding constant_of
constant_of-Closed time_result env want_time k = packed-Closed env want_time k
constant_of-Closed string_result env want_time k = parsed-Closed env want_time k k.val_str
constant_of-Closed _ env want_time k = tt

pub temporal_literal-Closed :
    (env : Env) (col k : Item) (h : Option FieldType) → ClosedOption (temporal_literal env col k h)
unfolding temporal_literal
temporal_literal-Closed env col k h =
    if_none _ _
      (constant_of-Closed (attrs_of k).cmp_type env (is_class (cls col) time_class) (attrs_of k))
