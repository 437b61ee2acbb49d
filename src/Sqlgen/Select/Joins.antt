-- ===== src/Sqlgen/Select/Joins.antt =====
-- What is written for the tables of a FROM is closed where it is for their conditions and for the
-- query expressions of derived tables.
use stoolap_mariadb.Common.{
  ℕ, ◌≡◌, ◌==◌, refl, arith, inl, Bool, true, false, not, List, [], ◌∷◌, Option, none, some, Bytes,
  codes, if◌then◌else◌,
}
use stoolap_mariadb.Handler.Savepoints.{decimal}
use stoolap_mariadb.Sqlgen.Items.{TableInfo}
use stoolap_mariadb.Sqlgen.Gen.{
  State, Gen, ◌>>=◌, pure, require, within, ◌⊕◌, wrote, ident, name_quote,
}
use stoolap_mariadb.Sqlgen.Lexer.{
  Closed, Closed-of, Closed-append, decimal-Closed, ident-Closed, lex, step,
}
use stoolap_mariadb.Sqlgen.Safe.{
  AllClosed, IsNumbered, IsGood, Fine, Yields, Yields-pure, Yields-fail, Yields-bind,
  Yields-require, Safe, Safe-fail, Safe-emit, Safe-emit_closed, ◌▸◌, Safe-within, Closed-if,
}
use stoolap_mariadb.Sqlgen.Funcs.{Arg, condition}
use stoolap_mariadb.Sqlgen.Funcs.Safe.{AllSafe, condition-Safe}
use stoolap_mariadb.Sqlgen.Sums.Safe.{OptionSafe}
use stoolap_mariadb.Sqlgen.Select.{
  Names, Merge, SourceCode, Entry, stored, nested, derived, new_alias, view_columns, add_views,
  set_views, derived_text, derived_columns, base_ref, merge_now, table_ref, join_word, merged_on,
  wheres_of,
}

abbrev pub JoinOk : Bytes × List Arg → Type 0
JoinOk p = Closed p.0 × AllSafe p.1

abbrev pub RefOk : Bytes × Option Arg → Type 0
RefOk p = Closed p.0 × OptionSafe p.1

abbrev pub MergeSafe : Option Merge → Type 0
MergeSafe none = Unit
MergeSafe (some m) = OptionSafe m.where_cond

abbrev pub SourceSafe : SourceCode → Type 0
SourceSafe (stored name) = Unit
SourceSafe (nested join) = Yields JoinOk join
SourceSafe (derived m unit columns names) = MergeSafe m × ((asked : Names) → Safe (unit asked))

abbrev pub EntriesSafe : List Entry → Type 0
EntriesSafe [] = Unit
EntriesSafe (e ∷ es) = (OptionSafe e.on × SourceSafe e.source) × EntriesSafe es

new_alias-Safe :
    (table letter : ℕ)
    → (letter == name_quote) ≡ false
    → Closed (letter ∷ [])
    → Safe (new_alias table (letter ∷ []))
unfolding new_alias
new_alias-Safe table letter plain h = record {
  run = λ s good.
      let alias : Closed (letter ∷ decimal s.next_alias) =
        Closed-append (letter ∷ []) (decimal s.next_alias) h (decimal-Closed s.next_alias) in
      let numbered : IsNumbered (letter ∷ decimal s.next_alias) s.next_alias = record {
        letter = letter;
        plain = plain;
        written = refl;
      } in
      (
        alias,
        record {
          aliases = (alias, good.aliases);
          numbers = inl (s.next_alias, omega arith, numbered, good.numbers);
          views = good.views;
        },
      );
}

view_columns-AllClosed :
    (alias : Bytes) (columns : List (Bytes × ℕ))
    → Closed alias
    → AllClosed (view_columns alias columns)
unfolding view_columns lex step
view_columns-AllClosed alias [] h = tt
view_columns-AllClosed alias ((name, at) ∷ rest) h = (
  Closed-append alias _ h (Closed-append (codes ".") _ (Closed-of _ refl) (ident-Closed name)),
  view_columns-AllClosed alias rest h,
)

add_views-AllClosed :
    (new old : List (ℕ × Bytes)) → AllClosed new → AllClosed old → AllClosed (add_views new old)
unfolding add_views
add_views-AllClosed [] old hn ho = ho
add_views-AllClosed ((k, t) ∷ vs) old hn ho = add_views-AllClosed vs ((k, t) ∷ old) hn.1 (hn.0, ho)

set_views-Safe :
    (alias : Bytes) (columns : List (Bytes × ℕ)) → Closed alias → Safe (set_views alias columns)
unfolding set_views lex
set_views-Safe alias columns h = record {
  run = λ s good. (
    Closed-of [] refl,
    record {
      aliases = good.aliases;
      numbers = good.numbers;
      views = add_views-AllClosed _ s.view_cols (view_columns-AllClosed alias columns h) good.views;
    },
  );
}

derived_text-Safe :
    (alias : Bytes) {body : Gen Bytes} → Closed alias → Safe body → Safe (derived_text alias body)
unfolding derived_text lex step
derived_text-Safe alias h hb =
    Safe-within _ _ refl refl hb
    ▸ Safe-emit_closed (Closed-append (codes " AS ") alias (Closed-of _ refl) h)

derived_columns-Safe :
    (unit : Names → Gen Bytes) (alias : Bytes) (columns : Option (List (Bytes × ℕ))) (names : Names)
    → ((asked : Names) → Safe (unit asked))
    → Closed alias
    → Safe (derived_columns unit alias columns names)
unfolding derived_columns
derived_columns-Safe unit alias (some columns) names hu h =
    set_views-Safe alias columns h ▸ derived_text-Safe alias h (hu _)
derived_columns-Safe unit alias none (some names) hu h = derived_text-Safe alias h (hu _)
derived_columns-Safe unit alias none none hu h = Safe-fail _

base_ref-Safe : (table : ℕ) (name : Option Bytes) → Safe (base_ref table name)
unfolding base_ref lex step
base_ref-Safe table none = Safe-fail _
base_ref-Safe table (some name) =
    Yields-bind Closed Closed _ _ (new_alias-Safe table b't' refl (Closed-of _ refl)) λ alias h.
      Safe-emit_closed (
        Closed-append (ident name) _ (ident-Closed name)
          (Closed-append (codes " AS ") alias (Closed-of _ refl) h))

merge_now-Yields :
    (t : TableInfo) (m : Option Merge) → MergeSafe m → Yields MergeSafe (merge_now t m)
unfolding merge_now
merge_now-Yields t none h = record { run = λ s good. (tt, good) }
merge_now-Yields t (some m) h = record { run = λ s good. merge_if _ m s h good }
  where
    merge_if :
        (test : Bool) (m : Merge) (s : State)
        → MergeSafe (some m)
        → IsGood s
        → Fine MergeSafe (if test then wrote none s else wrote (some m) s)
    merge_if true m s h good = (tt, good)
    merge_if false m s h good = (h, good)

merged_ref :
    (t : TableInfo) (unit : Names → Gen Bytes) (columns : Option (List (Bytes × ℕ))) (names : Names)
    (found : Option Merge)
    → ((asked : Names) → Safe (unit asked))
    → MergeSafe found
    → Yields RefOk (elim found as (λ x. Gen (Bytes × Option Arg)) [
      | some m' ↦ do text ← base_ref m'.base (some m'.name); pure (text, m'.where_cond)
      | none ↦ do
        alias ← new_alias t.address (codes "d")
        text ← derived_columns unit alias columns names
        pure (text, none)
    ])
unfolding lex step
merged_ref t unit columns names (some m) hu h =
    Yields-bind Closed RefOk _ _ (base_ref-Safe m.base (some m.name))
      λ text c. Yields-pure RefOk (text, m.where_cond) (c, h)
merged_ref t unit columns names none hu h =
    Yields-bind Closed RefOk _ _ (new_alias-Safe t.address b'd' refl (Closed-of _ refl)) λ alias ca.
      Yields-bind Closed RefOk _ _ (derived_columns-Safe unit alias columns names hu ca)
        λ text c. Yields-pure RefOk (text, none) (c, tt)

pub table_ref-Yields :
    (t : TableInfo) (s : SourceCode) → SourceSafe s → Yields RefOk (table_ref t s)
unfolding table_ref
table_ref-Yields t (stored name) h =
    Yields-bind Closed RefOk _ _ (base_ref-Safe t.address name)
      λ text c. Yields-pure RefOk (text, none) (c, tt)
table_ref-Yields t (nested join) h = Yields-fail RefOk _
table_ref-Yields t (derived m unit columns names) h =
    Yields-bind MergeSafe RefOk _ _ (merge_now-Yields t m h.0)
      λ found hf. merged_ref t unit columns names found h.1 hf

pub join_word-Closed : (first : Bool) (e : Entry) → Closed (join_word first e)
unfolding join_word lex step
join_word-Closed first e =
    Closed-if first (Closed-of [] refl)
      (Closed-if e.info.outer (Closed-of _ refl) (cross_or_on e.on))
  where
    cross_or_on :
        (on : Option Arg)
        → Closed (elim on as (λ x. Bytes) [ none ↦ codes " CROSS JOIN " | some c ↦ codes " JOIN " ])
    cross_or_on none = Closed-of _ refl
    cross_or_on (some c) = Closed-of _ refl

merged_on-Safe : (m : Option Arg) → OptionSafe m → Safe (merged_on m)
unfolding merged_on lex step
merged_on-Safe none h = Safe-emit [] refl
merged_on-Safe (some c) h = Safe-within _ _ refl refl (condition-Safe c h)

pub wheres_of-AllSafe : (m : Option Arg) → OptionSafe m → AllSafe (wheres_of m)
unfolding wheres_of
wheres_of-AllSafe none h = tt
wheres_of-AllSafe (some c) h = (h, tt)

pub on_part :
    (first outer : Bool) (on m : Option Arg)
    → OptionSafe on
    → OptionSafe m
    → Yields JoinOk (elim on as (λ x. Gen (Bytes × List Arg)) [
      | some c ↦ require (not first) "ON on first table" (do
        text ← within (codes " ON (") (codes ")") (condition c) ⊕ merged_on m
        pure (text, []))
      | none ↦ require (not outer) "outer join without ON" (pure ([], wheres_of m))
    ])
unfolding lex step
on_part first outer none m ho hm =
    Yields-require JoinOk _ _ _
      (Yields-pure JoinOk ([], wheres_of m) (Closed-of [] refl, wheres_of-AllSafe m hm))
on_part first outer (some c) m ho hm = Yields-require JoinOk _ _ _ (
    Yields-bind Closed JoinOk _ _
      (Safe-within _ _ refl refl (condition-Safe c ho) ▸ merged_on-Safe m hm)
      λ text h. Yields-pure JoinOk (text, []) (h, tt))
