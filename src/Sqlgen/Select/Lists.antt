-- ===== src/Sqlgen/Select/Lists.antt =====
-- What is written for a join list is closed, and so are the WHEREs of the derived tables merged in it.
use stoolap_mariadb.Common.{
  refl, Bool, true, false, List, [], ◌∷◌, ◌++◌, Option, none, some, Bytes, if◌then◌else◌,
}
use stoolap_mariadb.Sqlgen.Gen.{Gen}
use stoolap_mariadb.Sqlgen.Lexer.{Closed-of, Closed-append, lex}
use stoolap_mariadb.Sqlgen.Safe.{
  Yields, Yields-pure, Yields-fail, Yields-bind, Yields-require, Yields-if,
}
use stoolap_mariadb.Sqlgen.Funcs.{Arg}
use stoolap_mariadb.Sqlgen.Funcs.Safe.{AllSafe}
use stoolap_mariadb.Sqlgen.Sums.Safe.{OptionSafe}
use stoolap_mariadb.Sqlgen.Select.{
  SourceCode, Entry, stored, nested, derived, on_text, plain_entry, opening_group, join_entry,
  join_entries, backwards, join_list,
}
use stoolap_mariadb.Sqlgen.Select.Joins.{
  JoinOk, RefOk, SourceSafe, EntriesSafe, table_ref-Yields, join_word-Closed, on_part,
}

pub AllSafe-append : (xs ys : List Arg) → AllSafe xs → AllSafe ys → AllSafe (xs ++ ys)
AllSafe-append [] ys hx hy = hy
AllSafe-append (x ∷ xs) ys hx hy = (hx.0, AllSafe-append xs ys hx.1 hy)

plain_entry-Yields :
    (first : Bool) (e : Entry)
    → OptionSafe e.on
    → SourceSafe e.source
    → Yields JoinOk (plain_entry first e)
unfolding plain_entry on_text
plain_entry-Yields first e ho hs =
    Yields-bind RefOk JoinOk _ _ (table_ref-Yields e.info e.source hs) λ table ht.
      Yields-bind JoinOk JoinOk _ _ (on_part first e.info.outer e.on table.1 ho ht.1) λ on hon.
        Yields-pure JoinOk _ (
          Closed-append _ _ (join_word-Closed first e) (Closed-append table.0 on.0 ht.0 hon.0),
          hon.1,
        )

group_part :
    (e : Entry) (join : Gen (Bytes × List Arg)) (on : Option Arg)
    → Yields JoinOk (plain_entry true e)
    → Yields JoinOk join
    → Yields JoinOk (elim on as (λ x. Gen (Bytes × List Arg)) [
      | none ↦ if e.info.outer then plain_entry true e else join
      | some c ↦ plain_entry true e
    ])
group_part e join none hp hj = Yields-if JoinOk e.info.outer _ _ hp hj
group_part e join (some c) hp hj = hp

opening_group-Yields :
    (first : Bool) (e : Entry) (s : SourceCode)
    → Yields JoinOk (plain_entry first e)
    → SourceSafe s
    → Yields JoinOk (opening_group first e s)
unfolding opening_group
opening_group-Yields true e (nested join) hp hs = group_part e join e.on hp hs
opening_group-Yields true e (stored name) hp hs = hp
opening_group-Yields true e (derived m unit columns names) hp hs = hp
opening_group-Yields false e (nested join) hp hs = hp
opening_group-Yields false e (stored name) hp hs = hp
opening_group-Yields false e (derived m unit columns names) hp hs = hp

join_entry-Yields :
    (first : Bool) (e : Entry)
    → OptionSafe e.on
    → SourceSafe e.source
    → Yields JoinOk (join_entry first e)
unfolding join_entry
join_entry-Yields first e ho hs = Yields-require JoinOk _ _ _ (
    Yields-require JoinOk _ _ _
      (opening_group-Yields first e e.source (plain_entry-Yields first e ho hs) hs))

join_entries-Yields :
    (first : Bool) (es : List Entry) → EntriesSafe es → Yields JoinOk (join_entries first es)
unfolding join_entries lex
join_entries-Yields first [] all = Yields-pure JoinOk ([], []) (Closed-of [] refl, tt)
join_entries-Yields first (e ∷ es) all =
    Yields-bind JoinOk JoinOk _ _ (join_entry-Yields first e all.0.0 all.0.1) λ one h.
      Yields-bind JoinOk JoinOk _ _ (join_entries-Yields false es all.1) λ rest hr.
        Yields-pure JoinOk _
          (Closed-append one.0 rest.0 h.0 hr.0, AllSafe-append one.1 rest.1 h.1 hr.1)

backwards-EntriesSafe :
    (es done : List Entry) → EntriesSafe es → EntriesSafe done → EntriesSafe (backwards es done)
unfolding backwards
backwards-EntriesSafe [] done he hd = hd
backwards-EntriesSafe (e ∷ es) done he hd = backwards-EntriesSafe es (e ∷ done) he.1 (he.0, hd)

pub join_list-Yields : (es : List Entry) → EntriesSafe es → Yields JoinOk (join_list es)
unfolding join_list
join_list-Yields [] all = Yields-fail JoinOk _
join_list-Yields (e ∷ es) all =
    join_entries-Yields true _ (backwards-EntriesSafe (e ∷ es) [] all tt)
