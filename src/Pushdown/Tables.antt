-- ===== src/Pushdown/Tables.antt =====
-- every_table_is_stoolap of src/ha_stoolap_select.cc against the list of a statement's base tables.
use stoolap_mariadb.Common.{◌≡◌, refl, ap, sym, ◌∙◌, Bool, true, false, ◌&&◌, List, [], ◌∷◌, ◌++◌}
use stoolap_mariadb.Pushdown.Statement.{
  Select, Selects, Tables, Source, Query, Units, no_selects, leg, select, no_tables, entry,
  no_table, base, derived, query, no_units, inner,
}
use stoolap_mariadb.Pushdown.Guards.{
  walk_then, base_is_stoolap, every_table_is_stoolap, every_table_is_stoolap_impl,
  tables_are_stoolap, source_is_stoolap, query_is_stoolap, legs_are_stoolap, units_are_stoolap,
}

-- The base tables of a SELECT, of its derived tables and of its subqueries, at any depth: whether
-- each is stoolap's
unfoldable mutual
  pub base_tables : Select → List Bool
  base_tables (select i w h os gs xs ts us) = chain_tables ts ++ unit_tables us

  pub chain_tables : Tables → List Bool
  chain_tables no_tables = []
  chain_tables (entry on prep sj source nested ts) = source_tables source ++ chain_tables ts

  pub source_tables : Source → List Bool
  source_tables no_table = []
  source_tables (base stoolap) = stoolap ∷ []
  source_tables (derived q) = query_tables q

  pub query_tables : Query → List Bool
  query_tables (query distinct ss os gs) = leg_tables ss

  pub leg_tables : Selects → List Bool
  leg_tables no_selects = []
  leg_tables (leg s ss) = base_tables s ++ leg_tables ss

  pub unit_tables : Units → List Bool
  unit_tables no_units = []
  unit_tables (inner q us) = query_tables q ++ unit_tables us

verdict : List Bool → Bool → Bool × Bool
verdict [] any = (true, any)
verdict (false ∷ bs) any = (false, true)
verdict (true ∷ bs) any = verdict bs true

verdict-append :
    (bs cs : List Bool) (any : Bool)
    → verdict (bs ++ cs) any ≡ walk_then (verdict bs any) (λ a. verdict cs a)
unfolding verdict walk_then
verdict-append [] cs any = refl
verdict-append (false ∷ bs) cs any = refl
verdict-append (true ∷ bs) cs any = verdict-append bs cs true

walk_both :
    (r : Bool × Bool) (bs cs : List Bool) (any : Bool) (next : Bool → Bool × Bool)
    → r ≡ verdict bs any
    → ((a : Bool) → next a ≡ verdict cs a)
    → walk_then r next ≡ verdict (bs ++ cs) any
walk_both r bs cs any next e h =
    let same : next ≡ (λ a. verdict cs a) = λ i a. h a i in
    ap (λ x. walk_then x next) e
    ∙ ap (walk_then (verdict bs any)) same
    ∙ sym (verdict-append bs cs any)

mutual
  unfolding every_table_is_stoolap_impl base_tables verdict walk_then base_is_stoolap

  select_verdict :
      (s : Select) (any : Bool) → every_table_is_stoolap_impl s any ≡ verdict (base_tables s) any
  select_verdict (select i w h os gs xs ts us) any =
      walk_both (tables_are_stoolap ts any) (chain_tables ts) (unit_tables us) any
        (λ a. units_are_stoolap us a) (chain_verdict ts any) (λ a. units_verdict us a)

  chain_verdict :
      (ts : Tables) (any : Bool) → tables_are_stoolap ts any ≡ verdict (chain_tables ts) any
  chain_verdict no_tables any = refl
  chain_verdict (entry on prep sj source nested ts) any =
      walk_both (source_is_stoolap source any) (source_tables source) (chain_tables ts) any
        (λ a. tables_are_stoolap ts a) (source_verdict source any) (λ a. chain_verdict ts a)

  source_verdict :
      (s : Source) (any : Bool) → source_is_stoolap s any ≡ verdict (source_tables s) any
  source_verdict no_table any = refl
  source_verdict (base false) any = refl
  source_verdict (base true) any = refl
  source_verdict (derived q) any = query_verdict q any

  query_verdict : (q : Query) (any : Bool) → query_is_stoolap q any ≡ verdict (query_tables q) any
  query_verdict (query distinct ss os gs) any = legs_verdict ss any

  legs_verdict : (ss : Selects) (any : Bool) → legs_are_stoolap ss any ≡ verdict (leg_tables ss) any
  legs_verdict no_selects any = refl
  legs_verdict (leg s ss) any =
      walk_both (every_table_is_stoolap_impl s any) (base_tables s) (leg_tables ss) any
        (λ a. legs_are_stoolap ss a) (select_verdict s any) (λ a. legs_verdict ss a)

  units_verdict :
      (us : Units) (any : Bool) → units_are_stoolap us any ≡ verdict (unit_tables us) any
  units_verdict no_units any = refl
  units_verdict (inner q us) any =
      walk_both (query_is_stoolap q any) (query_tables q) (unit_tables us) any
        (λ a. units_are_stoolap us a) (query_verdict q any) (λ a. units_verdict us a)

abbrev pub all_true : List Bool → Bool
all_true [] = true
all_true (b ∷ bs) = b && all_true bs

verdict-all_true : (bs : List Bool) (any : Bool) → (verdict bs any).0 ≡ all_true bs
unfolding verdict
verdict-all_true [] any = refl
verdict-all_true (false ∷ bs) any = refl
verdict-all_true (true ∷ bs) any = verdict-all_true bs true

unfoldable pub some_table : List Bool → Bool
some_table [] = false
some_table (b ∷ bs) = true

keeps_any : (bs : List Bool) → (verdict bs true).1 ≡ true
unfolding verdict
keeps_any [] = refl
keeps_any (false ∷ bs) = refl
keeps_any (true ∷ bs) = keeps_any bs

verdict-some : (bs : List Bool) → (verdict bs false).1 ≡ some_table bs
unfolding verdict some_table
verdict-some [] = refl
verdict-some (false ∷ bs) = refl
verdict-some (true ∷ bs) = keeps_any bs

-- The walk that stops at the first foreign table answers as a look at all the base tables would, of
-- the SELECT, its derived tables and its subqueries at any depth: whether all are stoolap's, and
-- whether there is one.
pub every_table_is_stoolap_lem :
    (s : Select)
    → ((every_table_is_stoolap s).0 ≡ all_true (base_tables s))
      × ((every_table_is_stoolap s).1 ≡ some_table (base_tables s))
unfolding every_table_is_stoolap
every_table_is_stoolap_lem s = (
  ap (λ r. r.0) (select_verdict s false) ∙ verdict-all_true (base_tables s) false,
  ap (λ r. r.1) (select_verdict s false) ∙ verdict-some (base_tables s),
)
