-- ===== src/Pushdown/Run/Scan.antt =====
-- A scan of a pushed query's rows.
use stoolap_mariadb.Common.{
  ℕ, ◌+◌, ◌≤◌, ◌≡◌, arith, refl, Bool-cases, inl, inr, true, false, List, [], ◌∷◌, if◌then◌else◌,
}
use stoolap_mariadb.Handler.Schema.{Rc, is_ok, end_of_file, generic}
use stoolap_mariadb.Pushdown.Run.{Rows, RowAnswers, next_row, end_scan, fail_rows, next_answer}

-- How many errors the calls of next_row raise
unfoldable pub errors_raised : Rows → List RowAnswers → ℕ
errors_raised r [] = 0
errors_raised r (a ∷ later) =
    let (r', rc, raised) = next_row r a in (if raised then 1 else 0) + errors_raised r' later

-- The codes that the calls of next_row return
unfoldable pub codes_returned : Rows → List RowAnswers → List Rc
codes_returned r [] = []
codes_returned r (a ∷ later) = let (r', rc, raised) = next_row r a in rc ∷ codes_returned r' later

-- HA_ERR_END_OF_FILE of each call
abbrev pub only_ends : List RowAnswers → List Rc
only_ends [] = []
only_ends (a ∷ later) = end_of_file ∷ only_ends later

closed_scan :
    (r : Rows) (later : List RowAnswers)
    → r.cursor ≡ false
    → (errors_raised r later ≡ 0) × (codes_returned r later ≡ only_ends later)
unfolding errors_raised codes_returned next_row
closed_scan r [] h = (refl, refl)
closed_scan r (a ∷ later) h =
    let (none_raised, all_ends) = closed_scan r later h in
    (ground (arith, none_raised), ground (arith, all_ends))

one_step :
    (r : Rows) (a : RowAnswers)
    → (next_row r a).2 ≡ true
    → ((next_row r a).0.cursor ≡ false) × ((next_row r a).1 ≡ generic)
unfolding next_row fail_rows next_answer is_ok
one_step r a h = ground arith

at_most_one : (r : Rows) (later : List RowAnswers) → errors_raised r later ≤ 1
unfolding errors_raised
at_most_one r [] = omega arith
at_most_one r (a ∷ later) = elim (Bool-cases (next_row r a).2) [
  | inl raised ↦
      let closed = (closed_scan (next_row r a).0 later (one_step r a raised).0).0 in
      ground (arith, raised, closed)
  | inr quiet ↦ let rest = at_most_one (next_row r a).0 later in ground (arith, quiet, rest)
]

-- A scan raises at most one error, whatever the cursor answers. The call that raises it returns
-- HA_ERR_GENERIC and leaves no cursor, and every call after it returns HA_ERR_END_OF_FILE and raises
-- none, as after end_scan.
pub next_row-raises_once :
    (r : Rows) (a : RowAnswers) (later : List RowAnswers)
    → let (r', rc, raised) = next_row r a in
      (errors_raised r (a ∷ later) ≤ 1)
      × (raised ≡ true
          → (rc ≡ generic)
            × (r'.cursor ≡ false)
            × (errors_raised r' later ≡ 0)
            × (codes_returned r' later ≡ only_ends later))
      × (errors_raised (end_scan r).0 later ≡ 0)
      × (codes_returned (end_scan r).0 later ≡ only_ends later)
unfolding end_scan
next_row-raises_once r a later =
    let ended = closed_scan (end_scan r).0 later refl in
    (
      at_most_one r (a ∷ later),
      (λ t.
          let (gone, rc) = one_step r a t in
          let closed = closed_scan (next_row r a).0 later gone in (rc, gone, closed.0, closed.1)),
      ended.0,
      ended.1,
    )
