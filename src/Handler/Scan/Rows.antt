-- ===== src/Handler/Scan/Rows.antt =====
-- What one call of a filtered scan gives: the next row that the filter keeps.
use stoolap_mariadb.Common.{
  ℕ, zero, suc, ◌+◌, ◌<◌, ◌≡◌, arith, refl, Bool, true, false, not, List, [], ◌∷◌, Option, none,
  some, Bytes, if◌then◌else◌, length, Bool-cases, inl, inr,
}
use stoolap_mariadb.Handler.Errors.{ErrorClass}
use stoolap_mariadb.Handler.Scan.{
  Answer, row, finished, failure, Fetched, fetched, stopped, Scan, rnd_next, next_kept, take_answer,
}

module _ {Row : Type 0} where
  -- The rows that a cursor with these answers gives: up to its last row, its end or a failure.
  abbrev pub rows_of : List (Answer Row) → List Row
  rows_of [] = []
  rows_of (row r id last ∷ later) = r ∷ (if last then [] else rows_of later)
  rows_of (finished ∷ later) = []
  rows_of (failure err message ∷ later) = []

  abbrev pub left : Scan Row → List Row
  left s = if s.reading then rows_of s.pending else []

  abbrev pub kept : (Row → Bool) → List Row → List Row
  kept keep [] = []
  kept keep (r ∷ rs) = if keep r then r ∷ kept keep rs else kept keep rs

  abbrev pub answered : Option (Scan Row × Fetched Row) → Bool
  answered none = false
  answered (some _) = true

  -- The row that a call gives, and what is left after it of the rows that the filter keeps.
  abbrev pub given : (Row → Bool) → Option (Scan Row × Fetched Row) → List Row
  given keep none = []
  given keep (some (s', fetched r)) = r ∷ kept keep (left s')
  given keep (some (s', stopped rc)) = []

module _ {Row : Type 0} (error_class : Bytes → ErrorClass × Option ℕ) (keep : Row → Bool) where
  next_case :
      (fuel : ℕ) (s : Scan Row) (answers : List (Answer Row))
      → s.pending ≡ answers
      → s.reading ≡ true
      → length answers < suc fuel
      → ((s' : Scan Row)
          → length s'.pending < fuel
          → let later = next_kept error_class keep fuel s' in
            (answered later ≡ true) × (given keep later ≡ kept keep (left s')))
      → let r = next_kept error_class keep (suc fuel) s in
        (answered r ≡ true) × (given keep r ≡ kept keep (left s))
  unfolding next_kept rnd_next take_answer
  next_case fuel s [] p t h ih = ground arith
  next_case fuel s (finished ∷ later) p t h ih = ground arith
  next_case fuel s (failure err message ∷ later) p t h ih = ground arith
  next_case fuel s (row r id last ∷ later) p t h ih = ground (
    arith,
    ih
        (record s {
          pending = later;
          cur_row_id = id;
          cur_row_id_valid = true;
          read_rows = s.read_rows + 1;
          reading = not last;
        })
        (omega arith),
  )

  pub next_kept-kept :
      (fuel : ℕ) (s : Scan Row)
      → length s.pending < fuel
      → let r = next_kept error_class keep fuel s in
        (answered r ≡ true) × (given keep r ≡ kept keep (left s))
  unfolding next_kept rnd_next
  next_kept-kept zero s h = absurd (omega arith)
  next_kept-kept (suc fuel) s h = elim (Bool-cases s.reading) [
    | inl t ↦ next_case fuel s s.pending refl t h (next_kept-kept fuel)
    | inr f ↦ ground arith
  ]

  unfoldable pub after_call : Scan Row → Option (Scan Row × Fetched Row) → Scan Row
  after_call s none = s
  after_call s (some (s', r)) = s'

  filters_case :
      (s : Scan Row) (answers : List (Answer Row))
      → let s' = (take_answer error_class s answers).0 in
        (s'.key_filter ≡ s.key_filter) × (s'.range_filter ≡ s.range_filter)
  unfolding take_answer
  filters_case s [] = (refl, refl)
  filters_case s (finished ∷ later) = (refl, refl)
  filters_case s (failure err message ∷ later) = (refl, refl)
  filters_case s (row r id last ∷ later) = (refl, refl)

  rnd_next-filters :
      (s : Scan Row)
      → let s' = (rnd_next error_class s).0 in
        (s'.key_filter ≡ s.key_filter) × (s'.range_filter ≡ s.range_filter)
  unfolding rnd_next
  rnd_next-filters s = ground (arith, filters_case s s.pending)

  pub next_kept-filters :
      (fuel : ℕ) (s : Scan Row)
      → let s' = after_call s (next_kept error_class keep fuel s) in
        (s'.key_filter ≡ s.key_filter) × (s'.range_filter ≡ s.range_filter)
  unfolding next_kept after_call
  next_kept-filters zero s = (refl, refl)
  next_kept-filters (suc fuel) s =
      ground (arith, rnd_next-filters s, next_kept-filters fuel (rnd_next error_class s).0)
