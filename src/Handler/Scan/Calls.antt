-- ===== src/Handler/Scan/Calls.antt =====
-- What a scan gives over all its calls: the rows that the filter keeps, in the cursor's order.
use stoolap_mariadb.Common.{
  ℕ, zero, suc, ◌≤◌, ◌<◌, ◌≡◌, arith, refl, ap, sym, ◌∙◌, ◌⊎◌, Bool, true, List, [], ◌∷◌, Option,
  none, some, Bytes, length, inl, inr,
}
use stoolap_mariadb.Common.Int.{ℤ}
use stoolap_mariadb.Handler.Schema.{Rc}
use stoolap_mariadb.Handler.Errors.{ErrorClass}
use stoolap_mariadb.Handler.Scan.{
  Fetched, fetched, stopped, RangeFilter, Scan, next_kept, enough, index_next, read_range_next,
  range_in_bounds, is_equal,
}
use stoolap_mariadb.Handler.Scan.Rows.{
  left, kept, answered, given, next_kept-kept, after_call, next_kept-filters,
}

-- The rows of up to `n` calls.
abbrev pub all_rows :
    {Row : Type 0} → (Scan Row → Option (Scan Row × Fetched Row)) → ℕ → Scan Row → List Row
all_rows next zero s = []
all_rows next (suc n) s = elim (next s) [
  | none ↦ []
  | some (s', r) ↦ elim r [ fetched x ↦ x ∷ all_rows next n s' | stopped rc ↦ [] ]
]

length-kept : {Row : Type 0} (keep : Row → Bool) (rs : List Row) → length (kept keep rs) ≤ length rs
length-kept keep [] = omega arith
length-kept keep (r ∷ rs) = ground (arith, length-kept keep rs)

module _ {Row : Type 0} (next : Scan Row → Option (Scan Row × Fetched Row)) where
  answer_cases :
      (r : Option (Scan Row × Fetched Row))
      → (r ≡ none)
        ⊎ ((s : Scan Row) × (x : Row) × (r ≡ some (s, fetched x)))
        ⊎ ((s : Scan Row) × (rc : Rc) × (r ≡ some (s, stopped rc)))
  answer_cases none = inl refl
  answer_cases (some (s, fetched x)) = inr (inl (s, x, refl))
  answer_cases (some (s, stopped rc)) = inr (inr (s, rc, refl))

  module _ (keep : Row → Bool) (P : Scan Row → Type 0)
      (gives : (s : Scan Row)
        → P s
        → (answered (next s) ≡ true) × (given keep (next s) ≡ kept keep (left s)))
      (stays : (s s' : Scan Row) (x : Row) → P s → next s ≡ some (s', fetched x) → P s') where
    all_rows-kept :
        (n : ℕ) (s : Scan Row)
        → P s
        → length (kept keep (left s)) < n
        → all_rows next n s ≡ kept keep (left s)
    all_rows-kept zero s p h = absurd (omega arith)
    all_rows-kept (suc n) s p h =
        let (a, g) = gives s p in
        elim (answer_cases (next s)) [
          | inl e ↦ absurd (ground arith)
          | inr (inl (s', x, e)) ↦
              let g' : x ∷ kept keep (left s') ≡ kept keep (left s) = ap (given keep) (sym e) ∙ g in
              let shorter : length (kept keep (left s')) < n = omega (arith, ap length g') in
              rw (all_rows, e) (ap (◌∷◌ x) (all_rows-kept n s' (stays s s' x p e) shorter) ∙ g')
          | inr (inr (s', rc, e)) ↦ rw (all_rows, e) (ap (given keep) (sym e) ∙ g)
        ]

module _ {Row : Type 0} (error_class : Bytes → ErrorClass × Option ℕ)
    (key_cmp compare_key : Bytes → Row → ℤ) where
  index_next-next_kept :
      (key : Bytes) (s : Scan Row)
      → s.key_filter ≡ some key
      → index_next error_class key_cmp compare_key s
        ≡ next_kept error_class (λ r. is_equal (key_cmp key r)) (enough s) s
  unfolding index_next
  index_next-next_kept key s f = ground arith

  read_range_next-next_kept :
      (range : RangeFilter) (s : Scan Row)
      → s.range_filter ≡ some range
      → read_range_next error_class key_cmp compare_key s
        ≡ next_kept error_class (range_in_bounds error_class key_cmp compare_key range) (enough s) s
  unfolding read_range_next
  read_range_next-next_kept range s f = ground arith

  -- Calls of index_next under a key filter give exactly the rows of the cursor whose key MariaDB
  -- finds equal, in the cursor's order, and each call returns.
  index_next_lem :
      (key : Bytes) (n : ℕ) (s : Scan Row)
      → s.key_filter ≡ some key
      → length (left s) < n
      → all_rows (index_next error_class key_cmp compare_key) n s
        ≡ kept (λ r. is_equal (key_cmp key r)) (left s)
  unfolding after_call
  index_next_lem key n s f h =
      let keep = λ (r : Row). is_equal (key_cmp key r) in
      all_rows-kept (index_next error_class key_cmp compare_key) keep (λ s. s.key_filter ≡ some key)
        (λ s p.
          rw (index_next-next_kept key s p)
            (next_kept-kept error_class keep (enough s) s (omega arith)))
        (λ s s' x p e.
          let same = ap (after_call error_class keep s) (sym (index_next-next_kept key s p) ∙ e) in
          sym (ap (λ t. t.key_filter) same)
          ∙ (next_kept-filters error_class keep (enough s) s).0
          ∙ p)
        n s f (omega (arith, length-kept keep (left s)))

  -- Calls of read_range_next under a range filter give exactly the rows of the cursor inside the
  -- range by MariaDB's comparison, in the cursor's order, whatever order that is.
  pub read_range_next_lem :
      (range : RangeFilter) (n : ℕ) (s : Scan Row)
      → s.range_filter ≡ some range
      → length (left s) < n
      → all_rows (read_range_next error_class key_cmp compare_key) n s
        ≡ kept (range_in_bounds error_class key_cmp compare_key range) (left s)
  unfolding after_call
  read_range_next_lem range n s f h =
      let keep = range_in_bounds error_class key_cmp compare_key range in
      all_rows-kept (read_range_next error_class key_cmp compare_key) keep
        (λ s. s.range_filter ≡ some range)
        (λ s p.
          rw (read_range_next-next_kept range s p)
            (next_kept-kept error_class keep (enough s) s (omega arith)))
        (λ s s' x p e.
          let same =
            ap (after_call error_class keep s) (sym (read_range_next-next_kept range s p) ∙ e) in
          sym (ap (λ t. t.range_filter) same)
          ∙ (next_kept-filters error_class keep (enough s) s).1
          ∙ p)
        n s f (omega (arith, length-kept keep (left s)))
