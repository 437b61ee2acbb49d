-- ===== src/Handler/Estimates.antt =====
-- What src/ha_stoolap.cc tells MariaDB's optimizer of a read on an index: records_in_range, scan_time
-- and keyread_time. `rec_per_key` is KEY::actual_rec_per_key(0): none unless it is above 0, else its
-- whole part. A cost is counted in halves, which are whole: scan_time halves a number of rows, and
-- the two parts of a cost are equal. A double is exact on the halves below 2 ^ 53.
use stoolap_mariadb.Common.{
  ℕ, zero, suc, inl, inr, Option-cases, ◌*◌, ◌/◌, ◌≡◌, ◌≤◌, ◌<◌, arith, Bool, true, false, not,
  ◌&&◌, ◌||◌, List, [], ◌∷◌, Option, none, some, Bytes, ltb, ◌==◌, if◌then◌else◌, get_elem?,
}
use stoolap_mariadb.Types.{Field, CharSet, is_string_type}
use stoolap_mariadb.Handler.Schema.{KeyPart, Key}
use stoolap_mariadb.Handler.Counts.{Handler, cached_records}
use stoolap_mariadb.Handler.Scan.{FindFlag, key_exact, after_key}
use stoolap_mariadb.Handler.Range.{KeyRange}
use stoolap_mariadb.ThdContext.{Begun}

folds : Option CharSet → Bool
folds none = false
folds (some cs) = not cs.binsort

-- A string whose collation does not order by bytes
unfoldable pub ci_field : Field → Bool
unfolding folds
ci_field f = if is_string_type f.real_type then folds f.charset else false

ci_parts : List KeyPart → Bool
ci_parts [] = false
ci_parts (kp ∷ kps) = ci_field kp.field || ci_parts kps

-- The same key parts, a mask's missing bits being 0
same_map : List Bool → List Bool → Bool
same_map [] [] = true
same_map (x ∷ xs) [] = not x && same_map xs []
same_map [] (y ∷ ys) = not y && same_map [] ys
same_map (x ∷ xs) (y ∷ ys) = (if x then y else not y) && same_map xs ys

is_key_exact : FindFlag → Bool
is_key_exact key_exact = true
is_key_exact _ = false

is_after_key : FindFlag → Bool
is_after_key after_key = true
is_after_key _ = false

both : (KeyRange → KeyRange → Bool) → Option KeyRange → Option KeyRange → Bool
both test (some lo) (some hi) = test lo hi
both test _ _ = false

one_key : Option KeyRange → Option KeyRange → Bool
unfolding both same_map is_key_exact is_after_key
one_key = both (λ lo hi. same_map lo.map hi.map && is_key_exact lo.flag && is_after_key hi.flag)

by_shape : ℕ → Option KeyRange → Option KeyRange → ℕ
unfolding both is_key_exact
by_shape total lo hi =
    let exact = both (λ l h. is_key_exact l.flag) lo hi in
    let tight = both (λ l h. true) lo hi && not exact in
    let est = if exact then total / 1000 else if tight then total / 100 else total / 10 in
    if ltb est 10 then 10 else est

at_least_a_row : ℕ → ℕ
at_least_a_row n = if n == 0 then 1 else n

estimate : Bool → Option ℕ → Key → ℕ → Option KeyRange → Option KeyRange → ℕ
unfolding ci_parts one_key by_shape
estimate trust_bin rec_per_key k total lo hi =
    if not trust_bin && ci_parts k.parts
    then total
    else if one_key lo hi && k.no_same
    then 1
    else elim rec_per_key [ some n ↦ n | none ↦ by_shape total lo hi ]

-- The handler after cached_records, with the estimate
unfoldable pub records_in_range :
    Bool
    → (Key → Option ℕ)
    → List Key
    → Handler
    → Option ℕ
    → Begun
    → Option Bytes
    → ℕ
    → Option KeyRange
    → Option KeyRange
    → Handler × ℕ
unfolding estimate at_least_a_row
records_in_range trust_bin rec_per_key keys h clone answer packet inx lo hi =
    elim (get_elem? keys inx) [
      | none ↦ (h, 10)
      | some k ↦
          let (h', cached_total) = cached_records h clone answer packet in
          (h', estimate trust_bin (rec_per_key k) k (at_least_a_row cached_total) lo hi)
    ]

unfoldable pub scan_time : Handler → ℕ
unfolding at_least_a_row
scan_time h = at_least_a_row h.stats_records

-- The handler's base class answers for so many rows, or the cost is given in halves.
pub data KeyreadTime : Type 0 where
  base_class : ℕ → KeyreadTime
  halves : ℕ → KeyreadTime

keyread_of : Bool → Handler → Option Key → ℕ → KeyreadTime
unfolding ci_parts at_least_a_row
keyread_of trust_bin h none ranges = base_class h.stats_records
keyread_of trust_bin h (some k) ranges =
    if trust_bin || not (ci_parts k.parts)
    then base_class h.stats_records
    else halves (scan_time h * at_least_a_row ranges)

unfoldable pub keyread_time : Bool → List Key → Handler → ℕ → ℕ → KeyreadTime
unfolding keyread_of
keyread_time trust_bin keys h index ranges = keyread_of trust_bin h (get_elem? keys index) ranges

ci_parts-at :
    (kps : List KeyPart) (i : ℕ) (kp : KeyPart)
    → get_elem? kps i ≡ some kp
    → ci_field kp.field ≡ true
    → ci_parts kps ≡ true
unfolding ci_parts
ci_parts-at [] i kp g c = ground arith
ci_parts-at (k ∷ kps) zero kp g c = ground arith
ci_parts-at (k ∷ kps) (suc i) kp g c = ground (arith, ci_parts-at kps i kp g c)

-- Without trust_binary_strings, an index with a part whose collation folds values is never cheaper
-- than a scan to the optimizer: whatever the bounds, records_in_range gives the count of the table's
-- rows, 1 for none, and keyread_time asks the cost of a scan for each range, one for none.
pub records_in_range-keyread_time :
    (rec_per_key : Key → Option ℕ) (keys : List Key) (h : Handler) (clone : Option ℕ)
    (answer : Begun) (packet : Option Bytes) (inx i ranges : ℕ) (k : Key) (kp : KeyPart)
    (lo hi : Option KeyRange)
    → get_elem? keys inx ≡ some k
    → get_elem? k.parts i ≡ some kp
    → ci_field kp.field ≡ true
    → let rows = (cached_records h clone answer packet).1 in
      let asked = records_in_range false rec_per_key keys h clone answer packet inx lo hi in
      (asked.1 ≡ (if rows == 0 then 1 else rows))
      × (keyread_time false keys h inx ranges
          ≡ halves (scan_time h * (if ranges == 0 then 1 else ranges)))
unfolding records_in_range estimate keyread_time keyread_of at_least_a_row
records_in_range-keyread_time rec_per_key keys h clone answer packet inx i ranges k kp lo hi at part
      ci =
    let some_ci : ci_parts k.parts ≡ true = ci_parts-at k.parts i kp part ci in
    (ground arith, ground arith)

estimate-bounds :
    (trust_bin : Bool) (k : Key) (rows : ℕ) (lo hi : Option KeyRange)
    → let e = estimate trust_bin none k (at_least_a_row rows) lo hi in (1 ≤ e) × (rows < e → e ≤ 10)
unfolding estimate by_shape at_least_a_row
estimate-bounds trust_bin k rows lo hi = ground arith

-- Where no key has a count of rows per value, the estimate is never 0, whatever the key, its bounds
-- and its collations, and an estimate above the count of the table's rows is at most 10.
pub records_in_range-bounds :
    (keys : List Key) (h : Handler) (clone : Option ℕ) (answer : Begun) (packet : Option Bytes)
    (trust_bin : Bool) (inx : ℕ) (lo hi : Option KeyRange)
    → let rows = (cached_records h clone answer packet).1 in
      let asked = records_in_range trust_bin (λ k. none) keys h clone answer packet inx lo hi in
      (1 ≤ asked.1) × (rows < asked.1 → asked.1 ≤ 10)
unfolding records_in_range
records_in_range-bounds keys h clone answer packet trust_bin inx lo hi =
    elim (Option-cases (get_elem? keys inx)) [
      | inl missing ↦ ground arith
      | inr (k, at) ↦
          let e = estimate-bounds trust_bin k (cached_records h clone answer packet).1 lo hi in
          ground (arith, e.0, e.1)
    ]
