-- ===== src/Handler/Range/Order.antt =====
-- The order of a filtered range: the columns that it leaves out do not matter.
use stoolap_mariadb.Common.{
  ℕ, suc, ◌+◌, ◌≡◌, arith, refl, Bool, true, ◌||◌, List, [], ◌∷◌, Option, some, ltb, if◌then◌else◌,
  get_elem?,
}
use stoolap_mariadb.Handler.Schema.{KeyPart, Key}
use stoolap_mariadb.Handler.Keys.{index_flags}
use stoolap_mariadb.Handler.Scan.{RangeFilter}
use stoolap_mariadb.Handler.IndexRead.{ReadPlan, bit}
use stoolap_mariadb.Handler.IndexRead.Order.{Cmp, equal, lex, shifted, shifted_zero, from_zero}
use stoolap_mariadb.Handler.Range.{
  KeyRange, filtered, read_range_filtered_plan, const_prefix, filtered_order,
}

-- One value to MariaDB in the whole range: the bounds agree on it, or the WHERE fixes it.
abbrev pub constant : ℕ → List Bool → ℕ → Bool
constant consts where_const i = ltb i consts || bit where_const i

-- The columns of the parts up to the first that is not constant and that index_flags offers no
-- order on.
abbrev pub ordered_fields : ℕ → ℕ → List Bool → List KeyPart → List ℕ
ordered_fields i consts where_const [] = []
ordered_fields i consts where_const (kp ∷ kps) =
    if constant consts where_const i || index_flags kp
    then kp.field.field_index ∷ ordered_fields (suc i) consts where_const kps
    else []

filtered_order-lex :
    (cmp : ℕ → Cmp) (i consts : ℕ) (where_const : List Bool) (kps : List KeyPart)
    → ((j : ℕ) (kp : KeyPart)
        → get_elem? kps j ≡ some kp
        → constant consts where_const (i + j) ≡ true
        → cmp kp.field.field_index ≡ equal)
    → lex cmp (filtered_order i consts where_const kps)
      ≡ lex cmp (ordered_fields i consts where_const kps)
unfolding filtered_order
filtered_order-lex cmp i consts where_const [] h = refl
filtered_order-lex cmp i consts where_const (kp ∷ kps) h =
    let later =
      filtered_order-lex cmp (suc i) consts where_const kps
        λ j kp' e t. h (suc j) kp' e (rw (shifted i j) t) in
    let here : constant consts where_const i ≡ true → cmp kp.field.field_index ≡ equal =
      λ t. h 0 kp refl (rw (shifted_zero i) t) in
    ground (arith, later, here)

-- For two rows that compare equal on the constant parts, the columns that a sorted filtered range is
-- ordered by compare them as the key does, up to the first part on which no order is promised.
pub read_range_filtered_plan-order :
    (trust_bin : Bool) (where_const : List Bool) (ki : Key) (start end : Option KeyRange)
    (p : ReadPlan) (f : RangeFilter) (cmp : ℕ → Cmp)
    → read_range_filtered_plan trust_bin where_const ki start end true ≡ filtered p f
    → ((j : ℕ) (kp : KeyPart)
        → get_elem? ki.parts j ≡ some kp
        → constant (const_prefix ki start end) where_const j ≡ true
        → cmp kp.field.field_index ≡ equal)
    → lex cmp p.order ≡ lex cmp (ordered_fields 0 (const_prefix ki start end) where_const ki.parts)
unfolding read_range_filtered_plan
read_range_filtered_plan-order trust_bin where_const ki start end p f cmp e h =
    let consts = const_prefix ki start end in
    let at : p.order ≡ filtered_order 0 consts where_const ki.parts = ground arith in
    rw at (
      filtered_order-lex cmp 0 consts where_const ki.parts
        (λ j kp g t. h j kp g (rw (from_zero j) at t)))
