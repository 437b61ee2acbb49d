-- ===== src/Handler/IndexRead/Order.antt =====
-- The order of an index read: the columns that it leaves out do not matter.
use stoolap_mariadb.Common.{
  ℕ, suc, ◌+◌, ◌≡◌, arith, refl, Bool, true, false, ◌&&◌, ◌||◌, List, [], ◌∷◌, some, Bytes, ltb,
  ◌==◌, length, get_elem?,
}
use stoolap_mariadb.Handler.Schema.{KeyPart, Key}
use stoolap_mariadb.Handler.Scan.{FindFlag}
use stoolap_mariadb.Handler.IndexRead.{
  KeyBound, ReadPlan, reads, index_read_map_plan, planned, plan_parts, order_from, all_fields, bit,
  is_eq, is_exact,
}

-- How two rows compare on one column.
pub data Cmp : Type 0 where
  less equal greater : Cmp

-- How they compare on a list of columns, the first that tells them apart deciding.
abbrev pub lex : (ℕ → Cmp) → List ℕ → Cmp
lex cmp [] = equal
lex cmp (f ∷ fs) = elim (cmp f) [ less ↦ less | equal ↦ lex cmp fs | greater ↦ greater ]

-- Two rows compare equal on the part: MariaDB filters it by equality, or the bound fixes it.
abbrev pub fixed_part : ℕ → Bool → List Bool → ℕ → Bool
fixed_part nparts last_eq filter i =
    bit filter i || ltb (i + 1) nparts || ((i + 1 == nparts) && last_eq)

pub shifted : (i j : ℕ) → i + suc j ≡ suc i + j
shifted i j = omega arith

pub from_zero : (j : ℕ) → 0 + j ≡ j
from_zero j = omega arith

pub shifted_zero : (i : ℕ) → i + 0 ≡ i
shifted_zero i = omega arith

order_from-lex :
    (cmp : ℕ → Cmp) (i nparts : ℕ) (last_eq : Bool) (filter : List Bool) (kps : List KeyPart)
    → ((j : ℕ) (kp : KeyPart)
        → get_elem? kps j ≡ some kp
        → fixed_part nparts last_eq filter (i + j) ≡ true
        → cmp kp.field.field_index ≡ equal)
    → lex cmp (order_from i nparts last_eq filter kps) ≡ lex cmp (all_fields kps)
unfolding order_from
order_from-lex cmp i nparts last_eq filter [] h = refl
order_from-lex cmp i nparts last_eq filter (kp ∷ kps) h =
    let later =
      order_from-lex cmp (suc i) nparts last_eq filter kps
        λ j kp' e t. h (suc j) kp' e (rw (shifted i j) t) in
    let here : fixed_part nparts last_eq filter i ≡ true → cmp kp.field.field_index ≡ equal =
      λ t. h 0 kp refl (rw (shifted_zero i) t) in
    ground (arith, later, here)

-- For two rows that compare equal on the parts that the read's bound fixes by '=' or that MariaDB
-- filters, the columns that the read is ordered by compare them as the whole key does.
pub index_read_map_plan-order :
    (trust_bin sorted : Bool) (ki : Key) (key : Bytes) (map : List Bool) (flag : FindFlag)
    (p : ReadPlan) (b : KeyBound) (cmp : ℕ → Cmp)
    → index_read_map_plan trust_bin sorted ki key map flag ≡ reads p
    → p.bounds ≡ b ∷ []
    → (sorted || p.desc) ≡ true
    → (is_exact flag && (b.nparts == length ki.parts) && ki.no_same) ≡ false
    → ((j : ℕ) (kp : KeyPart)
        → get_elem? ki.parts j ≡ some kp
        → fixed_part b.nparts (is_eq b.op) b.skip j ≡ true
        → cmp kp.field.field_index ≡ equal)
    → lex cmp p.order ≡ lex cmp (all_fields ki.parts)
unfolding index_read_map_plan plan_parts planned
index_read_map_plan-order trust_bin sorted ki key map flag p b cmp e eb w u h =
    let at : p.order ≡ order_from 0 b.nparts (is_eq b.op) b.skip ki.parts = ground arith in
    rw at (
      order_from-lex cmp 0 b.nparts (is_eq b.op) b.skip ki.parts
        (λ j kp g t. h j kp g (rw (from_zero j) at t)))
