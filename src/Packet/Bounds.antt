-- ===== src/Packet/Bounds.antt =====
-- No read of the packed format leaves its buffer, whatever the bytes are.
use stoolap_mariadb.Common.{
  ℕ, zero, suc, ◌+◌, ◌*◌, ◌^◌, ◌≤◌, ◌<◌, ◌≡◌, ◌≢◌, arith, refl, Bool, true, false, List, [], ◌∷◌,
  some, Bytes, ltb, ◌==◌, ◌||◌, if◌then◌else◌, length, get_elem?, Bool-cases, inl, inr,
}
use stoolap_mariadb.Common.Int.{ℤ, signed64}
use stoolap_mariadb.Types.{Field, TimeType}
use stoolap_mariadb.Types.Store.{Write}
use stoolap_mariadb.Packet.{
  Read, done, truncated, fault, byte_at, pkt_le16, pkt_le32, pkt_le64, pkt_i64, skip_names,
  pkt_parse_header, Outcome, stored, failed, out_of_bounds, pkt_store_value, finish, fixed, counted,
  store_payload, Stored,
}

elem_below {ℓ} :
    {A : Type ℓ} (xs : List A) (i : ℕ) → i < length xs → (x : A) × (get_elem? xs i ≡ some x)
elem_below [] i h = elim h [ ]
elem_below (x ∷ xs) zero h = (x, refl)
elem_below (x ∷ xs) (suc i) h = elem_below xs i (omega arith)

pub byte_below : (buf : Bytes) (p : ℕ) → p < length buf → (b : ℕ) × (byte_at buf p ≡ done b)
unfolding byte_at
byte_below buf p h = let (b, e) = elem_below buf p h in (b, ground arith)

le16_below : (buf : Bytes) (p : ℕ) → p + 2 ≤ length buf → (v : ℕ) × (pkt_le16 buf p ≡ done v)
unfolding pkt_le16
le16_below buf p h =
    let (a, ea) = elem_below buf p (omega arith) in
    let (b, eb) = elem_below buf (p + 1) (omega arith) in (a + b * 2 ^ 8, ground arith)

pub le32_below : (buf : Bytes) (p : ℕ) → p + 4 ≤ length buf → (v : ℕ) × (pkt_le32 buf p ≡ done v)
unfolding pkt_le32
le32_below buf p h =
    let (a, ea) = elem_below buf p (omega arith) in
    let (b, eb) = elem_below buf (p + 1) (omega arith) in
    let (c, ec) = elem_below buf (p + 2) (omega arith) in
    let (d, ed) = elem_below buf (p + 3) (omega arith) in
    (a + b * 2 ^ 8 + c * 2 ^ 16 + d * 2 ^ 24, ground arith)

le64_below : (buf : Bytes) (p : ℕ) → p + 8 ≤ length buf → (v : ℕ) × (pkt_le64 buf p ≡ done v)
unfolding pkt_le64
le64_below buf p h =
    let (lo, el) = le32_below buf p (omega arith) in
    let (hi, eh) = le32_below buf (p + 4) (omega arith) in (lo + hi * 2 ^ 32, rw (pkt_le64, el, eh))

pub i64_below : (buf : Bytes) (p : ℕ) → p + 8 ≤ length buf → (v : ℤ) × (pkt_i64 buf p ≡ done v)
unfolding pkt_i64
i64_below buf p h = let (u, e) = le64_below buf p h in (signed64 u, rw (e, pkt_i64))

-- The end of a read from p lies in the buffer.
abbrev Within : Bytes → ℕ → Read ℕ → Type 0
Within buf p (done q) = (p ≤ q) × (q ≤ length buf)
Within buf p truncated = Unit {0}
Within buf p fault = ⊥

Within-later : (buf : Bytes) (p q : ℕ) (r : Read ℕ) → q ≤ p → Within buf p r → Within buf q r
Within-later buf p q (done e) h w = omega arith
Within-later buf p q truncated h w = tt
Within-later buf p q fault h w = w

skip_names-Within :
    (buf : Bytes) (p cols : ℕ) → p ≤ length buf → Within buf p (skip_names buf p cols)
unfolding skip_names
skip_names-Within buf p zero h = (omega arith, h)
skip_names-Within buf p (suc cols) h = elim (Bool-cases (ltb (length buf) (p + 2))) [
  | inl short ↦ rw short tt
  | inr room ↦
      let (nlen, e) = le16_below buf p (ground arith) in
      rw (room, e)
        (elim (Bool-cases (ltb (length buf) (p + 2 + nlen))) [
          | inl short ↦ rw short tt
          | inr more ↦ rw more (
              Within-later buf (p + 2 + nlen) p (skip_names buf (p + 2 + nlen) cols) (omega arith)
                (skip_names-Within buf (p + 2 + nlen) cols (ground arith)))
        ])
]

header_in_bounds :
    (buf : Bytes) (p n : ℕ)
    → ltb (length buf) (p + 4) ≡ false
    → pkt_le32 buf p ≡ done n
    → (r : Read ℕ) → skip_names buf (p + 4) n ≡ r
    → Within buf (p + 4) r
    → (pkt_parse_header buf p ≢ fault)
      × ((q cols : ℕ) → pkt_parse_header buf p ≡ done (q, cols) → (p + 4 ≤ q) × (q ≤ length buf))
unfolding pkt_parse_header
header_in_bounds buf p n room e (done k) er w = (λ x. ground arith, λ q cols x. ground arith)
header_in_bounds buf p n room e truncated er w = (λ x. ground arith, λ q cols x. ground arith)
header_in_bounds buf p n room e fault er w = absurd w

-- pkt_parse_header reads inside the buffer, and stops inside it: past the column count, and not
-- beyond the end.
pub pkt_parse_header-in_bounds :
    (buf : Bytes) (p : ℕ)
    → (pkt_parse_header buf p ≢ fault)
      × ((q cols : ℕ) → pkt_parse_header buf p ≡ done (q, cols) → (p + 4 ≤ q) × (q ≤ length buf))
unfolding pkt_parse_header
pkt_parse_header-in_bounds buf p = elim (Bool-cases (ltb (length buf) (p + 4))) [
  | inl short ↦ (λ e. ground arith, λ q cols e. ground arith)
  | inr room ↦
      let (n, e) = le32_below buf p (ground arith) in
      header_in_bounds buf p n room e (skip_names buf (p + 4) n) refl
        (skip_names-Within buf (p + 4) n (ground arith))
]

-- A cell's outcome for a cell that starts at p.
abbrev Lies : Bytes → ℕ → Outcome → Type 0
Lies buf p (stored q) = (p < q) × (q ≤ length buf)
Lies buf p (failed e) = Unit {0}
Lies buf p out_of_bounds = ⊥

module _ {Time : Type 0} where
  finish-fixed {ℓ} :
      {A : Type ℓ} (buf : Bytes) (p q n : ℕ) (before : List (Write Time))
      (read : Bytes → ℕ → Read A) (next : A → Stored Time)
      → (q + n ≤ length buf → (v : A) × (read buf q ≡ done v))
      → (q + n ≤ length buf → (v : A) → Lies buf p (next v).1)
      → Lies buf p (finish before (fixed buf q n read) next).1
  unfolding finish fixed
  finish-fixed buf p q n before read next total later =
      elim (Bool-cases (ltb (length buf) (q + n))) [
        | inl short ↦ rw short tt
        | inr room ↦ rw (room, (total (ground arith)).1) (later (ground arith) _)
      ]

  finish-counted :
      (buf : Bytes) (p q : ℕ) (before : List (Write Time)) (next : Bytes → List (Write Time))
      → p < q
      → Lies buf p (finish before (counted buf q) (λ r. (next r.0, stored r.1))).1
  unfolding finish counted
  finish-counted buf p q before next lt = elim (Bool-cases (ltb (length buf) (q + 4))) [
    | inl short ↦ rw short tt
    | inr room ↦
        let (n, e) = le32_below buf q (ground arith) in
        rw (room, e)
          (elim (Bool-cases (ltb (length buf) (q + 4 + n))) [
            | inl short ↦ rw short tt
            | inr more ↦ rw more (ground arith)
          ])
  ]

  Lies-if :
      (buf : Bytes) (p : ℕ) (b : Bool) (x y : Stored Time)
      → Lies buf p x.1
      → Lies buf p y.1
      → Lies buf p (if b then x else y).1
  Lies-if buf p true x y h k = h
  Lies-if buf p false x y h k = k

Lies-outcome :
    (buf : Bytes) (p : ℕ) (o : Outcome)
    → Lies buf p o
    → (o ≢ out_of_bounds) × ((q : ℕ) → o ≡ stored q → (p < q) × (q ≤ length buf))
Lies-outcome buf p (stored q) h = (λ e. ground arith, λ r e. ground arith)
Lies-outcome buf p (failed x) h = (λ e. ground arith, λ r e. ground arith)
Lies-outcome buf p out_of_bounds h = absurd h

module _ {Time : Type 0} (unpack_time : ℤ → TimeType → Time) (datetime_text : ℤ × ℤ → Bytes) where
  store_payload-Lies :
      (tag : ℕ) (buf : Bytes) (p : ℕ) (f : Field) (before : List (Write Time))
      → Lies buf p (store_payload unpack_time datetime_text tag buf (p + 1) f before).1
  unfolding store_payload
  store_payload-Lies tag buf p f before =
      Lies-if buf p (tag == 1) _ _
        (finish-fixed buf p (p + 1) 8 before pkt_i64 _ (i64_below buf (p + 1)) (λ h v. omega arith))
        (Lies-if buf p (tag == 2) _ _
          (finish-fixed buf p (p + 1) 8 before pkt_le64 _ (le64_below buf (p + 1))
            (λ h v. omega arith))
          (Lies-if buf p (tag == 4) _ _
            (finish-fixed buf p (p + 1) 1 before byte_at _
              (λ h. byte_below buf (p + 1) (omega arith)) (λ h v. omega arith))
            (Lies-if buf p (tag == 3 || tag == 6) _ _
              (finish-counted buf p (p + 1) before _ (omega arith))
              (Lies-if buf p (tag == 7) _ _ (finish-counted buf p (p + 1) before _ (omega arith)) (
                Lies-if buf p (tag == 5) _ _
                  (finish-fixed buf p (p + 1) 8 before pkt_i64 _ (i64_below buf (p + 1))
                    (λ h v. omega arith))
                  tt)))))

  cell-Lies :
      (buf : Bytes) (p : ℕ) (f : Field)
      → Lies buf p (pkt_store_value unpack_time datetime_text buf p f).1
  unfolding pkt_store_value
  cell-Lies buf p f =
      finish-fixed buf p p 1 [] byte_at _ (λ h. byte_below buf p (omega arith))
        λ h tag. Lies-if buf p (tag == 0) _ _ (omega arith) (store_payload-Lies tag buf p f _)

-- pkt_store_value reads inside the buffer for every tag, and a cell that it stores ends past its
-- tag and not beyond the end of the buffer.
pub pkt_store_value-in_bounds :
    {Time : Type 0} (unpack_time : ℤ → TimeType → Time) (datetime_text : ℤ × ℤ → Bytes)
    (buf : Bytes) (p : ℕ) (f : Field)
    → let outcome = (pkt_store_value unpack_time datetime_text buf p f).1 in
      (outcome ≢ out_of_bounds) × ((q : ℕ) → outcome ≡ stored q → (p < q) × (q ≤ length buf))
pkt_store_value-in_bounds unpack_time datetime_text buf p f =
    Lies-outcome buf p _ (cell-Lies unpack_time datetime_text buf p f)
