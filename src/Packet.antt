-- ===== src/Packet.antt =====
-- src/stoolap_packet.h: the packed binary format, its header and its cells, and what a read does to
-- the record for them. A buffer is the list of its bytes; a read past its end is `fault`, which no
-- C++ code may reach. Buffers are shorter than 2 ^ 63, so that `*pos + n` does not wrap.
pub mod Bounds
pub mod RoundTrip
pub mod Cells
pub mod Blob
pub mod Timestamp
pub mod Examples
use stoolap_mariadb.Common.{
  ℕ, zero, suc, ◌+◌, ◌-◌, ◌*◌, ◌/◌, ◌%◌, ◌^◌, ◌≤◌, ◌<◌, ◌≡◌, arith, refl, Bool, true, false, not,
  ◌&&◌, ◌||◌, List, [], ◌∷◌, ◌++◌, Option, none, some, Bytes, leb, ltb, ◌==◌, if◌then◌else◌, length,
  take, drop, get_elem?,
}
use stoolap_mariadb.Common.Int.{
  ℤ, pos, negsuc, tdiv, tmod, signed64, is_negative, sub_ℕ, pos_part, neg_part,
}
use stoolap_mariadb.Types.{Field, CharSet, TimeType, Described, describe_field}
use stoolap_mariadb.Types.Store.{
  Write, number, real, chars, set_null, set_notnull, store_int, store_text,
}

-- `truncated` is the code's own refusal of a short buffer.
pub data Read {ℓ} (A : Type ℓ) : Type ℓ where
  done : A → Read A
  truncated fault : Read A

infixl 5 ◌>>=◌
abbrev pub ◌>>=◌ {ℓ κ} : {A : Type ℓ} {B : Type κ} → Read A → (A → Read B) → Read B
done a >>= f = f a
truncated >>= f = truncated
fault >>= f = fault

found : Option ℕ → Read ℕ
found none = fault
found (some b) = done b

unfoldable pub byte_at : Bytes → ℕ → Read ℕ
unfolding found
byte_at buf p = found (get_elem? buf p)

-- The bytes do not overlap, so that `|` of the shifted bytes is their sum.
unfoldable pub pkt_le16 : Bytes → ℕ → Read ℕ
unfolding byte_at
pkt_le16 buf p = do a ← byte_at buf p; b ← byte_at buf (p + 1); done (a + b * 2 ^ 8)

unfoldable pub pkt_le32 : Bytes → ℕ → Read ℕ
unfolding byte_at
pkt_le32 buf p = do
  a ← byte_at buf p
  b ← byte_at buf (p + 1)
  c ← byte_at buf (p + 2)
  d ← byte_at buf (p + 3)
  done (a + b * 2 ^ 8 + c * 2 ^ 16 + d * 2 ^ 24)

-- for (i = 0; i < 8; ++i) r |= p[i] << (i * 8)
unfoldable pub pkt_le64 : Bytes → ℕ → Read ℕ
pkt_le64 buf p = do lo ← pkt_le32 buf p; hi ← pkt_le32 buf (p + 4); done (lo + hi * 2 ^ 32)

unfoldable pub pkt_i64 : Bytes → ℕ → Read ℤ
pkt_i64 buf p = do u ← pkt_le64 buf p; done (signed64 u)

-- The header's loop over `cols` names: where it ends.
skip_names : Bytes → ℕ → ℕ → Read ℕ
skip_names buf p zero = done p
skip_names buf p (suc cols) = if ltb (length buf) (p + 2) then truncated else do
  nlen ← pkt_le16 buf p
  let next = p + 2 + nlen
  let rest = skip_names buf next cols
  if ltb (length buf) next then truncated else rest

-- The position after the header, and the number of columns.
unfoldable pub pkt_parse_header : Bytes → ℕ → Read (ℕ × ℕ)
unfolding skip_names
pkt_parse_header buf p =
    if ltb (length buf) (p + 4)
    then truncated
    else do cols ← pkt_le32 buf p; next ← skip_names buf (p + 4) cols; done (next, cols)

-- The seconds and microseconds of nanoseconds since the epoch.
unfoldable pub timestamp_parts : ℤ → ℤ × ℤ
timestamp_parts nanos =
    let secs = tdiv nanos 1000000000 in
    let us = tdiv (tmod nanos 1000000000) 1000 in
    if is_negative us
    then (sub_ℕ (pos_part secs) (neg_part secs + 1), sub_ℕ (1000000 + pos_part us) (neg_part us))
    else (secs, us)

-- HA_ERR_GENERIC, HA_ERR_UNSUPPORTED
pub data StoreError : Type 0 where
  generic unsupported : StoreError

-- Where a cell ends, or why it is not stored.
pub data Outcome : Type 0 where
  stored : ℕ → Outcome
  failed : StoreError → Outcome
  out_of_bounds : Outcome

abbrev pub Stored : Type 0 → Type 0
Stored Time = List (Write Time) × Outcome

module _ {Time : Type 0} where
  -- What a payload's read leads to; the Field has been marked by `before`.
  finish {ℓ} : {A : Type ℓ} → List (Write Time) → Read A → (A → Stored Time) → Stored Time
  finish before (done a) next = let (after, outcome) = next a in (before ++ after, outcome)
  finish before truncated next = (before, failed generic)
  finish before fault next = (before, out_of_bounds)

fixed {ℓ} : {A : Type ℓ} → Bytes → ℕ → ℕ → (Bytes → ℕ → Read A) → Read A
fixed buf p n read = if ltb (length buf) (p + n) then truncated else read buf p

-- A u32 length and that many bytes: the bytes, and where they end.
counted : Bytes → ℕ → Read (Bytes × ℕ)
unfolding fixed
counted buf p = do
  bl ← fixed buf p 4 pkt_le32
  if ltb (length buf) (p + 4 + bl) then truncated else done (take bl (drop (p + 4) buf), p + 4 + bl)

module _ {Time : Type 0} (unpack_time : ℤ → TimeType → Time) (datetime_text : ℤ × ℤ → Bytes) where
  -- The switch on the tag, for a cell that is not NULL.
  store_payload : ℕ → Bytes → ℕ → Field → List (Write Time) → Stored Time
  unfolding finish fixed counted
  store_payload tag buf p f before =
      if tag == 1
      then finish before (fixed buf p 8 pkt_i64)
          (λ v. (store_int unpack_time f v ∷ [], stored (p + 8)))
      else if tag == 2
      then finish before (fixed buf p 8 pkt_le64) (λ d. (real d ∷ [], stored (p + 8)))
      else if tag == 4
      then finish before (fixed buf p 1 byte_at)
          (λ b. (number (pos (if b == 0 then 0 else 1)) false ∷ [], stored (p + 1)))
      else if tag == 3 || tag == 6
      then finish before (counted buf p) (λ r. (store_text f r.0 ∷ [], stored r.1))
      else if tag == 7
      then finish before (counted buf p) (λ r. (chars r.0 none ∷ [], stored r.1))
      else if tag == 5
      then finish before (fixed buf p 8 pkt_i64)
          (λ nanos. (chars (datetime_text (timestamp_parts nanos)) none ∷ [], stored (p + 8)))
      else (before, failed unsupported)

  -- A NULL into a column that takes none is a 0.
  unfoldable pub pkt_store_value : Bytes → ℕ → Field → Stored Time
  unfolding store_payload finish fixed
  pkt_store_value buf p f = finish [] (fixed buf p 1 byte_at) λ tag.
      if tag == 0
      then ((if f.maybe_null then set_null else number (pos 0) false) ∷ [], stored (p + 1))
      else store_payload tag buf (p + 1) f (if f.maybe_null then set_notnull ∷ [] else [])

-- StoolapField, for column `column` of the read.
pub record RecordField : Type 0 where
  pub column : ℕ
  pub field : ℕ
  pub offset : ℕ
  pub size : ℕ
  pub null_offset : ℕ
  pub null_mask : ℕ
  pub described : Described

unfoldable pub record_field : ℕ → Field → ℕ → RecordField
record_field not_fixed_dec f column = record {
  column = column;
  field = f.field_index;
  offset = f.ptr;
  size = f.pack_length;
  null_offset = elim f.null_ptr [ none ↦ 0 | some p ↦ p ];
  null_mask = elim f.null_ptr [ none ↦ 0 | some _ ↦ f.null_bit ];
  described = describe_field not_fixed_dec f;
}
