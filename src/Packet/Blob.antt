-- ===== src/Packet/Blob.antt =====
-- store_blob_owned and store_cell of src/stoolap_packet.h: the store callback of a read, which gives
-- a BLOB field bytes of the handler's own.
use stoolap_mariadb.Common.{
  ℕ, ◌+◌, ◌≡◌, ◌≢◌, arith, Bool, true, false, ◌&&◌, ◌||◌, not, [], ◌∷◌, ◌++◌, Option, none, some,
  Bytes, ltb, ◌==◌, if◌then◌else◌, length, take, drop, Bool-cases, Option-cases, inl, inr, ◌⊎◌,
}
use stoolap_mariadb.Common.Int.{ℤ}
use stoolap_mariadb.Types.{Field, CharSet, Enc, hex, field_enc, TimeType}
use stoolap_mariadb.Types.Hex.{from_hex}
use stoolap_mariadb.Types.Store.{
  set_notnull, set_ptr, chars, store_text, store_text-not_hex, store_text-is_hex, is_varchar,
}
use stoolap_mariadb.Packet.Bounds.{byte_below, le32_below}
use stoolap_mariadb.Packet.{
  Read, done, truncated, fault, ◌>>=◌, byte_at, pkt_le32, Outcome, stored, failed, out_of_bounds,
  StoreError, Stored, pkt_store_value,
}

is_hex : Enc → Bool
is_hex hex = true
is_hex _ = false

-- `truncated` is the C++ `return false`.
or_refuse : Option Bytes → Read Bytes
or_refuse none = truncated
or_refuse (some own) = done own

-- The handler's own bytes for a TEXT, JSON or BLOB cell.
unfoldable pub store_blob_owned : Field → Bytes → Read Bytes
unfolding is_hex or_refuse
store_blob_owned f cell =
    if f.compressed then truncated else if ltb (length cell) 5 then truncated else do
      tag ← byte_at cell 0
      if not (tag == 3 || tag == 7 || tag == 6) then truncated else do
        n ← pkt_le32 cell 1
        if ltb (length cell) (5 + n) then truncated else do
          own ←
              (if tag == 3 && is_hex (field_enc f)
                then or_refuse (from_hex (take n (drop 5 cell)))
                else done (take n (drop 5 cell)))
          if ltb f.max_data_length (length own) then truncated else done own

pub record RecordTarget : Type 0 where
  pub err : Option StoreError
  pub blobs : Bool

err_of : Outcome → Option StoreError → Option StoreError
err_of (failed e) before = some e
err_of _ before = before

module _ {Time : Type 0} (unpack_time : ℤ → TimeType → Time) (datetime_text : ℤ × ℤ → Bytes) where
  through_store : RecordTarget → Field → Bytes → RecordTarget × Stored Time
  unfolding err_of
  through_store t f cell =
      let (writes, outcome) = pkt_store_value unpack_time datetime_text cell 0 f in
      (record t { err = err_of outcome t.err }, (writes, outcome))

  owned_or_store : RecordTarget → Field → Bytes → Read Bytes → RecordTarget × Stored Time
  unfolding through_store
  owned_or_store t f cell (done own) = (t, (set_notnull ∷ set_ptr own ∷ [], stored (length cell)))
  owned_or_store t f cell truncated = through_store t f cell
  owned_or_store t f cell fault = (t, ([], out_of_bounds))

  unfoldable pub store_cell : RecordTarget → Field → Bytes → RecordTarget × Stored Time
  unfolding owned_or_store
  store_cell t f cell =
      if t.blobs && f.blob_flag
      then owned_or_store t f cell (store_blob_owned f cell)
      else through_store t f cell

own_bytes :
    (f : Field) (cell own : Bytes) (tag : ℕ)
    → byte_at cell 0 ≡ done tag
    → store_blob_owned f cell ≡ done own
    → (n : ℕ) × (pkt_le32 cell 1 ≡ done n)
      × (ltb (length cell) 5 ≡ false)
      × (ltb (length cell) (5 + n) ≡ false)
      × ((tag == 3 || tag == 7 || tag == 6) ≡ true)
      × ((if tag == 3 && is_hex (field_enc f)
            then or_refuse (from_hex (take n (drop 5 cell)))
            else done (take n (drop 5 cell)))
          ≡ done own)
unfolding store_blob_owned
own_bytes f cell own tag e h = ground arith

text_same :
    {Time : Type 0} (f : Field) (s own : Bytes) (tag : ℕ)
    → is_varchar f.real_type ≡ false
    → (tag ≡ 3) ⊎ ((tag ≡ 6) × (field_enc f ≢ hex))
    → (if tag == 3 && is_hex (field_enc f) then or_refuse (from_hex s) else done s) ≡ done own
    → store_text {Time = Time} f s ≡ chars own f.charset
unfolding is_hex or_refuse
text_same {Time} f s own tag nv c h =
    ground (arith, store_text-not_hex {Time = Time} f s nv, store_text-is_hex {Time = Time} f s own)

abbrev pub owned_charset : Field → ℕ → Option CharSet
owned_charset f tag = if tag == 7 then none else f.charset

-- Where the owned path gives bytes to a field that is no VARCHAR, pkt_store_value stores the same
-- bytes, in the field's character set or as binary; a JSON text in a hex field is left out.
pub store_blob_owned-pkt_store_value :
    {Time : Type 0} (unpack_time : ℤ → TimeType → Time) (datetime_text : ℤ × ℤ → Bytes) (f : Field)
    (cell own : Bytes) (tag : ℕ)
    → is_varchar f.real_type ≡ false
    → byte_at cell 0 ≡ done tag
    → (tag ≡ 6 → field_enc f ≢ hex)
    → store_blob_owned f cell ≡ done own
    → (pkt_store_value unpack_time datetime_text cell 0 f).0
      ≡ (if f.maybe_null then set_notnull ∷ [] else []) ++ (chars own (owned_charset f tag) ∷ [])
unfolding pkt_store_value
store_blob_owned-pkt_store_value {Time} unpack_time datetime_text f cell own tag nv at nj h =
    let (n, en, l5, ln, et, eo) = own_bytes f cell own tag at h in
    let l1 : ltb (length cell) 1 ≡ false = ground arith in
    let s = take n (drop 5 cell) in
    let cases : (tag ≡ 3) ⊎ (tag ≡ 6) ⊎ (tag ≡ 7) = ground arith in
    elim cases [
      | inl t3 ↦
          let w = text_same {Time = Time} f s own tag nv (inl t3) eo in
          rw (at, l1, t3, l5, en, ln, w)
      | inr (inl t6) ↦
          let w = text_same {Time = Time} f s own tag nv (inr (t6, nj t6)) eo in
          rw (at, l1, t6, l5, en, ln, w)
      | inr (inr t7) ↦ let w : s ≡ own = ground arith in rw (at, l1, t7, l5, en, ln, w)
    ]

-- The owned path reads no byte past the cell.
pub store_blob_owned-in_bounds : (f : Field) (cell : Bytes) → store_blob_owned f cell ≢ fault
unfolding store_blob_owned
store_blob_owned-in_bounds f cell h = elim (Bool-cases (ltb (length cell) 5)) [
  | inl p ↦ ground arith
  | inr p ↦
      let (tag, et) = byte_below cell 0 (ground arith) in
      let (n, en) = le32_below cell 1 (ground arith) in
      elim (Option-cases (from_hex (take n (drop 5 cell)))) [
        | inl q ↦ ground arith
        | inr (own, q) ↦ ground arith
      ]
]
