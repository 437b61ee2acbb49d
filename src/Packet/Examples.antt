-- ===== src/Packet/Examples.antt =====
-- The theorems on the packed format at concrete buffers.
use stoolap_mariadb.Common.{
  ℕ, ◌≡◌, ◌≢◌, ◌*◌, ◌<◌, ◌≤◌, ◌+◌, arith, refl, true, List, [], ◌∷◌, ◌++◌, Bytes, codes, length,
  if◌then◌else◌,
}
use stoolap_mariadb.Common.Int.{ℤ, negsuc, pos_part, neg_part, tdiv}
use stoolap_mariadb.Types.{TimeType, field_enc, text_is_utf8}
use stoolap_mariadb.Types.Store.{set_notnull, chars, is_varchar}
use stoolap_mariadb.Packet.{
  pkt_store_value, timestamp_parts, out_of_bounds, stored, byte_at, pkt_le32,
}
use stoolap_mariadb.Packet.Bounds.{pkt_store_value-in_bounds}
use stoolap_mariadb.Packet.RoundTrip.{packed_cell, Packed, text}
use stoolap_mariadb.Packet.Cells.{pkt_store_value-packed_cell, writes_of}
use stoolap_mariadb.Packet.Timestamp.{timestamp_parts_lem}
use stoolap_mariadb.Packet.Blob.{store_blob_owned, store_blob_owned-pkt_store_value, owned_charset}
use stoolap_mariadb.Samples.{name_field, blob_field}

unpacked : ℤ → TimeType → ℤ
unpacked v t = v

shown : ℤ × ℤ → Bytes
shown t = codes "1970-01-01"

abbrev names : List Bytes
names = codes "id" ∷ codes "name" ∷ []

pkt_store_value-in_bounds_example :
    let outcome = (pkt_store_value unpacked shown (3 ∷ 9 ∷ 0 ∷ 0 ∷ 0 ∷ 65 ∷ []) 0 name_field).1 in
    (outcome ≢ out_of_bounds) × ((q : ℕ) → outcome ≡ stored q → (0 < q) × (q ≤ 6))
pkt_store_value-in_bounds_example =
    pkt_store_value-in_bounds unpacked shown (3 ∷ 9 ∷ 0 ∷ 0 ∷ 0 ∷ 65 ∷ []) 0 name_field

abbrev cell : Packed
cell = text (codes "ab")

pkt_store_value-packed_cell_example :
    pkt_store_value unpacked shown (0 ∷ packed_cell cell) 1 name_field
    ≡ (writes_of unpacked shown name_field cell, stored (1 + length (packed_cell cell)))
pkt_store_value-packed_cell_example =
    pkt_store_value-packed_cell unpacked shown cell (0 ∷ packed_cell cell) 1 name_field
      (omega arith) (0 ∷ [], [], refl, refl)

timestamp_parts_lem_example :
    let (secs, us) = timestamp_parts (negsuc 1499) in
    (neg_part us ≡ 0)
    × (pos_part us < 1000000)
    × (pos_part secs * 1000000 + pos_part us + neg_part (tdiv (negsuc 1499) 1000)
        ≡ neg_part secs * 1000000 + pos_part (tdiv (negsuc 1499) 1000))
timestamp_parts_lem_example = timestamp_parts_lem (negsuc 1499)

store_blob_owned-pkt_store_value_example :
    (pkt_store_value unpacked shown (3 ∷ 1 ∷ 0 ∷ 0 ∷ 0 ∷ 65 ∷ []) 0 blob_field).0
    ≡ (if true then set_notnull ∷ [] else []) ++ (chars (65 ∷ []) (owned_charset blob_field 3) ∷ [])
unfolding store_blob_owned is_varchar field_enc text_is_utf8 byte_at pkt_le32
store_blob_owned-pkt_store_value_example =
    store_blob_owned-pkt_store_value unpacked shown blob_field (3 ∷ 1 ∷ 0 ∷ 0 ∷ 0 ∷ 65 ∷ [])
      (65 ∷ []) 3 refl refl (λ t. absurd (omega arith)) (ground arith)
