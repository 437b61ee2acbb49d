-- ===== src/Pushdown/Direct/Count.antt =====
-- count_rows of src/ha_stoolap_select.cc on the packed answer to a COUNT.
use stoolap_mariadb.Common.{
  ℕ, ◌+◌, ◌^◌, ◌≤◌, ◌<◌, ◌≡◌, ◌≢◌, refl, ap, sym, ◌∙◌, arith, Bool-cases, inl, inr, not, ◌||◌, [],
  ◌∷◌, ◌++◌, Option, none, some, Bytes, ltb, ◌==◌, length,
}
use stoolap_mariadb.Common.Int.{pos_part, signed64}
use stoolap_mariadb.ThdContext.{stoolap_ok}
use stoolap_mariadb.Packet.{Read, done, truncated, fault, ◌>>=◌, pkt_parse_header}
use stoolap_mariadb.Packet.Bounds.{byte_below, le32_below, i64_below, pkt_parse_header-in_bounds}
use stoolap_mariadb.Packet.RoundTrip.{
  At, At-append_left, At-append_right, At-le, At-byte, At-le32, At-i64, le→ltb_false, packed_header,
  pkt_parse_header-packed_header, packed_cell, integer, le32_bytes, le64_bytes,
}
use stoolap_mariadb.Pushdown.Direct.{count_cell, or_none, count_rows}

count_cell-in_bounds : (buf : Bytes) (at cols : ℕ) → count_cell buf (at, cols) ≢ fault
unfolding count_cell
count_cell-in_bounds buf at cols e =
    elim (Bool-cases (not (cols == 1) || ltb (length buf) (at + 4 + 1 + 8))) [
      | inl short ↦ cc (rw short at e)
      | inr room ↦
          let fits : at + 13 ≤ length buf = ground arith in
          let (rows, er) = le32_below buf at (omega (arith, fits)) in
          let (tag, et) = byte_below buf (at + 4) (omega (arith, fits)) in
          let (v, ev) = i64_below buf (at + 5) (omega (arith, fits)) in ground (arith, er, et, ev)
    ]

or_none-read :
    (buf : Bytes) (header : Read (ℕ × ℕ))
    → header ≢ fault
    → or_none (header >>= count_cell buf) ≢ fault
unfolding or_none
or_none-read buf truncated h e = cc
or_none-read buf fault h e = h refl
or_none-read buf (done (at, cols)) h e =
    kept (count_cell buf (at, cols)) (count_cell-in_bounds buf at cols) e
  where
    kept : (r : Read (Option ℕ)) → r ≢ fault → or_none r ≢ fault
    kept (done n) h e = cc
    kept truncated h e = cc
    kept fault h e = h refl

count_rows-in_bounds : (answer : ℕ × Option Bytes) → count_rows answer ≢ fault
unfolding count_rows
count_rows-in_bounds (status, none) e = cc
count_rows-in_bounds (status, some buf) e = elim (Bool-cases (status == stoolap_ok)) [
  | inl ok ↦
      or_none-read buf (pkt_parse_header buf 0) (pkt_parse_header-in_bounds buf 0).0 (rw ok at e)
  | inr bad ↦ cc (rw bad at e)
]

-- The packed answer to a COUNT: a header of one column, one row, and an integer by its 64 bits
abbrev pub packed_count : Bytes → ℕ → Bytes
packed_count name w = packed_header (name ∷ []) ++ (le32_bytes 1 ++ packed_cell (integer w))

count_cell-packed :
    (buf : Bytes) (at w : ℕ)
    → w < 2 ^ 64
    → At buf at (le32_bytes 1 ++ packed_cell (integer w))
    → count_cell buf (at, 1) ≡ done (some (pos_part (signed64 w)))
unfolding count_cell
count_cell-packed buf at w h a =
    let row =
      At-le32 buf at 1 (omega arith)
        (At-append_left buf at (le32_bytes 1) (packed_cell (integer w)) a) in
    let cell : At buf (at + 4) (packed_cell (integer w)) =
      At-append_right buf at (le32_bytes 1) (packed_cell (integer w)) a in
    let tag = At-byte buf (at + 4) 1 (le64_bytes w) cell in
    let value : At buf (at + 4 + 1) (le64_bytes w) =
      At-append_right buf (at + 4) (1 ∷ []) (le64_bytes w) cell in
    let five : at + 4 + 1 ≡ at + 5 = omega arith in
    let read = At-i64 buf (at + 5) w h (rw five at value) in
    let ends : at + 4 + 1 + 8 ≤ length buf = At-le buf (at + 4 + 1) (le64_bytes w) value in
    rw (le→ltb_false (length buf) (at + 4 + 1 + 8) ends, row, tag, read) refl

-- count_rows gives the COUNT that the packed answer holds, 0 for a negative one, and reads inside
-- the buffer whatever it holds.
pub count_rows-packed :
    (name : Bytes) (w : ℕ) (answer : ℕ × Option Bytes)
    → length name < 2 ^ 16
    → w < 2 ^ 64
    → (count_rows (stoolap_ok, some (packed_count name w)) ≡ done (some (pos_part (signed64 w))))
      × (count_rows answer ≢ fault)
unfolding count_rows or_none
count_rows-packed name w answer hn hw =
    let buf = packed_count name w in
    let header = packed_header (name ∷ []) in
    let rest = le32_bytes 1 ++ packed_cell (integer w) in
    let whole : At buf 0 (header ++ rest) = ([], [], sym (append_nil buf), refl) in
    let parsed =
      pkt_parse_header-packed_header buf 0 (name ∷ []) (hn, tt) (omega arith)
        (At-append_left buf 0 header rest whole) in
    let cell =
      count_cell-packed buf (0 + length header) w hw (At-append_right buf 0 header rest whole) in
    (ap (λ r. or_none (r >>= count_cell buf)) parsed ∙ ap or_none cell, count_rows-in_bounds answer)
  where
    append_nil : (xs : Bytes) → xs ++ [] ≡ xs
    append_nil [] = refl
    append_nil (x ∷ xs) = ap (λ s. x ∷ s) (append_nil xs)
