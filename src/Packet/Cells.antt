-- ===== src/Packet/Cells.antt =====
-- A cell of the packed format, written by the encoder and stored by pkt_store_value.
use stoolap_mariadb.Common.{
  ℕ, ◌+◌, ◌^◌, ◌≤◌, ◌<◌, ◌≡◌, ◌≢◌, arith, refl, ap, ◌∙◌, false, List, [], ◌∷◌, ◌++◌, none, Bytes,
  ◌==◌, if◌then◌else◌, length,
}
use stoolap_mariadb.Common.Int.{ℤ, pos, signed64}
use stoolap_mariadb.Types.{Field, TimeType}
use stoolap_mariadb.Types.Store.{
  Write, set_null, set_notnull, number, real, chars, store_int, store_text,
}
use stoolap_mariadb.Packet.{
  Read, done, byte_at, pkt_le64, pkt_i64, Outcome, stored, pkt_store_value, finish, fixed, counted,
  store_payload, Stored, timestamp_parts,
}
use stoolap_mariadb.Packet.RoundTrip.{
  At, At-append_left, At-append_right, At-le, At-take, At-byte, At-le32, At-le64, At-i64,
  le→ltb_false, Packed, null, integer, float, boolean, timestamp, text, json, blob, packed_cell,
  packed_bytes, le32_bytes, le64_bytes, Fits,
}

module _ {Time : Type 0} (unpack_time : ℤ → TimeType → Time) (datetime_text : ℤ × ℤ → Bytes) where
  abbrev payload_of : Field → Packed → Write Time
  payload_of f (integer w) = store_int unpack_time f (signed64 w)
  payload_of f (float w) = real w
  payload_of f (boolean b) = number (pos (if b == 0 then 0 else 1)) false
  payload_of f (timestamp w) = chars (datetime_text (timestamp_parts (signed64 w))) none
  payload_of f (text s) = store_text f s
  payload_of f (json s) = store_text f s
  payload_of f (blob s) = chars s none
  payload_of f null = if f.maybe_null then set_null else number (pos 0) false

  -- What a cell does to the Field: its NULL bit, and its value.
  abbrev pub writes_of : Field → Packed → List (Write Time)
  writes_of f null = payload_of f null ∷ []
  writes_of f c = (if f.maybe_null then set_notnull ∷ [] else []) ++ (payload_of f c ∷ [])

module _ {Time : Type 0} where
  finish-fixed_at {ℓ} :
      {A : Type ℓ} (buf : Bytes) (q n : ℕ) (before : List (Write Time)) (read : Bytes → ℕ → Read A)
      (next : A → Stored Time) (v : A)
      → q + n ≤ length buf
      → read buf q ≡ done v
      → finish before (fixed buf q n read) next ≡ (before ++ (next v).0, (next v).1)
  unfolding finish fixed
  finish-fixed_at buf q n before read next v room e = rw (le→ltb_false (length buf) (q + n) room, e)

counted-At :
    (buf : Bytes) (q : ℕ) (s : Bytes)
    → length s < 2 ^ 32
    → At buf q (packed_bytes s)
    → counted buf q ≡ done (s, q + 4 + length s)
unfolding counted
counted-At buf q s h at =
    let l32 = le32_bytes (length s) in
    let at32 = At-append_left buf q l32 s at in
    let later = At-append_right buf q l32 s at in
    rw (
      le→ltb_false (length buf) (q + 4) (At-le buf q l32 at32),
      At-le32 buf q (length s) h at32,
      le→ltb_false (length buf) (q + 4 + length s) (At-le buf (q + 4) s later),
      At-take buf (q + 4) s later,
    )

abbrev tag_of : Packed → ℕ
tag_of null = 0
tag_of (integer w) = 1
tag_of (float w) = 2
tag_of (text s) = 3
tag_of (boolean b) = 4
tag_of (timestamp w) = 5
tag_of (json s) = 6
tag_of (blob s) = 7

-- The bytes behind the tag.
abbrev payload_bytes : Packed → Bytes
payload_bytes null = []
payload_bytes (integer w) = le64_bytes w
payload_bytes (float w) = le64_bytes w
payload_bytes (timestamp w) = le64_bytes w
payload_bytes (boolean b) = b ∷ []
payload_bytes (text s) = packed_bytes s
payload_bytes (json s) = packed_bytes s
payload_bytes (blob s) = packed_bytes s

abbrev stored_at {ℓ} : {W : Type ℓ} → List W → ℕ → List W × Outcome
stored_at ws q = (ws, stored q)

module _ {Time : Type 0} (unpack_time : ℤ → TimeType → Time) (datetime_text : ℤ × ℤ → Bytes) where
  payload_stored :
      (c : Packed) (buf : Bytes) (q : ℕ) (f : Field) (before : List (Write Time))
      → c ≢ null
      → Fits c
      → At buf q (payload_bytes c)
      → store_payload unpack_time datetime_text (tag_of c) buf q f before
        ≡ stored_at
            (before ++ (payload_of unpack_time datetime_text f c ∷ []))
            (q + length (payload_bytes c))
  unfolding store_payload
  payload_stored null buf q f before ne h at = absurd (ne refl)
  payload_stored (integer w) buf q f before ne h at =
      finish-fixed_at buf q 8 before pkt_i64 _ _ (At-le buf q (le64_bytes w) at)
        (At-i64 buf q w h at)
  payload_stored (float w) buf q f before ne h at =
      finish-fixed_at buf q 8 before pkt_le64 _ _ (At-le buf q (le64_bytes w) at)
        (At-le64 buf q w h at)
  payload_stored (timestamp w) buf q f before ne h at =
      finish-fixed_at buf q 8 before pkt_i64 _ _ (At-le buf q (le64_bytes w) at)
        (At-i64 buf q w h at)
  payload_stored (boolean b) buf q f before ne h at =
      finish-fixed_at buf q 1 before byte_at _ _ (At-le buf q (b ∷ []) at) (At-byte buf q b [] at)
  payload_stored (text s) buf q f before ne h at =
      rw (counted-At buf q s h at, finish) (ap (stored_at _) (omega arith))
  payload_stored (json s) buf q f before ne h at =
      rw (counted-At buf q s h at, finish) (ap (stored_at _) (omega arith))
  payload_stored (blob s) buf q f before ne h at =
      rw (counted-At buf q s h at, finish) (ap (stored_at _) (omega arith))

  valued_cell :
      (c : Packed) (buf : Bytes) (p : ℕ) (f : Field)
      → c ≢ null
      → (tag_of c == 0) ≡ false
      → Fits c
      → At buf p (tag_of c ∷ payload_bytes c)
      → pkt_store_value unpack_time datetime_text buf p f
        ≡ stored_at
            ((if f.maybe_null then set_notnull ∷ [] else [])
              ++ (payload_of unpack_time datetime_text f c ∷ []))
            (p + 1 + length (payload_bytes c))
  unfolding pkt_store_value
  valued_cell c buf p f ne t h at =
      let first = At-append_left buf p (tag_of c ∷ []) (payload_bytes c) at in
      finish-fixed_at buf p 1 [] byte_at _ (tag_of c) (At-le buf p (tag_of c ∷ []) first)
        (At-byte buf p (tag_of c) [] first)
      ∙ rw t (
          payload_stored c buf (p + 1) f _ ne h
            (At-append_right buf p (tag_of c ∷ []) (payload_bytes c) at))

  -- A cell written by the encoder is stored as its value, with the NULL bit of a nullable column,
  -- and the read goes on right behind it. A NULL into a column that takes none is a 0.
  pub pkt_store_value-packed_cell :
      (c : Packed) (buf : Bytes) (p : ℕ) (f : Field)
      → Fits c
      → At buf p (packed_cell c)
      → pkt_store_value unpack_time datetime_text buf p f
        ≡ (writes_of unpack_time datetime_text f c, stored (p + length (packed_cell c)))
  unfolding pkt_store_value
  pkt_store_value-packed_cell null buf p f h at =
      finish-fixed_at buf p 1 [] byte_at _ _ (At-le buf p (0 ∷ []) at) (At-byte buf p 0 [] at)
  pkt_store_value-packed_cell (integer w) buf p f h at =
      valued_cell (integer w) buf p f (λ e. ground arith) refl h at ∙ ap (stored_at _) (omega arith)
  pkt_store_value-packed_cell (float w) buf p f h at =
      valued_cell (float w) buf p f (λ e. ground arith) refl h at ∙ ap (stored_at _) (omega arith)
  pkt_store_value-packed_cell (boolean b) buf p f h at =
      valued_cell (boolean b) buf p f (λ e. ground arith) refl h at ∙ ap (stored_at _) (omega arith)
  pkt_store_value-packed_cell (timestamp w) buf p f h at =
      valued_cell (timestamp w) buf p f (λ e. ground arith) refl h at
      ∙ ap (stored_at _) (omega arith)
  pkt_store_value-packed_cell (text s) buf p f h at =
      valued_cell (text s) buf p f (λ e. ground arith) refl h at ∙ ap (stored_at _) (omega arith)
  pkt_store_value-packed_cell (json s) buf p f h at =
      valued_cell (json s) buf p f (λ e. ground arith) refl h at ∙ ap (stored_at _) (omega arith)
  pkt_store_value-packed_cell (blob s) buf p f h at =
      valued_cell (blob s) buf p f (λ e. ground arith) refl h at ∙ ap (stored_at _) (omega arith)
