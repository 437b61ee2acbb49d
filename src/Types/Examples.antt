-- ===== src/Types/Examples.antt =====
-- The theorems on stored values at concrete ones.
use stoolap_mariadb.Common.{◌≡◌, arith, refl, inl, false, some, [], ◌∷◌, codes, bytes_eq}
use stoolap_mariadb.Common.Int.{ℤ, pos}
use stoolap_mariadb.Types.{field_enc, text_is_utf8, TimeType}
use stoolap_mariadb.Types.Hex.{to_hex, bytes_lt, bytes_lt-to_hex}
use stoolap_mariadb.Types.Encode.{Cell, encode_field}
use stoolap_mariadb.Types.Store.{
  timestamp, chars, store_text, store_utf8, store_int, store_text-to_hex, store_int-encode_field,
  store_text-varchar, varchar_value,
}
use stoolap_mariadb.Samples.{name_field, latin1_field, latin1, time_field}

bytes_lt-to_hex_example :
    bytes_lt (to_hex (9 ∷ 200 ∷ [])) (to_hex (16 ∷ [])) ≡ bytes_lt (9 ∷ 200 ∷ []) (16 ∷ [])
bytes_lt-to_hex_example =
    bytes_lt-to_hex (9 ∷ 200 ∷ []) (16 ∷ []) (omega arith, (omega arith, tt)) (omega arith, tt)

-- A time is its packed number here.
unpacked : ℤ → TimeType → ℤ
unpacked v t = v

packed : ℤ → ℤ
packed v = v

store_text-to_hex_example :
    store_text {Time = ℤ} latin1_field (to_hex (233 ∷ 65 ∷ []))
    ≡ chars (233 ∷ 65 ∷ []) (some latin1)
unfolding field_enc text_is_utf8 bytes_eq
store_text-to_hex_example =
    store_text-to_hex {Time = ℤ} latin1_field (233 ∷ 65 ∷ []) (ground arith)
      (omega arith, (omega arith, tt))

abbrev time_cell : Cell ℤ
time_cell = record {
  is_null = false;
  val_int = pos 0;
  val_real = 0;
  val_str = [];
  get_date = λ time_only. pos 0;
  timestamp_secs = pos 12;
  timestamp_usec = 345;
}

store_int-encode_field_example :
    store_int unpacked time_field (pos 12000345) ≡ timestamp (pos 12) 345
unfolding field_enc encode_field
store_int-encode_field_example =
    store_int-encode_field unpacked packed time_field time_cell 12 (pos 12000345) refl refl
      (omega arith) refl

store_text-varchar_example : varchar_value 1 (2 ∷ codes "ab") ≡ codes "ab"
unfolding store_text store_utf8 text_is_utf8
store_text-varchar_example =
    store_text-varchar {Time = ℤ} name_field (codes "ab") (2 ∷ codes "ab") (inl (refl, omega arith))
      refl
