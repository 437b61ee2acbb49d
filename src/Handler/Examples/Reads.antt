-- ===== src/Handler/Examples/Reads.antt =====
-- Index reads and ranges at concrete values.
use stoolap_mariadb.Common.{
  ℕ, ◌*◌, ◌≡◌, ◌⊎◌, arith, refl, Bool, true, false, ◌==◌, none, some, List, [], ◌∷◌, Bytes,
  get_elem?, if◌then◌else◌, bytes_eq,
}
use stoolap_mariadb.Common.Int.{ℤ, pos, sub_ℕ}
use stoolap_mariadb.Types.{CharSet, varchar, is_string_type, field_enc, text_is_utf8}
use stoolap_mariadb.Handler.Schema.{KeyPart}
use stoolap_mariadb.Handler.Counts.{cached_records}
use stoolap_mariadb.Handler.Estimates.{
  records_in_range, ci_field, scan_time, keyread_time, halves, records_in_range-keyread_time,
}
use stoolap_mariadb.ThdContext.{begun}
use stoolap_mariadb.Handler.Keys.{
  Bytewise, key_part_needs_filter, key_part_pads, index_flags, encoded_type,
}
use stoolap_mariadb.Handler.Scan.{
  Scan, row, RangeFilter, read_range_next, range_in_bounds, FindFlag, key_exact, key_or_next,
  after_key,
}
use stoolap_mariadb.Handler.Scan.Rows.{kept}
use stoolap_mariadb.Handler.Scan.Calls.{all_rows, read_range_next_lem}
use stoolap_mariadb.Handler.IndexRead.{
  ReadPlan, KeyBound, index_read_map_plan, count_parts, op_of, op_eq, op_ge, op_le, bound_key,
  bound_range,
}
use stoolap_mariadb.Handler.IndexRead.Order.{index_read_map_plan-order, lex, Cmp, equal, less}
use stoolap_mariadb.Handler.IndexRead.Filter.{index_read_map_plan-filter}
use stoolap_mariadb.Handler.Range.{KeyRange, read_range_filtered_plan, const_prefix}
use stoolap_mariadb.Handler.Range.Order.{read_range_filtered_plan-order, ordered_fields}
use stoolap_mariadb.Samples.{sample_handler, class_of, folded_key, id_key, folded_field, part_of}

-- A row is a number; its key is one byte.
first_byte : Bytes → ℕ
first_byte [] = 0
first_byte (c ∷ s) = c

compared : Bytes → ℕ → ℤ
unfolding first_byte
compared key r = sub_ℕ r (first_byte key)

abbrev scan : Scan ℕ
scan = record {
  reading = true;
  pending =
      row 3 (pos 1) false ∷ row 5 (pos 2) false ∷ row 5 (pos 3) false ∷ row 9 (pos 4) true ∷ [];
  read_rows = 0;
  buffered_rows = 0;
  cur_row_id = pos 0;
  cur_row_id_valid = false;
  key_filter = some (5 ∷ []);
  range_filter = none;
}

abbrev range : RangeFilter
range = record { start = some (after_key, 3 ∷ []); end = some (8 ∷ []) }

read_range_next_lem_example :
    all_rows
      (read_range_next class_of compared compared)
      5
      (record scan { range_filter = some range })
    ≡ kept (range_in_bounds class_of compared compared range) (3 ∷ 5 ∷ 5 ∷ 9 ∷ [])
read_range_next_lem_example =
    read_range_next_lem class_of compared compared range 5
      (record scan { range_filter = some range }) refl (omega arith)

abbrev map : List Bool
map = true ∷ []

-- An exact lookup of a folded text, in key order: stoolap orders by the part after it.
abbrev exact_bound : KeyBound
exact_bound = record {
  key = 7 ∷ 8 ∷ [];
  nparts = 1;
  op = op_eq;
  skip = true ∷ [];
  pad = false ∷ [];
  mode = bound_key;
}

abbrev exact_plan : ReadPlan
exact_plan = record {
  bounds = exact_bound ∷ [];
  order = 0 ∷ [];
  desc = false;
  key_filter = some (7 ∷ 8 ∷ []);
}

-- Two rows with the same text, the first with the smaller id.
by_id : ℕ → Cmp
by_id f = if f == 0 then less else equal

same_text :
    (j : ℕ) (kp : KeyPart)
    → get_elem? folded_key.parts j ≡ some kp
    → j ≡ 0
    → by_id kp.field.field_index ≡ equal
unfolding by_id
same_text j kp g e = ground arith

index_read_map_plan-order_example : lex by_id (0 ∷ []) ≡ lex by_id (2 ∷ 0 ∷ [])
unfolding index_read_map_plan op_of count_parts key_part_needs_filter key_part_pads is_string_type
index_read_map_plan-order_example =
    index_read_map_plan-order false true folded_key (7 ∷ 8 ∷ []) map key_exact exact_plan
      exact_bound by_id refl refl refl refl (λ j kp g t. same_text j kp g (ground arith))

index_read_map_plan-filter_example :
    (((true ≡ true) × (exact_plan.key_filter ≡ some (7 ∷ 8 ∷ [])))
      ⊎ ((true ≡ false)
          × (false ≡ false)
          × ((is_string_type varchar ≡ false) ⊎ Bytewise false folded_field.charset)))
    × ((false ≡ false)
        ⊎ ((true ≡ true)
            × (false ≡ false)
            × (false ≡ false)
            × ((cs : CharSet) × (folded_field.charset ≡ some cs)
                × (cs.binsort ≡ true)
                × (cs.nopad ≡ false))))
unfolding index_read_map_plan op_of count_parts key_part_needs_filter key_part_pads is_string_type
index_read_map_plan-filter_example =
    index_read_map_plan-filter false true folded_key (7 ∷ 8 ∷ []) map key_exact exact_plan
      exact_bound 0 (part_of folded_field) refl refl refl refl (omega arith)

abbrev from_id : KeyRange
from_id = record { key = 7 ∷ 8 ∷ []; map = map; flag = key_or_next }

abbrev to_id : KeyRange
to_id = record { key = 9 ∷ 9 ∷ []; map = map; flag = after_key }

abbrev direct_plan : ReadPlan
direct_plan = record {
  bounds =
      record { key = 7 ∷ 8 ∷ []; nparts = 1; op = op_ge; skip = []; pad = []; mode = bound_range }
      ∷ record { key = 9 ∷ 9 ∷ []; nparts = 1; op = op_le; skip = []; pad = []; mode = bound_range }
      ∷ [];
  order = 0 ∷ [];
  desc = false;
  key_filter = none;
}

-- A range over one folded text: the bounds agree on it, the order is by id.
abbrev same_start : KeyRange
same_start = record { key = 7 ∷ 8 ∷ []; map = map; flag = key_exact }

abbrev same_end : KeyRange
same_end = record { key = 7 ∷ 8 ∷ []; map = map; flag = after_key }

abbrev filtered_plan : ReadPlan
filtered_plan = record { bounds = []; order = 0 ∷ []; desc = false; key_filter = none }

abbrev same_range : RangeFilter
same_range = record { start = some (key_exact, 7 ∷ 8 ∷ []); end = some (7 ∷ 8 ∷ []) }

read_range_filtered_plan-order_example :
    lex by_id (0 ∷ [])
    ≡ lex by_id (
        ordered_fields 0
          (const_prefix folded_key (some same_start) (some same_end))
          []
          folded_key.parts)
unfolding read_range_filtered_plan index_flags key_part_needs_filter key_part_pads is_string_type
    encoded_type field_enc text_is_utf8 bytes_eq
read_range_filtered_plan-order_example =
    read_range_filtered_plan-order false [] folded_key (some same_start) (some same_end)
      filtered_plan same_range by_id refl (λ j kp g t. same_text j kp g (ground arith))

-- The unique key's value 5
abbrev five : FindFlag → KeyRange
five flag = record { key = 5 ∷ []; map = true ∷ []; flag = flag }

records_in_range-keyread_time_example :
    let asked =
      records_in_range false
        (λ k. none)
        (id_key ∷ folded_key ∷ [])
        sample_handler
        none
        (begun 4)
        none
        1
        none
        none in
    (asked.1 ≡ 8)
    × (keyread_time false (id_key ∷ folded_key ∷ []) sample_handler 1 3 ≡ halves (8 * 3))
unfolding scan_time cached_records ci_field is_string_type
records_in_range-keyread_time_example =
    records_in_range-keyread_time (λ k. none) (id_key ∷ folded_key ∷ []) sample_handler none
      (begun 4) none 1 0 3 folded_key (part_of folded_field) none none refl refl refl

-- One value of a unique key is one row.
records_in_range_test :
    (records_in_range false
      (λ k. none)
      (id_key ∷ [])
      sample_handler
      none
      (begun 4)
      none
      0
      (some (five key_exact))
      (some (five after_key))).1
    ≡ 1
unfolding records_in_range cached_records ci_field is_string_type
records_in_range_test = refl
