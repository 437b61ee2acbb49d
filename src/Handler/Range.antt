-- ===== src/Handler/Range.antt =====
-- read_range_first and read_range_filtered of src/ha_stoolap.cc: the read that a range asks of
-- stoolap, and whether MariaDB's own comparison filters its rows.
pub mod Safety
pub mod Order
use stoolap_mariadb.Common.{
  ℕ, zero, suc, ◌+◌, ◌-◌, Bool, true, false, not, ◌&&◌, ◌||◌, List, [], ◌∷◌, ◌++◌, Option, none,
  some, Bytes, bytes_eq, ltb, ◌==◌, if◌then◌else◌, length, take, drop,
}
use stoolap_mariadb.Handler.Schema.{KeyPart, Key, Rc, unsupported}
use stoolap_mariadb.Handler.Keys.{key_part_needs_filter, key_part_pads, unsafe_part, index_flags}
use stoolap_mariadb.Handler.Scan.{
  FindFlag, key_exact, key_or_next, key_or_prev, after_key, before_key, prefix, RangeFilter,
}
use stoolap_mariadb.Handler.IndexRead.{
  Op, op_eq, op_gt, op_ge, op_lt, op_le, bound_key, bound_leading, bound_range, KeyBound, ReadPlan,
  count_parts, all_fields, bit, is_exact,
}

-- key_range
pub record KeyRange : Type 0 where
  pub key : Bytes
  pub map : List Bool
  pub flag : FindFlag

unsafe_parts : Bool → List KeyPart → List Bool → Bool
unsafe_parts trust_bin [] map = false
unsafe_parts trust_bin (kp ∷ kps) [] = false
unsafe_parts trust_bin (kp ∷ kps) (b ∷ map) =
    let rest = unsafe_parts trust_bin kps map in
    if b then (if unsafe_part trust_bin kp then true else rest) else false

unfoldable pub contains_unsafe_part : Bool → Key → Option KeyRange → Bool
unfolding unsafe_parts
contains_unsafe_part trust_bin ki none = false
contains_unsafe_part trust_bin ki (some r) = unsafe_parts trust_bin ki.parts r.map

op_for_start : FindFlag → Option Op
op_for_start key_exact = some op_eq
op_for_start prefix = some op_eq
op_for_start key_or_next = some op_ge
op_for_start after_key = some op_gt
op_for_start key_or_prev = some op_le
op_for_start before_key = some op_lt
op_for_start _ = none

op_for_end : FindFlag → Option Op
op_for_end after_key = some op_le
op_for_end before_key = some op_lt
op_for_end _ = none

bound_of : Bytes → ℕ × ℕ → Op → List KeyBound
bound_of key (nparts, klen) op =
    if nparts == 0
    then []
    else record {
      key = take klen key;
      nparts = nparts;
      op = op;
      skip = [];
      pad = [];
      mode = bound_range;
    }
      ∷ []

-- none: HA_ERR_UNSUPPORTED
add_bound : Key → (FindFlag → Option Op) → Option KeyRange → Option (List KeyBound)
unfolding bound_of
add_bound ki op_for none = some []
add_bound ki op_for (some r) = elim (op_for r.flag) [
  | none ↦ none
  | some op ↦ some (bound_of r.key (count_parts ki.parts r.map) op)
]

exact_unique : Key → Option KeyRange → Bool
exact_unique ki none = false
exact_unique ki (some r) =
    is_exact r.flag && ki.no_same && ((count_parts ki.parts r.map).0 == length ki.parts)

-- `direct` needs no filter; `filtered` is read_range_filtered's read.
pub data RangePlan : Type 0 where
  refused : Rc → RangePlan
  direct : ReadPlan → RangePlan
  filtered : ReadPlan → RangeFilter → RangePlan

joined : Key → Bool → Option (List KeyBound) → Option (List KeyBound) → RangePlan
joined ki ordered none ends = refused unsupported
joined ki ordered (some starts) none = refused unsupported
joined ki ordered (some starts) (some ends) = direct (record {
  bounds = starts ++ ends;
  order = if ordered then all_fields ki.parts else [];
  desc = false;
  key_filter = none;
})

part_safe : Bool → List KeyPart → Bool
part_safe trust_bin [] = false
part_safe trust_bin (kp ∷ kps) = index_flags kp && not (key_part_needs_filter trust_bin kp)

-- The leading parts on which two keys agree, byte for byte
abbrev pub agreeing : List KeyPart → List Bool → List Bool → Bytes → Bytes → ℕ
agreeing [] ms me ks ke = 0
agreeing (kp ∷ kps) (true ∷ ms) (true ∷ me) ks ke =
    let len = kp.store_length in
    let rest = agreeing kps ms me (drop len ks) (drop len ke) in
    if bytes_eq (take len ks) (take len ke) then suc rest else 0
agreeing (kp ∷ kps) _ _ ks ke = 0

abbrev pub const_prefix : Key → Option KeyRange → Option KeyRange → ℕ
const_prefix ki (some s) (some e) = agreeing ki.parts s.map e.map s.key e.key
const_prefix ki _ _ = 0

first_length : List KeyPart → ℕ
first_length [] = 0
first_length (kp ∷ kps) = kp.store_length

leading_bound : Key → Op → Option KeyRange → List KeyBound
unfolding first_length
leading_bound ki op none = []
leading_bound ki op (some r) =
    if bit r.map 0
    then record {
      key = take (first_length ki.parts) r.key;
      nparts = 1;
      op = op;
      skip = [];
      pad = [];
      mode = bound_leading;
    }
      ∷ []
    else []

padded_bound : Key → Option KeyRange → List KeyBound
unfolding first_length
padded_bound ki none = []
padded_bound ki (some s) =
    record {
      key = take (first_length ki.parts) s.key;
      nparts = 1;
      op = op_eq;
      skip = true ∷ [];
      pad = true ∷ [];
      mode = bound_key;
    }
    ∷ []

first_pads : Bool → List KeyPart → Bool
first_pads trust_bin [] = false
first_pads trust_bin (kp ∷ kps) = key_part_pads trust_bin kp

-- The order over the parts from `i` on, past the constant ones, up to the first that has none
filtered_order : ℕ → ℕ → List Bool → List KeyPart → List ℕ
filtered_order i consts where_const [] = []
filtered_order i consts where_const (kp ∷ kps) =
    let rest = filtered_order (suc i) consts where_const kps in
    if ltb i consts || bit where_const i
    then rest
    else if not (index_flags kp)
    then []
    else kp.field.field_index ∷ rest

start_of : Option KeyRange → Option (FindFlag × Bytes)
start_of none = none
start_of (some r) = some (r.flag, r.key)

end_of : Option KeyRange → Option Bytes
end_of none = none
end_of (some r) = some r.key

-- `where_const`: table->const_key_parts of the index
unfoldable pub read_range_filtered_plan :
    Bool → List Bool → Key → Option KeyRange → Option KeyRange → Bool → RangePlan
unfolding part_safe leading_bound padded_bound first_pads filtered_order start_of end_of
read_range_filtered_plan trust_bin where_const ki start end sorted =
    let consts = const_prefix ki start end in
    filtered
      (record {
        bounds =
            if part_safe trust_bin ki.parts
            then leading_bound ki op_ge start ++ leading_bound ki op_le end
            else if ltb 0 consts && first_pads trust_bin ki.parts
            then padded_bound ki start
            else [];
        order = if sorted then filtered_order 0 consts where_const ki.parts else [];
        desc = false;
        key_filter = none;
      })
      (record { start = start_of start; end = end_of end })

unfoldable pub read_range_first_plan :
    Bool → List Bool → Key → Option KeyRange → Option KeyRange → Bool → RangePlan
unfolding op_for_start op_for_end add_bound exact_unique joined
read_range_first_plan trust_bin where_const ki start end sorted =
    if contains_unsafe_part trust_bin ki start || contains_unsafe_part trust_bin ki end
    then read_range_filtered_plan trust_bin where_const ki start end sorted
    else joined ki (not (exact_unique ki start) && sorted) (add_bound ki op_for_start start)
        (add_bound ki op_for_end end)
