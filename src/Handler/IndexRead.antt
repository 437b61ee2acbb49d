-- ===== src/Handler/IndexRead.antt =====
-- index_read_map and index_end_read of src/ha_stoolap.cc: the read that they ask of stoolap, its
-- bound, the parts that MariaDB filters, and the order. A mask is the list of its bits from the
-- lowest, one to a key part (MariaDB has 32 parts at most).
pub mod Order
pub mod Filter
use stoolap_mariadb.Common.{
  ℕ, zero, suc, ◌+◌, ◌-◌, ◌≤◌, ◌<◌, ◌≡◌, ◌≢◌, ◌⊎◌, inl, inr, arith, refl, Bool, true, false, not,
  ◌&&◌, ◌||◌, List, [], ◌∷◌, Option, none, some, Bytes, ltb, leb, ◌==◌, if◌then◌else◌, length, take,
  get_elem?, Bool-cases,
}
use stoolap_mariadb.Types.{Field}
use stoolap_mariadb.Handler.Schema.{
  KeyPart, Key, Rc, ok, unsupported, key_not_found, internal_error, end_of_file,
}
use stoolap_mariadb.Handler.Keys.{key_part_needs_filter, key_part_pads}
use stoolap_mariadb.Handler.Scan.{
  FindFlag, key_exact, key_or_next, key_or_prev, after_key, before_key, prefix, prefix_last,
  prefix_last_or_prev, mbr,
}

-- STOOLAP_OP_*, STOOLAP_BOUND_*
pub data Op : Type 0 where
  op_eq op_gt op_ge op_lt op_le : Op

pub data BoundMode : Type 0 where
  bound_key bound_leading bound_range : BoundMode

-- StoolapKeyBound; `key` is the key that key_restore puts into its record, cut to its parts.
pub record KeyBound : Type 0 where
  pub key : Bytes
  pub nparts : ℕ
  pub op : Op
  pub skip : List Bool
  pub pad : List Bool
  pub mode : BoundMode

-- The arguments of open_read, and what index_next is to filter by.
pub record ReadPlan : Type 0 where
  pub bounds : List KeyBound
  pub order : List ℕ
  pub desc : Bool
  pub key_filter : Option Bytes

-- The comparison on the last bound part, and whether the read goes backwards
unfoldable pub op_of : FindFlag → Option (Op × Bool)
op_of key_exact = some (op_eq, false)
op_of prefix = some (op_eq, false)
op_of key_or_next = some (op_ge, false)
op_of after_key = some (op_gt, false)
op_of key_or_prev = some (op_le, true)
op_of before_key = some (op_lt, true)
op_of _ = none

abbrev pub bit : List Bool → ℕ → Bool
bit [] i = false
bit (b ∷ bs) zero = b
bit (b ∷ bs) (suc i) = bit bs i

-- The leading parts that a keypart_map names, and the length of their key.
unfoldable pub count_parts : List KeyPart → List Bool → ℕ × ℕ
count_parts [] map = (0, 0)
count_parts (kp ∷ kps) [] = (0, 0)
count_parts (kp ∷ kps) (b ∷ map) =
    let (nparts, klen) = count_parts kps map in
    if b then (suc nparts, kp.store_length + klen) else (0, 0)

abbrev pub is_exact : FindFlag → Bool
is_exact key_exact = true
is_exact _ = false

abbrev pub is_eq : Op → Bool
is_eq op_eq = true
is_eq _ = false

mask : (KeyPart → Bool) → List KeyPart → List Bool
mask test [] = []
mask test (kp ∷ kps) = test kp ∷ mask test kps

any : List Bool → Bool
any [] = false
any (b ∷ bs) = b || any bs

-- The ORDER BY columns, from part `i` on
order_from : ℕ → ℕ → Bool → List Bool → List KeyPart → List ℕ
order_from i nparts last_eq filter [] = []
order_from i nparts last_eq filter (kp ∷ kps) =
    let rest = order_from (suc i) nparts last_eq filter kps in
    if bit filter i
    then rest
    else if ltb (i + 1) nparts || ((i + 1 == nparts) && last_eq)
    then rest
    else kp.field.field_index ∷ rest

abbrev pub all_fields : List KeyPart → List ℕ
all_fields [] = []
all_fields (kp ∷ kps) = kp.field.field_index ∷ all_fields kps

planned : Bool → Bool → Key → Bytes → ℕ → ℕ → FindFlag → Op → Bool → ReadPlan
unfolding mask any order_from
planned trust_bin sorted ki key nparts klen flag op desc =
    let bound_parts = take nparts ki.parts in
    let filter = if is_exact flag then mask (key_part_needs_filter trust_bin) bound_parts else [] in
    let pad = if is_exact flag then mask (key_part_pads trust_bin) bound_parts else [] in
    let exact_unique = is_exact flag && (nparts == length ki.parts) && ki.no_same in
    record {
      bounds =
          record {
            key = take klen key;
            nparts = nparts;
            op = op;
            skip = filter;
            pad = pad;
            mode = bound_key;
          }
          ∷ [];
      order =
          if not exact_unique && (sorted || desc)
          then order_from 0 nparts (is_eq op) filter ki.parts
          else [];
      desc = desc;
      key_filter = if any filter then some (take klen key) else none;
    }

-- A plan, or the code where nothing is read.
pub data Planned : Type 0 where
  refused : Rc → Planned
  reads : ReadPlan → Planned

plan_parts : Bool → Bool → Key → Bytes → ℕ × ℕ → FindFlag → Op × Bool → Planned
unfolding planned
plan_parts trust_bin sorted ki key (nparts, klen) flag (op, desc) =
    if nparts == 0
    then refused key_not_found
    else reads (planned trust_bin sorted ki key nparts klen flag op desc)

unfoldable pub index_read_map_plan : Bool → Bool → Key → Bytes → List Bool → FindFlag → Planned
unfolding plan_parts
index_read_map_plan trust_bin sorted ki key map flag = elim (op_of flag) [
  | none ↦ refused unsupported
  | some o ↦ plan_parts trust_bin sorted ki key (count_parts ki.parts map) flag o
]

unfoldable pub index_end_read_plan : Key → Bool → ReadPlan
index_end_read_plan ki desc = record {
  bounds = [];
  order = all_fields ki.parts;
  desc = desc;
  key_filter = none;
}
