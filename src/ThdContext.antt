-- ===== src/ThdContext.antt =====
-- src/stoolap_thd_context.cc and .h: the per-connection context. Its calls of the FFI that open or
-- end a transaction are kept in `trace`, the newest first; what the FFI answers is an argument.
pub mod Lifecycle
pub mod Counts
use stoolap_mariadb.Common.{
  ℕ, suc, ◌+◌, ◌-◌, ◌*◌, Bool, true, false, ◌||◌, Option, none, some, List, [], ◌∷◌, Bytes, ltb,
  leb, ◌==◌, if◌then◌else◌, find, put, erase, add_member, is_empty,
}
use stoolap_mariadb.Common.Int.{ℤ, pos, negsuc}
use stoolap_mariadb.Bridge.{Engine, uint64_max, clone_handle, records_invalidate}

-- STOOLAP_OK, STOOLAP_ERROR and the rest of the status codes
abbrev pub stoolap_ok : ℕ
stoolap_ok = 0

abbrev pub stoolap_error : ℕ
stoolap_error = 1

pub data TxCall : Type 0 where
  begins : ℕ → ℕ → TxCall
  commits rolls_back : ℕ → TxCall

pub record Context : Type 0 where
  pub db : Option ℕ
  pub tx : Option ℕ
  pub dirty_record_tables : List Bytes
  pub record_counts : List (Bytes × ℕ)
  pub next_savepoint_id : ℕ

abbrev pub new_context : Context
new_context = record {
  db = none;
  tx = none;
  dirty_record_tables = [];
  record_counts = [];
  next_savepoint_id = 0;
}

-- The context with what it acts on: the Engine that it was made with, and the FFI.
pub record State : Type 0 where
  pub ctx : Context
  pub open ctx use *
  pub engine : Engine
  pub trace : List TxCall

-- stoolap_begin_with_isolation: a handle, or another status than STOOLAP_OK
pub data Begun : Type 0 where
  begun : ℕ → Begun
  refused : ℕ → Begun

abbrev pub has_tx : State → Bool
has_tx s = elim s.tx [ none ↦ false | some _ ↦ true ]

-- `clone`: what stoolap_clone would give
unfoldable pub db : State → Option ℕ → State
unfolding clone_handle
db s clone = elim s.db [
  | none ↦ record s { ctx = record (s.ctx) { db = clone_handle s.engine clone } }
  | some _ ↦ s
]

start : State → ℕ → Begun → State × ℕ
start s isolation (refused rc) = (s, rc)
start s isolation (begun raw) = (
  record s {
    ctx = record (s.ctx) { record_counts = []; tx = some raw };
    trace = begins raw isolation ∷ s.trace;
  },
  stoolap_ok,
)

begin_on : State → Option ℕ → ℕ → Begun → State × ℕ
begin_on s none isolation answer = (s, stoolap_error)
begin_on s (some _) isolation answer = start s isolation answer

unfoldable pub begin : State → ℕ → Option ℕ → Begun → State × ℕ
unfolding db start begin_on
begin s isolation clone answer = elim s.tx [
  | some _ ↦ (s, stoolap_ok)
  | none ↦ let s' = db s clone in begin_on s' s'.db isolation answer
]

invalidate_each : List Bytes → Engine → Engine
invalidate_each [] e = e
invalidate_each (table ∷ tables) e = invalidate_each tables (records_invalidate e table)

unfoldable pub invalidate_dirty_records : State → State
unfolding invalidate_each
invalidate_dirty_records s = record s {
  engine = invalidate_each s.dirty_record_tables s.engine;
  ctx = record (s.ctx) { dirty_record_tables = [] };
}

-- `tx_.release()` and the FFI call that consumes the handle
release : State → ℕ → TxCall → State
release s raw call = record s { ctx = record (s.ctx) { tx = none }; trace = call ∷ s.trace }

clear_counts : State → State
clear_counts s = record s { ctx = record (s.ctx) { record_counts = [] } }

-- `answer`: what stoolap_tx_commit returns
unfoldable pub commit : State → ℕ → State × ℕ
unfolding invalidate_dirty_records release clear_counts
commit s answer = elim s.tx [
  | none ↦ (s, stoolap_ok)
  | some raw ↦ (clear_counts (invalidate_dirty_records (release s raw (commits raw))), answer)
]

unfoldable pub rollback : State → ℕ → State × ℕ
unfolding invalidate_dirty_records release clear_counts
rollback s answer = elim s.tx [
  | none ↦ (s, stoolap_ok)
  | some raw ↦ (clear_counts (invalidate_dirty_records (release s raw (rolls_back raw))), answer)
]

-- ~ThdContext
unfoldable pub destroy : State → State
unfolding invalidate_dirty_records release
destroy s = elim s.tx [
  | none ↦ invalidate_dirty_records s
  | some raw ↦ invalidate_dirty_records (release s raw (rolls_back raw))
]

-- `answer`: what stoolap_end_statement returns
unfoldable pub end_statement : State → ℕ → ℕ
end_statement s answer = elim s.db [ none ↦ stoolap_ok | some _ ↦ answer ]

unfoldable pub note_records_dirty : State → Bytes → State
note_records_dirty s table = if is_empty table then s else record s {
  ctx = record (s.ctx) { dirty_record_tables = add_member table s.dirty_record_tables };
}

unfoldable pub records_lookup : State → Bytes → Option ℕ
records_lookup s table = find table s.record_counts

unfoldable pub records_set : State → Bytes → ℕ → State
records_set s table count =
    if is_empty table
    then s
    else record s { ctx = record (s.ctx) { record_counts = put table count s.record_counts } }

unfoldable pub records_invalidate_local : State → Bytes → State
records_invalidate_local s table =
    if is_empty table
    then s
    else record s { ctx = record (s.ctx) { record_counts = erase table s.record_counts } }

-- The counts with `table`'s, which is `count`, moved by `delta`; out of a uint64_t it is dropped.
-- `-(delta + 1)` and `+ 1` give the magnitude of a negative one.
adjust_found : List (Bytes × ℕ) → Bytes → ℕ → ℤ → List (Bytes × ℕ)
adjust_found counts table count (negsuc n) =
    let magnitude = n + 1 in
    if ltb count magnitude then erase table counts else put table (count - magnitude) counts
adjust_found counts table count (pos magnitude) =
    if magnitude == 0
    then counts
    else if ltb (uint64_max - count) magnitude
    then erase table counts
    else put table (count + magnitude) counts

unfoldable pub records_adjust : State → Bytes → ℤ → State
unfolding adjust_found
records_adjust s table delta = elim (find table s.record_counts) [
  | none ↦ s
  | some count ↦ record s {
    ctx = record (s.ctx) { record_counts = adjust_found s.record_counts table count delta };
  }
]

unfoldable pub take_savepoint_id : State → State × ℕ
take_savepoint_id s = (
  record s { ctx = record (s.ctx) { next_savepoint_id = suc s.next_savepoint_id } },
  suc s.next_savepoint_id,
)
