-- ===== src/Handler/Counts.antt =====
-- The row counts of src/ha_stoolap.cc: the handler's own, over those of the connection's transaction
-- and of the Engine. A Handler is the state of ha_stoolap that they use, with its THD.
pub mod Layers
use stoolap_mariadb.Common.{
  ℕ, zero, suc, ◌+◌, ◌-◌, ◌≤◌, ◌≡◌, ◌≢◌, arith, refl, Bool, true, false, not, ◌&&◌, ◌||◌, List, [],
  ◌∷◌, Option, none, some, Bytes, is_empty, ltb, leb, ◌==◌, if◌then◌else◌, length, find,
  Option-cases, inl, inr,
}
use stoolap_mariadb.Common.Int.{ℤ, pos, negsuc, pos_part}
use stoolap_mariadb.Bridge
use stoolap_mariadb.Bridge.{Engine, uint64_max}
use stoolap_mariadb.ThdContext.{
  State, Begun, has_tx, db, note_records_dirty, records_lookup, records_set, records_adjust,
  records_invalidate_local,
}
use stoolap_mariadb.Packet.{
  Read, done, truncated, fault, ◌>>=◌, byte_at, pkt_le32, pkt_i64, pkt_parse_header,
}
use stoolap_mariadb.Handler.Schema.{Rc, ok, is_ok, internal_error}
use stoolap_mariadb.Handler.Errors.{ErrorClass, report_stoolap_error}
use stoolap_mariadb.Handler.Session.{Thd, get_thd_ctx, with_ctx, register_trx}

-- `live_counts`: g_stats.records_live_counts. A statement's handler has a THD.
pub record Handler : Type 0 where
  pub table : Bytes
  pub cached_records : ℕ
  pub cached_records_valid : Bool
  pub stats_records : ℕ
  pub live_counts : ℕ
  pub thd : Thd

abbrev in_tx : Handler → Bool
in_tx h = has_tx (get_thd_ctx h.thd)

through_ctx : Handler → State → Handler
unfolding with_ctx
through_ctx h s = record h { thd = with_ctx h.thd s }

through_engine : Handler → Engine → Handler
through_engine h e = record h { thd = record (h.thd) { engine = e } }

unfoldable pub invalidate_records_cache : Handler → Handler
unfolding through_ctx through_engine get_thd_ctx
invalidate_records_cache h =
    let h' = record h { cached_records_valid = false } in
    if is_empty h.table
    then h'
    else let s = get_thd_ctx h.thd in
      if has_tx s
      then through_ctx h' (records_invalidate_local (note_records_dirty s h.table) h.table)
      else through_engine (through_ctx h' s) (Bridge.records_invalidate h.thd.engine h.table)

-- The handler's valid count moved by `delta`; out of a uint64_t none is left, of the transaction's
-- neither.
adjust_own : Handler → State → ℤ → Handler
unfolding through_ctx
adjust_own h s (negsuc n) =
    let dec = n + 1 in
    if ltb h.cached_records dec
    then record (through_ctx h (records_invalidate_local s h.table)) {
      cached_records_valid = false;
    }
    else record (through_ctx h s) {
      cached_records = h.cached_records - dec;
      stats_records = h.cached_records - dec;
    }
adjust_own h s (pos inc) =
    if ltb (uint64_max - h.cached_records) inc
    then record (through_ctx h (records_invalidate_local s h.table)) {
      cached_records_valid = false;
    }
    else record (through_ctx h s) {
      cached_records = h.cached_records + inc;
      stats_records = h.cached_records + inc;
    }

unfoldable pub adjust_records_cache : Handler → ℤ → Handler
unfolding adjust_own through_ctx through_engine get_thd_ctx
adjust_records_cache h delta =
    if is_empty h.table
    then h
    else let s = get_thd_ctx h.thd in
      if has_tx s
      then (let s' = records_adjust (note_records_dirty s h.table) h.table delta in
          if h.cached_records_valid then adjust_own h s' delta else through_ctx h s')
      else through_engine (record (through_ctx h s) { cached_records_valid = false })
          (Bridge.records_invalidate h.thd.engine h.table)

unfoldable pub set_count_exact : Handler → ℕ → Handler
unfolding through_engine
set_count_exact h value =
    let h' = record h {
      cached_records = value;
      cached_records_valid = true;
      stats_records = value;
    } in
    if is_empty h.table
    then h'
    else through_engine h' (Bridge.records_set h.thd.engine h.table value)

unfoldable pub keep_count : Handler → ℕ → Handler
keep_count h n = record h { cached_records = n; cached_records_valid = true; stats_records = n }

-- What the FFI's packed result of SELECT COUNT(*) holds: one row of one INTEGER, floored at 0.
unfoldable pub counted_rows : Bytes → Read ℕ
counted_rows buf = do
  (p, cols) ← pkt_parse_header buf 0
  if not (cols == 1) || ltb (length buf) (p + 4 + 1 + 8) then truncated else do
    rows ← pkt_le32 buf p
    if not (rows == 1) then truncated else do
      tag ← byte_at buf (p + 4)
      if not (tag == 1) then truncated else do n ← pkt_i64 buf (p + 5); done (pos_part n)

-- The transaction's count, or else the Engine's outside a transaction.
shared_count : Handler → Option ℕ
unfolding get_thd_ctx
shared_count h =
    if in_tx h
    then records_lookup (get_thd_ctx h.thd) h.table
    else Bridge.records_lookup h.thd.engine h.table

live_count : Handler → Read ℕ → Handler
unfolding through_ctx get_thd_ctx keep_count
live_count h (done n) =
    if in_tx h
    then through_ctx (keep_count h n) (records_set (get_thd_ctx h.thd) h.table n)
    else keep_count h n
live_count h truncated = h
live_count h fault = h

-- The live count runs through the connection's own database handle, cloned on its first use.
look_up : Handler → Option ℕ → Option ℕ → Option Bytes → Handler
unfolding keep_count live_count through_ctx get_thd_ctx
look_up h (some n) clone packet = keep_count h n
look_up h none clone packet =
    let h' = record (through_ctx h (db (get_thd_ctx h.thd) clone)) {
      live_counts = h.live_counts + 1;
    } in
    elim packet [ none ↦ h' | some buf ↦ live_count h' (counted_rows buf) ]

-- Registered where the session is in an explicit transaction, else as it is.
registered : Handler → Option ℕ → Begun → Handler × Rc
unfolding through_ctx
registered h clone answer =
    if h.thd.in_explicit_txn
    then (let (thd, rc) = register_trx h.thd clone answer in (record h { thd = thd }, rc))
    else (through_ctx h (get_thd_ctx h.thd), ok)

-- The handler after the call, and what it returns; `packet` is what the FFI gives for the live
-- count, none where it fails.
unfoldable pub cached_records : Handler → Option ℕ → Begun → Option Bytes → Handler × ℕ
unfolding registered shared_count look_up
cached_records h clone answer packet =
    if h.cached_records_valid
    then (h, h.cached_records)
    else if is_empty h.table
    then (h, h.stats_records)
    else let (h1, rc) = registered h clone answer in
      if not (is_ok rc)
      then (h1, h1.stats_records)
      else let h2 = look_up h1 (shared_count h1) clone packet in (h2, h2.stats_records)

not_zero : Handler → Handler
not_zero h = if h.stats_records == 0 then record h { stats_records = 1000 } else h

-- info(HA_STATUS_VARIABLE): it makes no context and asks the FFI nothing.
unfoldable pub info_variable : Handler → Handler
unfolding shared_count keep_count not_zero get_thd_ctx
info_variable h =
    if is_empty h.table
    then not_zero h
    else if h.cached_records_valid
    then not_zero (record h { stats_records = h.cached_records })
    else elim (shared_count h) [ none ↦ not_zero h | some n ↦ not_zero (keep_count h n) ]

-- truncate: `answer` is none for STOOLAP_OK, else the message.
unfoldable pub truncate : (Bytes → ErrorClass × Option ℕ) → Handler → Option Bytes → Handler × Rc
unfolding through_engine
truncate error_class h answer = if is_empty h.table then (h, internal_error) else elim answer [
  | some message ↦ (h, (report_stoolap_error error_class message).rc)
  | none ↦
      let h' = set_count_exact h 0 in (through_engine h' (Bridge.ai_invalidate h'.thd.engine), ok)
]
