-- ===== src/Bridge/RowCounts.antt =====
-- The cross-handler row count cache of Engine as a map from tables to counts: an entry holding
-- uint64_max is no entry.
use stoolap_mariadb.Common.{
  ℕ, ◌≡◌, ◌≢◌, arith, if◌then◌else◌, Option, none, some, Bytes, bytes_eq, bytes_eq_iff, find,
  find-put, find-erase, ◌==◌, Option-cases, inl, inr,
}
use stoolap_mariadb.Bridge.{
  Engine, uint64_max, records_lookup, records_set, records_invalidate, records_drop,
}

pub data RowCall : Type 0 where
  sets : Bytes → ℕ → RowCall
  invalidates drops : Bytes → RowCall

abbrev pub after_call : Engine → RowCall → Engine
after_call e (sets name count) = records_set e name count
after_call e (invalidates name) = records_invalidate e name
after_call e (drops name) = records_drop e name

-- What each call does to the map.
abbrev pub count_after : (Bytes → Option ℕ) → RowCall → Bytes → Option ℕ
count_after m (sets name count) k =
    if bytes_eq name k then (if count == uint64_max then none else some count) else m k
count_after m (invalidates name) k = if bytes_eq name k then none else m k
count_after m (drops name) k = if bytes_eq name k then none else m k

-- Each call changes what lookups find for its own table, as the map does, and for no other table:
-- a set count is found (unless it is the invalid mark), an invalidated or dropped one is not.
pub records_lookup-after_call :
    (e : Engine) (call : RowCall) (k : Bytes)
    → records_lookup (after_call e call) k ≡ count_after (records_lookup e) call k
unfolding records_lookup records_set records_invalidate records_drop
records_lookup-after_call e (sets name count) k = ground (arith, find-put name k count e.records)
records_lookup-after_call e (invalidates name) k = elim (Option-cases (find name e.records)) [
  | inl p ↦ ground (arith, bytes_eq_iff name k)
  | inr (n, p) ↦ ground (arith, find-put name k uint64_max e.records)
]
records_lookup-after_call e (drops name) k = ground (arith, find-erase name k e.records)

pub records_lookup-ne :
    (e : Engine) (k : Bytes) (count : ℕ) → records_lookup e k ≡ some count → count ≢ uint64_max
unfolding records_lookup
records_lookup-ne e k count h = ground arith
