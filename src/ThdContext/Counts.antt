-- ===== src/ThdContext/Counts.antt =====
-- The transaction-local row counts, and the tables whose shared counts a transaction's end drops.
use stoolap_mariadb.Common.{
  ℕ, ◌+◌, ◌-◌, ◌≤◌, ◌≡◌, arith, if◌then◌else◌, leb, Option, none, some, List, [], ◌∷◌, Bytes, inl,
  inr, refl, Option-cases, bytes_eq, member, bytes_eq_iff, find, find-put, find-erase,
}
use stoolap_mariadb.Common.Int.{ℤ, pos, negsuc, pos_part, neg_part}
use stoolap_mariadb.Bridge.{Engine, uint64_max, records_invalidate}
use stoolap_mariadb.Bridge
use stoolap_mariadb.Bridge.RowCounts.{invalidates, records_lookup-after_call}
use stoolap_mariadb.ThdContext.{
  State, begin, commit, rollback, invalidate_each, adjust_found, records_lookup, records_adjust,
  Begun, begun, stoolap_ok,
}

-- count + delta, where that is a uint64_t
abbrev pub moved : ℕ → ℤ → Option ℕ
moved count delta =
    if leb (neg_part delta) (count + pos_part delta)
    then (if leb (count + pos_part delta - neg_part delta) uint64_max
        then some (count + pos_part delta - neg_part delta)
        else none)
    else none

abbrev pub moved_count : Option ℕ → ℤ → Option ℕ
moved_count none delta = none
moved_count (some count) delta = moved count delta

find-adjust_found :
    (counts : List (Bytes × ℕ)) (table k : Bytes) (count : ℕ) (delta : ℤ)
    → find table counts ≡ some count
    → count ≤ uint64_max
    → find k (adjust_found counts table count delta)
      ≡ (if bytes_eq table k then moved count delta else find k counts)
unfolding adjust_found
find-adjust_found counts table k count (negsuc n) p h = ground (
  arith,
  find-erase table k counts,
  find-put table k (count - (n + 1)) counts,
  bytes_eq_iff table k,
)
find-adjust_found counts table k count (pos n) p h =
    ground
      (arith, find-erase table k counts, find-put table k (count + n) counts, bytes_eq_iff table k)

-- A known count moves by exactly delta, or is forgotten where the sum is no uint64_t; an unknown
-- one stays unknown, and no other table's count changes.
pub records_lookup-records_adjust :
    (s : State) (table k : Bytes) (delta : ℤ)
    → ((count : ℕ) → find table s.record_counts ≡ some count → count ≤ uint64_max)
    → records_lookup (records_adjust s table delta) k ≡ (
        if bytes_eq table k then moved_count (records_lookup s table) delta else records_lookup s k)
unfolding records_lookup records_adjust
records_lookup-records_adjust s table k delta h = elim (Option-cases (find table s.record_counts)) [
  | inl p ↦ ground (arith, bytes_eq_iff table k)
  | inr (count, p) ↦
      ground (arith, find-adjust_found s.record_counts table k count delta p (h count p))
]

lookup-invalidate_each :
    (tables : List Bytes) (e : Engine) (k : Bytes)
    → Bridge.records_lookup (invalidate_each tables e) k
      ≡ (if member k tables then none else Bridge.records_lookup e k)
unfolding invalidate_each member
lookup-invalidate_each [] e k = refl
lookup-invalidate_each (table ∷ tables) e k = ground (
  arith,
  lookup-invalidate_each tables (records_invalidate e table) k,
  records_lookup-after_call e (invalidates table) k,
)

-- The end of an open transaction, by commit or rollback and whatever the FFI answers, closes it,
-- forgets its local counts and its dirty tables, and drops the shared counts of exactly the dirty
-- tables: the others stay as they were.
commit-records :
    (s : State) (raw answer : ℕ) (k : Bytes)
    → s.tx ≡ some raw
    → let s' = (commit s answer).0 in
      (s'.tx ≡ none)
      × (s'.record_counts ≡ [])
      × (s'.dirty_record_tables ≡ [])
      × (Bridge.records_lookup s'.engine k
          ≡ (if member k s.dirty_record_tables then none else Bridge.records_lookup s.engine k))
      × ((rollback s answer).0.engine ≡ s'.engine)
      × ((rollback s answer).0.ctx ≡ s'.ctx)
unfolding commit rollback
commit-records s raw answer k h =
    ground (arith, lookup-invalidate_each s.dirty_record_tables s.engine k)

-- A transaction starts with no local count, so none of an earlier snapshot is used in it.
pub begin-records :
    (s : State) (isolation raw : ℕ) (clone : Option ℕ) (answer : Begun) (k : Bytes)
    → s.tx ≡ none
    → (begin s isolation clone answer).0.tx ≡ some raw
    → (records_lookup (begin s isolation clone answer).0 k ≡ none)
      × (answer ≡ begun raw)
      × ((begin s isolation clone answer).1 ≡ stoolap_ok)
unfolding begin records_lookup find
begin-records s isolation raw clone answer k h h' = ground arith
