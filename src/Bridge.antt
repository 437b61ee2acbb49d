-- ===== src/Bridge.antt =====
-- src/stoolap_bridge.cc and the inline functions of src/stoolap_bridge.h: the process-wide Engine.
-- Its mutexes make each method one step; the state they guard is the record below. A handle is
-- the number of the pointer that the FFI gave.
mod Ladder
pub mod Cursors
pub mod AutoIncrement
pub mod RowCounts
pub mod TableName
pub mod Examples
use stoolap_mariadb.Common.{
  ℕ, ◌+◌, ◌-◌, ◌*◌, ◌/◌, ◌%◌, ◌^◌, Bool, true, false, not, ◌&&◌, Option, none, some, List, [], ◌∷◌,
  Bytes, ltb, leb, ◌==◌, if◌then◌else◌, find, put, erase, member, add_member, remove_member,
}

abbrev pub word : ℕ
word = 2 ^ 64

abbrev pub uint64_max : ℕ
uint64_max = 2 ^ 64 - 1

pub record Engine : Type 0 where
  pub db : Option ℕ
  pub last_error : Bytes
  pub reconciled : List Bytes
  pub records : List (Bytes × ℕ)
  pub ai_next : List (Bytes × ℕ)

abbrev pub fresh : Engine
fresh = record { db = none; last_error = []; reconciled = []; records = []; ai_next = [] }

-- What stoolap_open gave: a handle, or a status with the message of stoolap_errmsg(NULL).
pub data Opened : Type 0 where
  opened : ℕ → Opened
  failed : ℕ → Option Bytes → Opened

abbrev status_ok : ℕ
status_ok = 0

open_message : Option Bytes → Bytes → Bytes
open_message none default_message = default_message
open_message (some message) default_message = message

unfoldable pub open_engine : Engine → Bytes → Opened → Engine × ℕ
unfolding open_message
open_engine e default_message (opened raw) = (record e { db = some raw }, status_ok)
open_engine e default_message (failed rc message) =
    (record e { last_error = open_message message default_message }, rc)

unfoldable pub close : Engine → Engine
close e = record e { db = none }

-- `outcome`: the handle stoolap_clone gave, none for another status than STOOLAP_OK.
unfoldable pub clone_handle : Engine → Option ℕ → Option ℕ
clone_handle e outcome = elim e.db [ none ↦ none | some _ ↦ outcome ]

unfoldable pub is_reconciled : Engine → Bytes → Bool
is_reconciled e name = member name e.reconciled

unfoldable pub mark_reconciled : Engine → Bytes → Engine
mark_reconciled e name = record e { reconciled = add_member name e.reconciled }

unfoldable pub drop_reconciled : Engine → Bytes → Engine
drop_reconciled e name = record e { reconciled = remove_member name e.reconciled }

unfoldable pub clear_reconciled : Engine → Engine
clear_reconciled e = record e { reconciled = [] }

-- uint64_max stands for an invalidated count
not_invalidated : Option ℕ → Option ℕ
not_invalidated none = none
not_invalidated (some n) = if n == uint64_max then none else some n

unfoldable pub records_lookup : Engine → Bytes → Option ℕ
unfolding not_invalidated
records_lookup e name = not_invalidated (find name e.records)

unfoldable pub records_set : Engine → Bytes → ℕ → Engine
records_set e name count = record e { records = put name count e.records }

unfoldable pub records_invalidate : Engine → Bytes → Engine
records_invalidate e name = record e {
  records = elim (find name e.records) [
    | none ↦ e.records
    | some _ ↦ put name uint64_max e.records
  ];
}

unfoldable pub records_drop : Engine → Bytes → Engine
records_drop e name = record e { records = erase name e.records }

unfoldable pub round_up_to_modulus : ℕ → ℕ → ℕ → ℕ
round_up_to_modulus cur step offset_mod =
    if leb step 1
    then cur
    else let m = if leb step offset_mod then offset_mod % step else offset_mod in
      let cur_mod = cur % step in
      if cur_mod == m
      then cur
      else let bump = if ltb cur_mod m then m - cur_mod else step - (cur_mod - m) in
        if ltb (uint64_max - cur) bump then uint64_max else (cur + bump) % word

unfoldable pub advance_after_reservation : ℕ → ℕ → ℕ → ℕ
advance_after_reservation first count step =
    if leb count 1
    then (if first == uint64_max then uint64_max else (first + 1) % word)
    else let span_factor = count - 1 in
      if not (step == 0) && ltb (uint64_max / step) span_factor
      then uint64_max
      else let span = (span_factor * step) % word in
        if ltb (uint64_max - first) span
        then uint64_max
        else let last = (first + span) % word in
          if last == uint64_max then uint64_max else (last + 1) % word

-- `if (x == 0) x = 1;`
abbrev pub at_least_one : ℕ → ℕ
at_least_one x = if x == 0 then 1 else x

-- none: no cursor for the table, the C++ `return false`
unfoldable pub ai_reserve : Engine → Bytes → ℕ → ℕ → ℕ → Engine × Option ℕ
ai_reserve e name count step offset_mod = elim (find name e.ai_next) [
  | none ↦ (e, none)
  | some cursor ↦
      let f = round_up_to_modulus cursor (at_least_one step) offset_mod in
      (
        record e {
          ai_next =
              put name (advance_after_reservation f (at_least_one count) (at_least_one step))
                e.ai_next;
        },
        some f,
      )
]

-- operator[]: a missing entry is made, at 0
abbrev pub cursor_or_zero : Option ℕ → ℕ
cursor_or_zero none = 0
cursor_or_zero (some n) = n

unfoldable pub ai_seed_and_reserve : Engine → Bytes → ℕ → ℕ → ℕ → ℕ → Engine × ℕ
ai_seed_and_reserve e name seed count step offset_mod =
    let next = cursor_or_zero (find name e.ai_next) in
    let f =
      round_up_to_modulus (if ltb next seed then seed else next) (at_least_one step) offset_mod in
    (
      record e {
        ai_next =
            put name (advance_after_reservation f (at_least_one count) (at_least_one step))
              e.ai_next;
      },
      f,
    )

unfoldable pub ai_note_explicit : Engine → Bytes → ℕ → Engine
ai_note_explicit e name value =
    if value == uint64_max
    then e
    else let next = cursor_or_zero (find name e.ai_next) in
      record e {
        ai_next = put name (if leb next value then (value + 1) % word else next) e.ai_next;
      }

unfoldable pub ai_invalidate : Engine → Engine
ai_invalidate e = record e { ai_next = [] }
