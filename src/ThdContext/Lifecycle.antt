-- ===== src/ThdContext/Lifecycle.antt =====
-- The transaction handle of a connection: each one that the FFI opens is ended once, by commit,
-- rollback or the destructor, and no other is ever passed to it.
use stoolap_mariadb.Common.{
  ℕ, ◌≡◌, arith, if◌then◌else◌, Option, none, some, List, [], ◌∷◌, Bytes, ◌==◌,
}
use stoolap_mariadb.Common.Int.{ℤ}
use stoolap_mariadb.ThdContext.{
  State, TxCall, begins, commits, rolls_back, Begun, begin, commit, rollback, destroy,
  note_records_dirty, records_set, records_invalidate_local, records_adjust, take_savepoint_id,
  invalidate_dirty_records,
}

-- A log of FFI calls read from its oldest end: the handle that is open after it, or none where a
-- call was wrong (a second open transaction, a handle that is not open).
abbrev ends : Option (Option ℕ) → ℕ → Option (Option ℕ)
ends (some (some raw)) h = if raw == h then some none else none
ends _ h = none

abbrev pub open_after : List TxCall → Option (Option ℕ)
open_after [] = some none
open_after (begins h isolation ∷ trace) = elim (open_after trace) [
  | some o ↦ elim o [ none ↦ some (some h) | some _ ↦ none ]
  | none ↦ none
]
open_after (commits h ∷ trace) = ends (open_after trace) h
open_after (rolls_back h ∷ trace) = ends (open_after trace) h

-- The calls so far were right, and the handle they leave open is the one that the context holds.
abbrev pub OwnsTx : State → Type 0
OwnsTx s = open_after s.trace ≡ some s.tx

pub data Call : Type 0 where
  does_begin : ℕ → Option ℕ → Begun → Call
  does_commit does_rollback : ℕ → Call
  notes_dirty forgets : Bytes → Call
  sets : Bytes → ℕ → Call
  adjusts : Bytes → ℤ → Call
  savepoint invalidates : Call

abbrev pub after_call : State → Call → State
after_call s (does_begin isolation clone answer) = (begin s isolation clone answer).0
after_call s (does_commit answer) = (commit s answer).0
after_call s (does_rollback answer) = (rollback s answer).0
after_call s (notes_dirty table) = note_records_dirty s table
after_call s (forgets table) = records_invalidate_local s table
after_call s (sets table count) = records_set s table count
after_call s (adjusts table delta) = records_adjust s table delta
after_call s savepoint = (take_savepoint_id s).0
after_call s invalidates = invalidate_dirty_records s

abbrev pub after_calls : State → List Call → State
after_calls s [] = s
after_calls s (c ∷ cs) = after_calls (after_call s c) cs

after_call-OwnsTx : (s : State) (c : Call) → OwnsTx s → OwnsTx (after_call s c)
unfolding begin commit rollback note_records_dirty records_set records_invalidate_local
    records_adjust take_savepoint_id invalidate_dirty_records
after_call-OwnsTx s (does_begin isolation clone answer) h = ground arith
after_call-OwnsTx s _ h = ground arith

after_calls-OwnsTx : (s : State) (cs : List Call) → OwnsTx s → OwnsTx (after_calls s cs)
after_calls-OwnsTx s [] h = h
after_calls-OwnsTx s (c ∷ cs) h = after_calls-OwnsTx (after_call s c) cs (after_call-OwnsTx s c h)

-- From a context that owns its transaction, after any calls whatever the FFI answers, the
-- destructor leaves no transaction open: every handle that was opened is ended exactly once, and
-- none is passed to the FFI after that.
pub destroy-ends_all :
    (s : State) (cs : List Call)
    → OwnsTx s
    → open_after (destroy (after_calls s cs)).trace ≡ some none
unfolding destroy
destroy-ends_all s cs h = ground (arith, after_calls-OwnsTx s cs h)
