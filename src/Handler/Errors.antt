-- ===== src/Handler/Errors.antt =====
-- The errors of src/ha_stoolap.cc: the key that a duplicate names, and the code and the message that
-- a stoolap error becomes. stoolap_error_class is an argument.
use stoolap_mariadb.Common.{
  ℕ, zero, suc, ◌-◌, ◌≡◌, arith, refl, Bool, true, false, not, ◌&&◌, List, [], ◌∷◌, ◌++◌, Option,
  none, some, Bytes, ltb, ◌==◌, if◌then◌else◌, length, get_elem?, is_empty,
}
use stoolap_mariadb.Handler.Schema.{
  Key, Share, Rc, found_dupp_key, no_referenced_row, row_is_referenced, lock_deadlock, table_exist,
  no_such_table, unsupported, generic,
}

-- The loop over the keys from number `i` on.
unique_key_from : ℕ → ℕ → List Key → ℕ → Option ℕ
unique_key_from pk i [] n = none
unique_key_from pk i (k ∷ ks) n =
    let skip = unique_key_from pk (suc i) ks n in
    let rest = unique_key_from pk (suc i) ks (n - 1) in
    if i == pk then skip else if not k.no_same then skip else if n == 0 then some i else rest

abbrev pub composite : Option Key → Bool
composite none = false
composite (some k) = ltb 1 (length k.parts)

-- none: MAX_KEY
unfoldable pub unique_key_by_ordinal : Share → ℕ → Option ℕ
unfolding unique_key_from
unique_key_by_ordinal share n =
    if composite (get_elem? share.keys share.primary_key)
    then (if n == 0
        then some share.primary_key
        else unique_key_from share.primary_key 0 share.keys (n - 1))
    else unique_key_from share.primary_key 0 share.keys n

-- STOOLAP_ERR_*
pub data ErrorClass : Type 0 where
  unknown generic_error dup_key no_referenced row_referenced deadlock : ErrorClass
  table_exists no_table not_supported : ErrorClass

primary_or_zero : Share → ℕ
primary_or_zero share = if ltb share.primary_key (length share.keys) then share.primary_key else 0

key_or : Option ℕ → ℕ → ℕ
key_or none k = k
key_or (some k) _ = k

ordinal_key : Share → Option ℕ → Option ℕ
ordinal_key share none = none
ordinal_key share (some n) = unique_key_by_ordinal share n

module _ (error_class : Bytes → ErrorClass × Option ℕ) where
  -- The second of `error_class` is the constraint's number, none for STOOLAP_KEY_NONE.
  unfoldable pub errkey_from_view : Bytes → Share → ℕ
  unfolding primary_or_zero key_or ordinal_key
  errkey_from_view message share =
      key_or (ordinal_key share (error_class message).1) (primary_or_zero share)

unfoldable pub ha_error_of : ErrorClass → Rc
ha_error_of dup_key = found_dupp_key
ha_error_of no_referenced = no_referenced_row
ha_error_of row_referenced = row_is_referenced
ha_error_of deadlock = lock_deadlock
ha_error_of table_exists = table_exist
ha_error_of no_table = no_such_table
ha_error_of not_supported = unsupported
ha_error_of _ = generic

-- The errors raised to the client: my_printf_error of ER_GET_ERRMSG, ER_DUP_ENTRY,
-- ER_NO_REFERENCED_ROW_2, ER_ROW_IS_REFERENCED_2 with the message, and my_error.
pub data Raised : Type 0 where
  get_errmsg dup_entry no_referenced_row_2 row_is_referenced_2 : Bytes → Raised
  lock_deadlock_error : Raised

-- What reporting an error does: the code, what is raised, and whether g_stats.unmapped_errors grows.
pub record Report : Type 0 where
  pub rc : Rc
  pub raised : List Raised
  pub unmapped : Bool

needs_text : Rc → Bool
needs_text generic = true
needs_text unsupported = true
needs_text _ = false

is_unknown : ErrorClass → Bool
is_unknown unknown = true
is_unknown _ = false

raised_by_commit : Rc → Bytes → List Raised
raised_by_commit found_dupp_key m = dup_entry m ∷ []
raised_by_commit no_referenced_row m = no_referenced_row_2 m ∷ []
raised_by_commit row_is_referenced m = row_is_referenced_2 m ∷ []
raised_by_commit lock_deadlock m = lock_deadlock_error ∷ []
raised_by_commit _ m = []

module _ (error_class : Bytes → ErrorClass × Option ℕ) where
  unfoldable pub report_stoolap_error : Bytes → Report
  unfolding ha_error_of needs_text is_unknown
  report_stoolap_error message =
      let class = (error_class message).0 in
      let have_text = not (is_empty message) in
      record {
        rc = ha_error_of class;
        raised =
            if needs_text (ha_error_of class) && have_text then get_errmsg message ∷ [] else [];
        unmapped = is_unknown class && have_text;
      }

  -- A NULL message is the empty one.
  unfoldable pub raise_commit_error : Bytes → Report
  unfolding report_stoolap_error raised_by_commit
  raise_commit_error message =
      if is_empty message
      then record { rc = lock_deadlock; raised = []; unmapped = false }
      else let report = report_stoolap_error message in
        record report { raised = report.raised ++ raised_by_commit report.rc message }

-- The numbers of the unique keys from `i` on, but for the PRIMARY KEY's.
abbrev pub unique_keys : ℕ → ℕ → List Key → List ℕ
unique_keys pk i [] = []
unique_keys pk i (k ∷ ks) =
    if i == pk
    then unique_keys pk (suc i) ks
    else if k.no_same
    then i ∷ unique_keys pk (suc i) ks
    else unique_keys pk (suc i) ks

-- The MariaDB keys of the table-level unique clauses of a CREATE TABLE, in their order: a composite
-- PRIMARY KEY, then the other unique keys.
abbrev pub unique_clauses : Share → List ℕ
unique_clauses share =
    (if composite (get_elem? share.keys share.primary_key) then share.primary_key ∷ [] else [])
    ++ unique_keys share.primary_key 0 share.keys

unique_key_from-unique_keys :
    (pk i : ℕ) (ks : List Key) (n : ℕ)
    → unique_key_from pk i ks n ≡ get_elem? (unique_keys pk i ks) n
unfolding unique_key_from
unique_key_from-unique_keys pk i [] n = refl
unique_key_from-unique_keys pk i (k ∷ ks) zero =
    ground (arith, unique_key_from-unique_keys pk (suc i) ks 0)
unique_key_from-unique_keys pk i (k ∷ ks) (suc n) = ground (
  arith,
  unique_key_from-unique_keys pk (suc i) ks (suc n),
  unique_key_from-unique_keys pk (suc i) ks n,
)

-- The n-th constraint that stoolap numbers is the n-th unique clause of the table, and no key where
-- there are fewer.
pub unique_key_by_ordinal_lem :
    (share : Share) (n : ℕ) → unique_key_by_ordinal share n ≡ get_elem? (unique_clauses share) n
unfolding unique_key_by_ordinal
unique_key_by_ordinal_lem share zero =
    ground (arith, unique_key_from-unique_keys share.primary_key 0 share.keys 0)
unique_key_by_ordinal_lem share (suc n) = ground (
  arith,
  unique_key_from-unique_keys share.primary_key 0 share.keys (suc n),
  unique_key_from-unique_keys share.primary_key 0 share.keys n,
)

abbrev pub names_other_object : ErrorClass → Bool
names_other_object table_exists = true
names_other_object no_table = true
names_other_object _ = false

-- What reporting and then committing raise, by the class.
class_cases :
    (class : ErrorClass) (message : Bytes)
    → let rc = ha_error_of class in
      (length (
          (if needs_text rc && true then get_errmsg message ∷ [] else [])
          ++ raised_by_commit rc message)
        ≡ (if names_other_object class then 0 else 1))
      × (rc ≡ ha_error_of class)
unfolding ha_error_of needs_text raised_by_commit
class_cases unknown message = (refl, refl)
class_cases generic_error message = (refl, refl)
class_cases dup_key message = (refl, refl)
class_cases no_referenced message = (refl, refl)
class_cases row_referenced message = (refl, refl)
class_cases deadlock message = (refl, refl)
class_cases table_exists message = (refl, refl)
class_cases no_table message = (refl, refl)
class_cases not_supported message = (refl, refl)

-- A failed commit with a message raises one error to the client, and none where its class is of a
-- table that exists or is missing; the code returned is the class's.
pub raise_commit_error-raised :
    (error_class : Bytes → ErrorClass × Option ℕ) (b : ℕ) (message : Bytes)
    → let report = raise_commit_error error_class (b ∷ message) in
      let class = (error_class (b ∷ message)).0 in
      (length report.raised ≡ (if names_other_object class then 0 else 1))
      × (report.rc ≡ ha_error_of class)
unfolding raise_commit_error ha_error_of
raise_commit_error-raised error_class b message =
    class_cases (error_class (b ∷ message)).0 (b ∷ message)
