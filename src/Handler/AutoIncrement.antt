-- ===== src/Handler/AutoIncrement.antt =====
-- get_auto_increment of src/ha_stoolap.cc, and what write_row tells the allocator of an explicit id.
-- What SELECT MAX() gives is an argument.
use native.Mathlib.Nat.{mod-lt, mod-eq_of_lt}
use stoolap_mariadb.Common.{
  ℕ, ◌+◌, ◌%◌, ◌^◌, ◌<◌, ◌≡◌, ◌⊎◌, arith, Bool, true, ◌||◌, Option, none, some, Bytes, ltb,
  if◌then◌else◌, find, bytes_eq_refl,
}
use stoolap_mariadb.Common.Int.{ℤ, pos, pos_part, pattern64}
use stoolap_mariadb.Bridge.{
  Engine, uint64_max, at_least_one, ai_reserve, ai_seed_and_reserve, ai_note_explicit,
  round_up_to_modulus,
}
use stoolap_mariadb.Bridge.AutoIncrement.{round_up_to_modulus_least}
use stoolap_mariadb.Bridge.Cursors.{find-ai_note_explicit}
use stoolap_mariadb.ThdContext.{db, has_tx}
use stoolap_mariadb.Handler.Session.{Thd, get_thd_ctx, with_ctx}

-- The query fails, or gives one row of NULL or of a number.
pub data MaxAnswer : Type 0 where
  failed no_max : MaxAnswer
  max_of : ℤ → MaxAnswer

-- Floored at 0
abbrev pub current_max : MaxAnswer → ℕ
current_max (max_of raw) = pos_part raw
current_max _ = 0

-- *first_value and *nb_reserved_values, with the THD after the call
pub record Reserved : Type 0 where
  pub thd : Thd
  pub first_value : ℕ
  pub nb_reserved_values : ℕ

abbrev pub with_engine : Thd → Engine → Thd
with_engine thd e = record thd { engine = e }

-- query_via: the connection's transaction, or else its own database handle, cloned on first use.
queried : Thd → Option ℕ → Thd
unfolding get_thd_ctx with_ctx
queried thd clone = let s = get_thd_ctx thd in with_ctx thd (if has_tx s then s else db s clone)

seeded : Thd → Bytes → ℕ → ℕ → ℕ → MaxAnswer → Reserved
seeded thd table nb step offset_mod failed = record {
  thd = thd;
  first_value = uint64_max;
  nb_reserved_values = nb;
}
seeded thd table nb step offset_mod answer =
    let (e, f) = ai_seed_and_reserve thd.engine table (current_max answer + 1) nb step offset_mod in
    record { thd = with_engine thd e; first_value = f; nb_reserved_values = nb }

-- `has_field`: the table has an AUTO_INCREMENT column
unfoldable pub get_auto_increment : Thd → Bytes → Bool → ℕ → ℕ → ℕ → Option ℕ → MaxAnswer → Reserved
unfolding queried seeded
get_auto_increment thd table has_field offset increment nb_desired clone answer =
    let nb = at_least_one nb_desired in
    let step = at_least_one increment in
    let offset_mod = offset % step in
    if has_field
    then (let (e, first) = ai_reserve thd.engine table nb step offset_mod in
        elim first [
          | some f ↦ record { thd = with_engine thd e; first_value = f; nb_reserved_values = nb }
          | none ↦ seeded (queried thd clone) table nb step offset_mod answer
        ])
    else record { thd = thd; first_value = uint64_max; nb_reserved_values = nb }

-- The id column's val_int of a row that write_row writes.
unfoldable pub note_written : Engine → Bytes → Bool → ℤ → Engine
note_written e table is_unsigned sv =
    if is_unsigned || ltb 0 (pos_part sv) then ai_note_explicit e table (pattern64 sv) else e

first_seeded :
    (thd : Thd) (table : Bytes) (offset increment nb : ℕ) (clone : Option ℕ) (raw : ℤ)
    → find table thd.engine.ai_next ≡ none
    → let step = at_least_one increment in
      (get_auto_increment thd table true offset increment nb clone (max_of raw)).first_value
      ≡ round_up_to_modulus (pos_part raw + 1) step (offset % step)
unfolding get_auto_increment ai_reserve ai_seed_and_reserve queried seeded get_thd_ctx with_ctx db
first_seeded thd table offset increment nb clone raw h = ground arith

-- The first id of a table that has no cursor is above the largest one that the table holds, or is
-- uint64_max, which MariaDB takes as a failure.
get_auto_increment-above_max :
    (thd : Thd) (table : Bytes) (offset increment nb : ℕ) (clone : Option ℕ) (raw : ℤ)
    → find table thd.engine.ai_next ≡ none
    → pos_part raw < 2 ^ 63
    → let r = get_auto_increment thd table true offset increment nb clone (max_of raw) in
      (r.first_value ≡ uint64_max)
      ⊎ ((pos_part raw < r.first_value)
          × (r.first_value % at_least_one increment ≡ offset % at_least_one increment))
get_auto_increment-above_max thd table offset increment nb clone raw h b =
    let step = at_least_one increment in
    let positive : 0 < step = ground arith in
    let within : offset % step < step = mod-lt offset positive in
    let small : offset % step % step ≡ offset % step = mod-eq_of_lt within in
    rw (first_seeded thd table offset increment nb clone raw h) (
      ground (
        arith,
        round_up_to_modulus_least (pos_part raw + 1) step (offset % step) (ground arith) positive,
      ))

cursor_noted :
    (e : Engine) (table : Bytes) (is_unsigned : Bool) (v : ℕ)
    → find table e.ai_next ≡ none
    → 0 < v
    → v < 2 ^ 63
    → find table (note_written e table is_unsigned (pos v)).ai_next ≡ some (v + 1)
unfolding note_written
cursor_noted e table is_unsigned v h p b =
    let noted : note_written e table is_unsigned (pos v) ≡ ai_note_explicit e table v =
      ground arith in
    rw (noted, find-ai_note_explicit e table table v) (ground (arith, bytes_eq_refl table))

-- With auto_increment_offset and auto_increment_increment both 1, the next id after an explicit one
-- above 0 and below 2 ^ 63 into a table with no cursor is the one after it, whatever ids the table
-- holds: MAX() is not asked for.
pub get_auto_increment-note_written :
    (thd : Thd) (table : Bytes) (is_unsigned : Bool) (v : ℕ) (clone : Option ℕ) (answer : MaxAnswer)
    → find table thd.engine.ai_next ≡ none
    → 0 < v
    → v < 2 ^ 63
    → let noted = with_engine thd (note_written thd.engine table is_unsigned (pos v)) in
      (get_auto_increment noted table true 1 1 1 clone answer).first_value ≡ v + 1
unfolding get_auto_increment ai_reserve round_up_to_modulus
get_auto_increment-note_written thd table is_unsigned v clone answer h p b =
    rw (cursor_noted thd.engine table is_unsigned v h p b)
