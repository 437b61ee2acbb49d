-- ===== src/Bridge/Examples.antt =====
-- The theorems on the Engine at concrete values.
use stoolap_mariadb.Common.{
  ◌+◌, ◌*◌, ◌<◌, ◌≡◌, ◌⊎◌, arith, refl, Option, none, some, [], ◌∷◌, Bytes, codes, find, put,
  bytes_eq,
}
use stoolap_mariadb.Bridge.{
  Engine, uint64_max, round_up_to_modulus, advance_after_reservation, ai_reserve, ai_note_explicit,
}
use stoolap_mariadb.Bridge.Cursors.{notes}
use stoolap_mariadb.Bridge.AutoIncrement.{ai_reserve-lt-ai_reserve, ai_note_explicit-lt-ai_reserve}
use stoolap_mariadb.Bridge.TableName.{stoolap_table_from_path, stoolap_table_from_path-injective}
use stoolap_mariadb.Samples.{table, sample_engine}

abbrev reserved_engine : Engine
reserved_engine = record sample_engine { ai_next = (table, 10) ∷ [] }

abbrev later_engine : Engine
later_engine = record sample_engine { ai_next = (table, 22) ∷ [] }

ai_reserve-lt-ai_reserve_example : (5 + 2 * 2 < 21) ⊎ (21 ≡ uint64_max)
unfolding ai_reserve ai_note_explicit round_up_to_modulus advance_after_reservation find put
    bytes_eq
ai_reserve-lt-ai_reserve_example =
    ai_reserve-lt-ai_reserve sample_engine reserved_engine later_engine table
      ((table, notes 20) ∷ []) 5 3 2 1 1 1 0 5 21 2 refl (omega arith) refl (omega arith, tt) refl
      (omega arith)

ai_note_explicit-lt-ai_reserve_example : 40 < 41
unfolding ai_reserve ai_note_explicit round_up_to_modulus advance_after_reservation find put
    bytes_eq
ai_note_explicit-lt-ai_reserve_example =
    ai_note_explicit-lt-ai_reserve sample_engine
      (record sample_engine { ai_next = (table, 42) ∷ [] }) table 40 [] 1 1 0 41 (omega arith)
      (omega arith) tt refl

never_shortened : Bytes → Option Bytes
never_shortened name = none

stoolap_table_from_path-injective_example : (codes "a_b" ≡ codes "a_b") × (codes "c" ≡ codes "c")
unfolding never_shortened
stoolap_table_from_path-injective_example =
    stoolap_table_from_path-injective never_shortened (codes "a_b") (codes "c") (codes "a_b")
      (codes "c") refl refl (ground arith) (ground arith) refl

round_up_to_modulus_test : round_up_to_modulus 14 10 3 ≡ 23
unfolding round_up_to_modulus
round_up_to_modulus_test = refl

path_test : stoolap_table_from_path never_shortened (some (codes "./a_b/c")) ≡ codes "a_0b_1c"
unfolding never_shortened stoolap_table_from_path
path_test = ground arith
