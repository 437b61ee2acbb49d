-- ===== src/Handler/IndexRead/Filter.antt =====
-- The parts of an exact lookup that stoolap does not test.
use stoolap_mariadb.Common.{
  ℕ, zero, suc, ◌<◌, ◌≡◌, ◌∙◌, ◌⊎◌, inl, inr, arith, Bool, Bool-cases, Option-cases, true, false,
  List, [], ◌∷◌, some, Bytes, take, get_elem?,
}
use stoolap_mariadb.Types.{CharSet, is_string_type}
use stoolap_mariadb.Handler.Schema.{KeyPart, Key}
use stoolap_mariadb.Handler.Keys.{Bytewise, key_part_needs_filter, key_part_pads}
use stoolap_mariadb.Handler.Scan.{FindFlag}
use stoolap_mariadb.Handler.IndexRead.{
  KeyBound, ReadPlan, reads, index_read_map_plan, planned, plan_parts, bit, is_exact, mask, any,
}

bit-mask :
    (test : KeyPart → Bool) (n i : ℕ) (kps : List KeyPart) (kp : KeyPart)
    → i < n
    → get_elem? kps i ≡ some kp
    → bit (mask test (take n kps)) i ≡ test kp
unfolding mask
bit-mask test zero i kps kp h e = absurd (omega arith)
bit-mask test (suc n) i [] kp h e = ground arith
bit-mask test (suc n) zero (k ∷ kps) kp h e = ground arith
bit-mask test (suc n) (suc i) (k ∷ kps) kp h e = bit-mask test n i kps kp (omega arith) e

any-bit : (bs : List Bool) (i : ℕ) → bit bs i ≡ true → any bs ≡ true
unfolding any
any-bit [] i h = ground arith
any-bit (b ∷ bs) zero h = ground arith
any-bit (b ∷ bs) (suc i) h = ground (arith, any-bit bs i h)

unfiltered_part :
    (trust_bin : Bool) (kp : KeyPart)
    → (key_part_needs_filter trust_bin kp ≡ true)
      ⊎ ((kp.prefix ≡ false)
          × ((is_string_type kp.field.real_type ≡ false) ⊎ Bytewise trust_bin kp.field.charset))
unfolding key_part_needs_filter
unfiltered_part trust_bin kp = elim (Option-cases kp.field.charset) [
  | inl missing ↦ ground arith
  | inr (cs, c) ↦ ground arith
]

padded_part :
    (trust_bin : Bool) (kp : KeyPart)
    → (key_part_pads trust_bin kp ≡ false)
      ⊎ ((key_part_needs_filter trust_bin kp ≡ true)
          × (trust_bin ≡ false)
          × (kp.prefix ≡ false)
          × ((cs : CharSet) × (kp.field.charset ≡ some cs)
              × (cs.binsort ≡ true)
              × (cs.nopad ≡ false)))
unfolding key_part_pads key_part_needs_filter
padded_part trust_bin kp = elim (Bool-cases (key_part_pads trust_bin kp)) [
  | inr off ↦ inl off
  | inl on ↦ elim (Option-cases kp.field.charset) [
    | inl missing ↦ ground arith
    | inr (cs, c) ↦
        inr (ground arith, ground arith, ground arith, (cs, c, ground arith, ground arith))
  ]
]

-- In an exact lookup, of each part of the bound: either stoolap does not test it (`skip`), and then
-- MariaDB filters the rows by the whole key; or it covers its whole column, and if it is a text, its
-- collation, where it has one, is binary, or sorts bytes and does not pad, unless
-- stoolap_trust_binary_strings is on.
-- A part that is looked up padded is not tested otherwise, covers its whole column, and has a
-- collation that sorts bytes and pads; none is with stoolap_trust_binary_strings.
pub index_read_map_plan-filter :
    (trust_bin sorted : Bool) (ki : Key) (key : Bytes) (map : List Bool) (flag : FindFlag)
    (p : ReadPlan) (b : KeyBound) (i : ℕ) (kp : KeyPart)
    → index_read_map_plan trust_bin sorted ki key map flag ≡ reads p
    → p.bounds ≡ b ∷ []
    → is_exact flag ≡ true
    → get_elem? ki.parts i ≡ some kp
    → i < b.nparts
    → (((bit b.skip i ≡ true) × (p.key_filter ≡ some b.key))
        ⊎ ((bit b.skip i ≡ false)
            × (kp.prefix ≡ false)
            × ((is_string_type kp.field.real_type ≡ false) ⊎ Bytewise trust_bin kp.field.charset)))
      × ((bit b.pad i ≡ false)
          ⊎ ((bit b.skip i ≡ true)
              × (trust_bin ≡ false)
              × (kp.prefix ≡ false)
              × ((cs : CharSet) × (kp.field.charset ≡ some cs)
                  × (cs.binsort ≡ true)
                  × (cs.nopad ≡ false))))
unfolding index_read_map_plan plan_parts planned
index_read_map_plan-filter trust_bin sorted ki key map flag p b i kp e eb x g lt =
    let skips : b.skip ≡ mask (key_part_needs_filter trust_bin) (take b.nparts ki.parts) =
      ground arith in
    let pads : b.pad ≡ mask (key_part_pads trust_bin) (take b.nparts ki.parts) = ground arith in
    let filters : any b.skip ≡ true → p.key_filter ≡ some b.key = ground arith in
    let skip : bit b.skip i ≡ key_part_needs_filter trust_bin kp =
      rw skips (bit-mask (key_part_needs_filter trust_bin) b.nparts i ki.parts kp lt g) in
    let pad : bit b.pad i ≡ key_part_pads trust_bin kp =
      rw pads (bit-mask (key_part_pads trust_bin) b.nparts i ki.parts kp lt g) in
    (
      elim (Bool-cases (bit b.skip i)) [
        | inl on ↦ inl (on, filters (any-bit b.skip i on))
        | inr off ↦ elim (unfiltered_part trust_bin kp) [
          | inl needs ↦ cc (needs, skip, off)
          | inr alike ↦ inr (off, alike.0, alike.1)
        ]
      ],
      elim (padded_part trust_bin kp) [
        | inl none_padded ↦ inl (pad ∙ none_padded)
        | inr facts ↦ inr (skip ∙ facts.0, facts.1, facts.2, facts.3)
      ],
    )
