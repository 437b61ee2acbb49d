-- ===== src/Handler/Refusals.antt =====
-- What create() of src/ha_stoolap.cc refuses: unique keys that stoolap cannot enforce as they are
-- declared, and columns that it cannot store.
use stoolap_mariadb.Common.{
  ℕ, zero, suc, ◌≡◌, refl, ◌⊎◌, inl, inr, ◌↔◌, Option-cases, Bool-cases, arith, Bool, true, false,
  not, ◌&&◌, ◌||◌, List, [], ◌∷◌, ◌++◌, Option, none, some, Bytes, codes, if◌then◌else◌, get_elem?,
}
use stoolap_mariadb.Types.{Field, CharSet, is_string_type}
use stoolap_mariadb.Handler.Schema.{KeyPart, Key, Share}

is_folded : Option CharSet → Bool
is_folded none = false
is_folded (some cs) = not cs.binsort

unfoldable pub is_ci_string : Field → Bool
unfolding is_folded
is_ci_string f =
    if not f.has_charset
    then false
    else if is_string_type f.real_type
    then is_folded f.charset
    else false

-- The first part that a test gives a text for.
first_part : {A : Type 0} → (KeyPart → Option A) → List KeyPart → Option A
first_part test [] = none
first_part test (kp ∷ kps) =
    let rest = first_part test kps in elim (test kp) [ none ↦ rest | some a ↦ some a ]

-- The first such part of a PRIMARY KEY or UNIQUE key.
first_unique_part : {A : Type 0} → (Key → KeyPart → Option A) → List Key → Option A
unfolding first_part
first_unique_part test [] = none
first_unique_part test (k ∷ ks) =
    let rest = first_unique_part test ks in
    if not k.no_same
    then rest
    else elim (first_part (test k) k.parts) [ none ↦ rest | some a ↦ some a ]

ci_name : Key → KeyPart → Option Bytes
ci_name k kp = if is_ci_string kp.field then some kp.field.name else none

prefix_text : Key → KeyPart → Option Bytes
prefix_text k kp =
    if kp.prefix
    then some (codes "key '" ++ k.name ++ codes "' column '" ++ kp.field.name ++ codes "'")
    else none

-- none: the empty std::string
unfoldable pub ci_string_unique_part : Share → Option Bytes
unfolding first_unique_part ci_name
ci_string_unique_part form = first_unique_part ci_name form.keys

unfoldable pub prefix_unique_part : Share → Option Bytes
unfolding first_unique_part prefix_text
prefix_unique_part form = first_unique_part prefix_text form.keys

refuses : Option Bytes → Bool
refuses none = false
refuses (some bad) = true

unfoldable pub refuse_unenforceable_keys : Share → Bool
unfolding refuses
refuse_unenforceable_keys form =
    if refuses (prefix_unique_part form) then true else refuses (ci_string_unique_part form)

compressed_blob : List Field → Bool
compressed_blob [] = false
compressed_blob (f ∷ fs) = (f.blob_flag && f.compressed) || compressed_blob fs

unfoldable pub refuse_unsupported_columns : Share → Bool
unfolding compressed_blob
refuse_unsupported_columns form = compressed_blob form.fields

first_part-none :
    {A : Type 0} (test : KeyPart → Option A) (kps : List KeyPart) (j : ℕ) (kp : KeyPart)
    → first_part test kps ≡ none
    → get_elem? kps j ≡ some kp
    → test kp ≡ none
unfolding first_part
first_part-none test [] j kp h e = ground arith
first_part-none test (k ∷ kps) zero kp h e = ground arith
first_part-none test (k ∷ kps) (suc j) kp h e = first_part-none test kps j kp (ground arith) e

first_unique_part-none :
    {A : Type 0} (test : Key → KeyPart → Option A) (ks : List Key) (i j : ℕ) (k : Key)
    (kp : KeyPart)
    → first_unique_part test ks ≡ none
    → get_elem? ks i ≡ some k
    → k.no_same ≡ true
    → get_elem? k.parts j ≡ some kp
    → test k kp ≡ none
unfolding first_unique_part
first_unique_part-none test [] i j k kp h ek u ep = ground arith
first_unique_part-none test (k' ∷ ks) zero j k kp h ek u ep =
    first_part-none (test k) k.parts j kp (ground arith) ep
first_unique_part-none test (k' ∷ ks) (suc i) j k kp h ek u ep =
    first_unique_part-none test ks i j k kp (ground arith) ek u ep

first_part-some :
    {A : Type 0} (test : KeyPart → Option A) (kps : List KeyPart) (a : A)
    → first_part test kps ≡ some a
    → (j : ℕ) × (kp : KeyPart) × (get_elem? kps j ≡ some kp) × (test kp ≡ some a)
unfolding first_part
first_part-some test [] a h = cc
first_part-some test (k ∷ kps) a h = elim (Option-cases (test k)) [
  | inl missing ↦ let (j, kp, e, t) = first_part-some test kps a (ground arith) in (suc j, kp, e, t)
  | inr (b, found) ↦ (zero, k, refl, ground arith)
]

-- A part of a unique key among these that passes a test
abbrev pub UniquePart : (Key → KeyPart → Type 0) → List Key → Type 0
UniquePart Fails ks =
    (i : ℕ) × (k : Key) × (j : ℕ) × (kp : KeyPart) × (get_elem? ks i ≡ some k)
    × (k.no_same ≡ true)
    × (get_elem? k.parts j ≡ some kp)
    × Fails k kp

first_unique_part-some :
    {A : Type 0} (test : Key → KeyPart → Option A) (ks : List Key) (a : A)
    → first_unique_part test ks ≡ some a
    → UniquePart (λ k kp. test k kp ≡ some a) ks
unfolding first_unique_part
first_unique_part-some test [] a h = cc
first_unique_part-some test (k ∷ ks) a h = elim (Bool-cases k.no_same) [
  | inl unique ↦ elim (Option-cases (first_part (test k) k.parts)) [
    | inl passes ↦
        let (i, k', j, kp, ek, u, ep, t) = first_unique_part-some test ks a (ground arith) in
        (suc i, k', j, kp, ek, u, ep, t)
    | inr (b, found) ↦
        let (j, kp, e, t) = first_part-some (test k) k.parts a (ground arith) in
        (zero, k, j, kp, refl, unique, e, t)
  ]
  | inr other ↦
      let (i, k', j, kp, ek, u, ep, t) = first_unique_part-some test ks a (ground arith) in
      (suc i, k', j, kp, ek, u, ep, t)
]

-- A part that stoolap, which compares whole values as bytes, does not keep unique as MariaDB would
abbrev pub Unenforceable : Key → KeyPart → Type 0
Unenforceable k kp =
    (kp.prefix ≡ true)
    ⊎ ((kp.field.has_charset ≡ true)
        × (is_string_type kp.field.real_type ≡ true)
        × ((cs : CharSet) × (kp.field.charset ≡ some cs) × (cs.binsort ≡ false)))

ci_string-Unenforceable :
    (k : Key) (kp : KeyPart) → is_ci_string kp.field ≡ true → Unenforceable k kp
unfolding is_ci_string is_folded
ci_string-Unenforceable k kp h = elim (Option-cases kp.field.charset) [
  | inl missing ↦ ground arith
  | inr (cs, c) ↦ inr (ground arith, ground arith, (cs, c, ground arith))
]

of_ci :
    (ks : List Key) (name : Bytes)
    → UniquePart (λ k kp. ci_name k kp ≡ some name) ks
    → UniquePart Unenforceable ks
unfolding ci_name
of_ci ks name (i, k, j, kp, ek, u, ep, t) =
    (i, k, j, kp, ek, u, ep, ci_string-Unenforceable k kp (ground arith))

of_prefix :
    (ks : List Key) (text : Bytes)
    → UniquePart (λ k kp. prefix_text k kp ≡ some text) ks
    → UniquePart Unenforceable ks
unfolding prefix_text
of_prefix ks text (i, k, j, kp, ek, u, ep, t) = (i, k, j, kp, ek, u, ep, inl (ground arith))

accepted_part :
    (form : Share) (i j : ℕ) (k : Key) (kp : KeyPart)
    → refuse_unenforceable_keys form ≡ false
    → get_elem? form.keys i ≡ some k
    → k.no_same ≡ true
    → get_elem? k.parts j ≡ some kp
    → Unenforceable k kp
    → ⊥
unfolding refuse_unenforceable_keys prefix_unique_part ci_string_unique_part prefix_text ci_name
    is_ci_string is_folded
accepted_part form i j k kp h ek u ep bad =
    let p = first_unique_part-none prefix_text form.keys i j k kp (ground arith) ek u ep in
    let c = first_unique_part-none ci_name form.keys i j k kp (ground arith) ek u ep in
    elim bad [ inl covers ↦ ground arith | inr (texts, strings, (cs, same, folds)) ↦ ground arith ]

refused_by :
    (form : Share)
    → prefix_unique_part form ≡ none
    → ci_string_unique_part form ≡ none
    → refuse_unenforceable_keys form ≡ false
unfolding refuse_unenforceable_keys refuses
refused_by form p c = ground arith

-- create() refuses a table for its keys just where a part of a PRIMARY KEY or UNIQUE key covers a
-- prefix of its column, or is a text whose collation does not sort bytes. (A collation that sorts
-- bytes may still pad: that is not refused.)
pub refuse_unenforceable_keys_lem :
    (form : Share) → (refuse_unenforceable_keys form ≡ true) ↔ UniquePart Unenforceable form.keys
unfolding refuse_unenforceable_keys prefix_unique_part ci_string_unique_part
refuse_unenforceable_keys_lem form = (
  (λ h. elim (Option-cases (prefix_unique_part form)) [
    | inl whole ↦ elim (Option-cases (ci_string_unique_part form)) [
      | inl sorted ↦ cc (refused_by form whole sorted, h)
      | inr (name, found) ↦ of_ci _ name (first_unique_part-some ci_name form.keys name found)
    ]
    | inr (text, found) ↦ of_prefix _ text (first_unique_part-some prefix_text form.keys text found)
  ]),
  (λ part. elim (Bool-cases (refuse_unenforceable_keys form)) [
    | inl refused ↦ refused
    | inr accepted ↦
        let (i, k, j, kp, ek, u, ep, bad) = part in
        absurd (accepted_part form i j k kp accepted ek u ep bad)
  ]),
)
