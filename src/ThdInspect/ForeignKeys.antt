-- ===== src/ThdInspect/ForeignKeys.antt =====
-- The foreign keys that a statement's key list gives create().
use stoolap_mariadb.Common.{
  ◌≡◌, refl, sym, ap, subst, ◌∙◌, ◌⊎◌, inl, inr, Bool, true, false, List, [], ◌∷◌, ◌++◌, Option,
  none, some, Bytes, codes, if◌then◌else◌, is_empty, append_assoc,
}
use stoolap_mariadb.ThdInspect.{
  ForeignKey, KeyDef, foreign, other_key, ThdForeignKey, Lex, file_name, first_or_empty, definition,
  at_most_one, only_one, single, from_keys, stoolap_thd_foreign_keys,
}

abbrev pub foreign_keys : List KeyDef → List ForeignKey
foreign_keys [] = []
foreign_keys (other_key ∷ ks) = foreign_keys ks
foreign_keys (foreign fk ∷ ks) = fk ∷ foreign_keys ks

-- Each definition is of the key in its place: its one column, the parent's path and first column.
abbrev pub Describes : (Bytes → Bytes) → Bytes → List ForeignKey → List ThdForeignKey → Type 0
Describes name db [] [] = Unit
Describes name db (fk ∷ fks) (d ∷ ds) =
    (fk.columns ≡ d.column ∷ [])
    × (d.parent_path
        ≡ name (if is_empty fk.ref_db then db else fk.ref_db) ++ (codes "/" ++ name fk.ref_table))
    × ((fk.ref_columns ≡ []) × (d.parent_column ≡ []) ⊎ (fk.ref_columns ≡ d.parent_column ∷ []))
    × ((d.on_delete ≡ fk.delete_opt) × (d.on_update ≡ fk.update_opt))
    × Describes name db fks ds
Describes name db _ _ = ⊥

module _ (lowers : Bool) (casedn : Bytes → Bytes) (encoded : Bytes → Bytes) where
  abbrev One : List Bytes → Bytes → Type 0
  One rs first = (rs ≡ []) × (first ≡ []) ⊎ (rs ≡ first ∷ [])

  only_one-some :
      (cs rs : List Bytes) (c : Bytes)
      → only_one lowers casedn encoded cs (at_most_one lowers casedn encoded rs) ≡ some c
      → (cs ≡ c ∷ []) × One rs (first_or_empty lowers casedn encoded rs)
  unfolding only_one at_most_one first_or_empty
  only_one-some [] rs c e = cc
  only_one-some (x ∷ (y ∷ cs)) rs c e = cc
  only_one-some (x ∷ []) [] c e = (cc, inl (refl, refl))
  only_one-some (x ∷ []) (r ∷ []) c e = (cc, inr refl)
  only_one-some (x ∷ []) (r ∷ (r' ∷ rs)) c e = cc

  from_keys-Describes :
      (db : Bytes) (ks : List KeyDef) (out all : List ThdForeignKey)
      → from_keys lowers casedn encoded db ks out ≡ (all, true)
      → (ds : List ThdForeignKey) × (all ≡ out ++ ds)
        × Describes (file_name lowers casedn encoded) db (foreign_keys ks) ds
  unfolding from_keys
  from_keys-Describes db [] out all e = ([], sym (append_nil out ∙ ap (λ p. p.0) e), tt)
    where
      append_nil : (xs : List ThdForeignKey) → xs ++ [] ≡ xs
      append_nil [] = refl
      append_nil (x ∷ xs) = ap (λ s. x ∷ s) (append_nil xs)
  from_keys-Describes db (other_key ∷ ks) out all e = from_keys-Describes db ks out all e
  from_keys-Describes db (foreign fk ∷ ks) out all e =
      chosen
        (λ c.
          from_keys-Describes db ks (out ++ (definition lowers casedn encoded db fk c ∷ [])) all)
        (single lowers casedn encoded fk) refl e
    where
      chosen :
          ((c : Bytes)
            → from_keys lowers casedn encoded db ks
                (out ++ (definition lowers casedn encoded db fk c ∷ []))
              ≡ (all, true)
            → (ds : List ThdForeignKey) × (all
                ≡ (out ++ (definition lowers casedn encoded db fk c ∷ [])) ++ ds)
              × Describes (file_name lowers casedn encoded) db (foreign_keys ks) ds)
          → (o : Option Bytes) → single lowers casedn encoded fk ≡ o
          → elim o as (λ x. List ThdForeignKey × Bool) [
            | none ↦ (out, false)
            | some c ↦
                from_keys lowers casedn encoded db ks
                  (out ++ (definition lowers casedn encoded db fk c ∷ []))
          ]
            ≡ (all, true)
          → (ds : List ThdForeignKey) × (all ≡ out ++ ds)
            × Describes (file_name lowers casedn encoded) db (fk ∷ foreign_keys ks) ds
      chosen rest none s e = cc
      chosen rest (some c) s e =
          let d = definition lowers casedn encoded db fk c in
          let (ds, made, right) = rest c e in
          let (column, parent) = only_one-some fk.columns fk.ref_columns c s in
          (d ∷ ds, made ∙ append_assoc out (d ∷ []) ds, (column, refl, parent, (refl, refl), right))

  -- Where the key list is taken, each FOREIGN KEY of it is of one column and refers to one column at
  -- most, and gives one definition in its place: its column, the parent's path with the child's
  -- database where it names none, the parent's column where it names one, and its actions.
  pub stoolap_thd_foreign_keys-Describes :
      (lex : Lex) (db : Bytes) (out : List ThdForeignKey)
      → stoolap_thd_foreign_keys lowers casedn encoded (some lex) db ≡ (out, true)
      → Describes (file_name lowers casedn encoded) db (foreign_keys lex.keys) out
  unfolding stoolap_thd_foreign_keys
  stoolap_thd_foreign_keys-Describes lex db out e =
      let (ds, made, right) = from_keys-Describes db lex.keys [] out e in
      subst (Describes (file_name lowers casedn encoded) db (foreign_keys lex.keys)) (sym made)
        right
