-- ===== src/Common/Maps.antt =====
-- `std::unordered_map<std::string, V>` as an association list, `std::unordered_set<std::string>` as
-- a list of names. Only what a client of the C++ containers can see is proved of them.
use mathlib.Core.Path.{◌≡◌, refl}
use mathlib.Core.Bool.{Bool, true, false, ◌||◌}
use mathlib.Core.Option.{Option, none, some}
use mathlib.Core.List.{List, [], ◌∷◌}
use native.Mathlib.Omega.{arith}
use stoolap_mariadb.Common.Tests.{if◌then◌else◌}
use stoolap_mariadb.Common.Text.{Bytes, bytes_eq, bytes_eq_iff, bytes_eq_refl}

module _ {ℓ} {V : Type ℓ} where
  -- find(k): the value, or end()
  unfoldable pub find : Bytes → List (Bytes × V) → Option V
  find k [] = none
  find k ((j, v) ∷ m) = if bytes_eq j k then some v else find k m

  -- m[k] = v
  unfoldable pub put : Bytes → V → List (Bytes × V) → List (Bytes × V)
  put k v [] = (k, v) ∷ []
  put k v ((j, w) ∷ m) = if bytes_eq j k then (k, v) ∷ m else (j, w) ∷ put k v m

  unfoldable pub erase : Bytes → List (Bytes × V) → List (Bytes × V)
  erase k [] = []
  erase k ((j, w) ∷ m) = let rest = erase k m in if bytes_eq j k then rest else (j, w) ∷ rest

  pub find-put :
      (k j : Bytes) (v : V) (m : List (Bytes × V))
      → find j (put k v m) ≡ (if bytes_eq k j then some v else find j m)
  unfolding find put
  find-put k j v [] = refl
  find-put k j v ((i, w) ∷ m) =
      ground (arith, bytes_eq_iff k j, bytes_eq_iff i k, bytes_eq_iff i j, find-put k j v m)

  pub find-erase :
      (k j : Bytes) (m : List (Bytes × V))
      → find j (erase k m) ≡ (if bytes_eq k j then none else find j m)
  unfolding find erase
  find-erase k j [] = ground arith
  find-erase k j ((i, w) ∷ m) =
      ground (arith, bytes_eq_iff k j, bytes_eq_iff i k, bytes_eq_iff i j, find-erase k j m)

  pub find-put_self : (k : Bytes) (v : V) (m : List (Bytes × V)) → find k (put k v m) ≡ some v
  find-put_self k v m = simp (find-put, bytes_eq_refl)

  pub find-erase_self : (k : Bytes) (m : List (Bytes × V)) → find k (erase k m) ≡ none
  find-erase_self k m = simp (find-erase, bytes_eq_refl)

-- count(k) > 0
unfoldable pub member : Bytes → List Bytes → Bool
member k [] = false
member k (j ∷ s) = bytes_eq j k || member k s

unfoldable pub add_member : Bytes → List Bytes → List Bytes
add_member k s = if member k s then s else k ∷ s

unfoldable pub remove_member : Bytes → List Bytes → List Bytes
remove_member k [] = []
remove_member k (j ∷ s) = let rest = remove_member k s in if bytes_eq j k then rest else j ∷ rest

pub member-add_member :
    (k j : Bytes) (s : List Bytes)
    → member j (add_member k s) ≡ (if bytes_eq k j then true else member j s)
unfolding member add_member
member-add_member k j [] = ground (arith, bytes_eq_iff k j)
member-add_member k j (i ∷ s) =
    ground (arith, bytes_eq_iff k j, bytes_eq_iff i k, bytes_eq_iff i j, member-add_member k j s)

pub member-remove_member :
    (k j : Bytes) (s : List Bytes)
    → member j (remove_member k s) ≡ (if bytes_eq k j then false else member j s)
unfolding member remove_member
member-remove_member k j [] = ground arith
member-remove_member k j (i ∷ s) =
    ground (arith, bytes_eq_iff k j, bytes_eq_iff i k, bytes_eq_iff i j, member-remove_member k j s)

pub ruleset map_laws =
    (find-put, find-erase, find-put_self, find-erase_self, member-add_member, member-remove_member)
