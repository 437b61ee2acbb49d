-- ===== src/Common.antt =====
-- The names that the other modules share: the libraries', passed on, and those of the children.
mod Tests
mod Lists
mod Text
mod Maps
pub mod Int
pub use Tests.*
pub use Lists.*
unfoldable pub use Text.{bytes_eq}
pub use Text.{Bytes, codes, bytes_eq_iff, bytes_eq_refl, is_empty}
unfoldable pub use Maps.{find, put, erase, member, add_member, remove_member}
pub use Maps.{
  find-put, find-erase, find-put_self, find-erase_self, member-add_member, member-remove_member,
  map_laws,
}
pub use Prim.Native.Nat.{ℕ, zero, suc, ◌+◌, ◌-◌, ◌*◌, ◌/◌, ◌%◌, ◌^◌, ◌≤◌, ◌<◌}
pub use mathlib.Core.Path.{◌≡◌, refl, sym, ap, subst, ◌∙◌}
pub use mathlib.Core.Logic.{◌≢◌, ◌↔◌, ◌⊎◌, inl, inr}
pub use mathlib.Core.Bool.{Bool, true, false, not, ◌&&◌, ◌||◌}
pub use mathlib.Core.Option.{Option, none, some}
pub use mathlib.Core.List.{List, [], ◌∷◌, ◌++◌, map, append-nil, append_assoc}
pub use native.Mathlib.Omega.{arith}
pub use Prim.Native.String.{String}
