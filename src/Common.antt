-- ===== src/Common.antt =====
-- The names that the other modules share: the libraries', passed on, and those of the children.
mod Tests
mod Lists
mod Maps
pub mod Int
pub mod Time
pub mod Words
pub use Tests.*
pub use Lists.{
  length, take, drop, get_or, All, length-append, length-take, length-drop, take-append-drop,
  take-length-append, drop-length-append, length-keep, find-holds, length-remove_first, All-take,
  All-append, All-map, All-keep, All-keep_self, find_at_end, All-find, All-imp, All-update_first,
  All-remove_first,
}
unfoldable pub use Lists.{find, update_first, remove_first, keep}
pub use Maps.{
  Dict, lookup-insert, lookup-insert_self, lookup-insert_ne, lookup-delete, lookup-delete_self,
  lookup-delete_ne, All-insert, All-delete, All-lookup,
}
unfoldable pub use Maps.{lookup, insert, delete}
pub use Prim.Native.Nat.{ℕ, zero, suc, ◌+◌, ◌-◌, ◌*◌, ◌/◌, ◌%◌, ◌^◌, ◌≤◌, ◌<◌, min}
pub use Prim.Native.String.{String}
pub use mathlib.Core.Path.{◌≡◌, refl, sym, ap, ◌∙◌, subst}
pub use mathlib.Core.Logic.{◌≢◌, ◌↔◌, ◌⊎◌, inl, inr}
pub use mathlib.Core.Bool.{Bool, true, false, not, ◌&&◌, ◌||◌}
pub use mathlib.Core.Option.{Option, none, some}
pub use mathlib.Core.List.{List, [], ◌∷◌, ◌++◌, map}
pub use native.Mathlib.Omega.{arith}
