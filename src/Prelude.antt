-- ===== src/Prelude.antt =====
-- The names that every module shares: the libraries', passed on, and those of the children.
mod Tests
mod Lists
mod Text
mod Order
mod Assoc
pub use Tests.*
pub use Lists.*
unfoldable pub use Order.{lt_wf}
unfoldable pub use Text.{Bytes, text}
pub use Text.{bytes_eq, bytes_eq_iff, bytes_eq_refl}
unfoldable pub use Assoc.{Map, get, insert, erase}
pub use Assoc.{size, get-insert, get-erase, Eq, nat_eq, bytes_eq_instance, eqb, eqb_iff, map_laws}
pub use Prim.Native.Nat.{ℕ, zero, suc, ◌+◌, ◌-◌, ◌*◌, ◌/◌, ◌%◌, ◌^◌, ◌≤◌, ◌<◌, min, max}
pub use mathlib.Core.Path.{◌≡◌, refl, sym, ap, ◌∙◌, subst}
pub use mathlib.Core.Logic.{◌≢◌, ◌↔◌, ◌⊎◌, inl, inr}
pub use mathlib.Core.Bool.{Bool, true, false, not, ◌&&◌, ◌||◌}
pub use mathlib.Core.Option.{Option, none, some}
pub use mathlib.Core.List.{List, [], ◌∷◌, ◌++◌, map, append_assoc, append-nil}
pub use native.Mathlib.Omega.{arith}
