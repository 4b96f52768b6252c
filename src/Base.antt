-- ===== src/Base.antt =====
-- The names that all modules share: the libraries' names, passed on, Boolean tests and list functions
-- over the native numbers, equality tests, texts as lists of bytes, and Go maps as functions.
pub mod Tests
pub mod Lists
pub mod Eq
pub mod Bytes
pub mod Maps
pub mod Ordered
pub use Tests.*
pub use Lists.*
pub use Eq.{HasEq, ◌==◌, nat_eq, text_eq}
pub use Bytes.{Text, text}
pub use Maps.{Map}
pub use Prim.Native.Nat.{ℕ, zero, suc, ◌+◌, ◌-◌, ◌*◌, ◌/◌, ◌%◌, ◌^◌, ◌≤◌, ◌<◌, min, max}
pub use mathlib.Core.Path.{◌≡◌, refl, sym, ap, ap₂, subst, ◌∙◌, fun_ext}
pub use mathlib.Core.Logic.{◌≢◌, ◌↔◌, ◌⊎◌, inl, inr}
pub use mathlib.Core.Bool.{Bool, true, false, not, ◌&&◌, ◌||◌}
pub use mathlib.Core.Option.{Option, none, some}
pub use mathlib.Core.List.{List, [], ◌∷◌, ◌++◌, map, Mem, Perm}
pub use native.Mathlib.Omega.{arith}
unfoldable pub use native.Mathlib.Decide.{dec_lt, dec_le, ℕ_discrete}
