-- ===== src/Base.antt =====
-- Names shared by all modules: the libraries', passed on, and those of the children: Boolean tests,
-- lists over native numbers, machine words, and `core::task::Poll`.
mod Tests
mod Lists
mod Words
mod Polls
mod Maps
pub mod Bits
pub mod Fifo
pub use Tests.*
pub use Lists.*
pub use Words.*
pub use Polls.*
pub use Maps.*
pub use Prim.Native.Nat.{ℕ, zero, suc, ◌+◌, ◌-◌, ◌*◌, ◌/◌, ◌%◌, ◌^◌, ◌≤◌, ◌<◌, min, max}
pub use mathlib.Core.Path.{◌≡◌, refl, sym, ap, ap₂, ◌∙◌, subst}
pub use mathlib.Core.Logic.{◌≢◌, ◌↔◌, ◌⊎◌, inl, inr}
pub use mathlib.Core.Bool.{Bool, true, false, not, ◌&&◌, ◌||◌}
pub use mathlib.Core.Option.{Option, none, some}
pub use mathlib.Core.List.{List, [], ◌∷◌, ◌++◌, map, append-nil, append_assoc}
pub use native.Mathlib.Omega.{arith}
