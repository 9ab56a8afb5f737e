-- ===== src/Base.antt =====
-- What the components share: the library's names, Boolean tests on numbers, lists indexed by
-- numbers, and the outcome of C++ code that may fault.
mod Tests
mod Lists
mod Slices
mod Text
pub mod Decimal
pub mod Outcome
pub use Tests.*
pub use Lists.*
pub use Slices.*
pub use Text.{Bytes, codes, is_empty, bytes_eq_iff, Lacks, find_first_of-Lacks, find_first_of-parts}
unfoldable pub use Text.{bytes_eq, find_first_of}
pub use Prim.Native.Nat.{ℕ, zero, suc, ◌+◌, ◌-◌, ◌*◌, ◌/◌, ◌%◌, ◌^◌, ◌≤◌, ◌<◌, min}
pub use mathlib.Core.Path.{◌≡◌, refl, sym, subst, ap, ap₂, ◌∙◌, ◌≡⟨◌⟩◌, ◌∎}
pub use mathlib.Core.Logic.{◌≢◌, ◌↔◌, ◌⊎◌, inl, inr}
pub use mathlib.Core.Bool.{Bool, true, false, not, ◌&&◌, ◌||◌}
pub use mathlib.Core.Option.{Option, none, some}
pub use mathlib.Core.List.{List, [], ◌∷◌, ◌++◌, map, append-nil, append_assoc}
pub use native.Mathlib.Omega.{arith}
