-- ===== src/Base.antt =====
-- The names that the other modules share: the libraries', passed on, the Boolean tests on native
-- numbers, and the word size of the target (`size_t` has 64 bits).
mod Tests
mod Lists
pub use Tests.*
pub use Lists.*
pub use Prim.Native.Nat.{ℕ, zero, suc, ◌+◌, ◌-◌, ◌*◌, ◌/◌, ◌%◌, ◌^◌, ◌≤◌, ◌<◌, min}
pub use mathlib.Core.Path.{◌≡◌, refl, sym, ap, ap₂, ◌∙◌, ◌≡⟨◌⟩◌, ◌∎, subst}
pub use mathlib.Core.Logic.{◌≢◌, ◌↔◌, ◌⊎◌, inl, inr}
pub use mathlib.Core.Bool.{Bool, true, false, ◌&&◌, ◌||◌, not}
pub use mathlib.Core.Option.{Option, none, some}
pub use mathlib.Core.List.{List, [], ◌∷◌, ◌++◌, append_assoc, append-nil}
pub use native.Mathlib.Omega.{arith}

-- SIZE_MAX, and the modulus of `size_t` arithmetic.
abbrev pub size_max : ℕ
size_max = 0xffff_ffff_ffff_ffff

abbrev pub word : ℕ
word = 0x1_0000_0000_0000_0000
