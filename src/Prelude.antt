-- ===== src/Prelude.antt =====
-- The names that the other modules share.
mod Tests
mod Int
mod Words
mod Bits
mod Masks
mod Complement
mod Fields
mod Bounds
unfoldable pub use Tests.*
unfoldable pub use Int.*
unfoldable pub use Words.*
unfoldable pub use Bits.*
unfoldable pub use Masks.*
pub use Complement.*
pub use Fields.*
pub use Bounds.*
pub use Prim.Native.Nat.{ℕ, zero, suc, ◌+◌, ◌-◌, ◌*◌, ◌/◌, ◌%◌, ◌^◌, ◌≤◌, ◌<◌, min, max}
pub use Prim.Native.Nat.{bit_and, bit_or, bit_xor}
pub use mathlib.Core.Path.{◌≡◌, refl, sym, ap, ◌∙◌, fun_ext}
pub use mathlib.Core.Logic.{◌≢◌, ◌↔◌, ◌⊎◌, inl, inr}
pub use mathlib.Core.Bool.{Bool, true, false, not, ◌&&◌, ◌||◌}
pub use mathlib.Core.Option.{Option, none, some}
pub use mathlib.Core.List.{List, [], ◌∷◌, ◌++◌}
pub use native.Mathlib.Omega.{arith}

-- A C array: a store at index `i`.
abbrev pub update {ℓ} : {A : Type ℓ} → (ℕ → A) → ℕ → A → ℕ → A
update f i v j = if j == i then v else f j
