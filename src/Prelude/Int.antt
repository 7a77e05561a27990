-- ===== src/Prelude/Int.antt =====
-- Signed C integers. `negsuc n` is -(n + 1).
use Prim.Native.Nat.{ℕ, zero, suc, ◌-◌, ◌%◌, ◌^◌}
use mathlib.Core.Path.{◌≡◌, refl}
use mathlib.Core.Logic.{◌⊎◌, inl, inr}
use mathlib.Core.Bool.{Bool, true, false}

pub data ℤ : Type 0 where
  pos : ℕ → ℤ
  negsuc : ℕ → ℤ

-- `x < 0`
abbrev pub is_negative : ℤ → Bool
is_negative (pos n) = false
is_negative (negsuc n) = true

-- The cast of an `int` to `unsigned int`: an `int` that is not negative is its own value.
abbrev pub cast_u32 : ℤ → ℕ
cast_u32 (pos n) = n
cast_u32 (negsuc n) = 2 ^ 32 - 1 - n % 2 ^ 32

abbrev pub u8 : ℕ → ℕ
u8 n = n % 2 ^ 8

abbrev pub u16 : ℕ → ℕ
u16 n = n % 2 ^ 16

abbrev pub u32 : ℕ → ℕ
u32 n = n % 2 ^ 32

abbrev pub u64 : ℕ → ℕ
u64 n = n % 2 ^ 64

abbrev pub int_max : ℕ
int_max = 0x7fffffff

-- A result is zero, positive, or negative.
pub sign_cases :
    (a : ℤ) → (a ≡ pos 0) ⊎ (((n : ℕ) × (a ≡ pos (suc n))) ⊎ ((n : ℕ) × (a ≡ negsuc n)))
sign_cases (pos zero) = inl refl
sign_cases (pos (suc n)) = inr (inl (n, refl))
sign_cases (negsuc n) = inr (inr (n, refl))
