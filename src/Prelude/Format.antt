-- ===== src/Prelude/Format.antt =====
-- What the sources use of snprintf: %s, %d, %u, %08X, and the bound on the output.
use Prim.Native.Nat.{ℕ, zero, suc, ◌+◌, ◌-◌, ◌/◌, ◌%◌, ◌^◌, ◌<◌}
use Prim.Native.String.{String}
use mathlib.Core.List.{[], ◌∷◌, ◌++◌}
use native.Mathlib.Omega.{arith}
use vitacompanion_vitadeck.Prelude.Tests.{ltb, if◌then◌else◌}
use vitacompanion_vitadeck.Prelude.Lists.{length, take, length-take}
use vitacompanion_vitadeck.Prelude.Int.{ℤ, pos, negsuc, cast_u32}
use vitacompanion_vitadeck.Prelude.Strings.{Text, codes}

-- A literal with a line feed behind it.
abbrev pub line : String → Text
line s = codes s ++ (10 ∷ [])

-- The decimal digits of a number; the fuel is one more than the number.
pub digits_of : ℕ → ℕ → Text
digits_of zero n = []
digits_of (suc fuel) n =
    let front = digits_of fuel (n / 10) in
    if ltb n 10 then (b'0' + n) ∷ [] else front ++ ((b'0' + n % 10) ∷ [])

-- `%u`
unfoldable pub decimal_text : ℕ → Text
unfolding digits_of
decimal_text n = digits_of (suc n) n

-- `%d`
unfoldable pub int_text : ℤ → Text
unfolding decimal_text
int_text (pos n) = decimal_text n
int_text (negsuc n) = b'-' ∷ decimal_text (suc n)

pub hex_digit : ℕ → ℕ
hex_digit d = if ltb d 10 then b'0' + d else b'A' + d - 10

pub hex_digits : ℕ → ℕ → Text
hex_digits zero n = []
hex_digits (suc k) n = hex_digit (n / 16 ^ k % 16) ∷ hex_digits k n

-- `%08X` of an `int`
unfoldable pub hex_text : ℤ → Text
unfolding hex_digits hex_digit
hex_text n = hex_digits 8 (cast_u32 n)

-- `snprintf(buffer, size, …)` with the whole output `s`: the string in the buffer.
unfoldable pub snprintf : ℕ → Text → Text
snprintf size s = take (size - 1) s

pub length-snprintf : (size : ℕ) (s : Text) → 0 < size → length (snprintf size s) < size
unfolding snprintf
length-snprintf size s h = omega (arith, length-take (size - 1) s)
