-- ===== src/Prelude/I64.antt =====
-- The arithmetic of `i64`: integers that wrap at 2^63, with division towards zero.
use s4_logs.Prelude.Tests.{ltb, leb, if◌then◌else◌}
use s4_logs.Prelude.Int.{ℤ, pos, negsuc, ◌+ℤ◌, ◌-ℤ◌, ◌*ℤ◌, min_ℤ, max_ℤ}
use Prim.Native.Nat.{ℕ, suc, ◌+◌, ◌-◌, ◌*◌, ◌/◌, ◌%◌, ◌^◌, ◌≤◌, ◌<◌}
use mathlib.Core.Path.{◌≡◌}
use native.Mathlib.Omega.{arith}

abbrev pub i64_max : ℤ
i64_max = pos (2 ^ 63 - 1)

abbrev pub i64_min : ℤ
i64_min = negsuc (2 ^ 63 - 1)

abbrev pub IsI64 : ℤ → Type 0
IsI64 (pos n) = n < 2 ^ 63
IsI64 (negsuc n) = n < 2 ^ 63

-- The representative modulo 2^64 that lies in the range.
pub wrap64 : ℤ → ℤ
wrap64 (pos n) =
    if ltb (n % 2 ^ 64) (2 ^ 63) then pos (n % 2 ^ 64) else negsuc (2 ^ 64 - 1 - n % 2 ^ 64)
wrap64 (negsuc n) =
    if ltb (n % 2 ^ 64) (2 ^ 63) then negsuc (n % 2 ^ 64) else pos (2 ^ 64 - 1 - n % 2 ^ 64)

pub wrap64-pos : (n : ℕ) → n < 2 ^ 63 → wrap64 (pos n) ≡ pos n
unfolding wrap64
wrap64-pos n h = ground arith

unfoldable pub add_i64 : ℤ → ℤ → ℤ
unfolding wrap64 ◌+ℤ◌
add_i64 a b = wrap64 (a +ℤ b)

unfoldable pub sub_i64 : ℤ → ℤ → ℤ
unfolding wrap64 ◌-ℤ◌
sub_i64 a b = wrap64 (a -ℤ b)

unfoldable pub mul_i64 : ℤ → ℤ → ℤ
unfolding wrap64 ◌*ℤ◌
mul_i64 a b = wrap64 (a *ℤ b)

abbrev negate : ℕ → ℤ
negate n = if ltb 0 n then negsuc (n - 1) else pos 0

-- `/` on i64 for a positive divisor; the code divides by nothing else.
unfoldable pub div_i64 : ℤ → ℕ → ℤ
div_i64 (pos a) b = pos (a / b)
div_i64 (negsuc a) b = negate (suc a / b)

abbrev clamp64 : ℤ → ℤ
clamp64 a = min_ℤ i64_max (max_ℤ i64_min a)

unfoldable pub saturating_add : ℤ → ℤ → ℤ
unfolding ◌+ℤ◌
saturating_add a b = clamp64 (a +ℤ b)

unfoldable pub saturating_sub : ℤ → ℤ → ℤ
unfolding ◌-ℤ◌
saturating_sub a b = clamp64 (a -ℤ b)

unfoldable pub saturating_mul : ℤ → ℤ → ℤ
unfolding ◌*ℤ◌
saturating_mul a b = clamp64 (a *ℤ b)

pub add_i64-pos : (a b : ℕ) → a + b < 2 ^ 63 → add_i64 (pos a) (pos b) ≡ pos (a + b)
unfolding add_i64
add_i64-pos a b h = ground arith

pub sub_i64-pos : (a b : ℕ) → b ≤ a → a < 2 ^ 63 → sub_i64 (pos a) (pos b) ≡ pos (a - b)
unfolding sub_i64
sub_i64-pos a b h k = ground arith

pub mul_i64-pos : (a b : ℕ) → a * b < 2 ^ 63 → mul_i64 (pos a) (pos b) ≡ pos (a * b)
unfolding mul_i64
mul_i64-pos a b h = ground arith

pub saturating_add-pos :
    (a b : ℕ)
    → saturating_add (pos a) (pos b) ≡ pos (if leb (2 ^ 63 - 1) (a + b) then 2 ^ 63 - 1 else a + b)
unfolding saturating_add
saturating_add-pos a b = ground arith
