-- ===== src/Common/Word.antt =====
-- Arithmetic on `usize` and `u64` as the checked (development) profile does it: a result that does
-- not fit is a panic. Shifts and masks at 64 bits.
use Prim.Native.Nat.{ℕ, ◌+◌, ◌-◌, ◌*◌, ◌/◌, ◌%◌, ◌^◌}
use mathlib.Core.Bool.{Bool, true, false}
use r.Common.Tests.{ltb, leb, ◌==◌, if◌then◌else◌, any_below}
use r.Common.Exec.{Run, done, panic}

abbrev pub u64_mod : ℕ
u64_mod = 2 ^ 64

abbrev pub u32_mod : ℕ
u32_mod = 2 ^ 32

abbrev pub add64 : ℕ → ℕ → Run ℕ
add64 a b = if ltb (a + b) u64_mod then done (a + b) else panic

abbrev pub mul64 : ℕ → ℕ → Run ℕ
mul64 a b = if ltb (a * b) u64_mod then done (a * b) else panic

abbrev pub sub64 : ℕ → ℕ → Run ℕ
sub64 a b = if leb b a then done (a - b) else panic

abbrev pub add32 : ℕ → ℕ → Run ℕ
add32 a b = if ltb (a + b) u32_mod then done (a + b) else panic

-- `!x` at 64 bits.
abbrev pub not64 : ℕ → ℕ
not64 x = u64_mod - 1 - x

-- `x >> k`, and `x << k` where the result is cut to 64 bits.
abbrev pub shr : ℕ → ℕ → ℕ
shr x k = x / 2 ^ k

abbrev pub shl64 : ℕ → ℕ → ℕ
shl64 x k = x * 2 ^ k % u64_mod

abbrev pub assert : Bool → Run (Unit {0})
assert true = done tt
assert false = panic

-- `u64::is_power_of_two`.
unfoldable pub is_power_of_two : ℕ → Bool
unfolding any_below
is_power_of_two n = any_below 64 (λ k. n == 2 ^ k)
