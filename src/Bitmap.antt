-- ===== src/Bitmap.antt =====
-- port/src/bitmapalloc.rs: one bitmap, its bit tests and updates, and the bit counts of a byte.
--
-- A byte is a number below 256. An index out of range is a panic.
pub mod Bit
pub mod Alloc
use r.Common.{
  ℕ, zero, suc, ◌+◌, ◌-◌, ◌/◌, ◌%◌, ◌^◌, bit_and, bit_or, Bool, List, Run, done, ◌>>=◌, ltb, ◌==◌,
  if◌then◌else◌, index, set as set_elem, replicate,
}

pub record Bitmap : Type 0 where
  pub bytes : List ℕ

unfoldable pub new : ℕ → ℕ → Bitmap
new size_bytes init_value = record { bytes = replicate size_bytes init_value }

-- `byte & (1 << bit_idx) > 0`, and the two updates of a byte, with `bit_idx` below 8.
unfoldable pub test_bit : ℕ → ℕ → Bool
test_bit byte bit_idx = ltb 0 (bit_and byte (2 ^ bit_idx))

unfoldable pub write_bit : ℕ → ℕ → Bool → ℕ
write_bit byte bit_idx b = if b then bit_or byte (2 ^ bit_idx) else bit_and byte (255 - 2 ^ bit_idx)

unfoldable pub is_set : Bitmap → ℕ → Run Bool
is_set m i = do byte ← index m.bytes (i / 8); done (test_bit byte (i % 8))

unfoldable pub set : Bitmap → ℕ → Bool → Run Bitmap
set m i b = do
  byte ← index m.bytes (i / 8)
  done (record { bytes = set_elem m.bytes (i / 8) (write_bit byte (i % 8) b) })

-- The first `n` binary digits of `byte`, counted from the right: the leading run of ones
-- (`u8::trailing_ones`), and the zeros (`u8::count_zeros`), at `n` = 8.
pub ones_run : ℕ → ℕ → ℕ
ones_run zero byte = 0
ones_run (suc n) byte = let rest = ones_run n (byte / 2) in if byte % 2 == 1 then rest + 1 else 0

pub zeros_in : ℕ → ℕ → ℕ
zeros_in zero byte = 0
zeros_in (suc n) byte = zeros_in n (byte / 2) + (1 - byte % 2)

unfoldable pub trailing_ones : ℕ → ℕ
unfolding ones_run
trailing_ones byte = ones_run 8 byte

unfoldable pub count_zeros : ℕ → ℕ
unfolding zeros_in
count_zeros byte = zeros_in 8 byte
