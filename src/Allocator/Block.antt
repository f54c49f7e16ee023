-- ===== src/Allocator/Block.antt =====
-- port/src/allocator.rs: `Block`, and the pointer and layout arithmetic of `core` that the allocators
-- use.
--
-- A pointer is its address, a `usize`; 0 is the null pointer.
use r.Common.{
  ℕ, zero, suc, ◌+◌, ◌-◌, ◌*◌, ◌/◌, ◌%◌, ◌^◌, ◌&&◌, Option, none, some, Run, done, panic, ◌>>◌, ltb,
  leb, ◌==◌, if◌then◌else◌,
}
use r.Common.Word.{u64_mod, is_power_of_two, assert}

pub record Block : Type 0 where
  pub ptr : ℕ
  pub len : ℕ

-- `wrapping_add`.
abbrev pub wrapping_add : ℕ → ℕ → ℕ
wrapping_add ptr n = (ptr + n) % u64_mod

-- `<*mut u8>::align_offset`: the bytes up to the next multiple of `align`. It panics if `align` is not
-- a power of two.
unfoldable pub align_offset : ℕ → ℕ → Run ℕ
align_offset ptr align = do assert (is_power_of_two align); done ((align - ptr % align) % align)

unfoldable pub split_at_mut : Block → ℕ → Option (Block × Block)
split_at_mut b offset =
    if ltb b.len offset
    then none
    else some (
      record { ptr = b.ptr; len = offset },
      record { ptr = wrapping_add b.ptr offset; len = b.len - offset },
    )

pub record Layout : Type 0 where
  pub size : ℕ
  pub align : ℕ

-- `Layout::from_size_align`: the alignment is a power of two, and the size rounded up to it stays
-- within `isize::MAX`.
unfoldable pub from_size_align : ℕ → ℕ → Option Layout
from_size_align size align =
    if is_power_of_two align && leb size (2 ^ 63 - align)
    then some (record { size = size; align = align })
    else none

-- `next_power_of_two` from the power `p` on, by doublings; 64 of them pass every `usize`.
unfoldable pub power_from : ℕ → ℕ → ℕ → ℕ
power_from zero p n = p
power_from (suc fuel) p n = let rest = power_from fuel (2 * p) n in if leb n p then p else rest

unfoldable pub next_power_of_two : ℕ → ℕ
unfolding power_from
next_power_of_two n = power_from 64 1 n

-- `ilog2`: how often `n` can be halved. It panics on 0.
unfoldable pub halvings : ℕ → ℕ → ℕ
halvings zero n = 0
halvings (suc fuel) n = let rest = halvings fuel (n / 2) in if leb n 1 then 0 else rest + 1

unfoldable pub ilog2 : ℕ → Run ℕ
unfolding halvings
ilog2 n = if n == 0 then panic else done (halvings 64 n)
