-- ===== src/Aarch64/Vm.antt =====
-- aarch64/src/vm.rs: page sizes, levels and the recursive addresses of page tables.
pub mod Entry
pub mod Table
pub mod Walk
pub mod Extend
pub mod Grow
pub mod Next
pub mod Map
pub mod Install
pub mod Apart
pub mod Kept
pub mod Pages
pub mod Range
pub mod Init
pub mod Sorted
pub mod Mappings
use r.Common.{
  ℕ, ◌+◌, ◌-◌, ◌*◌, ◌/◌, ◌%◌, ◌^◌, ◌≤◌, ◌<◌, ◌≡◌, ap, ◌∙◌, bit_and, bit_or, Option, none, some,
  arith,
}
use r.Common.Bits.{bit_and_mask, bit_and_high, bit_or_low}
use r.Mem.{page_size_4k, page_size_2m, page_size_1g}

pub data PageSize : Type 0 where
  page_4k page_2m page_1g : PageSize

unfoldable pub page_bytes : PageSize → ℕ
page_bytes page_4k = page_size_4k
page_bytes page_2m = page_size_2m
page_bytes page_1g = page_size_1g

pub data Level : Type 0 where
  level0 level1 level2 level3 : Level

unfoldable pub next_level : Level → Option Level
next_level level0 = some level1
next_level level1 = some level2
next_level level2 = some level3
next_level level3 = none

unfoldable pub depth : Level → ℕ
depth level0 = 0
depth level1 = 1
depth level2 = 2
depth level3 = 3

unfoldable pub va_index : ℕ → Level → ℕ
va_index va level0 = bit_and (va / 2 ^ 39) 0x1ff
va_index va level1 = bit_and (va / 2 ^ 30) 0x1ff
va_index va level2 = bit_and (va / 2 ^ 21) 0x1ff
va_index va level3 = bit_and (va / 2 ^ 12) 0x1ff

unfoldable pub va_indices : ℕ → ℕ × ℕ × ℕ × ℕ
va_indices va = (va_index va level0, va_index va level1, va_index va level2, va_index va level3)

abbrev indices_mask : ℕ
indices_mask = 0x0000_ffff_ffff_f000

abbrev shift : Level → ℕ
shift level0 = 36
shift level1 = 27
shift level2 = 18
shift level3 = 9

abbrev recursive_indices : Level → ℕ
recursive_indices level0 =
    bit_or (bit_or (bit_or (511 * 2 ^ 39) (511 * 2 ^ 30)) (511 * 2 ^ 21)) (511 * 2 ^ 12)
recursive_indices level1 = bit_or (bit_or (511 * 2 ^ 39) (511 * 2 ^ 30)) (511 * 2 ^ 21)
recursive_indices level2 = bit_or (511 * 2 ^ 39) (511 * 2 ^ 30)
recursive_indices level3 = 511 * 2 ^ 39

unfoldable pub recursive_table_addr : ℕ → Level → ℕ
recursive_table_addr va level =
    let indices = bit_and va indices_mask in
    bit_or (bit_or 0xffff_0000_0000_0000 (recursive_indices level))
      (bit_and (indices / 2 ^ shift level) indices_mask)

-- The index at a level is a digit of the address to the base 512.
pub va_index_lem :
    (va : ℕ)
    → (va_index va level0 ≡ va / 2 ^ 39 % 512)
      × (va_index va level1 ≡ va / 2 ^ 30 % 512)
      × (va_index va level2 ≡ va / 2 ^ 21 % 512)
      × (va_index va level3 ≡ va / 2 ^ 12 % 512)
unfolding va_index
va_index_lem va = (
  bit_and_mask 9 (va / 2 ^ 39),
  bit_and_mask 9 (va / 2 ^ 30),
  bit_and_mask 9 (va / 2 ^ 21),
  bit_and_mask 9 (va / 2 ^ 12),
)

-- The address in the upper half that four indices and an offset make up.
abbrev pub address_of : ℕ → ℕ → ℕ → ℕ → ℕ → ℕ
address_of i0 i1 i2 i3 offset =
    0xffff_0000_0000_0000 + i0 * 2 ^ 39 + i1 * 2 ^ 30 + i2 * 2 ^ 21 + i3 * 2 ^ 12 + offset

-- An address of the upper half is made up of its indices and its offset in the page.
va_indices_lem :
    (va : ℕ)
    → 0xffff_0000_0000_0000 ≤ va
    → va < 2 ^ 64
    → address_of
        (va_index va level0)
        (va_index va level1)
        (va_index va level2)
        (va_index va level3)
        (va % 4096)
      ≡ va
va_indices_lem va lo hi = let (a, b, c, d) = va_index_lem va in rw (a, b, c, d) (omega arith)

mask_lem : (x : ℕ) → bit_and x indices_mask ≡ x / 4096 % 2 ^ 36 * 4096
mask_lem x =
    let split : x ≡ x / 4096 * 2 ^ 12 + x % 4096 = omega arith in
    ap (λ n. bit_and n indices_mask) split
    ∙ bit_and_high 12 (x / 4096) (x % 4096) (2 ^ 36 - 1) (omega arith)
    ∙ ap (λ n. n * 4096) (bit_and_mask 36 (x / 4096))

-- The indices that are left of an address after a shift, and that the mask keeps.
shifted :
    (va s : ℕ)
    → bit_and (bit_and va indices_mask / s) indices_mask
      ≡ va / 4096 % 2 ^ 36 * 4096 / s / 4096 % 2 ^ 36 * 4096
shifted va s =
    mask_lem (bit_and va indices_mask / s) ∙ ap (λ n. n / s / 4096 % 2 ^ 36 * 4096) (mask_lem va)

abbrev kept : ℕ → ℕ → ℕ
kept va s = bit_and (bit_and va indices_mask / s) indices_mask

none_kept : (va : ℕ) → kept va (2 ^ 36) ≡ 0
none_kept va = shifted va (2 ^ 36) ∙ omega arith

one_kept : (va : ℕ) → kept va (2 ^ 27) ≡ va / 2 ^ 39 % 512 * 2 ^ 12
one_kept va = shifted va (2 ^ 27) ∙ omega arith

two_kept : (va : ℕ) → kept va (2 ^ 18) ≡ va / 2 ^ 39 % 512 * 2 ^ 21 + va / 2 ^ 30 % 512 * 2 ^ 12
two_kept va = shifted va (2 ^ 18) ∙ omega arith

three_kept :
    (va : ℕ)
    → kept va (2 ^ 9)
      ≡ va / 2 ^ 39 % 512 * 2 ^ 30 + va / 2 ^ 30 % 512 * 2 ^ 21 + va / 2 ^ 21 % 512 * 2 ^ 12
three_kept va = shifted va (2 ^ 9) ∙ omega arith

-- The table that translates `va` at a level, seen through the last entry of the root table, which
-- points to the root itself: one index less of `va` for each level up, after as many times 511.
pub recursive_table_addr_lem :
    (va : ℕ)
    → (recursive_table_addr va level0 ≡ address_of 511 511 511 511 0)
      × (recursive_table_addr va level1 ≡ address_of 511 511 511 (va_index va level0) 0)
      × (recursive_table_addr va level2
          ≡ address_of 511 511 (va_index va level0) (va_index va level1) 0)
      × (recursive_table_addr va level3
          ≡ address_of 511 (va_index va level0) (va_index va level1) (va_index va level2) 0)
unfolding recursive_table_addr
recursive_table_addr_lem va =
    let (i0, i1, i2, _) = va_index_lem va in
    (
      ap (bit_or 0xffff_ffff_ffff_f000) (none_kept va)
          ∙ bit_or_low 12 0xf_ffff_ffff_ffff 0 (omega arith),
      rw i0 (
          ap (bit_or 0xffff_ffff_ffe0_0000) (one_kept va)
          ∙ bit_or_low 21 0x7ff_ffff_ffff _ (omega arith)
          ∙ omega arith),
      rw (i0, i1)
          (ap (bit_or 0xffff_ffff_c000_0000) (two_kept va)
            ∙ bit_or_low 30 0x3_ffff_ffff _ (omega arith)
            ∙ omega arith),
      rw (i0, i1, i2)
          (ap (bit_or 0xffff_ff80_0000_0000) (three_kept va)
            ∙ bit_or_low 39 0x1ff_ffff _ (omega arith)
            ∙ omega arith),
    )
