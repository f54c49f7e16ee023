-- ===== src/KernelTests.antt =====
-- The theorems on the kernel's addresses, its page allocator and the console, at concrete inputs.
use r.Common.{ℕ, ◌+◌, ◌<◌, ◌≡◌, refl, List, [], ◌∷◌, none, some, done, not, ◌&&◌, leb, ltb, arith}
use r.Mem.{page_size_4k}
use r.Bitmap.Alloc.{BitmapPageAlloc}
use r.Bitmap.Alloc.Valid.{IsValid, allocated, total_pages}
use r.Aarch64.Kmem.{Symbols, kzero}
use r.Aarch64.Pagealloc.{page_alloc, init_page_allocator, init_page_allocator_lem, num_bitmaps}
use r.Aarch64.Vm.{
  level0, level1, level2, level3, va_index, address_of, recursive_table_addr,
  recursive_table_addr_lem,
}
use r.Devcons.{console_new, console_putstr, feed, console_putstr-console_new}

recursive_table_addr_lem_example :
    (recursive_table_addr 0xffff_8000_0012_3456 level0 ≡ address_of 511 511 511 511 0)
    × (recursive_table_addr 0xffff_8000_0012_3456 level1
        ≡ address_of 511 511 511 (va_index 0xffff_8000_0012_3456 level0) 0)
    × (recursive_table_addr 0xffff_8000_0012_3456 level2
        ≡ address_of 511 511
            (va_index 0xffff_8000_0012_3456 level0)
            (va_index 0xffff_8000_0012_3456 level1)
            0)
    × (recursive_table_addr 0xffff_8000_0012_3456 level3
        ≡ address_of 511
            (va_index 0xffff_8000_0012_3456 level0)
            (va_index 0xffff_8000_0012_3456 level1)
            (va_index 0xffff_8000_0012_3456 level2)
            0)
recursive_table_addr_lem_example = recursive_table_addr_lem 0xffff_8000_0012_3456

abbrev symbols : Symbols
symbols = record {
  eboottext = kzero + 0x1000;
  text = kzero + 0x1000;
  etext = kzero + 0x2000;
  rodata = kzero + 0x2000;
  erodata = kzero + 0x3000;
  kdata = kzero + 0x3000;
  edata = kzero + 0x4000;
  bss = kzero + 0x4000;
  ebss = kzero + 0x5000;
  kend = kzero + 0x9000;
  early_pagetables = kzero + 0x5000;
  eearly_pagetables = kzero + 0x9000;
}

init_page_allocator_lem_example :
    (a : BitmapPageAlloc) × (init_page_allocator symbols page_alloc ≡ done a)
    × IsValid num_bitmaps page_size_4k a
    × ((p : ℕ)
        → p < total_pages num_bitmaps page_size_4k
        → allocated page_size_4k a p ≡ not (leb 5 p && ltb p 9))
init_page_allocator_lem_example =
    init_page_allocator_lem symbols 5 9
      (record { from = refl; to = refl; ordered = omega arith; within = omega arith })

console_putstr-console_new_example :
    console_putstr
      (List ℕ)
      (λ out b. b ∷ out)
      (console_new (List ℕ) (λ out b. b ∷ out) [] none)
      (b'a' ∷ 10 ∷ [])
    ≡ done (some (10 ∷ 13 ∷ b'a' ∷ []))
unfolding feed
console_putstr-console_new_example =
    console_putstr-console_new (List ℕ) (λ out b. b ∷ out) [] none (b'a' ∷ 10 ∷ [])
