-- ===== src/Aarch64/Vm/Sorted.antt =====
-- aarch64/src/vm.rs: the map of `init` is in order of the starts of its ranges, as the page allocator wants it.
use r.Common.{
  ℕ, ◌≤◌, ◌≡◌, refl, some, List, [], ◌∷◌, dec_le, le→leb, leb-false, done, Option, Result, arith,
}
use mathlib.Core.List.{Perm}
use mathlib.Core.List.Perm
use r.Mem.{PhysRange, add}
use r.Aarch64.Kmem.{Symbols, boottext_range, text_range, rodata_range, data_range, bss_range}
use r.Aarch64.Registers.{PartNum, rpi_mmio}
use r.Aarch64.Vm.{page_4k, page_2m}
use r.Aarch64.Vm.Entry.{EntryOps, rw_kernel_data, ro_kernel_data, ro_kernel_text, ro_kernel_device}
use r.Aarch64.Vm.Table.{Machine}
use r.Aarch64.Vm.Init.{Mapping, insert_mapping, sort_by_start, custom_map}

-- The ranges start in order, from an address on.
abbrev pub StartsFrom : {E : Type 0} → ℕ → List (Mapping E) → Type 0
StartsFrom lo [] = Unit
StartsFrom lo (m ∷ ms) = (lo ≤ m.range.start) × StartsFrom m.range.start ms

module _ {E : Type 0} where
  insert_mapping-StartsFrom :
      (m : Mapping E) (ms : List (Mapping E)) (lo : ℕ)
      → lo ≤ m.range.start
      → StartsFrom lo ms
      → StartsFrom lo (insert_mapping m ms)
  unfolding insert_mapping
  insert_mapping-StartsFrom m [] lo h s = (h, tt)
  insert_mapping-StartsFrom m (n ∷ ns) lo h s = elim (dec_le m.range.start n.range.start) [
    | yes l ↦ rw (le→leb m.range.start n.range.start l) (h, (l, s.1))
    | no l ↦
        let rest = insert_mapping-StartsFrom m ns n.range.start (omega arith) s.1 in
        rw (leb-false m.range.start n.range.start (omega arith)) (s.0, rest)
  ]

  insert_mapping-Perm :
      (m : Mapping E) (ms : List (Mapping E)) → Perm (insert_mapping m ms) (m ∷ ms)
  unfolding insert_mapping
  insert_mapping-Perm m [] = Perm.refl _
  insert_mapping-Perm m (n ∷ ns) = elim (dec_le m.range.start n.range.start) [
    | yes l ↦ rw (le→leb m.range.start n.range.start l) (Perm.refl _)
    | no l ↦
        let rest = insert_mapping-Perm m ns in
        rw (leb-false m.range.start n.range.start (omega arith))
          (Perm.trans (Perm.cons n rest) (Perm.swap _ _ _))
  ]

  sort_by_start-StartsFrom : (ms : List (Mapping E)) → StartsFrom 0 (sort_by_start ms)
  unfolding sort_by_start
  sort_by_start-StartsFrom [] = tt
  sort_by_start-StartsFrom (m ∷ ms) =
      insert_mapping-StartsFrom m (sort_by_start ms) 0 (omega arith) (sort_by_start-StartsFrom ms)

  sort_by_start-Perm : (ms : List (Mapping E)) → Perm (sort_by_start ms) ms
  unfolding sort_by_start
  sort_by_start-Perm [] = Perm.refl _
  sort_by_start-Perm (m ∷ ms) =
      Perm.trans (insert_mapping-Perm m (sort_by_start ms)) (Perm.cons m (sort_by_start-Perm ms))

-- The mappings of the kernel's regions, in the order of the source.
abbrev pub kernel_mappings :
    {E : Type 0}
    → EntryOps E
    → PhysRange
    → PhysRange
    → PhysRange
    → PhysRange
    → PhysRange
    → List (Mapping E)
kernel_mappings ops dtb text kdata bss mmio =
    record { range = dtb; flags = ro_kernel_data ops; page_size = page_4k }
    ∷ record { range = text; flags = ro_kernel_text ops; page_size = page_4k }
    ∷ record { range = kdata; flags = rw_kernel_data ops; page_size = page_4k }
    ∷ record { range = bss; flags = rw_kernel_data ops; page_size = page_4k }
    ∷ record { range = mmio; flags = ro_kernel_device ops; page_size = page_2m }
    ∷ []

-- When the ranges of the kernel's image can be made and the board's devices are known, custom_map
-- gives the mappings of the device tree, the text, the data, the zeroed data and the devices, each
-- exactly once, in the order of their starts.
pub custom_map_lem :
    {E : Type 0} (ops : EntryOps E) (resolve : Machine E → ℕ → Option ℕ) (symbols : Symbols)
    (part : Result ℕ PartNum) (dtb_range boottext text rodata kdata bss mmio : PhysRange)
    → boottext_range symbols ≡ done boottext
    → text_range symbols ≡ done text
    → rodata_range symbols ≡ done rodata
    → data_range symbols ≡ done kdata
    → bss_range symbols ≡ done bss
    → rpi_mmio part ≡ done (some mmio)
    → (ms : List (Mapping E)) × (custom_map ops resolve symbols part dtb_range ≡ done ms)
      × StartsFrom 0 ms
      × Perm ms (kernel_mappings ops dtb_range (add boottext text) (add rodata kdata) bss mmio)
unfolding custom_map
custom_map_lem ops resolve symbols part dtb_range boottext text rodata kdata bss mmio a b c d e f =
    let ms = kernel_mappings ops dtb_range (add boottext text) (add rodata kdata) bss mmio in
    (
      sort_by_start ms,
      rw (a, b, c, d, e, f) refl,
      sort_by_start-StartsFrom ms,
      sort_by_start-Perm ms,
    )
