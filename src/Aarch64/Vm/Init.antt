-- ===== src/Aarch64/Vm/Init.antt =====
-- aarch64/src/vm.rs: `init`, which builds the kernel's tables. The names of the ranges, which it only
-- prints, are left out.
use r.Common.{
  ℕ, Option, List, [], ◌∷◌, map, leb, if◌then◌else◌, Run, done, panic, ◌>>=◌, Result, ok, err,
  expect,
}
use r.Mem.{PhysRange, add}
use r.Aarch64.Kmem.{Symbols, boottext_range, text_range, rodata_range, data_range, bss_range}
use r.Aarch64.Pagealloc
use r.Aarch64.Registers.{PartNum, rpi_mmio}
use r.Aarch64.Vm.{PageSize, page_4k, page_2m}
use r.Aarch64.Vm.Entry.{
  EntryOps, table_entry, rw_kernel_data, ro_kernel_data, ro_kernel_text, ro_kernel_device,
}
use r.Aarch64.Vm.Table.{Machine, write, map_phys_range}

pub record Mapping (E : Type 0) : Type 0 where
  pub range : PhysRange
  pub flags : E
  pub page_size : PageSize

-- `sort_by_key` of the standard library: a stable sort by the start of the range.
unfoldable pub insert_mapping : {E : Type 0} → Mapping E → List (Mapping E) → List (Mapping E)
insert_mapping m [] = m ∷ []
insert_mapping m (n ∷ ns) =
    if leb m.range.start n.range.start then m ∷ n ∷ ns else n ∷ insert_mapping m ns

unfoldable pub sort_by_start : {E : Type 0} → List (Mapping E) → List (Mapping E)
sort_by_start [] = []
sort_by_start (m ∷ ms) = insert_mapping m (sort_by_start ms)

module _ {E : Type 0} (ops : EntryOps E) (resolve : Machine E → ℕ → Option ℕ) where
  unfoldable pub custom_map : Symbols → Result ℕ PartNum → PhysRange → Run (List (Mapping E))
  unfolding sort_by_start
  custom_map symbols part dtb_range = do
    boottext ← boottext_range symbols
    text ← text_range symbols
    rodata ← rodata_range symbols
    kdata ← data_range symbols
    bss ← bss_range symbols
    found ← rpi_mmio part
    mmio ← expect found
    done (
        sort_by_start (
          record { range = dtb_range; flags = ro_kernel_data ops; page_size = page_4k }
          ∷ record { range = add boottext text; flags = ro_kernel_text ops; page_size = page_4k }
          ∷ record { range = add rodata kdata; flags = rw_kernel_data ops; page_size = page_4k }
          ∷ record { range = bss; flags = rw_kernel_data ops; page_size = page_4k }
          ∷ record { range = mmio; flags = ro_kernel_device ops; page_size = page_2m }
          ∷ []))

  -- The loop over the map; a range that cannot be mapped is a panic.
  unfoldable pub map_all : Machine E → ℕ → List (Mapping E) → Run (Machine E)
  map_all s self [] = done s
  map_all s self (m ∷ ms) = do
    (s', r) ← map_phys_range ops resolve s self m.range m.flags m.page_size
    elim r [ ok _ ↦ map_all s' self ms | err _ ↦ panic ]

  unfoldable pub init :
      Symbols → Result ℕ PartNum → Machine E → ℕ → PhysRange → PhysRange → Run (Machine E)
  unfolding map_all
  init symbols part s kpage_table dtb_range available_mem = do
    pages ← Pagealloc.init_page_allocator symbols s.pages
    let s1 = write (record s { pages = pages }) kpage_table 511 (table_entry ops kpage_table)
    mappings ← custom_map symbols part dtb_range
    s2 ← map_all s1 kpage_table mappings
    (pages', r) ← Pagealloc.free_unused_ranges s2.pages available_mem (map (λ m. m.range) mappings)
    elim r [ ok _ ↦ done (record s2 { pages = pages' }) | err _ ↦ panic ]
