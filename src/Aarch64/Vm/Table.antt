-- ===== src/Aarch64/Vm/Table.antt =====
-- aarch64/src/vm.rs: `Table`, the walk through the tables, and the mapping of pages.
--
-- Page tables lie in physical memory: the entries of the page at a physical address are a function from
-- indices. A pointer to a table is one into the window of physical memory at KZERO, known by the
-- physical address of its page, or a recursive address, which the machine translates anew at each
-- access. The translation is that of the architecture: the parameter `resolve`. A fault ends in a
-- panic. Every change of the root's last entry is followed by the invalidation of the cached
-- translations, and an entry that was invalid is not cached, so that `resolve` sees what is stored.
use r.Common.{
  ℕ, true, ◌&&◌, ◌==◌, if◌then◌else◌, Option, none, some, List, [], ◌∷◌, Run, done, ◌>>=◌, Result,
  ok, err, expect,
}
use r.Common.Word.{add64}
use r.Mem.{PhysRange, step_by_rounded}
use r.Bitmap.Alloc.{BitmapPageAlloc, BitmapPageAllocError}
use r.Aarch64.Kmem.{physaddr_as_virt, from_virt_to_physaddr}
use r.Aarch64.Pagealloc
use r.Aarch64.Vm.{
  PageSize, page_4k, page_2m, page_1g, page_bytes, Level, level0, level1, level2, level3,
  next_level, va_index, recursive_table_addr,
}
use r.Aarch64.Vm.Entry
use r.Aarch64.Vm.Entry.{
  EntryOps, valid, page_or_table, flag, bit, rw_kernel_data, with_phys_addr, table_entry,
}

pub data PageTableError : Type 0 where
  allocation_failed : BitmapPageAllocError → PageTableError
  entry_is_not_table phys_range_is_zero : PageTableError

-- `root` is the physical address that ttbr1_el1 holds.
pub record Machine (E : Type 0) : Type 0 where
  pub root : ℕ
  pub entries : ℕ → ℕ → E
  pub pages : BitmapPageAlloc

pub data TablePtr : Type 0 where
  window recursive : ℕ → TablePtr

abbrev pub write : {E : Type 0} → Machine E → ℕ → ℕ → E → Machine E
write s page index entry = record s {
  entries = λ p i. if p == page && i == index then entry else s.entries p i;
}

-- `Page4K::clear`: every entry of the page is `Entry(0)`.
abbrev pub clear : {E : Type 0} → EntryOps E → Machine E → ℕ → Machine E
clear ops s page = record s { entries = λ p i. if p == page then ops.zero_entry else s.entries p i }

-- Entries at level 3 have the flag of a page.
abbrev pub leaf_entry : {E : Type 0} → EntryOps E → E → PageSize → E
leaf_entry ops entry page_4k = ops.put page_or_table (bit true) entry
leaf_entry ops entry page_2m = entry
leaf_entry ops entry page_1g = entry

module _ {E : Type 0} (ops : EntryOps E) (resolve : Machine E → ℕ → Option ℕ) where
  abbrev pub Outcome : Type 0 → Type 0
  Outcome A = Run (Machine E × Result PageTableError A)

  infixl 5 ◌>>?◌
  -- `?` and `and_then`: the state goes on, and an error ends the computation.
  abbrev pub ◌>>?◌ : {A B : Type 0} → Outcome A → (Machine E → A → Outcome B) → Outcome B
  m >>? f = m >>= λ (s, r). elim r [ ok a ↦ f s a | err e ↦ done (s, err e) ]

  -- The physical page of a table.
  abbrev pub page_of : Machine E → TablePtr → Run ℕ
  page_of s (window pa) = done pa
  page_of s (recursive va) = expect (resolve s va)

  unfoldable pub alloc_pagetable : Machine E → Outcome ℕ
  alloc_pagetable s = do
    (pages', r) ← Pagealloc.allocate s.pages
    elim r [
      | ok va ↦ do
        pa ← from_virt_to_physaddr va
        done (clear ops (record s { pages = pages' }) pa, ok va)
      | err e ↦ done (record s { pages = pages' }, err (allocation_failed e))
    ]

  abbrev new_table : Machine E → TablePtr → ℕ → Outcome E
  new_table s self index = alloc_pagetable s >>? λ s' table. do
    pa ← from_virt_to_physaddr table
    page ← page_of s' self
    done (write s' page index (table_entry ops pa), ok (table_entry ops pa))

  unfoldable pub next_mut : Machine E → TablePtr → Level → ℕ → Outcome TablePtr
  next_mut s self level va = do
    page ← page_of s self
    (if flag ops valid (s.entries page (va_index va level))
          then done (s, ok (s.entries page (va_index va level)))
          else new_table s self (va_index va level))
        >>? λ s' entry.
            if Entry.table ops entry level
            then (do
              next ← expect (next_level level)
              done (s', ok (recursive (recursive_table_addr va next))))
            else done (s', err entry_is_not_table)

  -- A reference to an entry: the table and the index.
  abbrev pub entry_mut : Machine E → TablePtr → Level → ℕ → Outcome (TablePtr × ℕ)
  entry_mut s self level va = done (s, ok (self, va_index va level))

  unfoldable pub dest_entry : Machine E → ℕ → ℕ → PageSize → Outcome (TablePtr × ℕ)
  dest_entry s self va page_4k =
      next_mut s (window self) level0 va
      >>? (λ s1 t1. next_mut s1 t1 level1 va)
      >>? (λ s2 t2. next_mut s2 t2 level2 va)
      >>? (λ s3 t3. entry_mut s3 t3 level3 va)
  dest_entry s self va page_2m =
      next_mut s (window self) level0 va
      >>? (λ s1 t1. next_mut s1 t1 level1 va)
      >>? (λ s2 t2. entry_mut s2 t2 level2 va)
  dest_entry s self va page_1g =
      next_mut s (window self) level0 va >>? (λ s1 t1. entry_mut s1 t1 level1 va)

  -- The root's last entry points to `self` until the entry is written. Where there is no place for it,
  -- the function returns at once.
  unfoldable pub map_to : Machine E → ℕ → E → ℕ → PageSize → Outcome (Unit {0})
  map_to s self entry va page_size =
      let old_recursive_entry = s.entries s.root 511 in
      dest_entry (write s s.root 511 (table_entry ops self)) self va page_size >>? λ s' (t, index).
      do
        page ← page_of s' t
        let written = write s' page index (leaf_entry ops entry page_size)
        done (write written written.root 511 old_recursive_entry, ok tt)

  -- The loop of `map_phys_range`, with the addresses that it has collected.
  unfoldable pub map_pages :
      Machine E → ℕ → E → PageSize → List ℕ → Option ℕ → ℕ → Outcome (Option ℕ × ℕ)
  map_pages s self entry page_size [] startva endva = done (s, ok (startva, endva))
  map_pages s self entry page_size (pa ∷ pas) startva endva =
      map_to s self (with_phys_addr ops pa entry) (physaddr_as_virt pa) page_size >>? λ s' _. do
        endva' ← add64 (physaddr_as_virt pa) (page_bytes page_size)
        map_pages s' self entry page_size pas
            (elim startva [ none ↦ some (physaddr_as_virt pa) | some va ↦ some va ]) endva'

  unfoldable pub map_phys_range : Machine E → ℕ → PhysRange → E → PageSize → Outcome (ℕ × ℕ)
  map_phys_range s self range entry page_size = do
    pas ← step_by_rounded range (page_bytes page_size)
    map_pages s self entry page_size pas none 0 >>? λ s' (startva, endva).
        done (s', elim startva [ none ↦ err phys_range_is_zero | some va ↦ ok (va, endva) ])
