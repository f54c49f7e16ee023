-- ===== src/Aarch64/Vm/Range.antt =====
-- aarch64/src/vm.rs: `map_phys_range` maps every page of the range, each to itself in the window.
use r.Common.{
  ℕ, suc, ◌+◌, ◌-◌, ◌*◌, ◌^◌, ◌<◌, ◌≡◌, ◌≢◌, ◌⊎◌, refl, ap, ◌∙◌, true, false, Option, none, some,
  inl, inr, arith, done, ok, err, subst,
}
use r.Mem.{PhysRange, step_by_rounded}
use r.Mem.Walk.{pages, first_page, stop_page, step_by_rounded-eq-pages}
use r.Aarch64.Kmem.{physaddr_as_virt}
use r.Aarch64.Vm.{PageSize, page_4k, page_bytes}
use r.Aarch64.Vm.Entry.{EntryOps, IsLawful, valid, page_or_table, flag}
use r.Aarch64.Vm.Table.{Machine, PageTableError, map_phys_range}
use r.Aarch64.Vm.Walk.{child, IsTree, IsMmu}
use r.Aarch64.Vm.Apart.{window_size}
use r.Aarch64.Vm.Pages.{
  starts, stops, starts-some, stops-suc, range_lem, RangeMapped, StoppedAt, map_pages_lem,
}

module _ {E : Type 0} (ops : EntryOps E) (size : PageSize) (entry : E) (lawful : IsLawful ops)
    (is_valid : flag ops valid entry ≡ true)
    (leafy : size ≢ page_4k → flag ops page_or_table entry ≡ false)
    {resolve : Machine E → ℕ → Option ℕ} (mmu : IsMmu ops resolve) (self : ℕ)
    (small : self < 2 ^ 48) where
  -- For a range that is not empty and ends a page before the end of the window, an entry that is valid and,
  -- at a size above 4k, not for a table, in a tree of tables below `self`, whose last entry points to
  -- itself: either `map_phys_range` returns the addresses where the pages start and end, and the walk for
  -- every page of the range ends at its entry, the tables are a tree again, and a page that was mapped, of
  -- whatever size, stays so if no page of the range covers it; or it returns an error, since the walk for one
  -- of the pages stops at an entry for a page, or at an invalid one when every page is allocated.
  pub map_phys_range_lem :
      {s : Machine E} {rank : ℕ → ℕ}
      → IsTree ops s self rank
      → child ops s self 511 ≡ some self
      → (range : PhysRange) → range.start < range.end
      → range.end + page_bytes size < window_size
      → (let first = first_page range (page_bytes size) in
          let stop = stop_page range (page_bytes size) in
          ((s' : Machine E) × (e : PageTableError) × (map_phys_range ops resolve s self range entry
                size
              ≡ done (s', err e))
            × StoppedAt ops size s' self first stop e)
          ⊎ ((s' : Machine E) × (map_phys_range ops resolve s self range entry size
                ≡ done (
                  s',
                  ok (
                    physaddr_as_virt (first * page_bytes size),
                    physaddr_as_virt ((stop - 1) * page_bytes size) + page_bytes size,
                  ),
                ))
              × RangeMapped ops size entry s s' self first stop))
  unfolding map_phys_range
  map_phys_range_lem {s} {rank} tree at_self range some_bytes fits =
      let step = page_bytes size in
      let first = first_page range step in
      let stop = stop_page range step in
      let (pow2, some_page, bound) = range_lem size range.start range.end some_bytes fits in
      let n = stop - first - 1 in
      let count : stop - first ≡ suc n = omega arith in
      let walked : step_by_rounded range step ≡ done (pages step first (suc n)) =
        step_by_rounded-eq-pages range step pow2 (omega arith) (omega arith)
        ∙ ap (λ m. done (pages step first m)) count in
      let end_at : stops step first (suc n) 0 ≡ physaddr_as_virt ((stop - 1) * step) + step =
        stops-suc step first n 0 ∙ ap (λ k. physaddr_as_virt (k * step) + step) (omega arith) in
      let start_at : starts step first (suc n) none ≡ some (physaddr_as_virt (first * step)) =
        starts-some step (first + 1) n (physaddr_as_virt (first * step)) in
      let until : first + suc n ≡ stop = omega arith in
      elim (map_pages_lem ops size entry lawful is_valid leafy mmu self small (suc n) first s rank
        (λ k l. bound k (omega arith)) tree at_self none 0) [
          | inl (s', e, eq, (k, lo, hi, x)) ↦
              inl (s', e, rw walked (rw eq refl), (k, lo, omega arith, x))
          | inr (s', eq, r) ↦ inr (
            s',
            rw walked (rw (eq, start_at, end_at) refl),
            subst (RangeMapped ops size entry s s' self first) until r,
          )
        ]
