-- ===== src/Aarch64/Pagealloc.antt =====
-- aarch64/src/pagealloc.rs: the kernel's page allocator, an instance of `BitmapPageAlloc`.
--
-- The static allocator behind its lock is the state that each function takes and leaves. `allocate`
-- gives the page's virtual address.
use r.Common.{
  ℕ, ◌+◌, ◌-◌, ◌*◌, ◌≤◌, ◌<◌, ◌≡◌, ◌⊎◌, inl, inr, refl, ap, ◌∙◌, true, false, not, ◌&&◌, leb, ltb,
  le→leb, ltb-false, arith, Run, done, panic, ◌>>=◌, ok, err,
}
use r.Common.Scale.{mul-le}
use r.Common.Word.{is_power_of_two}
use r.Bitmap.Alloc.{out_of_space}
use r.Bitmap.Alloc.Valid.{IsValid, allocated, total_pages}
use r.Bitmap.Alloc.Mark.{page_range, mark_range_at}
use r.Bitmap.Alloc.Boot.{new_all_allocated-IsValid, new_all_allocated-allocated}
use r.Bitmap.Alloc.Pages.{IsReady, Taken, allocate_lem}
use r.Aarch64.Kmem.{kzero, from_virt_to_physaddr, from_virt_to_physaddr-physaddr_as_virt}
use r.Mem.{PhysRange, page_size_4k}
use r.Bitmap.Alloc
use r.Bitmap.Alloc.{BitmapPageAlloc, BitmapPageAllocError, Outcome, new_all_allocated, mark_free}
use r.Aarch64.Kmem.{Symbols, early_pages_range, physaddr_as_virt}
use r.Common.{List}

abbrev pub num_bitmaps : ℕ
num_bitmaps = 32

unfoldable pub page_alloc : BitmapPageAlloc
page_alloc = new_all_allocated num_bitmaps page_size_4k page_size_4k

unfoldable pub init_page_allocator : Symbols → BitmapPageAlloc → Run BitmapPageAlloc
init_page_allocator symbols a = do
  range ← early_pages_range symbols
  (a', r) ← mark_free page_size_4k a range
  elim r [ ok _ ↦ done a' | err _ ↦ panic ]

unfoldable pub free_unused_ranges :
    BitmapPageAlloc → PhysRange → List PhysRange → Outcome (Unit {0})
free_unused_ranges a available_mem used_ranges =
    Alloc.free_unused_ranges num_bitmaps page_size_4k a available_mem used_ranges

unfoldable pub allocate : BitmapPageAlloc → Outcome ℕ
allocate a = do
  (a', r) ← Alloc.allocate page_size_4k a
  done (a', elim r [ ok page_pa ↦ ok (physaddr_as_virt page_pa) | err e ↦ err e ])

unfoldable pub usage_bytes : BitmapPageAlloc → Run (ℕ × ℕ)
usage_bytes a = Alloc.usage_bytes page_size_4k a

abbrev pub num_pages : ℕ
num_pages = total_pages num_bitmaps page_size_4k

page_pow2 : is_power_of_two page_size_4k ≡ true
unfolding is_power_of_two
page_pow2 = refl

page_alloc-IsValid : IsValid num_bitmaps page_size_4k page_alloc
unfolding page_alloc
page_alloc-IsValid =
    new_all_allocated-IsValid num_bitmaps page_size_4k page_size_4k (omega arith) page_pow2
      (omega arith) (omega arith)

-- The early page tables are whole pages, within the memory that the allocator covers.
pub record IsPlaced (symbols : Symbols) (first stop : ℕ) : Type 0 where
  pub from : symbols.early_pagetables ≡ first * page_size_4k + kzero
  pub to : symbols.eearly_pagetables ≡ stop * page_size_4k + kzero
  pub ordered : first ≤ stop
  pub within : stop ≤ num_pages

physical :
    (va n : ℕ) → va ≡ n * page_size_4k + kzero → from_virt_to_physaddr va ≡ done (n * page_size_4k)
unfolding from_virt_to_physaddr
physical va n e =
    let back : n * page_size_4k + kzero - kzero ≡ n * page_size_4k = omega arith in
    rw e (rw (le→leb kzero (n * page_size_4k + kzero) (omega arith), back) refl)

early_pages_range_lem :
    (symbols : Symbols) (first stop : ℕ)
    → IsPlaced symbols first stop
    → early_pages_range symbols ≡ done (page_range page_size_4k first stop)
unfolding early_pages_range
early_pages_range_lem symbols first stop h =
    rw
      (physical symbols.early_pagetables first h.from, physical symbols.eearly_pagetables stop h.to)
      refl

pub page_alloc_page : page_alloc.alloc_page_size ≡ page_size_4k
unfolding page_alloc new_all_allocated
page_alloc_page = refl

page_alloc_end : page_alloc.end ≡ num_pages * page_size_4k
unfolding page_alloc new_all_allocated
page_alloc_end = refl

pub all_allocated : (p : ℕ) → p < num_pages → allocated page_size_4k page_alloc p ≡ true
unfolding page_alloc
all_allocated =
    new_all_allocated-allocated num_bitmaps page_size_4k page_size_4k (omega arith) page_pow2
      (omega arith) (omega arith)

pub page_alloc-IsReady : IsReady num_bitmaps page_size_4k page_alloc
unfolding page_alloc new_all_allocated
page_alloc-IsReady = record {
  valid = page_alloc-IsValid;
  past_end = λ p h _. all_allocated p h;
  next_page = 0;
  next_at = refl;
  next_below = omega arith;
}

-- The allocator starts with the pages of the early page tables free, and every other page allocated.
pub init_page_allocator_lem :
    (symbols : Symbols) (first stop : ℕ)
    → IsPlaced symbols first stop
    → (a : BitmapPageAlloc) × (init_page_allocator symbols page_alloc ≡ done a)
      × IsValid num_bitmaps page_size_4k a
      × ((p : ℕ) → p < num_pages → allocated page_size_4k a p ≡ not (leb first p && ltb p stop))
unfolding init_page_allocator mark_free
init_page_allocator_lem symbols first stop h =
    let inside : ltb page_alloc.end (stop * page_size_4k) ≡ false =
      ltb-false page_alloc.end (stop * page_size_4k)
        (rw page_alloc_end (mul-le stop num_pages page_size_4k h.within)) in
    let (a, e, k) =
      mark_range_at page_alloc-IsValid false first stop h.ordered h.within true page_size_4k
        page_alloc_page inside in
    (
      a,
      rw (early_pages_range_lem symbols first stop h) (rw e refl),
      k.valid,
      λ p l. ground (arith, h.ordered, k.at p l, all_allocated p l),
    )

-- On a ready allocator, `allocate` gives the virtual address of a page that was free, and marks this
-- page, or fails when no page is free.
pub allocate-virt :
    {a : BitmapPageAlloc}
    → (ready : IsReady num_bitmaps page_size_4k a) → a.alloc_page_size ≡ page_size_4k
    → ((allocate a ≡ done (a, err out_of_space))
        × ((p : ℕ) → p < num_pages → allocated page_size_4k a p ≡ true))
      ⊎ ((a' : BitmapPageAlloc) × (q va : ℕ) × (allocate a ≡ done (a', ok va))
          × (from_virt_to_physaddr va ≡ done (q * page_size_4k))
          × Taken ready a' q)
unfolding allocate
allocate-virt {a} ready same = elim (allocate_lem ready) [
  | inl (e, full) ↦ inl (rw e refl, full)
  | inr (a', q, e, t) ↦
      let pa : q * a.alloc_page_size ≡ q * page_size_4k = ap (λ n. q * n) same in
      inr (
        a',
        q,
        physaddr_as_virt (q * a.alloc_page_size),
        rw e refl,
        ap (λ n. from_virt_to_physaddr (physaddr_as_virt n)) pa
            ∙ from_virt_to_physaddr-physaddr_as_virt (q * page_size_4k)
                (let in_range = t.in_range in omega arith),
        t,
      )
]
