-- ===== src/Bitmap/Alloc/Boot.antt =====
-- port/src/bitmapalloc.rs: a new allocator, and the one that `free_unused_ranges` makes of it.
use r.Common.{
  ℕ, ◌+◌, ◌*◌, ◌/◌, ◌%◌, ◌^◌, ◌≤◌, ◌<◌, ◌≡◌, refl, ap, ◌∙◌, true, not, List, map, done, ok, arith,
  get_or, replicate, length-replicate, All-replicate, All-get_elem?,
}
use r.Common.Word.{is_power_of_two}
use r.Common.Scale.{le_of_mul, mul-lt, div-bound}
use native.Mathlib.Nat.{mod-lt}
use r.Bitmap
use r.Bitmap.{Bitmap, test_bit}
use r.Bitmap.Bit.{IsByte, bit_at, test_bit_ones}
use r.Bitmap.Alloc.{BitmapPageAlloc, new_all_allocated, free_unused_ranges}
use r.Bitmap.Alloc.Valid.{HasSize, IsValid, allocated, total_pages, empty_bitmap}
use r.Bitmap.Alloc.Unused.{Span, phys, IsSortedFrom, unused, free_unused_ranges_lem}
use r.Bitmap.Alloc.Pages.{IsReady}

module _ (num size ps : ℕ) (some_bytes : 0 < size) (pow2 : is_power_of_two ps ≡ true) (pos : 0 < ps)
    (fits : total_pages num size * ps + ps < 2 ^ 64) where
  abbrev pub fresh : BitmapPageAlloc
  fresh = new_all_allocated num size ps

  abbrev full : Bitmap
  full = record { bytes = replicate size 0xff }

  pub new_all_allocated-IsValid : IsValid num size fresh
  unfolding new_all_allocated Bitmap.new
  new_all_allocated-IsValid = record {
    some_bytes = some_bytes;
    count = length-replicate num full;
    sizes = All-replicate (HasSize size) num full (record {
      len = length-replicate size 0xff;
      bytes = All-replicate IsByte size 0xff (omega arith);
    });
    page_pow2 = pow2;
    page_pos = pos;
    fits = fits;
    end_in =
        let e : num * size * 8 * ps ≡ total_pages num size * ps = grind arith in omega (arith, e);
  }

  pub fresh_end : fresh.end ≡ total_pages num size * ps
  unfolding new_all_allocated
  fresh_end = grind arith

  pub fresh_page : fresh.alloc_page_size ≡ ps
  unfolding new_all_allocated
  fresh_page = refl

  -- Every page of a new allocator is allocated.
  pub new_all_allocated-allocated :
      (p : ℕ) → p < total_pages num size → allocated size fresh p ≡ true
  unfolding new_all_allocated Bitmap.new
  new_all_allocated-allocated p h =
      let bits : 0 < 8 * size = omega arith in
      let r = p % (8 * size) in
      let in_size : r / 8 < size = omega (arith, mod-lt p bits) in
      let m : get_or (replicate num full) (p / (8 * size)) empty_bitmap ≡ full =
        All-get_elem? (λ y. y ≡ full) (replicate num full) (p / (8 * size)) empty_bitmap
          (All-replicate (λ y. y ≡ full) num full refl)
          (rw (length-replicate num full) (div-bound p num (8 * size) bits h)) in
      let b : get_or (replicate size 0xff) (r / 8) 0 ≡ 0xff =
        All-get_elem? (λ y. y ≡ 0xff) (replicate size 0xff) (r / 8) 0
          (All-replicate (λ y. y ≡ 0xff) size 0xff refl)
          (rw (length-replicate {A = ℕ} size 0xff) in_size) in
      ap (λ m. bit_at m r) m ∙ ap (λ b. test_bit b (r % 8)) b ∙ test_bit_ones (r % 8) (omega arith)

  -- For a page size that is a power of two and bitmaps of at least one byte, which cover memory
  -- that ends a page below 2 ^ 64: freeing the unused ranges of a new allocator, for an available
  -- range of whole pages that does not end at address 0 nor before its start and ends within that
  -- memory, and used ranges of whole pages within that memory in order of their starts, succeeds
  -- and leaves an allocator that is ready to allocate and whose free pages are those of the
  -- available range that no used range covers.
  pub free_unused_ranges-new_all_allocated :
      (available : Span) (used : List Span)
      → available.first ≤ available.stop
      → 0 < available.stop
      → available.stop ≤ total_pages num size
      → IsSortedFrom 0 (total_pages num size) used
      → (a : BitmapPageAlloc) × (free_unused_ranges num size
            (new_all_allocated num size ps)
            (phys ps available)
            (map (phys ps) used)
          ≡ done (a, ok tt))
        × IsReady num size a
        × ((p : ℕ) → p < total_pages num size → allocated size a p ≡ not (unused available used p))
  free_unused_ranges-new_all_allocated available used ordered some stop_in sorted =
      let (a, e, s) =
        free_unused_ranges_lem num size ps (total_pages num size) (omega arith) available used fresh
          new_all_allocated-IsValid fresh_page fresh_end (omega arith) stop_in sorted in
      let page : a.alloc_page_size ≡ ps = s.same_page ∙ fresh_page in
      let new_end : a.end ≡ available.stop * ps =
        s.new_end ∙ ap (λ n. available.stop * n) fresh_page in
      let at_end : (p : ℕ) → a.end ≤ p * a.alloc_page_size → available.stop * ps ≤ p * ps =
        λ p h. rw (new_end, page) at h in
      (
        a,
        e,
        record {
          valid = s.valid;
          past_end =
              λ p hp h. ground (arith, s.at p hp, le_of_mul ps pos available.stop p (at_end p h));
          next_page = 0;
          next_at = s.from_start ∙ omega arith;
          next_below =
              rw (s.from_start, new_end) (omega (arith, mul-lt ps pos 0 available.stop some));
        },
        λ p l. ground (arith, s.at p l, new_all_allocated-allocated p l),
      )
