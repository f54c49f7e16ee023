-- ===== src/BitmapTests.antt =====
-- Runs of the page allocator: the unit tests of port/src/bitmapalloc.rs.
use r.Common.{
  ◌/◌, ◌-◌, ◌+◌, ℕ, ◌≡◌, ◌*◌, ◌<◌, ◌⊎◌, refl, List, [], ◌∷◌, map, done, ok, err, true, false, not,
  if◌then◌else◌, ◌==◌, arith,
}
use r.Common.Word.{is_power_of_two}
use r.Mem.{with_end, step_by_rounded, round_up, round_down}
use r.Mem.Walk.{pages, step_by_rounded-eq-pages}
use r.Bitmap.Alloc.Valid.{HasSize, IsValid, allocated, total_pages}
use r.Bitmap.Alloc.Mark.{Marked}
use r.Bitmap.Alloc.Unused.{Span, phys, unused}
use r.Bitmap.Alloc.Rounding.{mark_range_any}
use r.Bitmap.Alloc.Usage.{free_pages, allocate-usage_bytes}
use r.Bitmap.Alloc.Pages.{IsReady, Taken, allocate_lem}
use r.Bitmap.Alloc.Release.{cleared, deallocate_lem}
use r.Bitmap.Alloc.Boot.{free_unused_ranges-new_all_allocated}
use r.Bitmap
use r.Bitmap.{Bitmap, test_bit, write_bit, trailing_ones, count_zeros}
use r.Bitmap.Alloc.{
  BitmapPageAlloc, new_all_allocated, mark_free, mark_allocated, allocate, deallocate, usage_bytes,
  out_of_space, Outcome, ◌>>?◌, mark_range, physaddr_as_indices, byte, indices_as_physaddr,
  free_unused_ranges,
}

abbrev fresh : BitmapPageAlloc
unfolding new_all_allocated Bitmap.new
fresh = new_all_allocated 2 2 4

abbrev freed : Outcome (Unit {0})
freed = mark_free 2 fresh (with_end 0 128) >>? λ a _. mark_allocated 2 a (with_end 4 44)

abbrev after_marks : BitmapPageAlloc
after_marks = record {
  bitmaps = record { bytes = 0xfe ∷ 0x07 ∷ [] } ∷ record { bytes = 0 ∷ 0 ∷ [] } ∷ [];
  alloc_page_size = 4;
  end = 128;
  next_pa_to_scan = 0;
}

abbrev three : BitmapPageAlloc → Outcome ℕ
three a = allocate 2 a >>? λ b _. allocate 2 b >>? λ c _. allocate 2 c

mark_test : freed ≡ done (after_marks, ok tt)
unfolding new_all_allocated Bitmap.new mark_free mark_allocated mark_range step_by_rounded round_up
    round_down is_power_of_two Bitmap.set physaddr_as_indices write_bit
mark_test = refl

usage_test : usage_bytes 2 after_marks ≡ done (40, 128)
unfolding usage_bytes byte indices_as_physaddr count_zeros
usage_test = refl

allocate_test :
    allocate 2 after_marks
    ≡ done (
      record after_marks {
        bitmaps = record { bytes = 0xff ∷ 0x07 ∷ [] } ∷ record { bytes = 0 ∷ 0 ∷ [] } ∷ [];
      },
      ok 0,
    )
unfolding allocate physaddr_as_indices byte indices_as_physaddr trailing_ones
allocate_test = refl

free_unused_test :
    free_unused_ranges 2 2 fresh (with_end 0 100) (with_end 4 12 ∷ with_end 20 24 ∷ [])
    ≡ done (
      record fresh {
        bitmaps = record { bytes = 0x26 ∷ 0 ∷ [] } ∷ record { bytes = 0 ∷ 0xfe ∷ [] } ∷ [];
        end = 100;
      },
      ok tt,
    )
unfolding free_unused_ranges new_all_allocated Bitmap.new mark_free mark_range step_by_rounded
    round_up round_down is_power_of_two Bitmap.set physaddr_as_indices write_bit
free_unused_test = refl

two_bytes : (x y : ℕ) → x < 256 → y < 256 → HasSize 2 (record { bytes = x ∷ y ∷ [] })
two_bytes x y hx hy = record { len = refl; bytes = (hx, (hy, tt)) }

after_marks-IsValid : IsValid 2 2 after_marks
unfolding is_power_of_two
after_marks-IsValid = record {
  some_bytes = omega arith;
  count = refl;
  sizes = (
    two_bytes 0xfe 7 (omega arith) (omega arith),
    (two_bytes 0 0 (omega arith) (omega arith), tt),
  );
  page_pow2 = refl;
  page_pos = omega arith;
  fits = omega arith;
  end_in = omega arith;
}

after_marks-IsReady : IsReady 2 2 after_marks
after_marks-IsReady = record {
  valid = after_marks-IsValid;
  past_end = λ p hp h. absurd (omega arith);
  next_page = 0;
  next_at = refl;
  next_below = omega arith;
}

step_by_rounded-eq-pages_example :
    step_by_rounded (with_end 4098 12000) 4096 ≡ done (pages 4096 1 2)
unfolding is_power_of_two
step_by_rounded-eq-pages_example =
    step_by_rounded-eq-pages (with_end 4098 12000) 4096 refl (omega arith) (omega arith)

abbrev used_spans : List Span
used_spans = record { first = 1; stop = 3 } ∷ record { first = 5; stop = 6 } ∷ []

free_unused_ranges-new_all_allocated_example :
    (a : BitmapPageAlloc) × (free_unused_ranges 2 2
        (new_all_allocated 2 2 4)
        (phys 4 (record { first = 0; stop = 25 }))
        (map (phys 4) used_spans)
      ≡ done (a, ok tt))
    × IsReady 2 2 a
    × ((p : ℕ)
        → p < total_pages 2 2
        → allocated 2 a p ≡ not (unused (record { first = 0; stop = 25 }) used_spans p))
unfolding is_power_of_two
free_unused_ranges-new_all_allocated_example =
    free_unused_ranges-new_all_allocated 2 2 4 (omega arith) refl (omega arith) (omega arith)
      (record { first = 0; stop = 25 }) used_spans (omega arith) (omega arith) (omega arith)
      (omega arith, omega arith, omega arith, (omega arith, omega arith, omega arith, tt))

allocate_lem_example :
    ((allocate 2 after_marks ≡ done (after_marks, err out_of_space))
      × ((p : ℕ) → p < total_pages 2 2 → allocated 2 after_marks p ≡ true))
    ⊎ ((a' : BitmapPageAlloc) × (q : ℕ) × (allocate 2 after_marks ≡ done (a', ok (q * 4)))
        × Taken after_marks-IsReady a' q)
allocate_lem_example = allocate_lem after_marks-IsReady

allocate-usage_bytes_example :
    (usage_bytes 2 after_marks ≡ done (128 - free_pages after_marks-IsValid * 4, 128))
    × (((allocate 2 after_marks ≡ done (after_marks, err out_of_space))
          × (128 - free_pages after_marks-IsValid * 4 ≡ 128))
        ⊎ ((a' : BitmapPageAlloc) × (page : ℕ) × (allocate 2 after_marks ≡ done (a', ok page))
            × (usage_bytes 2 a' ≡ done (128 - free_pages after_marks-IsValid * 4 + 4, 128))))
allocate-usage_bytes_example = allocate-usage_bytes after_marks-IsReady 32 refl

deallocate_lem_example :
    (a' : BitmapPageAlloc) × (deallocate 2 after_marks (9 * 4) ≡ done (a', ok tt))
    × IsValid 2 2 a'
    × (a'.next_pa_to_scan ≡ 36)
    × ((q : ℕ) → allocated 2 a' q ≡ (if q == cleared 2 9 then false else allocated 2 after_marks q))
unfolding test_bit
deallocate_lem_example = deallocate_lem after_marks-IsValid 9 (omega arith) (omega arith) refl

mark_range_any_example :
    (a' : BitmapPageAlloc) × (mark_range 2 after_marks (record { start = 18; end = 37 }) false true
      ≡ done (a', ok tt))
    × Marked 2 2 after_marks a' (18 / 4) ((37 + 4 - 1) / 4 - 18 / 4) false
mark_range_any_example =
    mark_range_any after_marks-IsValid false (record { start = 18; end = 37 }) (omega arith)
      (omega arith) true refl
