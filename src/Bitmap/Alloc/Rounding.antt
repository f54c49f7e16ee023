-- ===== src/Bitmap/Alloc/Rounding.antt =====
-- port/src/bitmapalloc.rs: ranges that are not of whole pages, which `mark_range` rounds outward.
use r.Common.{ℕ, ◌+◌, ◌-◌, ◌*◌, ◌≤◌, ◌≡◌, Bool, false, ◌&&◌, done, ok, arith, ltb}
use r.Common.Scale.{mul-le, div-le-div}
use native.Mathlib.Nat.{div-add-mod', mod-lt}
use r.Mem.{PhysRange}
use r.Mem.Walk.{first_page, stop_page, step_by_rounded-eq-pages}
use r.Bitmap.Alloc.{BitmapPageAlloc, mark_range}
use r.Bitmap.Alloc.Valid.{IsValid, total_pages}
use r.Bitmap.Alloc.Mark.{Marked, mark_pages_lem}

module _ {num size : ℕ} {a : BitmapPageAlloc} (v : IsValid num size a) (b : Bool) (r : PhysRange)
    (ordered : r.start ≤ r.end)
    (within : stop_page r a.alloc_page_size ≤ total_pages num size) where
  open a use {alloc_page_size as ps}

  below_stop : r.end ≤ stop_page r ps * ps
  below_stop =
      let p = v.page_pos in
      let m = mod-lt (r.end + ps - 1) p in omega (arith, div-add-mod' (r.end + ps - 1) ps)

  first-le-stop : first_page r ps ≤ stop_page r ps
  first-le-stop = let p = v.page_pos in div-le-div ps p r.start (r.end + ps - 1) (omega arith)

  -- On a valid allocator, marking a range that does not end before its start, whose last page is
  -- one of the bitmaps, and whose end is not above that of the allocator, or not checked,
  -- succeeds, keeps the allocator valid, and changes the pages from that of the range's start up
  -- to that of its last byte, and no others.
  pub mark_range_any :
      (check_end : Bool)
      → (check_end && ltb a.end r.end) ≡ false
      → (a' : BitmapPageAlloc) × (mark_range size a r b check_end ≡ done (a', ok tt))
        × Marked num size a a' (first_page r ps) (stop_page r ps - first_page r ps) b
  unfolding mark_range
  mark_range_any check_end inside =
      let fits = v.fits in
      let all = mul-le (stop_page r ps) (total_pages num size) ps within in
      let end_in = below_stop in
      let order = first-le-stop in
      let walked = step_by_rounded-eq-pages r ps v.page_pow2 (omega arith) (omega arith) in
      let (a', e, k) =
        mark_pages_lem b (stop_page r ps - first_page r ps) (first_page r ps) a v (omega arith) in
      (a', rw inside (rw walked e), k)
