-- ===== src/Bitmap/Alloc/Release.antt =====
-- port/src/bitmapalloc.rs: `deallocate`, branch by branch.
use r.Common.{
  ℕ, ◌+◌, ◌*◌, ◌/◌, ◌%◌, ◌≤◌, ◌<◌, ◌≡◌, refl, ◌∙◌, Bool, true, false, done, ◌>>=◌, ok, err, arith,
  ◌==◌, if◌then◌else◌, lt→ltb, ltb-false, get_or, get_elem?-eq-get_or, set as set_elem,
}
use r.Common.Scale.{div_of_split, mod_of_split}
use native.Mathlib.Nat.{div-add-mod'}
use r.Bitmap
use r.Bitmap.{Bitmap}
use r.Bitmap.Bit.{is_set_lem, set_lem}
use r.Bitmap.Alloc.{BitmapPageAlloc, out_of_bounds, not_allocated, deallocate}
use r.Bitmap.Alloc.Valid.{
  IsValid, IsValid-restart, bits_pos, allocated, total_pages, physaddr_as_indices_lem, empty_bitmap,
  page_bitmap, page_bit,
}
use r.Bitmap.Alloc.Mark.{with_page, with_page-IsValid, allocated-with_page}

-- The page whose bit `deallocate` clears when it is given the page `p`: the call of `set` names the
-- bit within the byte alone, so that it falls into the first byte of the bitmap.
abbrev pub cleared : ℕ → ℕ → ℕ
cleared size p = p / (8 * size) * (8 * size) + p % (8 * size) % 8

abbrev released : ℕ → BitmapPageAlloc → ℕ → BitmapPageAlloc
released size a p = record (with_page size a (cleared size p) false) {
  next_pa_to_scan = p * a.alloc_page_size;
}

module _ {num size : ℕ} {a : BitmapPageAlloc} (v : IsValid num size a) where
  open a use {alloc_page_size as ps}

  deallocate-beyond : (pa : ℕ) → a.end < pa → deallocate size a pa ≡ done (a, err out_of_bounds)
  unfolding deallocate
  deallocate-beyond pa h = rw (lt→ltb a.end pa h) refl

  module _ (p : ℕ) (h : p < total_pages num size) (below : p * ps ≤ a.end) where
    abbrev m : Bitmap
    m = get_or a.bitmaps (p / (8 * size)) empty_bitmap

    bits : 8 * (p % (8 * size) / 8) + p % (8 * size) % 8 ≡ p % (8 * size)
    bits = omega arith

    cleared_div : cleared size p / (8 * size) ≡ p / (8 * size)
    cleared_div =
        let pos = v.some_bytes in
        div_of_split (8 * size) (bits_pos v) (cleared size p) (p / (8 * size)) (p % (8 * size) % 8)
          (omega arith) refl

    cleared_mod : cleared size p % (8 * size) ≡ p % (8 * size) % 8
    cleared_mod =
        let pos = v.some_bytes in
        mod_of_split (8 * size) (bits_pos v) (cleared size p) (p / (8 * size)) (p % (8 * size) % 8)
          (omega arith) refl

    cleared-lt : cleared size p < total_pages num size
    cleared-lt = omega (arith, div-add-mod' p (8 * size))

    -- Both branches start alike: the tested bit is that of the page.
    opened :
        (x : Bool)
        → allocated size a p ≡ x
        → deallocate size a (p * ps) ≡ (
            if x
            then (Bitmap.set m (p % (8 * size) % 8) false >>= λ bitmap'. done (
              record a {
                bitmaps = set_elem a.bitmaps (p / (8 * size)) bitmap';
                next_pa_to_scan = p * ps;
              },
              ok tt,
            ))
            else done (a, err not_allocated))
    unfolding deallocate
    opened x e = rw (ltb-false a.end (p * ps) below) (
        rw (physaddr_as_indices_lem v p) (
          rw (get_elem?-eq-get_or a.bitmaps (p / (8 * size)) empty_bitmap (page_bitmap v p h))
            (rw bits (rw (is_set_lem m (p % (8 * size)) (page_bit v p h)) (rw e refl)))))

    deallocate-free_page :
        allocated size a p ≡ false → deallocate size a (p * ps) ≡ done (a, err not_allocated)
    deallocate-free_page free = opened false free

    deallocate-used :
        allocated size a p ≡ true → deallocate size a (p * ps) ≡ done (released size a p, ok tt)
    deallocate-used used =
        opened true used
        ∙ rw (set_lem m (p % (8 * size) % 8) (let b = page_bit v p h in omega arith) false)
            (rw (cleared_div, cleared_mod) refl)

    released-IsValid : IsValid num size (released size a p)
    released-IsValid =
        let w = with_page-IsValid v (cleared size p) cleared-lt false in
        IsValid-restart a.end (p * ps) w w.end_in

    -- An allocated page at or below the end of memory is given back without an error, and the next scan
    -- starts there. The one page that becomes free is `cleared size p`: the page itself only when its
    -- bit lies in the first byte of its bitmap.
    pub deallocate_lem :
        allocated size a p ≡ true
        → (a' : BitmapPageAlloc) × (deallocate size a (p * ps) ≡ done (a', ok tt))
          × IsValid num size a'
          × (a'.next_pa_to_scan ≡ p * ps)
          × ((q : ℕ)
              → allocated size a' q ≡ (if q == cleared size p then false else allocated size a q))
    deallocate_lem used = (
      released size a p,
      deallocate-used used,
      released-IsValid,
      refl,
      allocated-with_page v (cleared size p) cleared-lt false,
    )
