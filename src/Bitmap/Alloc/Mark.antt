-- ===== src/Bitmap/Alloc/Mark.antt =====
-- port/src/bitmapalloc.rs: what `mark_range` does to the map of pages.
use r.Common.{
  ℕ, zero, suc, ◌+◌, ◌-◌, ◌*◌, ◌/◌, ◌%◌, ◌≤◌, ◌<◌, ◌≡◌, refl, sym, ◌∙◌, subst, Bool, false, ◌&&◌,
  List, ◌∷◌, done, ok, arith, ltb, leb, leb-false, ◌==◌, if◌then◌else◌, length, get_or,
  get_elem?-eq-get_or, get_or-set_self, get_or-set_ne, length-set, set as set_elem, All-set,
  ℕ_discrete,
}
use r.Common.Scale.{div-mul_self, ceil-mul_self, mul-le}
use r.Mem
use r.Mem.{PhysRange}
use r.Mem.Walk.{pages, step_by_rounded-eq-pages}
use r.Bitmap.{Bitmap}
use r.Bitmap.Bit.{with_bit, set_lem, bit_at-with_bit, with_bit-IsByte}
use r.Bitmap.Alloc.{BitmapPageAlloc, mark_pages, mark_range}
use r.Bitmap.Alloc.Valid.{
  HasSize, IsValid, allocated, total_pages, empty_bitmap, physaddr_as_indices_lem, page_bitmap,
  page_size, page_bit,
}
use native.Mathlib.Nat.{div-add-mod'}

-- The allocator with one page marked.
abbrev pub with_page : ℕ → BitmapPageAlloc → ℕ → Bool → BitmapPageAlloc
with_page size a p b = record a {
  bitmaps =
      set_elem a.bitmaps (p / (8 * size))
        (with_bit (get_or a.bitmaps (p / (8 * size)) empty_bitmap) (p % (8 * size)) b);
}

module _ {num size : ℕ} {a : BitmapPageAlloc} (v : IsValid num size a) (p : ℕ)
    (h : p < total_pages num size) (b : Bool) where
  abbrev m : Bitmap
  m = get_or a.bitmaps (p / (8 * size)) empty_bitmap

  bits : 8 * (p % (8 * size) / 8) + p % (8 * size) % 8 ≡ p % (8 * size)
  bits = omega arith

  pub with_page-IsValid : IsValid num size (with_page size a p b)
  with_page-IsValid = record {
    some_bytes = v.some_bytes;
    count = length-set a.bitmaps _ _ ∙ v.count;
    sizes = All-set (HasSize size) a.bitmaps _ _ v.sizes (record {
      len =
          length-set (get_or a.bitmaps (p / (8 * size)) empty_bitmap).bytes _ _
          ∙ (page_size v p h).len;
      bytes = with_bit-IsByte _ _ (page_bit v p h) b (page_size v p h).bytes;
    });
    page_pow2 = v.page_pow2;
    page_pos = v.page_pos;
    fits = v.fits;
    end_in = v.end_in;
  }

  -- Only the page `p` changes.
  pub allocated-with_page :
      (q : ℕ) → allocated size (with_page size a p b) q ≡ (if q == p then b else allocated size a q)
  allocated-with_page q = elim (ℕ_discrete (q / (8 * size)) (p / (8 * size))) [
    | yes same ↦ ground (
      arith,
      same,
      bit_at-with_bit m (p % (8 * size)) (page_bit v p h) b (q % (8 * size))
          (page_size v p h).bytes,
      get_or-set_self a.bitmaps (p / (8 * size)) (with_bit m (p % (8 * size)) b) empty_bitmap
          (page_bitmap v p h),
      div-add-mod' p (8 * size),
      div-add-mod' q (8 * size),
    )
    | no other ↦ ground (
      arith,
      get_or-set_ne a.bitmaps (p / (8 * size)) (q / (8 * size)) (with_bit m (p % (8 * size)) b)
          empty_bitmap (λ e. other (sym e)),
    )
  ]

  mark_pages_step :
      (pas : List ℕ)
      → mark_pages size a (p * a.alloc_page_size ∷ pas) b
        ≡ mark_pages size (with_page size a p b) pas b
  unfolding mark_pages
  mark_pages_step pas = rw (physaddr_as_indices_lem v p) (
      rw (get_elem?-eq-get_or a.bitmaps (p / (8 * size)) empty_bitmap (page_bitmap v p h)) (
        rw bits (
          rw
            (set_lem (get_or a.bitmaps (p / (8 * size)) empty_bitmap) (p % (8 * size))
              (page_bit v p h) b)
            (rw (leb-false (length a.bitmaps) (p / (8 * size)) (page_bitmap v p h))))))

-- `a'` is `a` with the pages from `q` up to `q + n` marked by `b`, and no other page changed.
pub record Marked (num size : ℕ) (a a' : BitmapPageAlloc) (q n : ℕ) (b : Bool) : Type 0 where
  pub valid : IsValid num size a'
  pub same_page : a'.alloc_page_size ≡ a.alloc_page_size
  pub same_end : a'.end ≡ a.end
  pub same_next : a'.next_pa_to_scan ≡ a.next_pa_to_scan
  pub at :
      (p : ℕ)
      → p < total_pages num size
      → allocated size a' p ≡ (if leb q p && ltb p (q + n) then b else allocated size a p)

pub mark_pages_lem :
    {num size : ℕ} (b : Bool) (n q : ℕ) (a : BitmapPageAlloc)
    → IsValid num size a
    → q + n ≤ total_pages num size
    → (a' : BitmapPageAlloc) × (mark_pages size a (pages a.alloc_page_size q n) b
        ≡ done (a', ok tt))
      × Marked num size a a' q n b
mark_pages_lem b zero q a v h = (
  a,
  (unfold mark_pages in refl),
  record {
    valid = v;
    same_page = refl;
    same_end = refl;
    same_next = refl;
    at = λ p l. ground arith;
  },
)
mark_pages_lem {num} {size} b (suc n) q a v h =
    let w = with_page-IsValid v q (omega arith) b in
    let (a', e, k) = mark_pages_lem b n (q + 1) (with_page size a q b) w (omega arith) in
    (
      a',
      mark_pages_step v q (omega arith) b (pages a.alloc_page_size (q + 1) n) ∙ e,
      record {
        valid = k.valid;
        same_page = k.same_page;
        same_end = k.same_end;
        same_next = k.same_next;
        at = λ p l. ground (arith, k.at p l, allocated-with_page v q (omega arith) b p);
      },
    )

-- The physical range of the pages from `q` up to `stop`.
abbrev pub page_range : ℕ → ℕ → ℕ → PhysRange
page_range ps q stop = record { start = q * ps; end = stop * ps }

module _ {num size : ℕ} {a : BitmapPageAlloc} (v : IsValid num size a) (b : Bool) (q stop : ℕ)
    (ordered : q ≤ stop) (h : stop ≤ total_pages num size) where
  open a use {alloc_page_size}

  walk_lem :
      Mem.step_by_rounded (page_range alloc_page_size q stop) alloc_page_size
      ≡ done (pages alloc_page_size q (stop - q))
  walk_lem =
      let first : q * alloc_page_size / alloc_page_size ≡ q =
        div-mul_self alloc_page_size v.page_pos q in
      let last : (stop * alloc_page_size + alloc_page_size - 1) / alloc_page_size ≡ stop =
        ceil-mul_self alloc_page_size v.page_pos stop in
      let fits = v.fits in
      step_by_rounded-eq-pages (page_range alloc_page_size q stop) alloc_page_size v.page_pow2
        (omega (
          arith,
          mul-le q stop alloc_page_size ordered,
          mul-le stop (total_pages num size) alloc_page_size h,
        ))
        (omega (arith, mul-le stop (total_pages num size) alloc_page_size h))
      ∙ rw (first, last) refl

  -- With its end in bounds, or unchecked, `mark_range` returns without an error, and marks the pages
  -- of the range and no others.
  mark_range_lem :
      (check_end : Bool)
      → (check_end && ltb a.end (stop * alloc_page_size)) ≡ false
      → (a' : BitmapPageAlloc) × (mark_range size a (page_range alloc_page_size q stop) b check_end
          ≡ done (a', ok tt))
        × Marked num size a a' q (stop - q) b
  unfolding mark_range
  mark_range_lem check_end inside =
      let (a', e, k) = mark_pages_lem b (stop - q) q a v (omega arith) in
      (a', rw inside (rw walk_lem e), k)

  -- The same, for a page size that is known by an equation.
  pub mark_range_at :
      (check_end : Bool) (ps : ℕ)
      → alloc_page_size ≡ ps
      → (check_end && ltb a.end (stop * ps)) ≡ false
      → (a' : BitmapPageAlloc) × (mark_range size a (page_range ps q stop) b check_end
          ≡ done (a', ok tt))
        × Marked num size a a' q (stop - q) b
  mark_range_at check_end ps same =
      subst
        (λ ps.
          (check_end && ltb a.end (stop * ps)) ≡ false
          → (a' : BitmapPageAlloc) × (mark_range size a (page_range ps q stop) b check_end
              ≡ done (a', ok tt))
            × Marked num size a a' q (stop - q) b)
        same (mark_range_lem check_end)
