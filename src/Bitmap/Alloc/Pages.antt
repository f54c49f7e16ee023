-- ===== src/Bitmap/Alloc/Pages.antt =====
-- port/src/bitmapalloc.rs: `allocate`, on an allocator that is ready for it.
use r.Common.{
  ℕ, ◌+◌, ◌*◌, ◌/◌, ◌%◌, ◌^◌, ◌≤◌, ◌<◌, ◌≡◌, ◌≢◌, refl, ap, ap₂, ◌∙◌, true, false, Option, Run,
  done, ok, err, arith, ◌==◌, if◌then◌else◌, inl, inr, ◌⊎◌, dec_lt, get_or, get_elem?-eq-get_or,
  bit_or, set as set_elem,
}
use r.Common.Scale.{mul-le, lt_of_mul}
use r.Bitmap.{test_bit, trailing_ones}
use native.Mathlib.Nat.{div-add-mod'}
use r.Bitmap.Bit.{trailing_ones_lem, test_bit_ones}
use r.Bitmap.Alloc.{
  BitmapPageAlloc, out_of_space, physaddr_as_indices, allocate, find_free, iter_from, ByteIndices,
  indices_as_physaddr, scan_fuel,
}
use r.Bitmap.Alloc.Valid.{
  IsValid, IsValid-restart, allocated, total_pages, physaddr_as_indices_lem,
  indices_as_physaddr_lem, empty_bitmap,
}
use r.Bitmap.Alloc.Mark.{with_page, with_page-IsValid, allocated-with_page}
use r.Bitmap.Alloc.Scan.{
  byte_value, allocated-byte, page_div, page_mod, in_bitmaps, byte_value-IsByte,
}
use r.Bitmap.Alloc.Search.{PastEnd, Found, nothing, free_byte, first_pass}

-- What `free_unused_ranges` and `allocate` leave: nothing past the end of memory is free, and the next
-- scan starts at a page below the end.
pub record IsReady (num size : ℕ) (a : BitmapPageAlloc) : Type 0 where
  pub valid : IsValid num size a
  pub past_end : PastEnd num size a
  pub next_page : ℕ
  pub next_at : a.next_pa_to_scan ≡ next_page * a.alloc_page_size
  pub next_below : a.next_pa_to_scan < a.end

-- The allocator after the page `q` was handed out.
abbrev pub taken : ℕ → BitmapPageAlloc → ℕ → BitmapPageAlloc
taken size a q = record (with_page size a q true) { next_pa_to_scan = q * a.alloc_page_size }

module _ {num size : ℕ} {a : BitmapPageAlloc} (rd : IsReady num size a) where
  open a use {alloc_page_size as ps}

  v : IsValid num size a
  v = rd.valid

  abbrev g0 : ℕ
  g0 = rd.next_page / 8

  next-lt : rd.next_page < total_pages num size
  next-lt =
      let b = rd.next_below in
      let e = rd.next_at in
      let m = v.end_in in lt_of_mul ps v.page_pos rd.next_page (total_pages num size) (omega arith)

  g0-lt : g0 < num * size
  g0-lt = let h = next-lt in omega arith

  -- Where the scan starts.
  start : rd.next_page ≡ 8 * g0 + rd.next_page % 8
  start = omega arith

  start_div : rd.next_page / (8 * size) ≡ g0 / size
  start_div = ap (λ n. n / (8 * size)) start ∙ page_div v g0 (rd.next_page % 8) (omega arith)

  start_mod : rd.next_page % (8 * size) / 8 ≡ g0 % size
  start_mod =
      ap (λ n. n % (8 * size) / 8) start
      ∙ ap (λ n. n / 8) (page_mod v g0 (rd.next_page % 8) (omega arith))
      ∙ (let e : (8 * (g0 % size) + rd.next_page % 8) / 8 ≡ g0 % size = omega arith in e)

  page_pa : (g k : ℕ) → indices_as_physaddr size a (g / size) (g % size) k ≡ (8 * g + k) * ps
  page_pa g k =
      indices_as_physaddr_lem v (g / size) (g % size) k
      ∙ ap (λ n. n * ps) (omega (arith, div-add-mod' g size))

  start_pa : indices_as_physaddr size a (g0 / size) (g0 % size) 0 ≡ (8 * g0 + 0) * ps
  start_pa = page_pa g0 0

  search : Run (Option (ByteIndices × ℕ))
  search =
      find_free size a (g0 / size) (g0 % size) (scan_fuel size a)
        (iter_from size a (g0 / size) (g0 % size))

  search_lem : Found v g0 (λ x. (g0 ≤ x) ⊎ (x < g0)) search
  unfolding search
  search_lem =
      let count = v.count in
      let below = rd.next_below in
      let at = rd.next_at in
      first_pass v g0 (scan_fuel size a) g0 (indices_as_physaddr size a (g0 / size) (g0 % size) 0) 0
        false rd.past_end g0-lt (omega (arith, mul-le (8 * g0) rd.next_page ps (omega arith)))
        start_pa (omega arith) (let h = g0-lt in omega arith) (inl (refl, refl))
        (let h = g0-lt in rw count (omega arith))

  -- The page that the first clear bit of the byte `g` stands for.
  abbrev page_of : ℕ → ℕ
  page_of g = 8 * g + trailing_ones (byte_value size a g)

  -- Setting that bit in its byte is marking the page.
  take_lem :
      (g : ℕ)
      → g < num * size
      → byte_value size a g ≢ 0xff
      → record a {
        bitmaps = set_elem a.bitmaps (g / size) (record {
          bytes =
              set_elem
                (get_or a.bitmaps (g / size) empty_bitmap).bytes
                (g % size)
                (bit_or (byte_value size a g) (2 ^ trailing_ones (byte_value size a g)));
        });
        next_pa_to_scan =
            indices_as_physaddr size a (g / size) (g % size) (trailing_ones (byte_value size a g));
      }
        ≡ taken size a (page_of g)
  take_lem g hg ne =
      let k = trailing_ones (byte_value size a g) in
      let t = trailing_ones_lem (byte_value size a g) (byte_value-IsByte v g hg) ne in
      let q : (8 * (g % size) + k) / 8 ≡ g % size = let h = t.0 in omega arith in
      let r : (8 * (g % size) + k) % 8 ≡ k = let h = t.0 in omega arith in
      rw (page_div v g k t.0, page_mod v g k t.0) (rw (q, r, page_pa g k, t.2) refl)

  first_indices :
      physaddr_as_indices size a a.next_pa_to_scan
      ≡ done (g0 / size, g0 % size, rd.next_page % (8 * size) % 8)
  first_indices =
      ap (physaddr_as_indices size a) rd.next_at
      ∙ physaddr_as_indices_lem v rd.next_page
      ∙ rw (start_div, start_mod) refl

  -- Of a byte that is all ones, every page is allocated.
  all_full :
      ((g : ℕ) → g < num * size → (g0 ≤ g) ⊎ (g < g0) → byte_value size a g ≡ 0xff)
      → (p : ℕ) → p < total_pages num size
      → allocated size a p ≡ true
  all_full full p h =
      let e : p ≡ 8 * (p / 8) + p % 8 = omega arith in
      let side : (g0 ≤ p / 8) ⊎ (p / 8 < g0) = ground arith in
      ap (allocated size a) e
      ∙ allocated-byte v (p / 8) (p % 8) (omega arith)
      ∙ ap (λ b. test_bit b (p % 8)) (full (p / 8) (omega arith) side)
      ∙ test_bit_ones (p % 8) (omega arith)

  -- The two ways in which `allocate` returns.
  data Allocation : Type 0 where
    exhausted :
        allocate size a ≡ done (a, err out_of_space)
        → ((p : ℕ) → p < total_pages num size → allocated size a p ≡ true)
        → Allocation
    page :
        (q : ℕ)
        → q < total_pages num size
        → allocated size a q ≡ false
        → allocate size a ≡ done (taken size a q, ok (q * ps))
        → Allocation

  allocate_cases : Allocation
  unfolding allocate search
  allocate_cases = elim search_lem [
    | nothing e full ↦ exhausted (rw first_indices (rw e refl)) (all_full full)
    | free_byte g hg e ne ↦
        let k = trailing_ones (byte_value size a g) in
        let t = trailing_ones_lem (byte_value size a g) (byte_value-IsByte v g hg) ne in
        page (page_of g) (let h = t.0 in omega arith) (allocated-byte v g k t.0 ∙ t.1) (
          rw first_indices (
            rw e (
              rw (get_elem?-eq-get_or a.bitmaps (g / size) empty_bitmap (in_bitmaps v g hg))
                (ap₂ (λ x y. done (x, ok y)) (take_lem g hg ne) (page_pa g k)))))
  ]

  -- What `allocate` leaves after it has handed out the page `q`.
  pub record Taken (a' : BitmapPageAlloc) (q : ℕ) : Type 0 where
    pub in_range : q < total_pages num size
    pub was_free : allocated size a q ≡ false
    pub below_end : q * ps < a.end
    pub at : (p : ℕ) → allocated size a' p ≡ (if p == q then true else allocated size a p)
    pub ready : IsReady num size a'
    pub page_size : a'.alloc_page_size ≡ ps
    pub same_end : a'.end ≡ a.end

  taken-Taken :
      (q : ℕ) → q < total_pages num size → allocated size a q ≡ false → Taken (taken size a q) q
  taken-Taken q h free =
      let below : q * ps < a.end = elim (dec_lt (q * ps) a.end) [
        | yes l ↦ l
        | no l ↦ absurd (cc (rd.past_end q h (omega arith)))
      ] in
      let w = with_page-IsValid v q h true in
      record {
        page_size = refl;
        same_end = refl;
        in_range = h;
        was_free = free;
        below_end = below;
        at = allocated-with_page v q h true;
        ready = record {
          valid = IsValid-restart a.end (q * ps) w w.end_in;
          past_end = λ p hp e. ground (arith, allocated-with_page v q h true p, rd.past_end p hp e);
          next_page = q;
          next_at = refl;
          next_below = below;
        };
      }

  -- On a ready allocator `allocate` always returns: either with a page that was free, below the end of
  -- memory, which it marks and no other, or with `out_of_space`, and then no page at all is free.
  pub allocate_lem :
      ((allocate size a ≡ done (a, err out_of_space))
        × ((p : ℕ) → p < total_pages num size → allocated size a p ≡ true))
      ⊎ ((a' : BitmapPageAlloc) × (q : ℕ) × (allocate size a ≡ done (a', ok (q * ps))) × Taken a' q)
  allocate_lem = elim allocate_cases [
    | exhausted e full ↦ inl (e, full)
    | page q h free e ↦ inr (taken size a q, q, e, taken-Taken q h free)
  ]
