-- ===== src/Bitmap/Alloc/Scan.antt =====
-- port/src/bitmapalloc.rs: the rounds of `indices_from`.
--
-- The byte `g` of an allocator is the byte `g % size` of its bitmap `g / size`.
use r.Common.{
  ℕ, ◌+◌, ◌*◌, ◌/◌, ◌%◌, ◌≤◌, ◌<◌, ◌≡◌, refl, Bool, true, false, ◌&&◌, ◌||◌, some, done, arith, leb,
  ◌==◌, if◌then◌else◌, Bool-cases, inl, inr, ◌⊎◌, dec_le, leb-false, le→leb, length, get_or,
  get_elem?-eq-get_or, All-get_elem?,
}
use r.Common.Scale.{div-bound, div_of_split, mod_of_split, mul-add-one}
use r.Bitmap.{test_bit}
use r.Bitmap.Bit.{IsByte}
use r.Bitmap.Alloc.{BitmapPageAlloc, ByteIndices, IndicesIter, wrap, advance, next, byte}
use r.Bitmap.Alloc.Valid.{HasSize, IsValid, bits_pos, allocated, empty_bitmap}
use native.Mathlib.Nat.{div-add-mod', mod-lt, zero-div, zero-mod, zero-mul, le-div_iff_mul-le}

abbrev pub byte_value : ℕ → BitmapPageAlloc → ℕ → ℕ
byte_value size a g = get_or (get_or a.bitmaps (g / size) empty_bitmap).bytes (g % size) 0

abbrev pub byte_index : ℕ → ℕ → ByteIndices
byte_index size g = record { bitmap = g / size; byte = g % size }

abbrev pub iter_at : ℕ → ℕ → ℕ → Bool → IndicesIter
iter_at size g c passed = record {
  bitmap_idx = g / size;
  byte_idx = g % size;
  passed_first = passed;
  currpa = c;
}

module _ {num size : ℕ} {a : BitmapPageAlloc} (v : IsValid num size a) where
  open a use {alloc_page_size as ps}

  pub in_bitmaps : (g : ℕ) → g < num * size → g / size < length a.bitmaps
  in_bitmaps g h = let e = v.count in omega (arith, div-bound g num size v.some_bytes h)

  byte_size : (g : ℕ) → g < num * size → HasSize size (get_or a.bitmaps (g / size) empty_bitmap)
  byte_size g h =
      All-get_elem? (HasSize size) a.bitmaps (g / size) empty_bitmap v.sizes (in_bitmaps g h)

  byte_in :
      (g : ℕ) → g < num * size → g % size < length (get_or a.bitmaps (g / size) empty_bitmap).bytes
  byte_in g h = let e = (byte_size g h).len in rw e (mod-lt g v.some_bytes)

  pub byte_lem :
      (g : ℕ) → g < num * size → byte size a (byte_index size g) ≡ done (byte_value size a g)
  unfolding byte
  byte_lem g h =
      rw (get_elem?-eq-get_or a.bitmaps (g / size) empty_bitmap (in_bitmaps g h))
        (rw (get_elem?-eq-get_or _ (g % size) 0 (byte_in g h)))

  pub byte_value-IsByte : (g : ℕ) → g < num * size → byte_value size a g < 256
  byte_value-IsByte g h = All-get_elem? IsByte _ (g % size) 0 (byte_size g h).bytes (byte_in g h)

  -- The page of bit `i` of byte `g`.
  split_page :
      (g i : ℕ)
      → i < 8
      → (8 * (g % size) + i < 8 * size) × (8 * g + i ≡ g / size * (8 * size) + (8 * (g % size) + i))
  split_page g i h = (omega (arith, mod-lt g v.some_bytes), omega (arith, div-add-mod' g size))

  pub page_div : (g i : ℕ) → i < 8 → (8 * g + i) / (8 * size) ≡ g / size
  page_div g i h =
      let (l, e) = split_page g i h in
      div_of_split (8 * size) (bits_pos v) (8 * g + i) (g / size) (8 * (g % size) + i) l e

  pub page_mod : (g i : ℕ) → i < 8 → (8 * g + i) % (8 * size) ≡ 8 * (g % size) + i
  page_mod g i h =
      let (l, e) = split_page g i h in
      mod_of_split (8 * size) (bits_pos v) (8 * g + i) (g / size) (8 * (g % size) + i) l e

  pub allocated-byte :
      (g i : ℕ) → i < 8 → allocated size a (8 * g + i) ≡ test_bit (byte_value size a g) i
  allocated-byte g i h =
      let q : (8 * (g % size) + i) / 8 ≡ g % size = omega arith in
      let r : (8 * (g % size) + i) % 8 ≡ i = omega arith in
      rw (page_div g i h, page_mod g i h) (rw (q, r) refl)

  -- The next byte, in the terms of the iterator.
  step_div :
      (g : ℕ)
      → ((g + 1) / size ≡ (if leb size (g % size + 1) then g / size + 1 else g / size))
        × ((g + 1) % size ≡ (if leb size (g % size + 1) then 0 else g % size + 1))
  step_div g =
      let small = mod-lt g v.some_bytes in
      let whole = div-add-mod' g size in
      elim (dec_le size (g % size + 1)) [
        | yes l ↦
            let e : g + 1 ≡ (g / size + 1) * size + 0 =
              omega (arith, mul-add-one (g / size) size) in
            rw (le→leb size (g % size + 1) l) (
              div_of_split size v.some_bytes (g + 1) (g / size + 1) 0 v.some_bytes e,
              mod_of_split size v.some_bytes (g + 1) (g / size + 1) 0 v.some_bytes e,
            )
        | no l ↦
            let e : g + 1 ≡ g / size * size + (g % size + 1) = omega arith in
            rw (leb-false size (g % size + 1) (omega arith)) (
              div_of_split size v.some_bytes (g + 1) (g / size) (g % size + 1) (omega arith) e,
              mod_of_split size v.some_bytes (g + 1) (g / size) (g % size + 1) (omega arith) e,
            )
      ]

  advance_lem :
      (g c : ℕ) (passed : Bool)
      → advance size a (iter_at size g c passed)
        ≡ iter_at size (g + 1) (if leb size (g % size + 1) then c + ps else c) true
  unfolding advance
  advance_lem g c passed = elim (Bool-cases (leb size (g % size + 1))) [
    | inl l ↦ rw ((step_div g).0, (step_div g).1) (rw l refl)
    | inr l ↦ rw ((step_div g).0, (step_div g).1) (rw l refl)
  ]

  -- Two byte numbers agree if their bitmaps and their bytes do.
  same_byte : (g g0 : ℕ) → g / size ≡ g0 / size → g % size ≡ g0 % size → g ≡ g0
  same_byte g g0 d m = grind (arith, div-add-mod' g size, div-add-mod' g0 size)

  pub stay_lem :
      (g c : ℕ) (passed : Bool)
      → g < num * size
      → c < a.end
      → wrap size a (iter_at size g c passed) ≡ iter_at size g c passed
  unfolding wrap
  stay_lem g c passed hg hc =
      rw (leb-false (length a.bitmaps) (g / size) (in_bitmaps g hg), leb-false a.end c hc) refl

  module _ (g0 : ℕ) where
    seen_lem :
        (g : ℕ) (passed : Bool)
        → (passed && g == g0) ≡ false
        → (passed && g / size == g0 / size && g % size == g0 % size) ≡ false
    seen_lem g passed h = ground (arith, same_byte g g0)

    pub next_lem :
        (g c : ℕ) (passed : Bool)
        → g < num * size
        → c < a.end
        → (passed && g == g0) ≡ false
        → next size a (g0 / size) (g0 % size) (iter_at size g c passed)
          ≡ some (
            byte_index size g,
            iter_at size (g + 1) (if leb size (g % size + 1) then c + ps else c) true,
          )
    unfolding next
    next_lem g c passed hg hc new =
        rw (stay_lem g c passed hg hc)
          (rw (seen_lem g passed new) (rw (advance_lem g c passed) refl))

    -- The address that the iterator keeps, after it has gone back to the start.
    pub second_address :
        (g : ℕ)
        → (if leb size (g % size + 1) then g / size * ps + ps else g / size * ps)
          ≡ (g + 1) / size * ps
    second_address g = ground (arith, (step_div g).0, mul-add-one (g / size) ps)

    -- Past the last byte, or past the address of the end, the iterator goes back to the start.
    pub back_lem :
        (g c : ℕ)
        → (num * size ≤ g) ⊎ (a.end ≤ c)
        → wrap size a (iter_at size g c true) ≡ iter_at size 0 (0 / size * ps) true
    unfolding wrap
    back_lem g c h =
        rw (zero-div size, zero-mod size, zero-mul ps)
          (rw (past (length a.bitmaps) (g / size) (a.end) c (bound h)) refl)
      where
        past : (n m e k : ℕ) → (n ≤ m) ⊎ (e ≤ k) → (leb n m || leb e k) ≡ true
        past n m e k o = ground arith

        bound : (num * size ≤ g) ⊎ (a.end ≤ c) → (length a.bitmaps ≤ g / size) ⊎ (a.end ≤ c)
        bound (inl o) = inl (rw v.count ((le-div_iff_mul-le v.some_bytes).1 o))
        bound (inr o) = inr o
