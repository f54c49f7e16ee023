-- ===== src/Bitmap/Alloc/Valid.antt =====
-- port/src/bitmapalloc.rs: what a well-formed page allocator is, its pages as an abstract map, and the
-- arithmetic between addresses and bits.
use r.Common.{
  ℕ, ◌+◌, ◌-◌, ◌*◌, ◌/◌, ◌%◌, ◌^◌, ◌≤◌, ◌<◌, ◌≡◌, refl, ap, ◌∙◌, Bool, true, done, arith, length,
  get_or, All, All-get_elem?, [],
}
use r.Common.Word.{is_power_of_two}
use r.Common.Scale.{sub-mul, div-mul_right, mod-mul_right, div-mul_self, div-bound}
use native.Mathlib.Nat.{mul_assoc, mul-mod_left, mod-lt}
use r.Bitmap.{Bitmap}
use r.Bitmap.Bit.{IsByte, bit_at}
use r.Bitmap.Alloc.{BitmapPageAlloc, physaddr_as_indices, indices_as_physaddr, bytes_per_bitmap}

-- A bitmap of `size` bytes.
pub record HasSize (size : ℕ) (m : Bitmap) : Type 0 where
  pub len : length m.bytes ≡ size
  pub bytes : All IsByte m.bytes

abbrev pub empty_bitmap : Bitmap
empty_bitmap = record { bytes = [] }

-- The page `p` is marked as allocated.
abbrev pub allocated : ℕ → BitmapPageAlloc → ℕ → Bool
allocated size a p = bit_at (get_or a.bitmaps (p / (8 * size)) empty_bitmap) (p % (8 * size))

-- The number of pages that the bitmaps cover.
abbrev pub total_pages : ℕ → ℕ → ℕ
total_pages num size = num * (8 * size)

pub record IsValid (num size : ℕ) (a : BitmapPageAlloc) : Type 0 where
  pub some_bytes : 0 < size
  pub count : length a.bitmaps ≡ num
  pub sizes : All (HasSize size) a.bitmaps
  pub page_pow2 : is_power_of_two a.alloc_page_size ≡ true
  pub page_pos : 0 < a.alloc_page_size
  pub fits : total_pages num size * a.alloc_page_size + a.alloc_page_size < 2 ^ 64
  pub end_in : a.end ≤ total_pages num size * a.alloc_page_size

-- The end and the place of the next scan may be set anew.
pub IsValid-restart :
    {num size : ℕ} {a : BitmapPageAlloc} (e n : ℕ)
    → IsValid num size a
    → e ≤ total_pages num size * a.alloc_page_size
    → IsValid num size (record a { end = e; next_pa_to_scan = n })
IsValid-restart e n v h = record {
  some_bytes = v.some_bytes;
  count = v.count;
  sizes = v.sizes;
  page_pow2 = v.page_pow2;
  page_pos = v.page_pos;
  fits = v.fits;
  end_in = h;
}

module _ {num size : ℕ} {a : BitmapPageAlloc} (v : IsValid num size a) where
  abbrev ps : ℕ
  ps = a.alloc_page_size

  bitmap_span : bytes_per_bitmap size a ≡ 8 * size * ps
  bitmap_span = grind arith

  pub bits_pos : 0 < 8 * size
  bits_pos = let h = v.some_bytes in omega arith

  -- The bitmap, the byte and the bit of a page are the quotients of its number.
  pub physaddr_as_indices_lem :
      (p : ℕ)
      → physaddr_as_indices size a (p * ps)
        ≡ done (p / (8 * size), p % (8 * size) / 8, p % (8 * size) % 8)
  unfolding physaddr_as_indices
  physaddr_as_indices_lem p =
      let r = p % (8 * size) in
      let offset : p * ps % bytes_per_bitmap size a ≡ r * ps =
        ap (λ n. p * ps % n) bitmap_span ∙ mod-mul_right ps v.page_pos p (8 * size) in
      let byte : r * ps / (8 * ps) ≡ r / 8 = div-mul_right ps v.page_pos r 8 in
      let bit : (r * ps - r / 8 * (8 * ps)) / ps ≡ r % 8 =
        ap (λ n. n / ps)
          (omega (
            arith,
            mul_assoc (r / 8) 8 ps,
            sub-mul r (r / 8 * 8) ps,
            ap (λ (t : ℕ). t * ps) (let e : r - r / 8 * 8 ≡ r % 8 = omega arith in e),
          ))
        ∙ div-mul_self ps v.page_pos (r % 8) in
      rw (mul-mod_left p ps)
        (rw offset (rw (byte, bit, bitmap_span, div-mul_right ps v.page_pos p (8 * size)) refl))

  -- The page number that the indices stand for.
  pub indices_as_physaddr_lem :
      (bitmap byte bit : ℕ)
      → indices_as_physaddr size a bitmap byte bit ≡ (bitmap * (8 * size) + (8 * byte + bit)) * ps
  unfolding indices_as_physaddr
  indices_as_physaddr_lem bitmap byte bit = grind arith

  -- The bitmap of a page, and that its bit lies in it.
  pub page_bitmap : (p : ℕ) → p < total_pages num size → p / (8 * size) < length a.bitmaps
  page_bitmap p h = let e = v.count in omega (arith, div-bound p num (8 * size) bits_pos h)

  pub page_size :
      (p : ℕ)
      → p < total_pages num size
      → HasSize size (get_or a.bitmaps (p / (8 * size)) empty_bitmap)
  page_size p h =
      All-get_elem? (HasSize size) a.bitmaps (p / (8 * size)) empty_bitmap v.sizes (page_bitmap p h)

  pub page_bit :
      (p : ℕ)
      → p < total_pages num size
      → p % (8 * size) < 8 * length (get_or a.bitmaps (p / (8 * size)) empty_bitmap).bytes
  page_bit p h = let e = (page_size p h).len in rw e (mod-lt p bits_pos)
