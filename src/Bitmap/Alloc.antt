-- ===== src/Bitmap/Alloc.antt =====
-- port/src/bitmapalloc.rs: `BitmapPageAlloc`.
--
-- The const generics NUM_BITMAPS and BITMAP_SIZE_BYTES are the section's parameters. A method returns
-- the allocator that it leaves, also on an error, beside its result. The products that give sizes in
-- bytes are those of exact numbers: `IsValid` bounds the largest of them by 2 ^ 64.
pub mod Valid
pub mod Mark
pub mod Unused
pub mod Scan
pub mod Search
pub mod Pages
pub mod Release
pub mod Usage
pub mod Rounding
pub mod Boot
use r.Common.{
  ℕ, zero, suc, ◌+◌, ◌-◌, ◌*◌, ◌/◌, ◌%◌, ◌^◌, Bool, true, false, ◌&&◌, ◌||◌, not, Option, none,
  some, List, [], ◌∷◌, Run, done, panic, hang, ◌>>=◌, ◌>>◌, Result, ok, err, ltb, leb, ◌==◌,
  if◌then◌else◌, index, set as set_elem, replicate, length, bit_or,
}
use r.Common.Word.{assert, sub64}
use r.Bitmap
use r.Bitmap.{Bitmap, trailing_ones, count_zeros}
use r.Mem.{PhysRange, step_by_rounded}

pub data BitmapPageAllocError : Type 0 where
  not_enough_bitmaps out_of_bounds misaligned_addr out_of_space not_allocated : BitmapPageAllocError

pub record BitmapPageAlloc : Type 0 where
  pub bitmaps : List Bitmap
  pub alloc_page_size : ℕ
  pub end : ℕ
  pub next_pa_to_scan : ℕ

pub record ByteIndices : Type 0 where
  pub bitmap : ℕ
  pub byte : ℕ

-- A method that may fail by an error of the code, and leaves an allocator in any case.
abbrev pub Outcome : Type 0 → Type 0
Outcome A = Run (BitmapPageAlloc × Result BitmapPageAllocError A)

-- The `?` operator between two calls.
infixl 5 ◌>>?◌
abbrev pub ◌>>?◌ : {A B : Type 0} → Outcome A → (BitmapPageAlloc → A → Outcome B) → Outcome B
m >>? k = m >>= λ p. elim p.1 [ ok x ↦ k p.0 x | err e ↦ done (p.0, err e) ]

module _ (num_bitmaps bitmap_size_bytes : ℕ) where
  unfoldable pub new_all_allocated : ℕ → BitmapPageAlloc
  new_all_allocated alloc_page_size = record {
    bitmaps = replicate num_bitmaps (Bitmap.new bitmap_size_bytes 0xff);
    alloc_page_size = alloc_page_size;
    end = num_bitmaps * bitmap_size_bytes * 8 * alloc_page_size;
    next_pa_to_scan = 0;
  }

abbrev pub bytes_per_bitmap_byte : BitmapPageAlloc → ℕ
bytes_per_bitmap_byte a = 8 * a.alloc_page_size

module _ (bitmap_size_bytes : ℕ) where
  abbrev pub bytes_per_bitmap : BitmapPageAlloc → ℕ
  bytes_per_bitmap a = bitmap_size_bytes * bytes_per_bitmap_byte a

  unfoldable pub physaddr_as_indices : BitmapPageAlloc → ℕ → Run (ℕ × ℕ × ℕ)
  physaddr_as_indices a pa = do
    assert (pa % a.alloc_page_size == 0)
    let bitmap_idx = pa / bytes_per_bitmap a
    let pa_offset_into_bitmap = pa % bytes_per_bitmap a
    let byte_idx = pa_offset_into_bitmap / bytes_per_bitmap_byte a
    let bit_idx = (pa_offset_into_bitmap - byte_idx * bytes_per_bitmap_byte a) / a.alloc_page_size
    done (bitmap_idx, byte_idx, bit_idx)

  unfoldable pub indices_as_physaddr : BitmapPageAlloc → ℕ → ℕ → ℕ → ℕ
  indices_as_physaddr a bitmap_idx byte_idx bit_idx =
      bitmap_idx * bytes_per_bitmap a
      + byte_idx * bytes_per_bitmap_byte a
      + bit_idx * a.alloc_page_size

  -- The loop of `mark_range`.
  pub mark_pages : BitmapPageAlloc → List ℕ → Bool → Outcome (Unit {0})
  mark_pages a [] mark_allocated = done (a, ok tt)
  mark_pages a (pa ∷ pas) mark_allocated = do
    (bitmap_idx, byte_idx, bit_idx) ← physaddr_as_indices a pa
    if leb (length a.bitmaps) bitmap_idx then done (a, err out_of_bounds) else (do
      bitmap ← index a.bitmaps bitmap_idx
      bitmap' ← Bitmap.set bitmap (8 * byte_idx + bit_idx) mark_allocated
      mark_pages (record a { bitmaps = set_elem a.bitmaps bitmap_idx bitmap' }) pas mark_allocated)

  unfoldable pub mark_range : BitmapPageAlloc → PhysRange → Bool → Bool → Outcome (Unit {0})
  unfolding mark_pages
  mark_range a range mark_allocated check_end =
      if check_end && ltb a.end range.end
      then done (a, err not_enough_bitmaps)
      else (do pas ← step_by_rounded range a.alloc_page_size; mark_pages a pas mark_allocated)

  unfoldable pub mark_allocated : BitmapPageAlloc → PhysRange → Outcome (Unit {0})
  mark_allocated a range = mark_range a range true true

  unfoldable pub mark_free : BitmapPageAlloc → PhysRange → Outcome (Unit {0})
  mark_free a range = mark_range a range false true

  -- The loop of `free_unused_ranges`, which leaves `next_start`.
  pub free_gaps : BitmapPageAlloc → List PhysRange → ℕ → Outcome ℕ
  free_gaps a [] next_start = done (a, ok next_start)
  free_gaps a (range ∷ ranges) next_start =
      (if ltb next_start range.start
        then mark_free a (record { start = next_start; end = range.start })
        else done (a, ok tt))
      >>? λ a' _. free_gaps a' ranges (if ltb next_start range.end then range.end else next_start)

module _ (num_bitmaps bitmap_size_bytes : ℕ) where
  abbrev pub max_bytes : BitmapPageAlloc → ℕ
  max_bytes a = num_bitmaps * bytes_per_bitmap bitmap_size_bytes a

  -- What follows the loop of `free_unused_ranges`.
  unfoldable pub finish_free : BitmapPageAlloc → PhysRange → ℕ → Outcome (Unit {0})
  finish_free a available_mem next_start =
      (if ltb next_start available_mem.end
        then mark_free bitmap_size_bytes a (record { start = next_start; end = available_mem.end })
        else done (a, ok tt))
      >>? λ a' _.
          let ended = record a' { end = available_mem.end } in
          mark_range bitmap_size_bytes ended
            (record { start = available_mem.end; end = max_bytes ended }) true false
          >>? λ a'' _. done (record a'' { next_pa_to_scan = 0 }, ok tt)

  unfoldable pub free_unused_ranges :
      BitmapPageAlloc → PhysRange → List PhysRange → Outcome (Unit {0})
  unfolding free_gaps finish_free
  free_unused_ranges a available_mem used_ranges =
      free_gaps bitmap_size_bytes a used_ranges available_mem.start >>? λ a' next_start.
      finish_free a' available_mem next_start

-- The state that the closure of `indices_from` keeps between calls.
pub record IndicesIter : Type 0 where
  pub bitmap_idx : ℕ
  pub byte_idx : ℕ
  pub passed_first : Bool
  pub currpa : ℕ

module _ (bitmap_size_bytes : ℕ) (a : BitmapPageAlloc) where
  abbrev pub iter_from : ℕ → ℕ → IndicesIter
  iter_from start_bitmap_idx start_byte_idx = record {
    bitmap_idx = start_bitmap_idx;
    byte_idx = start_byte_idx;
    passed_first = false;
    currpa = indices_as_physaddr bitmap_size_bytes a start_bitmap_idx start_byte_idx 0;
  }

  -- The first test of the closure: back to the start, past the last bitmap or past `end`.
  unfoldable pub wrap : IndicesIter → IndicesIter
  wrap it =
      if leb (length a.bitmaps) it.bitmap_idx || leb a.end it.currpa
      then record it { bitmap_idx = 0; byte_idx = 0; currpa = 0 }
      else it

  -- The step to the next byte.
  unfoldable pub advance : IndicesIter → IndicesIter
  advance it =
      if leb bitmap_size_bytes (it.byte_idx + 1)
      then record {
        bitmap_idx = it.bitmap_idx + 1;
        byte_idx = 0;
        passed_first = true;
        currpa = it.currpa + a.alloc_page_size;
      }
      else record it { byte_idx = it.byte_idx + 1; passed_first = true }

  module _ (start_bitmap_idx start_byte_idx : ℕ) where
    unfoldable pub next : IndicesIter → Option (ByteIndices × IndicesIter)
    unfolding wrap advance
    next it =
        let w = wrap it in
        if w.passed_first && w.bitmap_idx == start_bitmap_idx && w.byte_idx == start_byte_idx
        then none
        else some (record { bitmap = w.bitmap_idx; byte = w.byte_idx }, advance w)

  unfoldable pub byte : ByteIndices → Run ℕ
  byte indices = do bitmap ← index a.bitmaps indices.bitmap; index bitmap.bytes indices.byte

  module _ (start_bitmap_idx start_byte_idx : ℕ) where
    -- `.find(|indices| self.byte(indices) != 0xff)`.
    pub find_free : ℕ → IndicesIter → Run (Option (ByteIndices × ℕ))
    find_free zero it = hang
    find_free (suc fuel) it = elim (next start_bitmap_idx start_byte_idx it) [
      | none ↦ done none
      | some (indices, it') ↦ byte indices >>= λ b. elim (b == 0xff) [
        | true ↦ find_free fuel it'
        | false ↦ done (some (indices, b))
      ]
    ]

    -- The loop of `usage_bytes`.
    pub sum_free : ℕ → IndicesIter → ℕ → Run ℕ
    sum_free zero it free_bytes = hang
    sum_free (suc fuel) it free_bytes = elim (next start_bitmap_idx start_byte_idx it) [
      | none ↦ done free_bytes
      | some (indices, it') ↦
          byte indices >>= λ b. sum_free fuel it' (free_bytes + count_zeros b * a.alloc_page_size)
    ]

  -- Rounds enough for one pass over all bytes: see Scan.
  abbrev pub scan_fuel : ℕ
  scan_fuel = 2 * (length a.bitmaps * bitmap_size_bytes) + 2

  unfoldable pub allocate : Outcome ℕ
  unfolding find_free next
  allocate = do
    (first_bitmap_idx, first_byte_idx, _) ←
        physaddr_as_indices bitmap_size_bytes a a.next_pa_to_scan
    found ←
        find_free first_bitmap_idx first_byte_idx scan_fuel
          (iter_from first_bitmap_idx first_byte_idx)
    elim found [
      | none ↦ done (a, err out_of_space)
      | some (indices, b) ↦ do
        bitmap ← index a.bitmaps indices.bitmap
        let num_leading_ones = trailing_ones b
        let bytes' = set_elem bitmap.bytes indices.byte (bit_or b (2 ^ num_leading_ones))
        let pa =
            indices_as_physaddr bitmap_size_bytes a indices.bitmap indices.byte num_leading_ones
        done (
          record a {
            bitmaps = set_elem a.bitmaps indices.bitmap (record { bytes = bytes' });
            next_pa_to_scan = pa;
          },
          ok pa,
        )
    ]

  unfoldable pub deallocate : ℕ → Outcome (Unit {0})
  deallocate pa = if ltb a.end pa then done (a, err out_of_bounds) else (do
    (bitmap_idx, byte_idx, bit_idx) ← physaddr_as_indices bitmap_size_bytes a pa
    bitmap ← index a.bitmaps bitmap_idx
    allocated ← Bitmap.is_set bitmap (8 * byte_idx + bit_idx)
    if allocated
        then (do
          bitmap' ← Bitmap.set bitmap bit_idx false
          done (
            record a { bitmaps = set_elem a.bitmaps bitmap_idx bitmap'; next_pa_to_scan = pa },
            ok tt,
          ))
        else done (a, err not_allocated))

  unfoldable pub usage_bytes : Run (ℕ × ℕ)
  unfolding sum_free next
  usage_bytes = do
    free_bytes ← sum_free 0 0 scan_fuel (iter_from 0 0) 0
    used ← sub64 a.end free_bytes
    done (used, a.end)
