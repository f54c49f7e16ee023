-- ===== src/Bitmap/Alloc/Usage.antt =====
-- port/src/bitmapalloc.rs: `usage_bytes` counts the pages that are free.
use r.Common.{
  ℕ, zero, suc, ◌+◌, ◌-◌, ◌*◌, ◌/◌, ◌%◌, ◌≤◌, ◌<◌, ◌≡◌, refl, sym, ap, ◌∙◌, Bool, true, false, ◌&&◌,
  ◌==◌, if◌then◌else◌, none, done, ok, err, arith, leb, Bool-cases, inl, inr, ◌⊎◌, dec_lt, le→leb,
  ==_refl, ==_ne, ℕ_discrete, ==_iff, all_below, all_below_sound,
}
use r.Common.Scale.{mul-le}
use native.Mathlib.Nat.{div-le_self, zero-div, zero-mod, zero-mul}
use r.Bitmap.{test_bit, count_zeros}
use r.Bitmap.Alloc.{
  BitmapPageAlloc, indices_as_physaddr, iter_from, next, sum_free, usage_bytes, scan_fuel, allocate,
  out_of_space,
}
use r.Bitmap.Alloc.Valid.{IsValid, indices_as_physaddr_lem, allocated, total_pages}
use r.Bitmap.Alloc.Pages.{IsReady, Taken, allocate_lem}
use r.Bitmap.Alloc.Search.{PastEnd}
use r.Bitmap.Alloc.Scan.{
  byte_value, iter_at, byte_lem, byte_value-IsByte, allocated-byte, next_lem, back_lem,
  second_address,
}

-- How many of the `n` pages from `k` on are not in a set.
abbrev pub free_in : (ℕ → Bool) → ℕ → ℕ → ℕ
free_in f k zero = 0
free_in f k (suc n) = let rest = free_in f (k + 1) n in if f k then rest else rest + 1

free_in-append :
    (f : ℕ → Bool) (m k n j total : ℕ)
    → total ≡ m + n
    → j ≡ k + m
    → free_in f k total ≡ free_in f k m + free_in f j n
free_in-append f zero k n j total e ej =
    let front : total ≡ n = omega arith in
    let at : k ≡ j = omega arith in
    ap (free_in f k) front ∙ ap (λ i. free_in f i n) at ∙ omega arith
free_in-append f (suc m) k n j total e ej =
    let more : total ≡ suc (m + n) = omega arith in
    let rest = free_in-append f m (k + 1) n j (m + n) refl (omega arith) in
    ap (free_in f k) more
    ∙ elim (Bool-cases (f k)) [ inl b ↦ rw b rest | inr b ↦ rw b (omega arith) ]

free_in-none :
    (f : ℕ → Bool) (n k : ℕ) → ((p : ℕ) → k ≤ p → p < k + n → f p ≡ true) → free_in f k n ≡ 0
free_in-none f zero k h = refl
free_in-none f (suc n) k h =
    rw (h k (omega arith) (omega arith))
      (free_in-none f n (k + 1) (λ p lo hi. h p (omega arith) (omega arith)))

free_in-le : (f : ℕ → Bool) (n k : ℕ) → free_in f k n ≤ n
free_in-le f zero k = omega arith
free_in-le f (suc n) k =
    let rest = free_in-le f n (k + 1) in
    elim (Bool-cases (f k)) [ inl b ↦ rw b (omega arith) | inr b ↦ rw b (omega arith) ]

free_in-shift :
    (f g : ℕ → Bool) (n k j : ℕ)
    → ((i : ℕ) → i < n → f (k + i) ≡ g (j + i))
    → free_in f k n ≡ free_in g j n
free_in-shift f g zero k j h = refl
free_in-shift f g (suc n) k j h =
    let first : f k ≡ g j =
      ap f (let e : k ≡ k + 0 = omega arith in e)
      ∙ h 0 (omega arith)
      ∙ ap g (let e : j + 0 ≡ j = omega arith in e) in
    let rest = free_in-shift f g n (k + 1) (j + 1) (λ i l.
      ap f (let e : k + 1 + i ≡ k + (i + 1) = omega arith in e)
      ∙ h (i + 1) (omega arith)
      ∙ ap g (let e : j + (i + 1) ≡ j + 1 + i = omega arith in e)) in
    rw (first, rest) refl

zeros_table : all_below 256 (λ b. count_zeros b == free_in (test_bit b) 0 8) ≡ true
unfolding all_below count_zeros test_bit
zeros_table = refl

count_zeros_lem : (b : ℕ) → b < 256 → count_zeros b ≡ free_in (test_bit b) 0 8
count_zeros_lem b h = (==_iff _ _).0 (all_below_sound 256 _ b zeros_table h)

module _ {num size : ℕ} {a : BitmapPageAlloc} (v : IsValid num size a) where
  open a use {alloc_page_size as ps}

  abbrev pub free_pages : ℕ
  free_pages = free_in (allocated size a) 0 (total_pages num size)

  byte-free :
      (g : ℕ)
      → g < num * size
      → count_zeros (byte_value size a g) ≡ free_in (allocated size a) (8 * g) 8
  byte-free g h =
      count_zeros_lem (byte_value size a g) (byte_value-IsByte v g h)
      ∙ free_in-shift (test_bit (byte_value size a g)) (allocated size a) 8 0 (8 * g) (λ i l.
        ap (test_bit (byte_value size a g)) (let e : 0 + i ≡ i = omega arith in e)
        ∙ sym (allocated-byte v g i l))

  -- A round of the loop.
  sum_free_step :
      (fuel g c d : ℕ) (passed : Bool)
      → g < num * size
      → c < a.end
      → (passed && g == 0) ≡ false
      → sum_free size a (0 / size) (0 % size) (suc fuel) (iter_at size g c passed) d
        ≡ sum_free size a
            (0 / size)
            (0 % size)
            fuel
            (iter_at size (g + 1) (if leb size (g % size + 1) then c + ps else c) true)
            (d + count_zeros (byte_value size a g) * ps)
  unfolding sum_free
  sum_free_step fuel g c d passed hg hc new =
      rw (next_lem v 0 g c passed hg hc new, sum_free) (rw (byte_lem v g hg) refl)

  sum_free_end :
      (fuel g c d : ℕ)
      → 0 < num * size
      → 0 < a.end
      → (num * size ≤ g) ⊎ (a.end ≤ c)
      → sum_free size a (0 / size) (0 % size) (suc fuel) (iter_at size g c true) d ≡ done d
  unfolding sum_free
  sum_free_end fuel g c d hn he o = rw (end_lem, sum_free) refl
    where
      end_lem : next size a (0 / size) (0 % size) (iter_at size g c true) ≡ none
      end_lem =
          unfold next in rw (back_lem v 0 g c o) (rw (==_refl (0 / size), ==_refl (0 % size)) refl)

  -- The pages past the end, which are all allocated, are not counted.
  none_past :
      PastEnd num size a
      → (g c : ℕ) → c ≡ g / size * ps
      → (num * size ≤ g) ⊎ (a.end ≤ c)
      → g ≤ num * size
      → free_in (allocated size a) (8 * g) (8 * (num * size - g)) ≡ 0
  none_past past g c hc o hg =
      free_in-none (allocated size a) (8 * (num * size - g)) (8 * g) (λ p lo hi. elim o [
        | inl q ↦ absurd (omega arith)
        | inr q ↦
            past p (grind arith)
              (omega (arith, mul-le (g / size) p ps (omega (arith, div-le_self g size))))
      ])

  sum_free_lem :
      PastEnd num size a
      → 0 < num * size
      → 0 < a.end
      → (fuel g d : ℕ) (passed : Bool) → g ≤ num * size
      → ((g ≡ 0) × (passed ≡ false)) ⊎ ((0 < g) × (passed ≡ true))
      → num * size - g < fuel
      → sum_free size a (0 / size) (0 % size) fuel (iter_at size g (g / size * ps) passed) d
        ≡ done (d + free_in (allocated size a) (8 * g) (8 * (num * size - g)) * ps)
  sum_free_lem past hn he zero g d passed hg state f = absurd (omega arith)
  sum_free_lem past hn he (suc fuel) g d passed hg state f = elim (dec_lt g (num * size)) [
    | yes inside ↦ elim (dec_lt (g / size * ps) a.end) [
      | yes below ↦
          let rest =
            sum_free_lem past hn he fuel (g + 1) (d + count_zeros (byte_value size a g) * ps) true
              (omega arith) (inr (omega arith, refl)) (omega arith) in
          let split =
            free_in-append (allocated size a) 8 (8 * g) (8 * (num * size - (g + 1))) (8 * (g + 1))
              (8 * (num * size - g)) (omega arith) (omega arith) in
          let here = free_in (allocated size a) (8 * g) 8 in
          let later = free_in (allocated size a) (8 * (g + 1)) (8 * (num * size - (g + 1))) in
          let sum : d + count_zeros (byte_value size a g) * ps + later * ps
              ≡ d + free_in (allocated size a) (8 * g) (8 * (num * size - g)) * ps =
            let parts : d + here * ps + later * ps ≡ d + (here + later) * ps = grind arith in
            rw (split, byte-free g inside) parts in
          sum_free_step fuel g (g / size * ps) d passed inside below (ground arith)
          ∙ rw (second_address v 0 g) rest
          ∙ ap done sum
      | no above ↦ over (inr (omega arith))
    ]
    | no outside ↦ over (inl (omega arith))
  ]
    where
      gone : (num * size ≤ g) ⊎ (a.end ≤ g / size * ps) → passed ≡ true
      gone o = elim state [
        | inr s ↦ s.1
        | inl (z, _) ↦ absurd (elim o [
          | inl q ↦ omega arith
          | inr q ↦
              let at_start : g / size * ps ≡ 0 =
                ap (λ n. n / size * ps) z ∙ rw (zero-div size, zero-mul ps) refl in
              omega arith
        ])
      ]

      over :
          (num * size ≤ g) ⊎ (a.end ≤ g / size * ps)
          → sum_free size a
              (0 / size)
              (0 % size)
              (suc fuel)
              (iter_at size g (g / size * ps) passed)
              d
            ≡ done (d + free_in (allocated size a) (8 * g) (8 * (num * size - g)) * ps)
      over o =
          rw (gone o, none_past past g (g / size * ps) refl o hg)
            (sum_free_end fuel g (g / size * ps) d hn he o ∙ ap done (grind arith))

  all_bytes : total_pages num size ≡ 8 * (num * size)
  all_bytes = grind arith

  some_byte : 0 < a.end → 0 < num * size
  some_byte he = elim (dec_lt 0 (num * size)) [
    | yes l ↦ l
    | no l ↦
        let none : total_pages num size ≡ 0 = omega (arith, all_bytes) in
        let empty : total_pages num size * ps ≡ 0 = ap (λ (n : ℕ). n * ps) none ∙ zero-mul ps in
        let e = v.end_in in absurd (omega arith)
  ]

  free_pages-le :
      (end_page : ℕ) → PastEnd num size a → a.end ≡ end_page * ps → free_pages ≤ end_page
  free_pages-le end_page past aligned = elim (dec_lt (total_pages num size) end_page) [
    | yes l ↦ let all = free_in-le (allocated size a) (total_pages num size) 0 in omega arith
    | no l ↦
        let n = total_pages num size - end_page in
        let behind =
          free_in-none (allocated size a) n end_page
            (λ p lo hi. past p (omega arith) (omega (arith, aligned, mul-le end_page p ps lo))) in
        let before = free_in-le (allocated size a) end_page 0 in
        let split =
          free_in-append (allocated size a) end_page 0 n end_page (total_pages num size)
            (omega arith) (omega arith) in
        omega arith
  ]

  counted :
      PastEnd num size a
      → 0 < a.end
      → sum_free size a 0 0 (scan_fuel size a) (iter_from size a 0 0) 0 ≡ done (free_pages * ps)
  counted past he =
      let fuel : num * size - 0 < scan_fuel size a = rw v.count (omega arith) in
      let first : indices_as_physaddr size a 0 0 0 ≡ 0 * ps =
        indices_as_physaddr_lem v 0 0 0 ∙ grind arith in
      let whole : 0 + free_in (allocated size a) (8 * 0) (8 * (num * size - 0)) * ps
          ≡ free_pages * ps =
        let n : 8 * (num * size - 0) ≡ total_pages num size = omega (arith, all_bytes) in
        rw n (omega arith) in
      rw (first, sym whole)
        (rw (zero-div size, zero-mod size) at
          (sum_free_lem past (some_byte he) he (scan_fuel size a) 0 0 false (omega arith)
            (inl (refl, refl)) fuel))

  -- When no page past the end is free and the end is that of a page, the bytes in use are all but those of
  -- the free pages.
  usage_bytes_lem :
      (end_page : ℕ)
      → PastEnd num size a
      → 0 < a.end
      → a.end ≡ end_page * ps
      → (usage_bytes size a ≡ done (a.end - free_pages * ps, a.end)) × (free_pages * ps ≤ a.end)
  unfolding usage_bytes
  usage_bytes_lem end_page past he aligned =
      let few : free_pages * ps ≤ a.end =
        omega
          (arith, aligned, mul-le free_pages end_page ps (free_pages-le end_page past aligned)) in
      (rw (counted past he) (rw (le→leb (free_pages * ps) a.end few) refl), few)

-- One page less is free.
free_in-taken :
    (f g : ℕ → Bool) (q n k : ℕ)
    → ((p : ℕ) → g p ≡ (if p == q then true else f p))
    → f q ≡ false
    → k ≤ q
    → q < k + n
    → free_in f k n ≡ free_in g k n + 1
free_in-taken f g q zero k at free lo hi = absurd (omega arith)
free_in-taken f g q (suc n) k at free lo hi = elim (ℕ_discrete k q) [
  | yes e ↦
      let after =
        free_in-shift g f n (k + 1) (k + 1)
          (λ i l. at (k + 1 + i) ∙ rw (==_ne (k + 1 + i) q (λ same. absurd (omega arith))) refl) in
      rw (at k, e, ==_refl q, free) (rw (sym e, after) refl)
  | no ne ↦
      let rest = free_in-taken f g q n (k + 1) at free (omega arith) (omega arith) in
      let here : g k ≡ f k = at k ∙ rw (==_ne k q ne) refl in
      elim (Bool-cases (f k)) [
        | inl b ↦ rw (here, b) rest
        | inr b ↦ rw (here, b) (ap (λ m. m + 1) rest)
      ]
]

module _ {num size : ℕ} {a : BitmapPageAlloc} (rd : IsReady num size a) (end_page : ℕ)
    (aligned : a.end ≡ end_page * a.alloc_page_size) where
  open a use {alloc_page_size as ps}

  abbrev used : ℕ
  used = a.end - free_pages rd.valid * ps

  some_end : 0 < a.end
  some_end = let l = rd.next_below in omega arith

  Taken-usage_bytes :
      {a' : BitmapPageAlloc} (q : ℕ) → Taken rd a' q → usage_bytes size a' ≡ done (used + ps, a.end)
  Taken-usage_bytes {a'} q tk =
      let v' = tk.ready.valid in
      let one_less : free_pages rd.valid ≡ free_pages v' + 1 =
        free_in-taken (allocated size a) (allocated size a') q (total_pages num size) 0 tk.at
          tk.was_free (omega arith) (let r = tk.in_range in omega arith) in
      let (e, _) =
        usage_bytes_lem v' end_page tk.ready.past_end (rw tk.same_end some_end)
          (tk.same_end ∙ aligned ∙ ap (λ n. end_page * n) (sym tk.page_size)) in
      let few : (free_pages v' + 1) * ps ≤ a.end =
        rw (sym one_less) (usage_bytes_lem rd.valid end_page rd.past_end some_end aligned).1 in
      let sum : a.end - free_pages v' * ps ≡ used + ps =
        rw one_less (
          let m : (free_pages v' + 1) * ps ≡ free_pages v' * ps + ps = grind arith in
          omega arith) in
      e ∙ rw (tk.same_end, tk.page_size) (ap (λ n. done (n, a.end)) sum)

  -- On a ready allocator whose end is that of a page, `usage_bytes` returns the end less the bytes of the
  -- free pages, and the end. `allocate` then either says that there is no space, and all bytes are in use,
  -- or it adds the bytes of one page to those in use.
  pub allocate-usage_bytes :
      (usage_bytes size a ≡ done (a.end - free_pages rd.valid * ps, a.end))
      × (((allocate size a ≡ done (a, err out_of_space))
            × (a.end - free_pages rd.valid * ps ≡ a.end))
          ⊎ ((a' : BitmapPageAlloc) × (page : ℕ) × (allocate size a ≡ done (a', ok page))
              × (usage_bytes size a' ≡ done (a.end - free_pages rd.valid * ps + ps, a.end))))
  allocate-usage_bytes = (
    (usage_bytes_lem rd.valid end_page rd.past_end some_end aligned).0,
    elim (allocate_lem rd) [
      | inl (e, full) ↦
          let none : free_pages rd.valid ≡ 0 =
            free_in-none (allocated size a) (total_pages num size) 0
              (λ p lo hi. full p (omega arith)) in
          inl (e, ap (λ n. a.end - n * ps) none ∙ omega arith)
      | inr (a', q, e, tk) ↦ inr (a', q * ps, e, Taken-usage_bytes q tk)
    ],
  )
