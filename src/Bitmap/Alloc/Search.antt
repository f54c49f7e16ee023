-- ===== src/Bitmap/Alloc/Search.antt =====
-- port/src/bitmapalloc.rs: the search of `allocate` for a byte with a free page, over the bytes of `indices_from`.
use r.Common.{
  ℕ, zero, suc, ◌+◌, ◌-◌, ◌*◌, ◌/◌, ◌%◌, ◌≤◌, ◌<◌, ◌≡◌, ◌≢◌, refl, sym, ap, ◌∙◌, Bool, true, false,
  ◌&&◌, Option, none, some, Run, done, arith, leb, ◌==◌, if◌then◌else◌, Bool-cases, inl, inr, ◌⊎◌,
  dec_lt, ℕ_discrete, ==_refl, ==_iff,
}
use r.Common.Scale.{mul-le, div-le-div}
use r.Bitmap.Bit.{eq_ones}
use r.Bitmap.Alloc.{BitmapPageAlloc, ByteIndices, next, find_free}
use r.Bitmap.Alloc.Valid.{IsValid, allocated, total_pages}
use native.Mathlib.Nat.{zero-div, zero-mul, div-le_self}
use r.Bitmap.Alloc.Scan.{
  byte_value, byte_index, iter_at, byte_lem, byte_value-IsByte, allocated-byte, stay_lem, next_lem,
  second_address, back_lem,
}

-- The page `p` is past the end of memory only if it is marked as allocated.
abbrev pub PastEnd : ℕ → ℕ → BitmapPageAlloc → Type 0
PastEnd num size a =
    (p : ℕ) → p < total_pages num size → a.end ≤ p * a.alloc_page_size → allocated size a p ≡ true

module _ {num size : ℕ} {a : BitmapPageAlloc} (v : IsValid num size a) where
  open a use {alloc_page_size as ps}

  module _ (g0 : ℕ) where
    -- Where the iterator does not go back and is not done, a round looks at one byte.
    find_free_step :
        (fuel g c : ℕ) (passed : Bool)
        → g < num * size
        → c < a.end
        → (passed && g == g0) ≡ false
        → find_free size a (g0 / size) (g0 % size) (suc fuel) (iter_at size g c passed)
          ≡ elim (byte_value size a g == 0xff) [
            | true ↦
                find_free size a
                  (g0 / size)
                  (g0 % size)
                  fuel
                  (iter_at size (g + 1) (if leb size (g % size + 1) then c + ps else c) true)
            | false ↦ done (some (byte_index size g, byte_value size a g))
          ]
    unfolding find_free
    find_free_step fuel g c passed hg hc new =
        rw (next_lem v g0 g c passed hg hc new, find_free) (rw (byte_lem v g hg) refl)

    -- What the search gives, if it looks at the bytes of a set in turn.
    pub data Found (seen : ℕ → Type 0) (r : Run (Option (ByteIndices × ℕ))) : Type 0 where
      nothing :
          r ≡ done none
          → ((g : ℕ) → g < num * size → seen g → byte_value size a g ≡ 0xff)
          → Found seen r
      free_byte :
          (g : ℕ)
          → g < num * size
          → r ≡ done (some (byte_index size g, byte_value size a g))
          → byte_value size a g ≢ 0xff
          → Found seen r

    -- One byte more in front.
    Found-step :
        {seen seen' : ℕ → Type 0} (r r' : Run (Option (ByteIndices × ℕ))) (g : ℕ)
        → g < num * size
        → r ≡ elim (byte_value size a g == 0xff) [
          | true ↦ r'
          | false ↦ done (some (byte_index size g, byte_value size a g))
        ]
        → ((k : ℕ) → seen k → (k ≡ g) ⊎ seen' k)
        → Found seen' r'
        → Found seen r
    Found-step {seen} {seen'} r r' g hg e split rest =
        elim (Bool-cases (byte_value size a g == 0xff)) [
          | inl full ↦ more ((==_iff _ 0xff).0 full) (rw full at e) rest
          | inr some_free ↦ free_byte g hg (rw some_free at e) (ground arith)
        ]
      where
        more : byte_value size a g ≡ 0xff → r ≡ r' → Found seen' r' → Found seen r
        more full e' (nothing q all) =
            nothing (e' ∙ q)
              λ k hk s. elim (split k s) [ inl same ↦ rw same full | inr later ↦ all k hk later ]
        more full e' (free_byte k hk q ne) = free_byte k hk (e' ∙ q) ne

    -- Back at the byte where it began, the iterator is done.
    find_free_end :
        (fuel c : ℕ)
        → g0 < num * size
        → c < a.end
        → find_free size a (g0 / size) (g0 % size) (suc fuel) (iter_at size g0 c true) ≡ done none
    unfolding find_free
    find_free_end fuel c hg hc = rw (end_lem, find_free) refl
      where
        end_lem : next size a (g0 / size) (g0 % size) (iter_at size g0 c true) ≡ none
        end_lem =
            unfold next in
            rw (stay_lem v g0 c true hg hc) (rw (==_refl (g0 / size), ==_refl (g0 % size)) refl)

    -- After the scan has gone back to the start: on up to the byte `g0`.
    second_pass :
        (fuel g : ℕ)
        → g ≤ g0
        → g0 - g < fuel
        → g0 < num * size
        → g0 / size * ps < a.end
        → Found
            (λ k. (g ≤ k) × (k < g0))
            (find_free size a (g0 / size) (g0 % size) fuel (iter_at size g (g / size * ps) true))
    second_pass zero g h f hg0 he = absurd (omega arith)
    second_pass (suc fuel) g h f hg0 he = elim (ℕ_discrete g g0) [
      | yes same ↦
          nothing (rw same (find_free_end fuel (g0 / size * ps) hg0 he))
            (λ k hk s. absurd (omega arith))
      | no other ↦
          let below : g / size * ps < a.end =
            omega (arith, mul-le (g / size) (g0 / size) ps (div-le-div size v.some_bytes g g0 h)) in
          Found-step {seen' = λ k. (g + 1 ≤ k) × (k < g0)} _ _ g (omega arith)
            (find_free_step fuel g (g / size * ps) true (omega arith) below (ground arith))
            (λ k s. ground arith)
            (rw (second_address v g0 g)
              (second_pass fuel (g + 1) (omega arith) (omega arith) hg0 he))
    ]

    find_free_back :
        (fuel g c : ℕ)
        → 0 < num * size
        → 0 < a.end
        → (num * size ≤ g) ⊎ (a.end ≤ c)
        → find_free size a (g0 / size) (g0 % size) (suc fuel) (iter_at size g c true)
          ≡ find_free size a
              (g0 / size)
              (g0 % size)
              (suc fuel)
              (iter_at size 0 (0 / size * ps) true)
    unfolding find_free
    find_free_back fuel g c hn he h = rw (same_next, find_free) refl
      where
        same_next :
            next size a (g0 / size) (g0 % size) (iter_at size g c true)
            ≡ next size a (g0 / size) (g0 % size) (iter_at size 0 (0 / size * ps) true)
        same_next =
            unfold next in
            rw (back_lem v g0 g c h)
              (rw (stay_lem v 0 (0 / size * ps) true hn (rw (zero-div size, zero-mul ps) he)) refl)

    -- The bytes past the end are all ones.
    past_full :
        PastEnd num size a
        → (g : ℕ) → g < num * size
        → a.end ≤ 8 * g * ps
        → byte_value size a g ≡ 0xff
    past_full past g h e =
        eq_ones (byte_value size a g) (byte_value-IsByte v g h)
          λ i hi. sym (allocated-byte v g i hi) ∙ past (8 * g + i) (omega arith) (omega arith)

    next_address :
        (b : Bool) (c k : ℕ)
        → c ≡ (8 * g0 + k) * ps
        → (if b then c + ps else c) ≡ (8 * g0 + (if b then k + 1 else k)) * ps
    next_address true c k e = omega arith
    next_address false c k e = e

    -- From the byte `g` at or behind `g0` on, and round.
    pub first_pass :
        (fuel g c k : ℕ) (passed : Bool)
        → PastEnd num size a
        → g0 < num * size
        → 8 * g0 * ps < a.end
        → c ≡ (8 * g0 + k) * ps
        → g0 + k ≤ g
        → g ≤ num * size
        → ((g ≡ g0) × (passed ≡ false)) ⊎ ((g0 < g) × (passed ≡ true))
        → (num * size - g) + g0 + 1 < fuel
        → Found
            (λ x. (g ≤ x) ⊎ (x < g0))
            (find_free size a (g0 / size) (g0 % size) fuel (iter_at size g c passed))
    first_pass zero g c k passed past hg0 he hc hk hg state f = absurd (omega arith)
    first_pass (suc fuel) g c k passed past hg0 he hc hk hg state f = elim (dec_lt g (num * size)) [
      | yes inside ↦ elim (dec_lt c a.end) [
        | yes below ↦
            let small = leb size (g % size + 1) in
            Found-step {seen' = λ x. (g + 1 ≤ x) ⊎ (x < g0)} _ _ g inside
              (find_free_step fuel g c passed inside below (ground arith)) (λ x s. ground arith)
              (first_pass fuel (g + 1) (if small then c + ps else c) (if small then k + 1 else k)
                true past hg0 he (next_address small c k hc) (ground arith) (omega arith)
                (inr (ground arith, refl)) (omega arith))
        | no above ↦ round (inr (omega arith))
      ]
      | no outside ↦ round (inl (omega arith))
    ]
      where
        gone : (num * size ≤ g) ⊎ (a.end ≤ c) → (g0 < g) × (passed ≡ true)
        gone o = elim state [
          | inl (at_start, _) ↦
              let none_yet : k ≡ 0 = omega arith in
              absurd (elim o [
                | inl q ↦ omega arith
                | inr q ↦ omega (arith, hc, ap (λ (t : ℕ). (8 * g0 + t) * ps) none_yet)
              ])
          | inr s ↦ s
        ]

        full :
            (num * size ≤ g) ⊎ (a.end ≤ c)
            → (x : ℕ) → x < num * size
            → g ≤ x
            → byte_value size a x ≡ 0xff
        full (inl q) x hx l = absurd (omega arith)
        full (inr q) x hx l =
            past_full past x hx (omega (arith, hc, mul-le (8 * g0 + k) (8 * x) ps (omega arith)))

        widen :
            {r : Run (Option (ByteIndices × ℕ))}
            → (num * size ≤ g) ⊎ (a.end ≤ c)
            → Found (λ x. (0 ≤ x) × (x < g0)) r
            → Found (λ x. (g ≤ x) ⊎ (x < g0)) r
        widen o (nothing e all) =
            nothing e λ x hx s. elim s [ inl l ↦ full o x hx l | inr l ↦ all x hx (omega arith) ]
        widen o (free_byte x hx e ne) = free_byte x hx e ne

        round :
            (num * size ≤ g) ⊎ (a.end ≤ c)
            → Found
                (λ x. (g ≤ x) ⊎ (x < g0))
                (find_free size a (g0 / size) (g0 % size) (suc fuel) (iter_at size g c passed))
        round o =
            let (behind, t) = gone o in
            let start : g0 / size * ps < a.end =
              omega (arith, mul-le (g0 / size) (8 * g0) ps (omega (arith, div-le_self g0 size))) in
            rw t (
              rw (find_free_back fuel g c (omega arith) (omega arith) o)
                (widen o (second_pass (suc fuel) 0 (omega arith) (omega arith) hg0 start)))
