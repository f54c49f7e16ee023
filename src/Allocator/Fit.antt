-- ===== src/Allocator/Fit.antt =====
-- port/src/allocator.rs: the sizes that `adjust` gives, and the quick lists that they belong to.
use r.Common.{
  ℕ, zero, suc, ◌+◌, ◌-◌, ◌*◌, ◌^◌, ◌≤◌, ◌<◌, ◌≡◌, refl, ◌∙◌, max, true, false, done, arith, ltb,
  le→leb, leb-false, ltb-false, lt→ltb, dec_le, dec_lt, ◌==◌, ==_iff, ==_ne, ◌⊎◌, inl, inr,
  all_below, all_below_sound,
}
use r.Allocator.Block.{Layout, next_power_of_two, power_from, halvings, ilog2}
use r.Allocator.Store.{QuickFit}
use r.Allocator.Quick.{adjust, quick_index}
use native.Mathlib.Nat.{pow-suc, one-le-pow}

-- `p` times a power of two, the least of them that is not below `n`.
abbrev Least : ℕ → ℕ → ℕ → ℕ → Type 0
Least p n j r = (r ≡ p * 2 ^ j) × (n ≤ r) × ((j ≡ 0) ⊎ (r < 2 * n))

double_pow : (p j : ℕ) → 2 * p * 2 ^ j ≡ p * 2 ^ suc j
double_pow p j = grind (arith, pow-suc 2 j)

power_from_lem :
    (fuel p n : ℕ) → n ≤ p * 2 ^ fuel → (j : ℕ) × (j ≤ fuel) × Least p n j (power_from fuel p n)
unfolding power_from
power_from_lem zero p n h = (0, omega arith, (omega arith, omega arith, inl refl))
power_from_lem (suc fuel) p n h = elim (dec_le n p) [
  | yes l ↦ (0, omega arith, rw (le→leb n p l) (omega arith, l, inl refl))
  | no l ↦
      let (j, in_fuel, (at, enough, least)) =
        power_from_lem fuel (2 * p) n (omega (arith, double_pow p fuel)) in
      let tight : power_from fuel (2 * p) n < 2 * n = elim least [
        | inl zero_j ↦ let e : 2 * p * 2 ^ j ≡ 2 * p = rw zero_j (omega arith) in omega arith
        | inr small ↦ small
      ] in
      (
        suc j,
        omega arith,
        rw (leb-false n p (omega arith)) (at ∙ double_pow p j, enough, inr tight),
      )
]

-- The powers from 64 on, up to the largest quick size.
abbrev pub IsQuick : ℕ → Type 0
IsQuick k = (6 ≤ k) × (k ≤ 14)

index_table : all_below 15 (λ k. halvings 64 (2 ^ k) == k) ≡ true
unfolding all_below halvings
index_table = refl

ilog2_lem : (k : ℕ) → IsQuick k → ilog2 (2 ^ k) ≡ done k
unfolding ilog2
ilog2_lem k (low, high) =
    let log : halvings 64 (2 ^ k) ≡ k =
      (==_iff _ _).0
        (all_below_sound 15 (λ k. halvings 64 (2 ^ k) == k) k index_table (omega arith)) in
    let pos : (2 ^ k == 0) ≡ false = ==_ne (2 ^ k) 0 (omega (arith, one-le-pow k 2)) in
    rw (pos, log) refl

pub quick_index_lem : (k : ℕ) (q : QuickFit) → IsQuick k → quick_index (2 ^ k) q ≡ done (k - 6, q)
unfolding quick_index
quick_index_lem k q quick = rw (ilog2_lem k quick) (rw (le→leb 6 k quick.0) refl)

pow_mono : (a d : ℕ) → 2 ^ a ≤ 2 ^ (a + d)
pow_mono a zero = let e : a + 0 ≡ a = omega arith in rw e (omega arith)
pow_mono a (suc d) =
    let e : a + suc d ≡ suc (a + d) = omega arith in
    rw e (omega (arith, pow_mono a d, pow-suc 2 (a + d)))

pub pow_le : (a b : ℕ) → a ≤ b → 2 ^ a ≤ 2 ^ b
pow_le a b h = let e : b ≡ a + (b - a) = omega arith in rw e (pow_mono a (b - a))

-- A layout of at most 16384 bytes is given the least power of two from 64 on that holds it, and an
-- alignment that is at least the size; a larger layout is left as it is.
pub adjust_lem :
    (layout : Layout)
    → ((2 ^ 14 < layout.size) × (adjust layout ≡ (layout.size, layout.align)))
      ⊎ ((k : ℕ) × IsQuick k
          × (layout.size ≤ 2 ^ k)
          × ((k ≡ 6) ⊎ (2 ^ k < 2 * layout.size))
          × (adjust layout ≡ (2 ^ k, max layout.align (2 ^ k))))
unfolding adjust next_power_of_two
adjust_lem layout = elim (dec_lt (2 ^ 14) layout.size) [
  | yes large ↦ inl (large, rw (lt→ltb (2 ^ 14) layout.size large) refl)
  | no small ↦
      let (j, _, (at, enough, least)) = power_from_lem 64 1 layout.size (omega arith) in
      let r = next_power_of_two layout.size in
      let power : r ≡ 2 ^ j = at ∙ omega arith in
      let quick : ltb (2 ^ 14) layout.size ≡ false = ltb-false _ _ (omega arith) in
      inr (elim (dec_le 6 j) [
        | yes high ↦
            let size : max 64 r ≡ 2 ^ j = omega (arith, power, pow_le 6 j high) in
            let tight : r < 2 * layout.size = elim least [
              | inl zero_j ↦ absurd (omega arith)
              | inr t ↦ t
            ] in
            let in_quick : j ≤ 14 = elim (dec_le j 14) [
              | yes l ↦ l
              | no l ↦ absurd (omega (arith, power, pow_le 15 j (omega arith)))
            ] in
            (j, (high, in_quick), omega arith, inr (omega arith), rw (quick, size) refl)
        | no low ↦
            let size : max 64 r ≡ 64 = omega (arith, power, pow_le j 6 (omega arith)) in
            (
              6,
              (omega arith, omega arith),
              omega (arith, power, pow_le j 6 (omega arith)),
              inl refl,
              rw (quick, size) refl,
            )
      ])
]
