-- ===== src/Mem/Align.antt =====
-- port/src/mem.rs: what `round_down` and `round_up` compute.
use r.Common.{
  ℕ, zero, suc, ◌+◌, ◌-◌, ◌*◌, ◌/◌, ◌%◌, ◌^◌, ◌<◌, ◌≡◌, ap, sym, ◌∙◌, bit_and, true, done, arith,
  ==_iff, lt→ltb, any_below_sound, ◌==◌,
}
use r.Common.Bits.{bit_and_high, bit_and_mask}
use r.Common.Word.{not64, is_power_of_two}
use r.Mem.{round_up, round_down}
use native.Mathlib.Nat.{
  pow-suc, one-le-pow, mul-one, mul_assoc, div-lt_iff_lt-mul, mod-eq_of_lt, mod-lt, div-add-mod',
}

pow-add : (a b : ℕ) → 2 ^ (a + b) ≡ 2 ^ a * 2 ^ b
pow-add a zero = let e : a + 0 ≡ a = omega arith in rw e (sym (mul-one (2 ^ a)))
pow-add a (suc b) =
    let e : a + suc b ≡ suc (a + b) = omega arith in
    rw e (
      omega (
        arith,
        pow-suc 2 (a + b),
        pow-suc 2 b,
        ap (λ (t : ℕ). t * 2) (pow-add a b),
        mul_assoc (2 ^ a) (2 ^ b) 2,
        ap (λ (t : ℕ). 2 ^ a * t) (pow-suc 2 b),
      ))

sub-one-mul : (m p : ℕ) → (m - 1) * p ≡ m * p - p
sub-one-mul zero p = omega arith
sub-one-mul (suc m) p = ground (arith)

-- `2 ^ 64` as a product at the bit `k`.
split_word : (k : ℕ) → k < 64 → 2 ^ 64 ≡ 2 ^ (64 - k) * 2 ^ k
split_word k h = let e : 64 ≡ 64 - k + k = omega arith in ap (λ n. 2 ^ n) e ∙ pow-add (64 - k) k

-- `!(step - 1)` cuts an address down to a multiple of `step`.
mask_lem : (k a : ℕ) → k < 64 → a < 2 ^ 64 → bit_and a (not64 (2 ^ k - 1)) ≡ a / 2 ^ k * 2 ^ k
mask_lem k a h ha =
    rw (ap (bit_and a) mask, ap (λ n. bit_and n ((m - 1) * 2 ^ k)) (sym (div-add-mod' a (2 ^ k))))
      (bit_and_high k (a / 2 ^ k) (a % 2 ^ k) (m - 1) (mod-lt a (one-le-pow k 2 (omega arith)))
        ∙ ap (λ n. n * 2 ^ k) kept)
  where
    m : ℕ
    m = 2 ^ (64 - k)

    mask : not64 (2 ^ k - 1) ≡ (m - 1) * 2 ^ k
    mask = omega (
      arith,
      split_word k h,
      sub-one-mul m (2 ^ k),
      one-le-pow k 2 (omega arith),
      one-le-pow (64 - k) 2 (omega arith),
    )

    small : a / 2 ^ k < m
    small = (div-lt_iff_lt-mul (one-le-pow k 2 (omega arith))).1 (rw (← split_word k h) ha)

    kept : bit_and (a / 2 ^ k) (m - 1) ≡ a / 2 ^ k
    kept = bit_and_mask (64 - k) (a / 2 ^ k) ∙ mod-eq_of_lt small

is_power_of_two_elim : (n : ℕ) → is_power_of_two n ≡ true → (k : ℕ) × (k < 64) × (n ≡ 2 ^ k)
unfolding is_power_of_two
is_power_of_two_elim n h =
    let (k, lt, e) = any_below_sound 64 (λ k. n == 2 ^ k) h in (k, lt, (==_iff n (2 ^ k)).0 e)

pub is_power_of_two_pos : (n : ℕ) → is_power_of_two n ≡ true → 0 < n
is_power_of_two_pos n h =
    let (k, lt, e) = is_power_of_two_elim n h in rw e (one-le-pow k 2 (omega arith))

pub round_down_lem :
    (pa step : ℕ)
    → pa < 2 ^ 64
    → is_power_of_two step ≡ true
    → round_down pa step ≡ done (pa / step * step)
unfolding round_down
round_down_lem pa step h p =
    let (k, lt, e) = is_power_of_two_elim step p in rw (p) (rw e (ap done (mask_lem k pa lt h)))

pub round_up_lem :
    (pa step : ℕ)
    → pa + step < 2 ^ 64
    → is_power_of_two step ≡ true
    → round_up pa step ≡ done ((pa + step - 1) / step * step)
unfolding round_up
round_up_lem pa step h p =
    let (k, lt, e) = is_power_of_two_elim step p in
    rw (p, lt→ltb (pa + step) (2 ^ 64) h)
      (rw e (ap done (mask_lem k (pa + 2 ^ k - 1) lt (omega arith))))
