-- ===== src/Common/Scale.antt =====
-- Quotients and remainders of multiples, as they arise between addresses and page numbers.
use r.Common.{
  ℕ, ◌+◌, ◌-◌, ◌*◌, ◌/◌, ◌%◌, ◌≤◌, ◌<◌, ◌≡◌, refl, ap, ◌∙◌, arith, ltb, lt→ltb, ltb-false, dec_lt,
  if◌then◌else◌,
}
use native.Mathlib.Nat.{
  mul-div-mul_right, mul_assoc, mul_comm, mul-sub, mod-eq-sub-div-mul, div-eq_of_lt,
  mul-add-div_right, mul-add-mod_self_right, mod-eq_of_lt, div-lt_iff_lt-mul, mul-div_cancel,
  mul-le-mul_right, le-div_iff_mul-le, div-mul-le_self, le_trans,
}

pub sub-mul : (a b s : ℕ) → (a - b) * s ≡ a * s - b * s
sub-mul a b s = omega (arith, mul_comm (a - b) s, mul-sub s a b, mul_comm s a, mul_comm s b)

module _ (s : ℕ) (pos : 0 < s) where
  pub div-mul_right : (p m : ℕ) → p * s / (m * s) ≡ p / m
  div-mul_right p m = mul-div-mul_right p m pos

  pub mod-mul_right : (p m : ℕ) → p * s % (m * s) ≡ p % m * s
  mod-mul_right p m = omega (
    arith,
    mod-eq-sub-div-mul (p * s) (m * s),
    ap (λ (t : ℕ). t * (m * s)) (div-mul_right p m),
    mul_assoc (p / m) m s,
    sub-mul p (p / m * m) s,
    ap (λ (t : ℕ). t * s) (mod-eq-sub-div-mul p m),
  )

  pub div-mul_self : (p : ℕ) → p * s / s ≡ p
  div-mul_self p = mul-div_cancel p pos

  pub div_of_split : (n q r : ℕ) → r < s → n ≡ q * s + r → n / s ≡ q
  div_of_split n q r h e = rw e (rw (mul-add-div_right pos, div-eq_of_lt h) (omega arith))

  pub mod_of_split : (n q r : ℕ) → r < s → n ≡ q * s + r → n % s ≡ r
  mod_of_split n q r h e = rw e (mul-add-mod_self_right q s r ∙ mod-eq_of_lt h)

  pub div-le-div : (a b : ℕ) → a ≤ b → a / s ≤ b / s
  div-le-div a b h = (le-div_iff_mul-le pos).1 (le_trans (div-mul-le_self a s) h)

  -- The multiples of `s` keep and reflect the order.
  pub lt_of_mul : (a b : ℕ) → a * s < b * s → a < b
  lt_of_mul a b h = grind arith

  pub mul-lt : (a b : ℕ) → a < b → a * s < b * s
  mul-lt a b h = grind arith

  pub le_of_mul : (a b : ℕ) → a * s ≤ b * s → a ≤ b
  le_of_mul a b h = grind arith

  -- A test between multiples is the test between the numbers.
  pub ltb-mul : (a b : ℕ) → ltb (a * s) (b * s) ≡ ltb a b
  ltb-mul a b = elim (dec_lt a b) [
    | yes h ↦ rw (lt→ltb (a * s) (b * s) (mul-lt a b h), lt→ltb a b h) refl
    | no h ↦
        let le : b * s ≤ a * s = mul-le-mul_right s (omega arith) in
        rw (ltb-false (a * s) (b * s) le, ltb-false a b (omega arith)) refl
  ]

  pub later-mul :
      (a b : ℕ) → (if ltb (a * s) (b * s) then b * s else a * s) ≡ (if ltb a b then b else a) * s
  later-mul a b = rw (ltb-mul a b) (ground arith)

  pub ceil-mul_self : (p : ℕ) → (p * s + s - 1) / s ≡ p
  ceil-mul_self p =
      let e : p * s + s - 1 ≡ p * s + (s - 1) = omega arith in
      rw (e, mul-add-div_right pos, div-eq_of_lt {n = s - 1} {m = s} (omega arith)) (omega arith)

pub mul-le : (a b s : ℕ) → a ≤ b → a * s ≤ b * s
mul-le a b s h = grind arith

-- A number is put together again from its quotients by 8 and by `8 * size`.
pub bits_of : (n : ℕ) → n / 8 * 8 + n % 8 ≡ n
bits_of n = omega arith

pub div-bound : (p num w : ℕ) → 0 < w → p < num * w → p / w < num
div-bound p num w pos h = (div-lt_iff_lt-mul pos).1 h

pub mul-add-one : (q s : ℕ) → (q + 1) * s ≡ q * s + s
mul-add-one q s = grind arith
