-- ===== src/Common/Bits.antt =====
-- The native `bit_and` with a mask, at variables and for every width.
use Prim.Native.Nat.{ℕ, zero, suc, ◌+◌, ◌-◌, ◌*◌, ◌/◌, ◌%◌, ◌^◌, ◌≤◌, ◌<◌, min, max}
use Prim.Native.Nat.{bit_and, bit_or, digits, bit_and-bitwise, bit_or-bitwise}
use mathlib.Core.Path.{◌≡◌, refl, ap}
use native.Mathlib.Nat.{
  pow-suc, one-le-pow, mod-eq-sub-div-mul, div-div-eq-div-mul, div-mul-le_self,
}
use native.Mathlib.Omega.{arith}

-- Any two amounts of fuel that are enough for the digits of `a` agree; `top` bounds the first.
enough :
    (z : ℕ → ℕ) (op : ℕ → ℕ → ℕ) (top a f g b : ℕ)
    → f ≤ top
    → a ≤ f
    → a ≤ g
    → digits z op f a b ≡ digits z op g a b
enough z op top zero zero zero b in_top lf lg = refl
enough z op top zero zero (suc g) b in_top lf lg = refl
enough z op top zero (suc f) zero b in_top lf lg = refl
enough z op top zero (suc f) (suc g) b in_top lf lg = refl
enough z op top (suc a) zero g b in_top lf lg = absurd (omega arith)
enough z op top (suc a) (suc f) zero b in_top lf lg = absurd (omega arith)
enough z op zero (suc a) (suc f) (suc g) b in_top lf lg = absurd (omega arith)
enough z op (suc top) (suc a) (suc f) (suc g) b in_top lf lg =
    ap (λ (t : ℕ). t * 2 + op (suc a % 2) (b % 2))
      (enough z op top (suc a / 2) f g (b / 2) (omega arith) (omega arith) (omega arith))

halved :
    (z : ℕ → ℕ) (op : ℕ → ℕ → ℕ) (a b : ℕ)
    → digits z op a (suc a / 2) (b / 2) ≡ digits z op (suc a / 2) (suc a / 2) (b / 2)
halved z op a b =
    enough z op a (suc a / 2) a (suc a / 2) (b / 2) (omega arith) (omega arith) (omega arith)

-- The lowest digit of a conjunction, and of a disjunction, split off.
lowest : (a b : ℕ) → bit_and a b ≡ min (a % 2) (b % 2) + 2 * bit_and (a / 2) (b / 2)
lowest zero b = simp bit_and-bitwise (omega arith)
lowest (suc a) b = simp bit_and-bitwise (omega (arith, halved (λ _. 0) min a b))

lowest_or : (a b : ℕ) → bit_or a b ≡ max (a % 2) (b % 2) + 2 * bit_or (a / 2) (b / 2)
lowest_or zero b = simp bit_or-bitwise (omega arith)
lowest_or (suc a) b = simp bit_or-bitwise (omega (arith, halved (λ y. y) max a b))

or_zero : (top a : ℕ) → a ≤ top → bit_or a 0 ≡ a
or_zero top zero h = refl
or_zero zero (suc a) h = absurd (omega arith)
or_zero (suc top) (suc a) h =
    ground (arith, lowest_or (suc a) 0, or_zero top (suc a / 2) (omega arith))

with_zero : (top a : ℕ) → a ≤ top → bit_and a 0 ≡ 0
with_zero top zero h = refl
with_zero zero (suc a) h = absurd (omega arith)
with_zero (suc top) (suc a) h =
    ground (arith, lowest (suc a) 0, with_zero top (suc a / 2) (omega arith))

double_pow : (q k : ℕ) → q * 2 ^ suc k ≡ 2 * (q * 2 ^ k)
double_pow q k = grind (arith, pow-suc 2 k)

-- A mask that is a multiple of `2 ^ k` looks at the digits from `k` on.
pub bit_and_high :
    (k q r w : ℕ) → r < 2 ^ k → bit_and (q * 2 ^ k + r) (w * 2 ^ k) ≡ bit_and q w * 2 ^ k
bit_and_high zero q r w fits = ground arith
bit_and_high (suc k) q r w fits = ground (
  arith,
  lowest (q * 2 ^ suc k + r) (w * 2 ^ suc k),
  double_pow q k,
  double_pow w k,
  double_pow (bit_and q w) k,
  pow-suc 2 k,
  bit_and_high k q (r / 2) w (omega arith),
)

-- The lowest digit of a remainder, split off.
split_mod : (a m : ℕ) → a % (2 * m) ≡ a % 2 + 2 * (a / 2 % m)
split_mod a m = grind (
  arith,
  mod-eq-sub-div-mul a (2 * m),
  mod-eq-sub-div-mul (a / 2) m,
  div-div-eq-div-mul a 2 m,
  div-mul-le_self (a / 2) m,
)

-- A mask of `k` low bits is the remainder by `2 ^ k`.
pub bit_and_mask : (k a : ℕ) → bit_and a (2 ^ k - 1) ≡ a % 2 ^ k
bit_and_mask zero a = rw (with_zero a a (omega arith)) (omega arith)
bit_and_mask (suc k) a =
    let mask_low : (2 ^ suc k - 1) % 2 ≡ 1 = omega (arith, pow-suc 2 k, one-le-pow k 2) in
    let mask_rest : (2 ^ suc k - 1) / 2 ≡ 2 ^ k - 1 = omega (arith, pow-suc 2 k) in
    let rest : bit_and (a / 2) (2 ^ k - 1) ≡ a / 2 % 2 ^ k = bit_and_mask k (a / 2) in
    let twice : 2 ^ suc k ≡ 2 * 2 ^ k = omega (arith, pow-suc 2 k) in
    rw (lowest a (2 ^ suc k - 1))
      (rw (mask_low, mask_rest, rest, twice) (omega (arith, split_mod a (2 ^ k))))

-- A multiple of `2 ^ k` and a number below it have no digit in common.
pub bit_or_low : (k q r : ℕ) → r < 2 ^ k → bit_or (q * 2 ^ k) r ≡ q * 2 ^ k + r
bit_or_low zero q r fits =
    let none : r ≡ 0 = omega arith in
    rw none (ground (arith, or_zero (q * 1) (q * 1) (omega arith)))
bit_or_low (suc k) q r fits = ground (
  arith,
  lowest_or (q * 2 ^ suc k) r,
  double_pow q k,
  bit_or_low k q (r / 2) (omega (arith, pow-suc 2 k)),
)

-- Numbers cut into the digits from `k` on and those below it are joined part by part.
pub bit_and_split :
    (k q r w z : ℕ)
    → r < 2 ^ k
    → z < 2 ^ k
    → bit_and (q * 2 ^ k + r) (w * 2 ^ k + z) ≡ bit_and q w * 2 ^ k + bit_and r z
bit_and_split zero q r w z fr fz =
    let r0 : r ≡ 0 = omega arith in let z0 : z ≡ 0 = omega arith in rw (r0, z0) (ground arith)
bit_and_split (suc k) q r w z fr fz = ground (
  arith,
  lowest (q * 2 ^ suc k + r) (w * 2 ^ suc k + z),
  lowest r z,
  double_pow q k,
  double_pow w k,
  double_pow (bit_and q w) k,
  pow-suc 2 k,
  bit_and_split k q (r / 2) w (z / 2) (omega arith) (omega arith),
)

pub bit_or_split :
    (k q r w z : ℕ)
    → r < 2 ^ k
    → z < 2 ^ k
    → bit_or (q * 2 ^ k + r) (w * 2 ^ k + z) ≡ bit_or q w * 2 ^ k + bit_or r z
bit_or_split zero q r w z fr fz =
    let r0 : r ≡ 0 = omega arith in let z0 : z ≡ 0 = omega arith in rw (r0, z0) (ground arith)
bit_or_split (suc k) q r w z fr fz = ground (
  arith,
  lowest_or (q * 2 ^ suc k + r) (w * 2 ^ suc k + z),
  lowest_or r z,
  double_pow q k,
  double_pow w k,
  double_pow (bit_or q w) k,
  pow-suc 2 k,
  bit_or_split k q (r / 2) w (z / 2) (omega arith) (omega arith),
)

pub bit_and_zero : (a : ℕ) → bit_and a 0 ≡ 0
bit_and_zero a = with_zero a a (omega arith)

pub bit_or_zero : (a : ℕ) → bit_or a 0 ≡ a
bit_or_zero a = or_zero a a (omega arith)
