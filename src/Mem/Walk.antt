-- ===== src/Mem/Walk.antt =====
-- port/src/mem.rs: the pages that `step_by_rounded` walks.
use r.Common.{
  ℕ, zero, suc, ◌+◌, ◌-◌, ◌*◌, ◌/◌, ◌^◌, ◌<◌, ◌≡◌, refl, ap, true, done, arith, List, [], ◌∷◌,
}
use r.Common.Word.{is_power_of_two}
use r.Mem.{PhysRange, steps, step_by, step_by_rounded}
use r.Mem.Align.{round_down_lem, round_up_lem, is_power_of_two_pos}
use native.Mathlib.Nat.{mul-sub, mul_comm, mul-add-div_right, div-eq_of_lt}

-- The addresses of the `n` pages from page number `q` on.
abbrev pub pages : ℕ → ℕ → ℕ → List ℕ
pages step q zero = []
pages step q (suc n) = q * step ∷ pages step (q + 1) n

abbrev pub first_page : PhysRange → ℕ → ℕ
first_page r step = r.start / step

-- The number of the first page past the range.
abbrev pub stop_page : PhysRange → ℕ → ℕ
stop_page r step = (r.end + step - 1) / step

steps-eq-pages : (n q step : ℕ) → steps n (q * step) step ≡ pages step q n
unfolding steps
steps-eq-pages zero q step = refl
steps-eq-pages (suc n) q step =
    let e : q * step + step ≡ (q + 1) * step = grind arith in
    ap (λ t. q * step ∷ t) (rw e (steps-eq-pages n (q + 1) step))

count_lem : (a b step : ℕ) → 0 < step → (a * step - b * step + step - 1) / step ≡ a - b
count_lem a b step h =
    let e : a * step - b * step + step - 1 ≡ (a - b) * step + (step - 1) =
      omega (arith, mul-sub step a b, mul_comm step (a - b), mul_comm step a, mul_comm step b) in
    rw e
      (rw (mul-add-div_right h, div-eq_of_lt {n = step - 1} {m = step} (omega arith)) (omega arith))

-- For a power-of-two step, `step_by_rounded` does not panic and yields, in order, every page that the
-- rounded range covers.
pub step_by_rounded-eq-pages :
    (r : PhysRange) (step : ℕ)
    → is_power_of_two step ≡ true
    → r.start < 2 ^ 64
    → r.end + step < 2 ^ 64
    → step_by_rounded r step
      ≡ done (pages step (first_page r step) (stop_page r step - first_page r step))
unfolding step_by_rounded step_by
step_by_rounded-eq-pages r step p hs he =
    rw (round_down_lem r.start step hs p, round_up_lem r.end step he p)
      (ap done (
        rw (
          steps-eq-pages,
          count_lem (stop_page r step) (first_page r step) step (is_power_of_two_pos step p),
        )))
