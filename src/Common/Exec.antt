-- ===== src/Common/Exec.antt =====
-- What a call of Rust code does: it returns, it panics, or its loop does not end within the rounds
-- that the model gives it. `Result` is the value that the code itself hands back.
use mathlib.Core.Path.{◌≡◌, refl, ap, ◌∙◌}
use mathlib.Core.List.{List}
use mathlib.Core.Option.{Option, none, some}
use Prim.Native.Nat.{ℕ, zero, suc, ◌<◌}
use mathlib.Core.Logic.{◌≢◌}
use native.Mathlib.Omega.{arith}
use r.Common.Lists.{get_elem?}

pub data Run {ℓ} (A : Type ℓ) : Type ℓ where
  done : A → Run A
  panic hang : Run A

infixl 5 ◌>>=◌ ◌>>◌
abbrev pub ◌>>=◌ {ℓ κ} : {A : Type ℓ} {B : Type κ} → Run A → (A → Run B) → Run B
done a >>= f = f a
panic >>= f = panic
hang >>= f = hang

abbrev pub ◌>>◌ {ℓ} : {B : Type ℓ} → Run (Unit {0}) → Run B → Run B
m >> k = m >>= λ _. k

pub data Result {ℓ κ} (E : Type ℓ) (A : Type κ) : Type (ℓ ⊔ κ) where
  ok : A → Result E A
  err : E → Result E A

-- `expect` and `unwrap`, and an index expression: the missing case is a panic.
abbrev pub expect {ℓ} : {A : Type ℓ} → Option A → Run A
expect none = panic
expect (some a) = done a

abbrev pub index {ℓ} : {A : Type ℓ} → List A → ℕ → Run A
index xs i = expect (get_elem? xs i)

-- `Option::and_then`, and `unwrap_or`.
abbrev pub and_then {ℓ κ} : {A : Type ℓ} {B : Type κ} → Option A → (A → Option B) → Option B
and_then none f = none
and_then (some a) f = f a

abbrev pub unwrap_or {ℓ} : {A : Type ℓ} → Option A → A → A
unwrap_or none d = d
unwrap_or (some a) d = a

done-injective {ℓ} : {A : Type ℓ} {a b : A} → done a ≡ done b → a ≡ b
done-injective e = cc e

-- A loop by fuel: its body either goes round again with a new state, or stops.
pub data Step {ℓ κ} (S : Type ℓ) (A : Type κ) : Type (ℓ ⊔ κ) where
  again : S → Step S A
  stop : Run A → Step S A

pub again-injective {ℓ κ} :
    {S : Type ℓ} {A : Type κ} {s s' : S}
    → (let again' : S → Step S A = again in again' s ≡ again' s')
    → s ≡ s'
again-injective e = cc e

-- A call inside a round: where it does not return, neither does the loop.
abbrev pub call {ℓ κ μ} : {B : Type ℓ} {S : Type κ} {A : Type μ} → Run B → (B → Step S A) → Step S A
call (done b) k = k b
call panic k = stop panic
call hang k = stop hang

module _ {ℓ κ} {S : Type ℓ} {A : Type κ} (body : S → Step S A) where
  unfoldable pub loop : ℕ → S → Run A
  loop zero s = hang
  loop (suc fuel) s = elim (body s) [ again s' ↦ loop fuel s' | stop r ↦ r ]

  -- A body that lowers a measure at each round, and never itself hangs, ends in fuel above it.
  pub loop-ne-hang :
      (measure : S → ℕ)
      → ((s s' : S) → body s ≡ again s' → measure s' < measure s)
      → ((s : S) → body s ≢ stop hang)
      → (fuel : ℕ) (s : S) → measure s < fuel
      → loop fuel s ≢ hang
  unfolding loop
  loop-ne-hang measure lower ends zero s h e = absurd (omega arith)
  loop-ne-hang measure lower ends (suc fuel) s h e =
      split (loop-ne-hang measure lower ends fuel) (body s) refl e
    where
      split :
          ((s' : S) → measure s' < fuel → loop fuel s' ≢ hang)
          → (b : Step S A) → body s ≡ b
          → elim b [ again s' ↦ loop fuel s' | stop r ↦ r ] ≡ hang
          → ⊥
      split ih (again s') q e' = ih s' (omega (arith, lower s s' q)) e'
      split ih (stop r) q e' = ends s (q ∙ ap stop e')

  module _ (measure : S → ℕ) (lower : (s s' : S) → body s ≡ again s' → measure s' < measure s) where
    -- Any two amounts of fuel above the measure agree.
    loop-fuel : (f g : ℕ) (s : S) → measure s < f → measure s < g → loop f s ≡ loop g s
    unfolding loop
    loop-fuel zero g s lf lg = absurd (omega arith)
    loop-fuel (suc f) zero s lf lg = absurd (omega arith)
    loop-fuel (suc f) (suc g) s lf lg = split (loop-fuel f g) (body s) refl
      where
        split :
            ((s' : S) → measure s' < f → measure s' < g → loop f s' ≡ loop g s')
            → (b : Step S A) → body s ≡ b
            → elim b [ again s' ↦ loop f s' | stop r ↦ r ]
              ≡ elim b [ again s' ↦ loop g s' | stop r ↦ r ]
        split ih (again s') q = ih s' (omega (arith, lower s s' q)) (omega (arith, lower s s' q))
        split ih (stop r) q = refl

    -- With fuel above every measure that occurs, a loop is its first round and the same loop.
    pub loop-again :
        (fuel : ℕ) (s s' : S) → measure s < fuel → body s ≡ again s' → loop fuel s ≡ loop fuel s'
    unfolding loop
    loop-again zero s s' h e = absurd (omega arith)
    loop-again (suc fuel) s s' h e =
        ap (λ b. elim b [ again s' ↦ loop fuel s' | stop r ↦ r ]) e
        ∙ loop-fuel fuel (suc fuel) s' (omega (arith, lower s s' e)) (omega (arith, lower s s' e))

  pub loop-stop : (fuel : ℕ) (s : S) (r : Run A) → body s ≡ stop r → loop (suc fuel) s ≡ r
  unfolding loop
  loop-stop fuel s r e = ap (λ b. elim b [ again s' ↦ loop fuel s' | stop r ↦ r ]) e
