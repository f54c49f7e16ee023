-- ===== src/Allocator/Steps.antt =====
-- port/src/allocator.rs: a call in the allocator's monad, at a known result.
use r.Common.{ℕ, ◌≡◌, ap, done, panic, hang, none, some}
use r.Allocator.Store.{QuickFit, Header, M, ◌>>=◌, load}

-- A call, and what follows it.
pub step :
    {A B : Type 0} (m : M A) (f : A → M B) (q : QuickFit) {a : A} {q' : QuickFit}
    → m q ≡ done (a, q')
    → (m >>= f) q ≡ f a q'
step m f q e = ap (λ r. elim r [ done (a, q') ↦ f a q' | panic ↦ panic | hang ↦ hang ]) e

pub load_lem : (p : ℕ) {h : Header} (q : QuickFit) → q.headers p ≡ some h → load p q ≡ done (h, q)
unfolding load
load_lem p q e = ap (λ o. elim o [ none ↦ panic | some h ↦ done (h, q) ]) e
