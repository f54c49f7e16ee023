-- ===== src/Aarch64/Vm/Extend.antt =====
-- aarch64/src/vm.rs: tables that grow: what a walk finds stays, and stays on its level.
use r.Common.{
  ℕ, suc, ◌<◌, ◌≤◌, ◌≡◌, ◌≢◌, refl, sym, ap, ◌∙◌, true, some, inl, inr, Bool-cases, subst, arith,
}
use r.Aarch64.Vm.{Level, level0, level1, level2, level3, next_level, depth, va_index}
use r.Aarch64.Vm.Entry.{EntryOps, valid, flag}
use r.Aarch64.Vm.Table.{Machine}
use r.Aarch64.Vm.Walk.{target, child, walk, IsUsed, Edge, IsTree, IsRecursive, and_then-some}
use mathlib.Core.Option.{some-injective}

depth-le : (level : Level) → depth level ≤ 3
unfolding depth
depth-le level0 = omega arith
depth-le level1 = omega arith
depth-le level2 = omega arith
depth-le level3 = omega arith

module _ {E : Type 0} (ops : EntryOps E) where
  -- The pages in use stay in use and keep their level and their valid entries.
  pub record Extends (s s' : Machine E) (rank rank' : ℕ → ℕ) : Type 0 where
    pub same_root : s'.root ≡ s.root
    pub used_kept : (p : ℕ) → IsUsed ops s p → IsUsed ops s' p
    pub rank_kept : (p : ℕ) → IsUsed ops s p → rank' p ≡ rank p
    pub entry_kept :
        (p i : ℕ)
        → IsUsed ops s p
        → flag ops valid (s.entries p i) ≡ true
        → s'.entries p i ≡ s.entries p i

  pub target-valid : (e : E) (t : ℕ) → target ops e ≡ some t → flag ops valid e ≡ true
  target-valid e t h = elim (Bool-cases (flag ops valid e)) [
    | inl b ↦ b
    | inr b ↦ absurd (cc (rw b at h))
  ]

  pub child_kept :
      {s s' : Machine E} {rank rank' : ℕ → ℕ}
      → Extends s s' rank rank'
      → (p i t : ℕ) → IsUsed ops s p
      → child ops s p i ≡ some t
      → child ops s' p i ≡ some t
  child_kept {s} x p i t u h =
      ap (target ops) (x.entry_kept p i u (target-valid (s.entries p i) t h)) ∙ h

  pub Extends-refl : (s : Machine E) (rank : ℕ → ℕ) → Extends s s rank rank
  Extends-refl s rank = record {
    same_root = refl;
    used_kept = λ p u. u;
    rank_kept = λ p u. refl;
    entry_kept = λ p i u h. refl;
  }

  pub Extends-trans :
      {s s' s'' : Machine E} {rank rank' rank'' : ℕ → ℕ}
      → Extends s s' rank rank'
      → Extends s' s'' rank' rank''
      → Extends s s'' rank rank''
  Extends-trans x y = record {
    same_root = y.same_root ∙ x.same_root;
    used_kept = λ p u. y.used_kept p (x.used_kept p u);
    rank_kept = λ p u. y.rank_kept p (x.used_kept p u) ∙ x.rank_kept p u;
    entry_kept = λ p i u h.
        y.entry_kept p i (x.used_kept p u) (ap (flag ops valid) (x.entry_kept p i u h) ∙ h)
        ∙ x.entry_kept p i u h;
  }

  module _ {s : Machine E} {self : ℕ} {rank : ℕ → ℕ} (tree : IsTree ops s self rank) (va : ℕ)
      (low : va_index va level0 ≢ 511) where
    abbrev Ranked : Level → Type 0
    Ranked level =
        (p : ℕ) → walk ops s self va level ≡ some p → (IsUsed ops s p) × (rank p ≡ depth level)

    -- The entries that a walk reads are entries of the tree.
    pub edge1 :
        (t : ℕ)
        → child ops s self (va_index va level0) ≡ some t
        → Edge ops s rank self (va_index va level0) t
    edge1 t h = record {
      in_use = tree.self_used;
      inner = let r = tree.self_rank in omega arith;
      not_last = λ _. low;
      points = h;
    }

    pub edge :
        (p i t : ℕ)
        → IsUsed ops s p
        → 0 < rank p
        → rank p < 3
        → child ops s p i ≡ some t
        → Edge ops s rank p i t
    edge p i t u lo hi h = record {
      in_use = u;
      inner = hi;
      not_last = λ e. absurd (omega arith);
      points = h;
    }

    rank0 : Ranked level0
    unfolding depth
    rank0 p h =
        let e = some-injective _ _ h in
        (subst (IsUsed ops s) e tree.self_used, ap rank (sym e) ∙ tree.self_rank)

    rank1 : Ranked level1
    unfolding depth
    rank1 p h =
        let zero_rank = tree.self_rank in
        let (u, r) = tree.down self (va_index va level0) p (edge1 p h) in (u, r ∙ ap suc zero_rank)

    rank2 : Ranked level2
    unfolding depth
    rank2 p h =
        let (t1, h1, h2) =
          and_then-some (child ops s self (va_index va level0))
            (λ t1. child ops s t1 (va_index va level1)) p h in
        let (u1, r1) = rank1 t1 h1 in
        let (u, r) =
          tree.down t1 (va_index va level1) p
            (edge t1 (va_index va level1) p u1 (omega arith) (omega arith) h2) in
        (u, r ∙ ap suc r1)

    rank3 : Ranked level3
    unfolding depth
    rank3 p h =
        let (t2, h12, h3) =
          and_then-some (walk ops s self va level2) (λ t2. child ops s t2 (va_index va level2)) p
            h in
        let (u2, r2) = rank2 t2 h12 in
        let (u, r) =
          tree.down t2 (va_index va level2) p
            (edge t2 (va_index va level2) p u2 (omega arith) (omega arith) h3) in
        (u, r ∙ ap suc r2)

    -- The table of a level that a walk finds has that level and is in use.
    pub walk_rank :
        (level : Level) (p : ℕ)
        → walk ops s self va level ≡ some p
        → (IsUsed ops s p) × (rank p ≡ depth level)
    walk_rank level0 p h = rank0 p h
    walk_rank level1 p h = rank1 p h
    walk_rank level2 p h = rank2 p h
    walk_rank level3 p h = rank3 p h

    -- A walk down to a level stays where the entries of the tables above that level stay.
    module _ (s' : Machine E) (bound : ℕ)
        (keep : (x i y : ℕ)
          → IsUsed ops s x
          → rank x < bound
          → (rank x ≡ 0 → i ≢ 511)
          → child ops s x i ≡ some y
          → child ops s' x i ≡ some y) where
      abbrev Kept : Level → Type 0
      Kept level =
          (p : ℕ)
          → depth level ≤ bound
          → walk ops s self va level ≡ some p
          → walk ops s' self va level ≡ some p

      kept1 : Kept level1
      unfolding depth
      kept1 p d h =
          let r = tree.self_rank in
          keep self (va_index va level0) p tree.self_used (omega arith) (λ _. low) h

      kept2 : Kept level2
      unfolding depth
      kept2 p d h =
          let (t1, h1, h2) =
            and_then-some (child ops s self (va_index va level0))
              (λ t1. child ops s t1 (va_index va level1)) p h in
          let (u, r) = rank1 t1 h1 in
          rw (kept1 t1 (omega arith) h1)
            (keep t1 (va_index va level1) p u (omega arith) (λ e. absurd (omega arith)) h2)

      kept3 : Kept level3
      unfolding depth
      kept3 p d h =
          let (t2, h12, h3) =
            and_then-some (walk ops s self va level2) (λ t2. child ops s t2 (va_index va level2)) p
              h in
          let (u, r) = rank2 t2 h12 in
          rw (kept2 t2 (omega arith) h12)
            (keep t2 (va_index va level2) p u (omega arith) (λ e. absurd (omega arith)) h3)

      pub walk_unchanged : (level : Level) → Kept level
      walk_unchanged level0 p d h = h
      walk_unchanged level1 p d h = kept1 p d h
      walk_unchanged level2 p d h = kept2 p d h
      walk_unchanged level3 p d h = kept3 p d h

    pub walk_kept :
        {s' : Machine E} {rank' : ℕ → ℕ}
        → Extends s s' rank rank'
        → (level : Level) (p : ℕ) → walk ops s self va level ≡ some p
        → walk ops s' self va level ≡ some p
    walk_kept {s'} x level p h =
        walk_unchanged s' 3 (λ y i z u r l c. child_kept x y i z u c) level p (depth-le level) h

  pub walk-next :
      (s : Machine E) (self va : ℕ) (level level' : Level) (p t : ℕ)
      → next_level level ≡ some level'
      → walk ops s self va level ≡ some p
      → child ops s p (va_index va level) ≡ some t
      → walk ops s self va level' ≡ some t
  unfolding next_level
  walk-next s self va level0 level1 p t n h c = rw (some-injective _ _ h) c
  walk-next s self va level1 level2 p t n h c = rw h c
  walk-next s self va level2 level3 p t n h c = rw h c
  walk-next s self va level0 level0 p t n h c = absurd (cc n)
  walk-next s self va level0 level2 p t n h c = absurd (cc n)
  walk-next s self va level0 level3 p t n h c = absurd (cc n)
  walk-next s self va level1 level0 p t n h c = absurd (cc n)
  walk-next s self va level1 level1 p t n h c = absurd (cc n)
  walk-next s self va level1 level3 p t n h c = absurd (cc n)
  walk-next s self va level2 level0 p t n h c = absurd (cc n)
  walk-next s self va level2 level1 p t n h c = absurd (cc n)
  walk-next s self va level2 level2 p t n h c = absurd (cc n)
  walk-next s self va level3 level' p t n h c = absurd (cc n)

  pub IsRecursive-kept :
      {s s' : Machine E} {self : ℕ} {rank rank' : ℕ → ℕ}
      → IsTree ops s self rank
      → Extends s s' rank rank'
      → IsRecursive ops s self
      → IsRecursive ops s' self
  IsRecursive-kept {s} {s'} {self} tree x rec = record {
    at_root = rw x.same_root (child_kept x s.root 511 self tree.root_used rec.at_root);
    at_self = child_kept x self 511 self tree.self_used rec.at_self;
  }
