-- ===== src/Aarch64/Vm/Map.antt =====
-- aarch64/src/vm.rs: `map_to` on a tree of tables.
use r.Common.{
  ℕ, ◌<◌, ◌≡◌, ◌≢◌, ◌⊎◌, refl, ap, ◌∙◌, ◌&&◌, ◌==◌, Option, none, some, inl, inr, Bool-cases, arith,
  done, ok, err,
}
use r.Aarch64.Vm.{
  PageSize, page_4k, page_2m, page_1g, Level, level0, level1, level2, level3, next_level, va_index,
}
use r.Aarch64.Vm.Entry.{EntryOps, IsLawful}
use r.Aarch64.Vm.Table.{
  Machine, TablePtr, window, PageTableError, Outcome, ◌>>?◌, next_mut, dest_entry, write,
}
use r.Aarch64.Vm.Walk.{walk, Edge, IsTree, IsRecursive, IsMmu, ptr_of, target}
use r.Aarch64.Vm.Extend.{Extends-refl, Extends-trans}
use r.Aarch64.Vm.Next.{Grown, Stopped, next_level-depth, next_mut_lem}

-- The level whose entries map a page of a size.
abbrev pub leaf : PageSize → Level
leaf page_4k = level3
leaf page_2m = level2
leaf page_1g = level1

module _ {E : Type 0} (ops : EntryOps E) where
  -- An entry is written where it is no part of the tree's upper levels.
  module _ {s : Machine E} {self : ℕ} {rank : ℕ → ℕ} (tree : IsTree ops s self rank) (p index : ℕ)
      (e : E) (harmless : rank p < 3 → (rank p ≡ 0 → index ≢ 511) → target ops e ≡ none) where
    old-Edge : (x i t : ℕ) → Edge ops (write s p index e) rank x i t → Edge ops s rank x i t
    old-Edge x i t ed = elim (Bool-cases (x == p && i == index)) [
      | inr b ↦ record {
        in_use = ed.in_use;
        inner = ed.inner;
        not_last = ed.not_last;
        points = rw b at ed.points;
      }
      | inl b ↦
          let same : (x ≡ p) × (i ≡ index) = ground (arith, b) in
          let gone : target ops e ≡ none =
            harmless (rw same.0 at ed.inner)
              (λ z y. ed.not_last (ap rank same.0 ∙ z) (same.1 ∙ y)) in
          let points : target ops e ≡ some t = rw b at ed.points in absurd (cc (points, gone))
    ]

    pub write-IsTree : IsTree ops (write s p index e) self rank
    write-IsTree = record {
      ready = tree.ready;
      page_size = tree.page_size;
      root_used = tree.root_used;
      self_used = tree.self_used;
      root_rank = tree.root_rank;
      self_rank = tree.self_rank;
      down = λ x i t ed. tree.down x i t (old-Edge x i t ed);
      unique =
          λ x i x' i' t ed ed'. tree.unique x i x' i' t (old-Edge x i t ed) (old-Edge x' i' t ed');
    }

  module _ (lawful : IsLawful ops) {resolve : Machine E → ℕ → Option ℕ} (mmu : IsMmu ops resolve)
      (s : Machine E) (self va : ℕ) (rank : ℕ → ℕ) (low : va_index va level0 ≢ 511) where
    -- A part of the walk that has come to the table of a level, or has ended in an error.
    Reached : Outcome ops resolve TablePtr → Level → Type 0
    Reached c level =
        ((s' : Machine E) × (rank' : ℕ → ℕ) × (e : PageTableError) × (c ≡ done (s', err e))
          × Grown ops s s' self rank rank'
          × Stopped ops s' self va level e)
        ⊎ ((s' : Machine E) × (rank' : ℕ → ℕ) × (t : ℕ) × (c
              ≡ done (s', ok (ptr_of ops self va level)))
            × (walk ops s' self va level ≡ some t)
            × Grown ops s s' self rank rank')

    onward :
        (c : Outcome ops resolve TablePtr) (level level' : Level)
        → next_level level ≡ some level'
        → Reached c level
        → Reached (◌>>?◌ ops resolve c (λ s1 t. next_mut ops resolve s1 t level va)) level'
    unfolding Reached
    onward c level level' n (inl (s', rank', e, eq, g, x)) =
        let deeper = next_level-depth ops level level' n in
        let l = x.above in
        inl (
          s',
          rank',
          e,
          rw eq refl,
          g,
          record {
            level = x.level;
            page = x.page;
            above = omega arith;
            found = x.found;
            refused = x.refused;
          },
        )
    onward c level level' n (inr (s', rank', t, eq, w, g)) =
        elim (next_mut_lem ops lawful mmu g.tree g.rec va low level level' n t w) [
          | inl (e, f, why) ↦
              let deeper = next_level-depth ops level level' n in
              inl (
                s',
                rank',
                e,
                rw eq (rw f refl),
                g,
                record { level = level; page = t; above = omega arith; found = w; refused = why },
              )
          | inr (s'', rank'', t', f, w', g') ↦ inr (
            s'',
            rank'',
            t',
            rw eq (rw f refl),
            w',
            record {
              tree = g'.tree;
              rec = g'.rec;
              extends = Extends-trans ops g.extends g'.extends;
            },
          )
        ]

    start :
        IsTree ops s self rank
        → IsRecursive ops s self
        → Reached (done (s, ok (window self))) level0
    unfolding Reached
    start tree rec = inr (
      s,
      rank,
      self,
      refl,
      refl,
      record { tree = tree; rec = rec; extends = Extends-refl ops s rank },
    )

    -- The place of the entry is in the table of the leaf's level, which is there or is made.
    pub dest_entry_lem :
        IsTree ops s self rank
        → IsRecursive ops s self
        → (size : PageSize)
        → ((s' : Machine E) × (rank' : ℕ → ℕ) × (e : PageTableError) × (dest_entry ops resolve s
                self va size
              ≡ done (s', err e))
            × Grown ops s s' self rank rank'
            × Stopped ops s' self va (leaf size) e)
          ⊎ ((s' : Machine E) × (rank' : ℕ → ℕ) × (t : ℕ) × (dest_entry ops resolve s self va size
                ≡ done (s', ok (ptr_of ops self va (leaf size), va_index va (leaf size))))
              × (walk ops s' self va (leaf size) ≡ some t)
              × Grown ops s s' self rank rank')
    unfolding dest_entry Reached next_level
    dest_entry_lem tree rec page_1g = elim (onward _ level0 level1 refl (start tree rec)) [
      | inl (s', rank', e, eq, g, x) ↦ inl (s', rank', e, rw eq refl, g, x)
      | inr (s', rank', t, eq, w, g) ↦ inr (s', rank', t, rw eq refl, w, g)
    ]
    dest_entry_lem tree rec page_2m =
        elim (onward _ level1 level2 refl (onward _ level0 level1 refl (start tree rec))) [
          | inl (s', rank', e, eq, g, x) ↦ inl (s', rank', e, rw eq refl, g, x)
          | inr (s', rank', t, eq, w, g) ↦ inr (s', rank', t, rw eq refl, w, g)
        ]
    dest_entry_lem tree rec page_4k =
        elim (onward _ level2 level3 refl
          (onward _ level1 level2 refl (onward _ level0 level1 refl (start tree rec)))) [
            | inl (s', rank', e, eq, g, x) ↦ inl (s', rank', e, rw eq refl, g, x)
            | inr (s', rank', t, eq, w, g) ↦ inr (s', rank', t, rw eq refl, w, g)
          ]
