-- ===== src/Aarch64/Vm/Install.antt =====
-- aarch64/src/vm.rs: what `map_to` leaves: the entry is where the walk for its address ends.
use r.Common.{
  ℕ, ◌/◌, ◌^◌, ◌<◌, ◌≡◌, ◌≢◌, ◌⊎◌, refl, sym, ap, ◌∙◌, true, false, ◌&&◌, ◌==◌, Option, none, some,
  inl, inr, Bool-cases, arith, done, ok, err, ==_refl, ==_ne, ℕ_discrete, subst,
}
use r.Mem.{page_size_4k}
use r.Aarch64.Vm.{PageSize, page_4k, page_2m, page_1g, level0, depth, va_index}
use r.Aarch64.Vm.Entry.{EntryOps, IsLawful, valid, page_or_table, flag, table_entry}
use r.Aarch64.Vm.Table.{Machine, PageTableError, map_to, leaf_entry, write}
use r.Aarch64.Vm.Walk.{
  child, walk, IsUsed, IsTree, IsRecursive, IsMmu, page_of-ptr_of, table_entry-target, target,
}
use r.Aarch64.Vm.Extend.{target-valid, walk_rank, walk_unchanged}
use r.Aarch64.Vm.Next.{Grown, Stopped}
use r.Aarch64.Vm.Map.{leaf, write-IsTree, dest_entry_lem}

module _ {E : Type 0} (ops : EntryOps E) where
  -- The tables `s'` map `va` by the entry, in the table `t`, and all else is as it was in `s`.
  pub record Mapped (s s' : Machine E) (self va : ℕ) (rank rank' : ℕ → ℕ) (size : PageSize)
      (entry : E) (t : ℕ) : Type 0 where
    pub tree : IsTree ops s' self rank'
    pub at_self : child ops s' self 511 ≡ some self
    pub found : walk ops s' self va (leaf size) ≡ some t
    pub written : s'.entries t (va_index va (leaf size)) ≡ leaf_entry ops entry size
    pub same_root : s'.root ≡ s.root
    pub restored : s'.entries s.root 511 ≡ s.entries s.root 511
    pub used_kept : (p : ℕ) → IsUsed ops s p → IsUsed ops s' p
    pub rank_kept : (p : ℕ) → IsUsed ops s p → rank' p ≡ rank p
    pub kept :
        (p i : ℕ)
        → IsUsed ops s p
        → flag ops valid (s.entries p i) ≡ true
        → ¬ ((p ≡ t) × (i ≡ va_index va (leaf size)))
        → s'.entries p i ≡ s.entries p i

  leaf_rank : (size : PageSize) → 0 < depth (leaf size)
  unfolding depth
  leaf_rank page_4k = omega arith
  leaf_rank page_2m = omega arith
  leaf_rank page_1g = omega arith

  harmless :
      (size : PageSize) (entry : E) (r : ℕ)
      → (size ≢ page_4k → flag ops page_or_table entry ≡ false)
      → r ≡ depth (leaf size)
      → r < 3
      → target ops (leaf_entry ops entry size) ≡ none
  unfolding depth
  harmless page_4k entry r h e l = absurd (omega arith)
  harmless page_2m entry r h e l = ground (arith, h (λ x. cc x))
  harmless page_1g entry r h e l = ground (arith, h (λ x. cc x))

  module _ (lawful : IsLawful ops) {resolve : Machine E → ℕ → Option ℕ} (mmu : IsMmu ops resolve)
      {s : Machine E} {self : ℕ} {rank : ℕ → ℕ} (tree : IsTree ops s self rank)
      (small : self < 2 ^ 48) (at_self : child ops s self 511 ≡ some self) where
    abbrev redirected : Machine E
    redirected = write s s.root 511 (table_entry ops self)

    to_self : target ops (table_entry ops self) ≡ some self
    to_self =
        let e = tree.self_used.0 in
        subst (λ n. target ops (table_entry ops n) ≡ some n) e
          (table_entry-target ops lawful (self / page_size_4k) (omega arith))

    redirected-IsTree : IsTree ops redirected self rank
    redirected-IsTree = write-IsTree ops tree s.root 511 _ (λ r l. absurd (l tree.root_rank refl))

    redirected-IsRecursive : IsRecursive ops redirected self
    redirected-IsRecursive = record {
      at_root = rw (==_refl s.root) to_self;
      at_self = elim (ℕ_discrete self s.root) [
        | yes e ↦ rw (ap (λ n. n == s.root) e ∙ ==_refl s.root) to_self
        | no ne ↦ rw (==_ne self s.root ne) at_self
      ];
    }

    module _ (size : PageSize) (entry : E) (va : ℕ) {s' : Machine E} {rank' : ℕ → ℕ} {t : ℕ}
        (low : va_index va level0 ≢ 511)
        (leafy : size ≢ page_4k → flag ops page_or_table entry ≡ false)
        (w : walk ops s' self va (leaf size) ≡ some t)
        (g : Grown ops redirected s' self rank rank') where
      abbrev index : ℕ
      index = va_index va (leaf size)

      abbrev installed : Machine E
      installed =
          let at_leaf = write s' t index (leaf_entry ops entry size) in
          write at_leaf s'.root 511 (s.entries s.root 511)

      at_t : (IsUsed ops s' t) × (rank' t ≡ depth (leaf size))
      at_t = walk_rank ops g.tree va low (leaf size) t w

      not_root : t ≢ s'.root
      not_root e =
          let r = at_t.1 in
          let z = g.tree.root_rank in
          let same : rank' t ≡ rank' s'.root = ap rank' e in absurd (omega (arith, leaf_rank size))

      not_self : t ≢ self
      not_self e =
          let r = at_t.1 in
          let z = g.tree.self_rank in
          let same : rank' t ≡ rank' self = ap rank' e in absurd (omega (arith, leaf_rank size))

      -- Every other entry is that of the tables before the two writes.
      untouched :
          (x i : ℕ)
          → (rank' x < depth (leaf size))
          → (rank' x ≡ 0 → i ≢ 511)
          → installed.entries x i ≡ s'.entries x i
      untouched x i r l =
          let r' = at_t.1 in
          let not_t : x ≢ t =
            λ e. let same : rank' x ≡ rank' t = ap rank' e in absurd (omega arith) in
          elim (Bool-cases (x == s'.root && i == 511)) [
            | inr b ↦ rw (b, ==_ne x t not_t) refl
            | inl b ↦
                let same : (x ≡ s'.root) × (i ≡ 511) = ground (arith, b) in
                absurd (l (ap rank' same.0 ∙ g.tree.root_rank) same.1)
          ]

      installed-IsTree : IsTree ops installed self rank'
      installed-IsTree =
          write-IsTree ops
            (write-IsTree ops g.tree t index (leaf_entry ops entry size)
              (λ r l. harmless size entry (rank' t) leafy at_t.1 r))
            s'.root 511 (s.entries s.root 511) (λ r l. absurd (l g.tree.root_rank refl))

      there : (p i : ℕ) → (p == s'.root && i == 511) ≡ (p == s.root && i == 511)
      there p i = ap (λ n. p == n && i == 511) g.extends.same_root

      others :
          (p i : ℕ)
          → IsUsed ops s p
          → flag ops valid (s.entries p i) ≡ true
          → ¬ ((p ≡ t) × (i ≡ index))
          → installed.entries p i ≡ s.entries p i
      others p i u v ne = elim (Bool-cases (p == s.root && i == 511)) [
        | inl b ↦
            let same : (p ≡ s.root) × (i ≡ 511) = ground (arith, b) in
            rw (there p i ∙ b) (sym (ap (λ x. s.entries x i) same.0 ∙ ap (s.entries s.root) same.1))
        | inr b ↦
            let not_t : (p == t && i == index) ≡ false = elim (Bool-cases (p == t && i == index)) [
              | inr c ↦ c
              | inl c ↦ absurd (ne (ground (arith, c)))
            ] in
            let before : redirected.entries p i ≡ s.entries p i = rw b refl in
            rw (there p i ∙ b, not_t)
              (g.extends.entry_kept p i u (ap (flag ops valid) before ∙ v) ∙ before)
      ]

      installed-Mapped : Mapped s installed self va rank rank' size entry t
      installed-Mapped = record {
        tree = installed-IsTree;
        at_self =
            ap (target ops) (
              others self 511 tree.self_used (target-valid ops _ self at_self)
                (λ e. not_self (sym e.0)))
            ∙ at_self;
        found =
            walk_unchanged ops g.tree va low installed (depth (leaf size))
              (λ x i y u r l c. ap (target ops) (untouched x i r l) ∙ c) (leaf size) t (omega arith)
              w;
        written = rw (==_ne t s'.root not_root, ==_refl t, ==_refl index) refl;
        same_root = g.extends.same_root;
        restored = rw (there s.root 511) (rw (==_refl s.root) refl);
        used_kept = g.extends.used_kept;
        rank_kept = g.extends.rank_kept;
        kept = others;
      }

    -- For an address outside the window of recursive addresses, and an entry that, at a size
    -- above 4k, is not flagged as one for a table, in a tree of tables below the table self,
    -- which lies below 2 ^ 48 and whose last entry points to itself: either map_to returns, the
    -- walk for the address ends in a table whose entry is the one that is mapped, every other
    -- entry that was valid in a page in use is as it was, the root's last one included, and the
    -- tables are a tree again; or it returns an error, the walk stops above the leaf at an entry
    -- for a page, or at an invalid one when every page is allocated, and the root's last entry
    -- still points to self.
    pub map_to_lem :
        (size : PageSize) (entry : E) (va : ℕ)
        → va_index va level0 ≢ 511
        → (size ≢ page_4k → flag ops page_or_table entry ≡ false)
        → ((s' : Machine E) × (e : PageTableError) × (map_to ops resolve s self entry va size
              ≡ done (s', err e))
            × Stopped ops s' self va (leaf size) e
            × (s'.entries s.root 511 ≡ table_entry ops self))
          ⊎ ((s' : Machine E) × (rank' : ℕ → ℕ) × (t : ℕ) × (map_to ops resolve s self entry va size
                ≡ done (s', ok tt))
              × Mapped s s' self va rank rank' size entry t)
    unfolding map_to
    map_to_lem size entry va low leafy =
        elim (dest_entry_lem ops lawful mmu redirected self va rank low redirected-IsTree
          redirected-IsRecursive size) [
            | inl (s', rank', e, eq, g, x) ↦ inl (
              s',
              e,
              rw eq refl,
              x,
              g.extends.entry_kept s.root 511 tree.root_used
                    (target-valid ops _ self redirected-IsRecursive.at_root)
                  ∙ rw (==_refl s.root) refl,
            )
            | inr (s', rank', t, eq, w, g) ↦ inr (
              _,
              rank',
              t,
              rw (eq, page_of-ptr_of ops mmu s' self va g.rec (leaf size) t w) refl,
              installed-Mapped size entry va low leafy w g,
            )
          ]
