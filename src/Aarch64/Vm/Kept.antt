-- ===== src/Aarch64/Vm/Kept.antt =====
-- aarch64/src/vm.rs: a page that is mapped stays so when a page apart from it is mapped.
use r.Common.{ℕ, ◌/◌, ◌<◌, ◌≤◌, ◌≡◌, ◌≢◌, refl, sym, ap, ◌∙◌, true, some, arith}
use r.Aarch64.Kmem.{physaddr_as_virt}
use r.Aarch64.Vm.{PageSize, page_bytes, Level, level0, level1, level2, level3, depth, va_index}
use r.Aarch64.Vm.Entry.{EntryOps, valid, flag, with_phys_addr}
use r.Aarch64.Vm.Table.{Machine, leaf_entry}
use r.Aarch64.Vm.Walk.{child, walk, target, IsTree, and_then-some}
use r.Aarch64.Vm.Extend.{walk_rank, target-valid}
use r.Aarch64.Vm.Map.{leaf}
use r.Aarch64.Vm.Install.{Mapped}
use r.Aarch64.Vm.Apart.{window_size, window-low, same_page, walk-SameIndices}

module _ {E : Type 0} (ops : EntryOps E) where
  -- The walk for the page's address in the window ends at an entry for the page.
  abbrev pub IsMapped : PageSize → E → Machine E → ℕ → ℕ → Type 0
  IsMapped size entry s self pa =
      (t : ℕ) × (walk ops s self (physaddr_as_virt pa) (leaf size) ≡ some t)
      × (s.entries t (va_index (physaddr_as_virt pa) (leaf size))
          ≡ leaf_entry ops (with_phys_addr ops pa entry) size)

-- The page at `pa` of one size does not lie in the page `k` of another, where that could be.
abbrev pub IsApart : PageSize → ℕ → PageSize → ℕ → Type 0
IsApart size pa size' k = depth (leaf size') ≤ depth (leaf size) → pa / page_bytes size' ≢ k

depth_injective : (a b : Level) → depth a ≡ depth b → a ≡ b
unfolding depth
depth_injective level0 level0 e = refl
depth_injective level1 level1 e = refl
depth_injective level2 level2 e = refl
depth_injective level3 level3 e = refl
depth_injective level0 level1 e = absurd (omega arith)
depth_injective level0 level2 e = absurd (omega arith)
depth_injective level0 level3 e = absurd (omega arith)
depth_injective level1 level0 e = absurd (omega arith)
depth_injective level1 level2 e = absurd (omega arith)
depth_injective level1 level3 e = absurd (omega arith)
depth_injective level2 level0 e = absurd (omega arith)
depth_injective level2 level1 e = absurd (omega arith)
depth_injective level2 level3 e = absurd (omega arith)
depth_injective level3 level0 e = absurd (omega arith)
depth_injective level3 level1 e = absurd (omega arith)
depth_injective level3 level2 e = absurd (omega arith)

module _ {E : Type 0} (ops : EntryOps E) {s s' : Machine E} {self t : ℕ} {rank rank' : ℕ → ℕ}
    {size' : PageSize} {entry' : E} (tree : IsTree ops s self rank) (size : PageSize) (pa pa' : ℕ)
    (inside : pa < window_size) (inside' : pa' < window_size)
    (apart : IsApart size pa size' (pa' / page_bytes size'))
    (m : Mapped ops s s' self (physaddr_as_virt pa') rank rank' size' entry' t) where
  abbrev va : ℕ
  va = physaddr_as_virt pa

  -- An entry on the way is not the one that is written.
  entry_kept :
      (level : Level) (x : ℕ)
      → depth level ≤ depth (leaf size)
      → walk ops s self va level ≡ some x
      → walk ops s' self va level ≡ some x
      → flag ops valid (s.entries x (va_index va level)) ≡ true
      → s'.entries x (va_index va level) ≡ s.entries x (va_index va level)
  entry_kept level x le w w' v =
      let low = window-low pa inside in
      let low' = window-low pa' inside' in
      let (u, r) = walk_rank ops tree va low level x w in
      let (u', r') = walk_rank ops m.tree (physaddr_as_virt pa') low' (leaf size') t m.found in
      let rk = m.rank_kept x u in
      m.kept x (va_index va level) u v (λ same.
        let z : rank' x ≡ rank' t = ap rank' same.0 in
        let here : level ≡ leaf size' = depth_injective level (leaf size') (omega arith) in
        let found : walk ops s' self va (leaf size') ≡ some t =
          ap (walk ops s' self va) (sym here) ∙ w' ∙ ap some same.0 in
        let index : va_index va (leaf size') ≡ va_index (physaddr_as_virt pa') (leaf size') =
          ap (va_index va) (sym here) ∙ same.1 in
        let d : depth (leaf size') ≡ depth level = ap depth (sym here) in
        apart (omega arith) (
          same_page size' pa pa' inside inside' (
            walk-SameIndices ops m.tree va (physaddr_as_virt pa') low low' size' t found m.found
              index)))

  child_step :
      (level : Level) (x y : ℕ)
      → depth level ≤ depth (leaf size)
      → walk ops s self va level ≡ some x
      → walk ops s' self va level ≡ some x
      → child ops s x (va_index va level) ≡ some y
      → child ops s' x (va_index va level) ≡ some y
  child_step level x y le w w' c =
      ap (target ops)
        (entry_kept level x le w w' (target-valid ops (s.entries x (va_index va level)) y c))
      ∙ c

  Stays : Level → Type 0
  Stays level =
      (x : ℕ)
      → depth level ≤ depth (leaf size)
      → walk ops s self va level ≡ some x
      → walk ops s' self va level ≡ some x

  stays1 : Stays level1
  unfolding depth Stays
  stays1 x le w = child_step level0 self x (omega arith) refl refl w

  stays2 : Stays level2
  unfolding depth Stays
  stays2 x le w =
      let (t1, w1, c) =
        and_then-some (walk ops s self va level1) (λ t1. child ops s t1 (va_index va level1)) x w in
      let w1' = stays1 t1 (omega arith) w1 in rw w1' (child_step level1 t1 x (omega arith) w1 w1' c)

  stays3 : Stays level3
  unfolding depth Stays
  stays3 x le w =
      let (t2, w2, c) =
        and_then-some (walk ops s self va level2) (λ t2. child ops s t2 (va_index va level2)) x w in
      let w2' = stays2 t2 (omega arith) w2 in rw w2' (child_step level2 t2 x (omega arith) w2 w2' c)

  walk-Stays : (level : Level) → Stays level
  unfolding Stays
  walk-Stays level0 x le w = w
  walk-Stays level1 x le w = stays1 x le w
  walk-Stays level2 x le w = stays2 x le w
  walk-Stays level3 x le w = stays3 x le w

  pub IsMapped-kept :
      (entry : E)
      → flag ops valid (leaf_entry ops (with_phys_addr ops pa entry) size) ≡ true
      → IsMapped ops size entry s self pa
      → IsMapped ops size entry s' self pa
  unfolding Stays
  IsMapped-kept entry v (x, w, e) =
      let w' = walk-Stays (leaf size) x (omega arith) w in
      (x, w', entry_kept (leaf size) x (omega arith) w w' (ap (flag ops valid) e ∙ v) ∙ e)
