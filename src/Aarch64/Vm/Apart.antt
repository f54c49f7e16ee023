-- ===== src/Aarch64/Vm/Apart.antt =====
-- aarch64/src/vm.rs: addresses of different pages have different places in a tree of tables.
use r.Common.{ℕ, ◌+◌, ◌*◌, ◌/◌, ◌%◌, ◌^◌, ◌<◌, ◌≡◌, ◌≢◌, sym, ap, ◌∙◌, some, arith}
use r.Aarch64.Kmem.{physaddr_as_virt, kzero}
use r.Aarch64.Vm.{
  PageSize, page_4k, page_2m, page_1g, page_bytes, level0, level1, level2, level3, depth, va_index,
  va_index_lem,
}
use r.Aarch64.Vm.Entry.{EntryOps}
use r.Aarch64.Vm.Table.{Machine}
use r.Aarch64.Vm.Walk.{child, walk, IsTree, and_then-some}
use r.Aarch64.Vm.Extend.{walk_rank, edge, edge1}
use r.Aarch64.Vm.Map.{leaf}

-- Where the window of physical memory ends, below the recursive addresses.
abbrev pub window_size : ℕ
window_size = 255 * 2 ^ 39

pub window-low : (pa : ℕ) → pa < window_size → va_index (physaddr_as_virt pa) level0 ≢ 511
unfolding physaddr_as_virt
window-low pa h e =
    let (i0, _, _, _) = va_index_lem (physaddr_as_virt pa) in
    let digit : (pa + kzero) % 2 ^ 64 / 2 ^ 39 % 512 ≡ 511 = sym i0 ∙ e in absurd (omega arith)

-- The indices that lead to a leaf, and the one in it.
abbrev pub SameIndices : ℕ → ℕ → PageSize → Type 0
SameIndices va va' page_1g =
    (va_index va level0 ≡ va_index va' level0) × (va_index va level1 ≡ va_index va' level1)
SameIndices va va' page_2m =
    (va_index va level0 ≡ va_index va' level0)
    × (va_index va level1 ≡ va_index va' level1)
    × (va_index va level2 ≡ va_index va' level2)
SameIndices va va' page_4k =
    (va_index va level0 ≡ va_index va' level0)
    × (va_index va level1 ≡ va_index va' level1)
    × (va_index va level2 ≡ va_index va' level2)
    × (va_index va level3 ≡ va_index va' level3)

pub same_page :
    (size : PageSize) (pa pa' : ℕ)
    → pa < window_size
    → pa' < window_size
    → SameIndices (physaddr_as_virt pa) (physaddr_as_virt pa') size
    → pa / page_bytes size ≡ pa' / page_bytes size
unfolding physaddr_as_virt page_bytes
same_page page_1g pa pa' h h' e =
    let (a0, a1, a2, a3) = va_index_lem (physaddr_as_virt pa) in
    let (b0, b1, b2, b3) = va_index_lem (physaddr_as_virt pa') in let (e0, e1) = e in omega arith
same_page page_2m pa pa' h h' e =
    let (a0, a1, a2, a3) = va_index_lem (physaddr_as_virt pa) in
    let (b0, b1, b2, b3) = va_index_lem (physaddr_as_virt pa') in
    let (e0, e1, e2) = e in omega arith
same_page page_4k pa pa' h h' e =
    let (a0, a1, a2, a3) = va_index_lem (physaddr_as_virt pa) in
    let (b0, b1, b2, b3) = va_index_lem (physaddr_as_virt pa') in
    let (e0, e1, e2, e3) = e in omega arith

module _ {E : Type 0} (ops : EntryOps E) {s : Machine E} {self : ℕ} {rank : ℕ → ℕ}
    (tree : IsTree ops s self rank) (va va' : ℕ) (low : va_index va level0 ≢ 511)
    (low' : va_index va' level0 ≢ 511) where
  one :
      (t : ℕ)
      → walk ops s self va level1 ≡ some t
      → walk ops s self va' level1 ≡ some t
      → va_index va level0 ≡ va_index va' level0
  one t h h' =
      (tree.unique self (va_index va level0) self (va_index va' level0) t
        (edge1 ops tree va low t h) (edge1 ops tree va' low' t h')).1

  two :
      (t : ℕ)
      → walk ops s self va level2 ≡ some t
      → walk ops s self va' level2 ≡ some t
      → (va_index va level0 ≡ va_index va' level0) × (va_index va level1 ≡ va_index va' level1)
  unfolding depth
  two t h h' =
      let (t1, h1, h2) =
        and_then-some (child ops s self (va_index va level0))
          (λ t1. child ops s t1 (va_index va level1)) t h in
      let (t1', h1', h2') =
        and_then-some (child ops s self (va_index va' level0))
          (λ t1. child ops s t1 (va_index va' level1)) t h' in
      let (u, r) = walk_rank ops tree va low level1 t1 h1 in
      let (u', r') = walk_rank ops tree va' low' level1 t1' h1' in
      let (same, i1) =
        tree.unique t1 (va_index va level1) t1' (va_index va' level1) t
          (edge ops tree va low t1 (va_index va level1) t u (omega arith) (omega arith) h2)
          (edge ops tree va low t1' (va_index va' level1) t u' (omega arith) (omega arith) h2') in
      (one t1 h1 (h1' ∙ ap some (sym same)), i1)

  three :
      (t : ℕ)
      → walk ops s self va level3 ≡ some t
      → walk ops s self va' level3 ≡ some t
      → (va_index va level0 ≡ va_index va' level0)
        × (va_index va level1 ≡ va_index va' level1)
        × (va_index va level2 ≡ va_index va' level2)
  unfolding depth
  three t h h' =
      let (t2, h1, h2) =
        and_then-some (walk ops s self va level2) (λ t1. child ops s t1 (va_index va level2)) t h in
      let (t2', h1', h2') =
        and_then-some (walk ops s self va' level2) (λ t1. child ops s t1 (va_index va' level2)) t
          h' in
      let (u, r) = walk_rank ops tree va low level2 t2 h1 in
      let (u', r') = walk_rank ops tree va' low' level2 t2' h1' in
      let (same, i2) =
        tree.unique t2 (va_index va level2) t2' (va_index va' level2) t
          (edge ops tree va low t2 (va_index va level2) t u (omega arith) (omega arith) h2)
          (edge ops tree va low t2' (va_index va' level2) t u' (omega arith) (omega arith) h2') in
      let (i0, i1) = two t2 h1 (h1' ∙ ap some (sym same)) in (i0, i1, i2)

  pub walk-SameIndices :
      (size : PageSize) (t : ℕ)
      → walk ops s self va (leaf size) ≡ some t
      → walk ops s self va' (leaf size) ≡ some t
      → va_index va (leaf size) ≡ va_index va' (leaf size)
      → SameIndices va va' size
  walk-SameIndices page_1g t h h' e = (one t h h', e)
  walk-SameIndices page_2m t h h' e = let (i0, i1) = two t h h' in (i0, i1, e)
  walk-SameIndices page_4k t h h' e = let (i0, i1, i2) = three t h h' in (i0, i1, i2, e)
