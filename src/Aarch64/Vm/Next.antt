-- ===== src/Aarch64/Vm/Next.antt =====
-- aarch64/src/vm.rs: `next_mut` goes one level down a tree of tables, or makes the table that is missing.
use r.Common.{
  ℕ, suc, ◌*◌, ◌<◌, ◌≡◌, ◌≢◌, ◌⊎◌, refl, sym, ap, true, false, Option, some, inl, inr, Bool-cases,
  arith, done, ok, err,
}
use r.Mem.{page_size_4k}
use r.Bitmap.Alloc.{BitmapPageAlloc, out_of_space}
use r.Bitmap.Alloc.Valid.{allocated, total_pages}
use r.Bitmap.Alloc.Pages.{Taken}
use r.Aarch64.Kmem.{from_virt_to_physaddr}
use r.Aarch64.Pagealloc
use r.Aarch64.Pagealloc.{num_bitmaps, allocate-virt}
use r.Aarch64.Vm.{
  Level, level0, level1, level2, level3, next_level, depth, va_index, recursive_table_addr,
}
use r.Aarch64.Vm.Entry
use r.Aarch64.Vm.Entry.{EntryOps, IsLawful, valid, page_or_table, flag, phys_page_addr, table_entry}
use r.Aarch64.Vm.Table.{
  Machine, recursive, PageTableError, allocation_failed, entry_is_not_table, alloc_pagetable,
  next_mut, page_of,
}
use r.Aarch64.Vm.Walk.{
  table_entry-flag, walk, IsUsed, IsTree, IsRecursive, IsMmu, ptr_of, page_of-ptr_of,
}
use r.Aarch64.Vm.Extend.{Extends, Extends-refl, walk_rank, walk_kept, walk-next, IsRecursive-kept}
use r.Aarch64.Vm.Grow.{
  cleared, grown, grown_rank, cleared-Extends, grown-Extends, grown-child, grown-IsTree,
}
use mathlib.Core.Option.{some-injective}

module _ {E : Type 0} (ops : EntryOps E) where
  -- Why there is no next table behind an entry of the page `p`.
  pub data Refused (s : Machine E) (p index : ℕ) : PageTableError → Type 0 where
    not_table :
        flag ops valid (s.entries p index) ≡ true
        → flag ops page_or_table (s.entries p index) ≡ false
        → Refused s p index entry_is_not_table
    full :
        flag ops valid (s.entries p index) ≡ false
        → ((q : ℕ)
            → q < total_pages num_bitmaps page_size_4k
            → allocated page_size_4k s.pages q ≡ true)
        → Refused s p index (allocation_failed out_of_space)

  -- The walk for `va` ends above `below`, since there is no next table.
  pub record Stopped (s : Machine E) (self va : ℕ) (below : Level) (e : PageTableError)
      : Type 0 where
    pub level : Level
    pub page : ℕ
    pub above : depth level < depth below
    pub found : walk ops s self va level ≡ some page
    pub refused : Refused s page (va_index va level) e

  -- What a part of the walk leaves.
  pub record Grown (s s' : Machine E) (self : ℕ) (rank rank' : ℕ → ℕ) : Type 0 where
    pub tree : IsTree ops s' self rank'
    pub rec : IsRecursive ops s' self
    pub extends : Extends ops s s' rank rank'

  pub next_level-depth :
      (level level' : Level) → next_level level ≡ some level' → depth level' ≡ suc (depth level)
  unfolding next_level depth
  next_level-depth level0 level' n = ap depth (sym (some-injective _ _ n))
  next_level-depth level1 level' n = ap depth (sym (some-injective _ _ n))
  next_level-depth level2 level' n = ap depth (sym (some-injective _ _ n))
  next_level-depth level3 level' n = absurd (cc n)

  -- The levels that have a next one are those whose entries may point to tables.
  inner_level :
      (self va : ℕ) (level level' : Level)
      → next_level level ≡ some level'
      → (depth level < 3)
        × ((e : E) → Entry.table ops e level ≡ flag ops page_or_table e)
        × (ptr_of ops self va level' ≡ recursive (recursive_table_addr va level'))
  unfolding next_level depth Entry.table
  inner_level self va level0 level' n =
      let e = some-injective _ _ n in (omega arith, λ x. ground arith, rw (sym e) refl)
  inner_level self va level1 level' n =
      let e = some-injective _ _ n in (omega arith, λ x. ground arith, rw (sym e) refl)
  inner_level self va level2 level' n =
      let e = some-injective _ _ n in (omega arith, λ x. ground arith, rw (sym e) refl)
  inner_level self va level3 level' n = absurd (cc n)

  module _ (lawful : IsLawful ops) {resolve : Machine E → ℕ → Option ℕ} (mmu : IsMmu ops resolve)
      {s : Machine E} {self : ℕ} {rank : ℕ → ℕ} (tree : IsTree ops s self rank)
      (rec : IsRecursive ops s self) (va : ℕ) (low : va_index va level0 ≢ 511)
      (level level' : Level) (n : next_level level ≡ some level') (p : ℕ)
      (here : walk ops s self va level ≡ some p) where
    abbrev index : ℕ
    index = va_index va level

    at_page : page_of ops resolve s (ptr_of ops self va level) ≡ done p
    at_page = page_of-ptr_of ops mmu s self va rec level p here

    present :
        flag ops valid (s.entries p index) ≡ true
        → flag ops page_or_table (s.entries p index) ≡ true
        → next_mut ops resolve s (ptr_of ops self va level) level va
          ≡ done (s, ok (ptr_of ops self va level'))
    unfolding next_mut
    present v t =
        let (_, is_table, ptr) = inner_level self va level level' n in
        rw (ptr, at_page, v, is_table, t, n) refl

    blocked :
        flag ops valid (s.entries p index) ≡ true
        → flag ops page_or_table (s.entries p index) ≡ false
        → next_mut ops resolve s (ptr_of ops self va level) level va
          ≡ done (s, err entry_is_not_table)
    unfolding next_mut
    blocked v t =
        let (_, is_table, ptr) = inner_level self va level level' n in
        rw (at_page, v, is_table, t) refl

    exhausted :
        flag ops valid (s.entries p index) ≡ false
        → Pagealloc.allocate s.pages ≡ done (s.pages, err out_of_space)
        → next_mut ops resolve s (ptr_of ops self va level) level va
          ≡ done (s, err (allocation_failed out_of_space))
    unfolding next_mut alloc_pagetable
    exhausted v e = rw (at_page, v, e) refl

    module _ (v : flag ops valid (s.entries p index) ≡ false) {a' : BitmapPageAlloc} {q table : ℕ}
        (e : Pagealloc.allocate s.pages ≡ done (a', ok table))
        (phys : from_virt_to_physaddr table ≡ done (q * page_size_4k))
        (taken : Taken tree.ready a' q) where
      used_here : (IsUsed ops s p) × (rank p ≡ depth level)
      used_here = walk_rank ops tree va low level p here

      inner : rank p < 3
      inner =
          let (d, _, _) = inner_level self va level level' n in let r = used_here.1 in omega arith

      extended :
          Extends ops s
            (grown ops lawful tree p index used_here.0 inner v taken)
            rank
            (grown_rank ops lawful tree p index used_here.0 inner v taken)
      extended = grown-Extends ops lawful tree p index used_here.0 inner v taken

      same_page :
          page_of ops resolve
            (cleared ops lawful tree p index used_here.0 inner v taken)
            (ptr_of ops self va level)
          ≡ done p
      same_page =
          let x = cleared-Extends ops lawful tree p index used_here.0 inner v taken in
          page_of-ptr_of ops mmu _ self va (IsRecursive-kept ops tree x rec) level p
            (walk_kept ops tree va low x level p here)

      made :
          next_mut ops resolve s (ptr_of ops self va level) level va
          ≡ done (
            grown ops lawful tree p index used_here.0 inner v taken,
            ok (ptr_of ops self va level'),
          )
      unfolding next_mut alloc_pagetable
      made =
          let (_, is_table, ptr) = inner_level self va level level' n in
          rw
            (
              ptr,
              at_page,
              v,
              e,
              phys,
              phys,
              same_page,
              is_table,
              table_entry-flag ops lawful (q * page_size_4k),
              n,
            )
            refl

    -- At the table of a level that the walk has come to, `next_mut` gives the table of the next level, which
    -- the walk then comes to, on a tree that keeps what it had; or there is an error, nothing has changed,
    -- and the error says why: the entry is for a page, or it is not valid and every page is allocated.
    pub next_mut_lem :
        ((e : PageTableError) × (next_mut ops resolve s (ptr_of ops self va level) level va
            ≡ done (s, err e))
          × Refused s p index e)
        ⊎ ((s' : Machine E) × (rank' : ℕ → ℕ) × (t : ℕ) × (next_mut ops resolve s
                (ptr_of ops self va level)
                level
                va
              ≡ done (s', ok (ptr_of ops self va level')))
            × (walk ops s' self va level' ≡ some t)
            × Grown s s' self rank rank')
    next_mut_lem = elim (Bool-cases (flag ops valid (s.entries p index))) [
      | inl v ↦ elim (Bool-cases (flag ops page_or_table (s.entries p index))) [
        | inl t ↦ inr (
          s,
          rank,
          phys_page_addr ops (s.entries p index),
          present v t,
          walk-next ops s self va level level' p _ n here (rw (v, t) refl),
          record { tree = tree; rec = rec; extends = Extends-refl ops s rank },
        )
        | inr t ↦ inl (entry_is_not_table, blocked v t, not_table v t)
      ]
      | inr v ↦ elim (allocate-virt tree.ready tree.page_size) [
        | inl (e, all) ↦ inl (allocation_failed out_of_space, exhausted v e, full v all)
        | inr (a', q, table, e, phys, taken) ↦
            let x = extended v e phys taken in
            let (u, r) = used_here v e phys taken in
            inr (
              grown ops lawful tree p index u (inner v e phys taken) v taken,
              grown_rank ops lawful tree p index u (inner v e phys taken) v taken,
              q * page_size_4k,
              made v e phys taken,
              walk-next ops (grown ops lawful tree p index u (inner v e phys taken) v taken) self va
                  level level' p (q * page_size_4k) n (walk_kept ops tree va low x level p here)
                  (grown-child ops lawful tree p index u (inner v e phys taken) v taken),
              record {
                tree = grown-IsTree ops lawful tree p index u (inner v e phys taken) v taken;
                rec = IsRecursive-kept ops tree x rec;
                extends = x;
              },
            )
      ]
    ]
