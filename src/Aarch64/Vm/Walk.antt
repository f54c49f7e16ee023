-- ===== src/Aarch64/Vm/Walk.antt =====
-- aarch64/src/vm.rs: the tables as a tree, and what the machine's translation does with it.
use r.Common.{
  ℕ, suc, ◌*◌, ◌/◌, ◌^◌, ◌<◌, ◌≡◌, ◌≢◌, refl, ap, ◌∙◌, true, ◌&&◌, if◌then◌else◌, Option, none,
  some, and_then, done, expect, arith,
}
use mathlib.Core.Option.{some-injective}
use r.Mem.{page_size_4k}
use r.Bitmap.Alloc.Valid.{allocated}
use r.Bitmap.Alloc.Pages.{IsReady}
use r.Aarch64.Pagealloc.{num_bitmaps}
use r.Aarch64.Vm.{
  Level, level0, level1, level2, level3, va_index, va_index_lem, address_of, recursive_table_addr,
  recursive_table_addr_lem,
}
use r.Aarch64.Vm.Entry.{
  EntryOps, IsLawful, Field, valid, page_or_table, addr, flag, rw_kernel_data, with_phys_addr,
  table_entry, phys_page_addr,
}
use r.Aarch64.Vm.Table.{Machine, TablePtr, window, recursive, page_of}

pub and_then-some {ℓ κ} :
    {A : Type ℓ} {B : Type κ} (o : Option A) (f : A → Option B) (b : B)
    → and_then o f ≡ some b
    → (a : A) × (o ≡ some a) × (f a ≡ some b)
and_then-some none f b h = absurd (cc h)
and_then-some (some a) f b h = (a, refl, h)

module _ {E : Type 0} (ops : EntryOps E) where
  -- The page that an entry points to, where it is valid and has the flag of a table or a page.
  abbrev pub target : E → Option ℕ
  target e =
      if flag ops valid e && flag ops page_or_table e then some (phys_page_addr ops e) else none

  abbrev pub child : Machine E → ℕ → ℕ → Option ℕ
  child s page index = target (s.entries page index)

  -- The table of a level that translates an address, from the table `self` down.
  abbrev pub walk : Machine E → ℕ → ℕ → Level → Option ℕ
  walk s self va level0 = some self
  walk s self va level1 = child s self (va_index va level0)
  walk s self va level2 =
      and_then (child s self (va_index va level0)) (λ t1. child s t1 (va_index va level1))
  walk s self va level3 =
      and_then
        (and_then (child s self (va_index va level0)) (λ t1. child s t1 (va_index va level1)))
        (λ t2. child s t2 (va_index va level2))

  -- The translation of a page of the upper half, as the architecture has it: by four tables.
  pub record IsMmu (resolve : Machine E → ℕ → Option ℕ) : Type 0 where
    pub walks :
        (s : Machine E) (i0 i1 i2 i3 t1 t2 t3 p : ℕ)
        → i0 < 512
        → i1 < 512
        → i2 < 512
        → i3 < 512
        → child s s.root i0 ≡ some t1
        → child s t1 i1 ≡ some t2
        → child s t2 i2 ≡ some t3
        → child s t3 i3 ≡ some p
        → resolve s (address_of i0 i1 i2 i3 0) ≡ some p

  -- The page is one that the page allocator has handed out or never had.
  abbrev pub IsUsed : Machine E → ℕ → Type 0
  IsUsed s page =
      (page / page_size_4k * page_size_4k ≡ page)
      × (allocated page_size_4k s.pages (page / page_size_4k) ≡ true)

  -- An entry of the tree: of a table in use above the leaves, and not the last one of `self` or of the
  -- root.
  pub record Edge (s : Machine E) (rank : ℕ → ℕ) (p i t : ℕ) : Type 0 where
    pub in_use : IsUsed s p
    pub inner : rank p < 3
    pub not_last : rank p ≡ 0 → i ≢ 511
    pub points : child s p i ≡ some t

  -- The tables below `self` form a tree: `rank` is the level of a table. Each table points to tables
  -- of the next level, but for the last entry of `self` and of the root, and no other entry points to
  -- the same table. All of them are in use.
  pub record IsTree (s : Machine E) (self : ℕ) (rank : ℕ → ℕ) : Type 0 where
    pub ready : IsReady num_bitmaps page_size_4k s.pages
    pub page_size : s.pages.alloc_page_size ≡ page_size_4k
    pub root_used : IsUsed s s.root
    pub self_used : IsUsed s self
    pub root_rank : rank s.root ≡ 0
    pub self_rank : rank self ≡ 0
    pub down : (p i t : ℕ) → Edge s rank p i t → IsUsed s t × (rank t ≡ suc (rank p))
    pub unique : (p i p' i' t : ℕ) → Edge s rank p i t → Edge s rank p' i' t → (p ≡ p') × (i ≡ i')

  -- The last entries, through which the tables are reached.
  pub record IsRecursive (s : Machine E) (self : ℕ) : Type 0 where
    pub at_root : child s s.root 511 ≡ some self
    pub at_self : child s self 511 ≡ some self

  module _ (lawful : IsLawful ops) where
    kept : (f g : Field) (v : ℕ) (e : E) → f ≢ g → ops.get g (ops.put f v e) ≡ ops.get g e
    kept = lawful.get-put_other

    pub table_entry-target :
        (q : ℕ) → q < 2 ^ 36 → target (table_entry ops (q * page_size_4k)) ≡ some (q * page_size_4k)
    unfolding table_entry with_phys_addr rw_kernel_data phys_page_addr
    table_entry-target q h =
        let e0 = rw_kernel_data ops in
        let is_valid : ops.get valid (table_entry ops (q * page_size_4k)) ≡ 1 =
          kept page_or_table valid 1 _ (λ e. cc e)
          ∙ kept addr valid _ _ (λ e. cc e)
          ∙ lawful.get-put valid 1 _ (omega arith) in
        let is_table : ops.get page_or_table (table_entry ops (q * page_size_4k)) ≡ 1 =
          lawful.get-put page_or_table 1 _ (omega arith) in
        let at : ops.get addr (table_entry ops (q * page_size_4k)) ≡ q * page_size_4k / 2 ^ 12 =
          kept page_or_table addr 1 _ (λ e. cc e) ∙ lawful.get-put addr _ _ (omega arith) in
        let pa : q * page_size_4k / 2 ^ 12 * 2 ^ 12 ≡ q * page_size_4k = omega arith in
        rw (is_valid, is_table) (ap (λ n. some (n * 2 ^ 12)) at ∙ ap some pa)

    pub table_entry-flag : (pa : ℕ) → flag ops page_or_table (table_entry ops pa) ≡ true
    unfolding table_entry
    table_entry-flag pa = rw (lawful.get-put page_or_table 1 _ (omega arith)) refl

    pub zero-target : target ops.zero_entry ≡ none
    zero-target = rw (lawful.get-zero valid) refl

  va_index-lt : (va : ℕ) (level : Level) → va_index va level < 512
  va_index-lt va level0 = rw ((va_index_lem va).0) (omega arith)
  va_index-lt va level1 = rw ((va_index_lem va).1) (omega arith)
  va_index-lt va level2 = rw ((va_index_lem va).2) (omega arith)
  va_index-lt va level3 = rw ((va_index_lem va).3) (omega arith)

  -- The pointer to the table of a level.
  abbrev pub ptr_of : ℕ → ℕ → Level → TablePtr
  ptr_of self va level0 = window self
  ptr_of self va level1 = recursive (recursive_table_addr va level1)
  ptr_of self va level2 = recursive (recursive_table_addr va level2)
  ptr_of self va level3 = recursive (recursive_table_addr va level3)

  module _ {resolve : Machine E → ℕ → Option ℕ} (mmu : IsMmu resolve) (s : Machine E) (self va : ℕ)
      (rec : IsRecursive s self) where
    -- A recursive address of a table leads to the table.
    pub page_of-ptr_of :
        (level : Level) (p : ℕ)
        → walk s self va level ≡ some p
        → page_of ops resolve s (ptr_of self va level) ≡ done p
    page_of-ptr_of level0 p h = ap done (some-injective _ _ h)
    page_of-ptr_of level1 p h =
        let i0 = va_index-lt va level0 in
        ap expect (
          ap (resolve s) ((recursive_table_addr_lem va).1)
          ∙ mmu.walks s 511 511 511 (va_index va level0) self self self p (omega arith)
              (omega arith) (omega arith) i0 rec.at_root rec.at_self rec.at_self h)
    page_of-ptr_of level2 p h =
        let (t1, h1, h2) =
          and_then-some (child s self (va_index va level0)) (λ t1. child s t1 (va_index va level1))
            p h in
        ap expect (
          ap (resolve s) ((recursive_table_addr_lem va).2)
          ∙ mmu.walks s 511 511 (va_index va level0) (va_index va level1) self self t1 p
              (omega arith) (omega arith) (va_index-lt va level0) (va_index-lt va level1)
              rec.at_root rec.at_self h1 h2)
    page_of-ptr_of level3 p h =
        let (t2, h12, h3) =
          and_then-some (walk s self va level2) (λ t2. child s t2 (va_index va level2)) p h in
        let (t1, h1, h2) =
          and_then-some (child s self (va_index va level0)) (λ t1. child s t1 (va_index va level1))
            t2 h12 in
        ap expect (
          ap (resolve s) ((recursive_table_addr_lem va).3)
          ∙ mmu.walks s 511 (va_index va level0) (va_index va level1) (va_index va level2) self t1
              t2 p (omega arith) (va_index-lt va level0) (va_index-lt va level1)
              (va_index-lt va level2) rec.at_root h1 h2 h3)
