-- ===== src/VmTests.antt =====
-- aarch64/src/vm.rs: the theorems on page tables, on a tree of four tables.
--
-- An entry is given by the values of its fields.
use r.Common.{
  List, [], ◌∷◌, All, panic, ℕ, suc, ◌+◌, ◌-◌, ◌*◌, ◌/◌, ◌^◌, ◌<◌, ◌≡◌, ◌⊎◌, inl, inr, refl, sym,
  ap, ◌∙◌, true, ◌&&◌, ◌==◌, ==_refl, ==_ne, if◌then◌else◌, Bool-cases, Option, some, and_then,
  done, ok, err, arith, subst,
}
use mathlib.Core.Option.{some-injective}
use r.Mem.{PhysRange, page_size_4k, add, with_len}
use r.Mem.Walk.{first_page, stop_page}
use r.Aarch64.Kmem.{
  Symbols, kzero, physaddr_as_virt, from_virt_to_physaddr, boottext_range, text_range, rodata_range,
  data_range, bss_range,
}
use r.Aarch64.Registers.{raspberry_pi3, rpi_mmio, mmio}
use r.Aarch64.Pagealloc.{page_alloc, page_alloc-IsReady, page_alloc_page, all_allocated}
use r.Aarch64.Vm.{
  page_4k, page_2m, page_bytes, level0, level1, level2, level3, va_index, va_index_lem, address_of,
}
use r.Aarch64.Vm.Entry.{
  EntryOps, IsLawful, Field, valid, page_or_table, mair_index, non_secure, access_permission,
  shareable, accessed, addr, pxn, uxn, flag, table_entry, rw_kernel_data, ro_kernel_device,
}
use r.Aarch64.Vm.Table.{Machine, PageTableError, map_to, map_phys_range}
use r.Aarch64.Vm.Walk.{child, IsUsed, target, Edge, IsTree, IsMmu, table_entry-target}
use r.Aarch64.Vm.Next.{Stopped}
use r.Aarch64.Vm.Map.{leaf}
use r.Aarch64.Vm.Install.{Mapped, map_to_lem}
use r.Aarch64.Vm.Range.{map_phys_range_lem}
use r.Aarch64.Vm.Pages.{RangeMapped, StoppedAt}
use r.Aarch64.Vm.Init.{Mapping, map_all, custom_map}
use r.Aarch64.Vm.Sorted.{StartsFrom, kernel_mappings, custom_map_lem}
use mathlib.Core.List.{Perm}
use r.Aarch64.Vm.Mappings.{IsMappable, AllApart, AllMapped, RefusedAt, map_all_lem}

abbrev number : Field → ℕ
number valid = 0
number page_or_table = 1
number mair_index = 2
number non_secure = 3
number access_permission = 4
number shareable = 5
number accessed = 6
number addr = 7
number pxn = 8
number uxn = 9

abbrev numbered : ℕ → Field
numbered n =
    if n == 0
    then valid
    else if n == 1
    then page_or_table
    else if n == 2
    then mair_index
    else if n == 3
    then non_secure
    else if n == 4
    then access_permission
    else if n == 5
    then shareable
    else if n == 6
    then accessed
    else if n == 7
    then addr
    else if n == 8
    then pxn
    else uxn

numbered-number : (f : Field) → numbered (number f) ≡ f
numbered-number valid = refl
numbered-number page_or_table = refl
numbered-number mair_index = refl
numbered-number non_secure = refl
numbered-number access_permission = refl
numbered-number shareable = refl
numbered-number accessed = refl
numbered-number addr = refl
numbered-number pxn = refl
numbered-number uxn = refl

abbrev Fields : Type 0
Fields = Field → ℕ

abbrev ops : EntryOps Fields
ops = record {
  zero_entry = λ f. 0;
  get = λ f e. e f;
  put = λ f v e g. if number g == number f then v else e g;
}

lawful : IsLawful ops
lawful = record {
  get-zero = λ f. refl;
  get-put = λ f v e h. rw (==_refl (number f)) refl;
  get-put_other = λ f g v e ne.
      rw
        (==_ne (number g) (number f)
          (λ same. ne (sym (numbered-number f) ∙ ap numbered (sym same) ∙ numbered-number g)))
        refl;
}

-- The four lookups of the architecture.
abbrev resolve : Machine Fields → ℕ → Option ℕ
resolve s va = and_then (child ops s s.root (va_index va level0)) (λ t1.
    and_then (child ops s t1 (va_index va level1)) (λ t2.
      and_then (child ops s t2 (va_index va level2)) (λ t3. child ops s t3 (va_index va level3))))

mmu : IsMmu ops resolve
mmu = record {
  walks = λ s i0 i1 i2 i3 t1 t2 t3 p l0 l1 l2 l3 h1 h2 h3 h4.
      let (a0, a1, a2, a3) = va_index_lem (address_of i0 i1 i2 i3 0) in
      let e0 : va_index (address_of i0 i1 i2 i3 0) level0 ≡ i0 = a0 ∙ omega arith in
      let e1 : va_index (address_of i0 i1 i2 i3 0) level1 ≡ i1 = a1 ∙ omega arith in
      let e2 : va_index (address_of i0 i1 i2 i3 0) level2 ≡ i2 = a2 ∙ omega arith in
      let e3 : va_index (address_of i0 i1 i2 i3 0) level3 ≡ i3 = a3 ∙ omega arith in
      rw (e0, h1, e1, h2, e2, h3, e3) h4;
}

-- The table with the number `n` is page `n` of memory; the first is the root.
abbrev tables : Machine Fields
tables = record {
  root = 1 * page_size_4k;
  entries = λ p i.
      if p == 1 * page_size_4k && i == 511
      then table_entry ops (1 * page_size_4k)
      else if p == 1 * page_size_4k && i == 256
      then table_entry ops (2 * page_size_4k)
      else if p == 2 * page_size_4k && i == 0
      then table_entry ops (3 * page_size_4k)
      else if p == 3 * page_size_4k && i == 504
      then table_entry ops (4 * page_size_4k)
      else ops.zero_entry;
  pages = page_alloc;
}

abbrev rank : ℕ → ℕ
rank p =
    if p == 1 * page_size_4k
    then 0
    else if p == 2 * page_size_4k
    then 1
    else if p == 3 * page_size_4k
    then 2
    else 3

abbrev PointsTo : ℕ → ℕ → ℕ → ℕ → ℕ → ℕ → Type 0
PointsTo p i t q j u = (p ≡ q * page_size_4k) × (i ≡ j) × (t ≡ u * page_size_4k)

target_at :
    (q t : ℕ)
    → q < 2 ^ 36
    → target ops (table_entry ops (q * page_size_4k)) ≡ some t
    → t ≡ q * page_size_4k
target_at q t h e = some-injective _ _ (sym e ∙ table_entry-target ops lawful q h)

edges :
    (p i t : ℕ)
    → Edge ops tables rank p i t
    → (PointsTo p i t 1 256 2) ⊎ ((PointsTo p i t 2 0 3) ⊎ (PointsTo p i t 3 504 4))
edges p i t ed = elim (Bool-cases (p == 1 * page_size_4k && i == 511)) [
  | inl b ↦
      let same : (p ≡ 1 * page_size_4k) × (i ≡ 511) = ground (arith, b) in
      absurd (ed.not_last (ap rank same.0) same.1)
  | inr b1 ↦ elim (Bool-cases (p == 1 * page_size_4k && i == 256)) [
    | inl b ↦
        let same : (p ≡ 1 * page_size_4k) × (i ≡ 256) = ground (arith, b) in
        inl (same.0, same.1, target_at 2 t (omega arith) (rw (b1, b) at ed.points))
    | inr b2 ↦ elim (Bool-cases (p == 2 * page_size_4k && i == 0)) [
      | inl b ↦
          let same : (p ≡ 2 * page_size_4k) × (i ≡ 0) = ground (arith, b) in
          inr (inl (same.0, same.1, target_at 3 t (omega arith) (rw (b1, b2, b) at ed.points)))
      | inr b3 ↦ elim (Bool-cases (p == 3 * page_size_4k && i == 504)) [
        | inl b ↦
            let same : (p ≡ 3 * page_size_4k) × (i ≡ 504) = ground (arith, b) in
            inr
              (inr (same.0, same.1, target_at 4 t (omega arith) (rw (b1, b2, b3, b) at ed.points)))
        | inr b4 ↦
            let points : target ops ops.zero_entry ≡ some t = rw (b1, b2, b3, b4) at ed.points in
            absurd (cc points)
      ]
    ]
  ]
]

used_page : (q : ℕ) → q < 2 ^ 20 → IsUsed ops tables (q * page_size_4k)
used_page q h =
    let page : q * page_size_4k / page_size_4k ≡ q = omega arith in
    (ap (λ n. n * page_size_4k) page, all_allocated (q * page_size_4k / page_size_4k) (omega arith))

tables-down :
    (p i t : ℕ) → Edge ops tables rank p i t → IsUsed ops tables t × (rank t ≡ suc (rank p))
tables-down p i t ed = elim (edges p i t ed) [
  | inl (a, b, c) ↦ (
    subst (IsUsed ops tables) (sym c) (used_page 2 (omega arith)),
    ap rank c ∙ ap (λ n. suc (rank n)) (sym a),
  )
  | inr (inl (a, b, c)) ↦ (
    subst (IsUsed ops tables) (sym c) (used_page 3 (omega arith)),
    ap rank c ∙ ap (λ n. suc (rank n)) (sym a),
  )
  | inr (inr (a, b, c)) ↦ (
    subst (IsUsed ops tables) (sym c) (used_page 4 (omega arith)),
    ap rank c ∙ ap (λ n. suc (rank n)) (sym a),
  )
]

tables_unique :
    (p i p' i' t : ℕ)
    → Edge ops tables rank p i t
    → Edge ops tables rank p' i' t
    → (p ≡ p') × (i ≡ i')
tables_unique p i p' i' t ed ed' = elim (edges p i t ed) [
  | inl a ↦ elim (edges p' i' t ed') [
    | inl b ↦ omega arith
    | inr (inl b) ↦ omega arith
    | inr (inr b) ↦ omega arith
  ]
  | inr (inl a) ↦ elim (edges p' i' t ed') [
    | inl b ↦ omega arith
    | inr (inl b) ↦ omega arith
    | inr (inr b) ↦ omega arith
  ]
  | inr (inr a) ↦ elim (edges p' i' t ed') [
    | inl b ↦ omega arith
    | inr (inl b) ↦ omega arith
    | inr (inr b) ↦ omega arith
  ]
]

tables-IsTree : IsTree ops tables (1 * page_size_4k) rank
tables-IsTree = record {
  ready = page_alloc-IsReady;
  page_size = page_alloc_page;
  root_used = used_page 1 (omega arith);
  self_used = used_page 1 (omega arith);
  root_rank = refl;
  self_rank = refl;
  down = tables-down;
  unique = tables_unique;
}

-- A page of a device at 0x3f201000.
abbrev page : PhysRange
page = record { start = 0x3f201000; end = 0x3f202000 }

abbrev device : Fields
device = ro_kernel_device ops

device-valid : flag ops valid device ≡ true
unfolding ro_kernel_device
device-valid = refl

map_to_lem_example :
    ((s' : Machine Fields) × (e : PageTableError) × (map_to ops resolve tables
          (1 * page_size_4k)
          device
          (physaddr_as_virt 0x3f201000)
          page_4k
        ≡ done (s', err e))
      × Stopped ops s' (1 * page_size_4k) (physaddr_as_virt 0x3f201000) (leaf page_4k) e
      × (s'.entries tables.root 511 ≡ table_entry ops (1 * page_size_4k)))
    ⊎ ((s' : Machine Fields) × (rank' : ℕ → ℕ) × (t : ℕ) × (map_to ops resolve tables
            (1 * page_size_4k)
            device
            (physaddr_as_virt 0x3f201000)
            page_4k
          ≡ done (s', ok tt))
        × Mapped ops tables s'
            (1 * page_size_4k)
            (physaddr_as_virt 0x3f201000)
            rank
            rank'
            page_4k
            device
            t)
unfolding physaddr_as_virt
map_to_lem_example =
    map_to_lem ops lawful mmu tables-IsTree (omega arith)
      (table_entry-target ops lawful 1 (omega arith)) page_4k device (physaddr_as_virt 0x3f201000)
      (λ e. let i0 = (va_index_lem (physaddr_as_virt 0x3f201000)).0 in absurd (omega arith))
      (λ e. absurd (e refl))

map_phys_range_lem_example :
    ((s' : Machine Fields) × (e : PageTableError) × (map_phys_range ops resolve tables
          (1 * page_size_4k)
          page
          device
          page_4k
        ≡ done (s', err e))
      × StoppedAt ops page_4k s'
          (1 * page_size_4k)
          (first_page page (page_bytes page_4k))
          (stop_page page (page_bytes page_4k))
          e)
    ⊎ ((s' : Machine Fields) × (map_phys_range ops resolve tables
            (1 * page_size_4k)
            page
            device
            page_4k
          ≡ done (
            s',
            ok (
              physaddr_as_virt (first_page page (page_bytes page_4k) * page_bytes page_4k),
              physaddr_as_virt ((stop_page page (page_bytes page_4k) - 1) * page_bytes page_4k)
                  + page_bytes page_4k,
            ),
          ))
        × RangeMapped ops page_4k device tables s'
            (1 * page_size_4k)
            (first_page page (page_bytes page_4k))
            (stop_page page (page_bytes page_4k)))
unfolding page_bytes
map_phys_range_lem_example =
    map_phys_range_lem ops page_4k device lawful device-valid (λ e. absurd (e refl)) mmu
      (1 * page_size_4k) (omega arith) tables-IsTree (table_entry-target ops lawful 1 (omega arith))
      page (omega arith) (omega arith)

-- The page of the device, and two megabytes of memory.
abbrev memory_map : List (Mapping Fields)
memory_map =
    record { range = page; flags = device; page_size = page_4k }
    ∷ record {
      range = record { start = 0x400000; end = 0x600000 };
      flags = rw_kernel_data ops;
      page_size = page_2m;
    }
    ∷ []

memory_map-IsMappable : All (IsMappable ops) memory_map
unfolding ro_kernel_device rw_kernel_data page_bytes
memory_map-IsMappable = (
  record {
    is_valid = refl;
    leafy = λ e. absurd (e refl);
    some_bytes = omega arith;
    fits = omega arith;
  },
  (record { is_valid = refl; leafy = λ e. refl; some_bytes = omega arith; fits = omega arith }, tt),
)

memory_map-AllApart : AllApart ops memory_map
unfolding page_bytes
memory_map-AllApart = ((λ k j lo hi lo' hi' le. λ e. absurd (omega arith), tt), (tt, tt))

map_all_lem_example :
    ((map_all ops resolve tables (1 * page_size_4k) memory_map ≡ panic)
      × RefusedAt ops resolve memory_map tables (1 * page_size_4k))
    ⊎ ((s' : Machine Fields) × (map_all ops resolve tables (1 * page_size_4k) memory_map ≡ done s')
        × AllMapped ops memory_map tables s' (1 * page_size_4k))
map_all_lem_example =
    map_all_lem ops lawful mmu (1 * page_size_4k) (omega arith) memory_map tables rank tables-IsTree
      (table_entry-target ops lawful 1 (omega arith)) memory_map-IsMappable memory_map-AllApart

-- A kernel whose device tree is above its image.
abbrev symbols : Symbols
symbols = record {
  eboottext = kzero + 0x90000;
  text = kzero + 0x90000;
  etext = kzero + 0xa0000;
  rodata = kzero + 0xa0000;
  erodata = kzero + 0xb0000;
  kdata = kzero + 0xb0000;
  edata = kzero + 0xc0000;
  bss = kzero + 0xc0000;
  ebss = kzero + 0xd0000;
  kend = kzero + 0xe0000;
  early_pagetables = kzero + 0xd0000;
  eearly_pagetables = kzero + 0xe0000;
}

abbrev region : ℕ → ℕ → PhysRange
region from to = record { start = from; end = to }

custom_map_lem_example :
    (ms : List (Mapping Fields)) × (custom_map ops resolve symbols
        (ok raspberry_pi3)
        (region 0x10_0000 0x11_0000)
      ≡ done ms)
    × StartsFrom 0 ms
    × Perm ms (
        kernel_mappings ops
          (region 0x10_0000 0x11_0000)
          (region 0 0xa_0000)
          (region 0xa_0000 0xc_0000)
          (region 0xc_0000 0xd_0000)
          (region 0x3f00_0000 0x3f40_0000))
unfolding boottext_range text_range rodata_range data_range bss_range from_virt_to_physaddr rpi_mmio
    mmio add with_len
custom_map_lem_example =
    custom_map_lem ops resolve symbols (ok raspberry_pi3) (region 0x10_0000 0x11_0000)
      (region 0 0x9_0000) (region 0x9_0000 0xa_0000) (region 0xa_0000 0xb_0000)
      (region 0xb_0000 0xc_0000) (region 0xc_0000 0xd_0000) (region 0x3f00_0000 0x3f40_0000) refl
      refl refl refl refl refl
