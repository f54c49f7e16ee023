-- ===== src/Aarch64/Vm/Pages.antt =====
-- aarch64/src/vm.rs: the loop of `map_phys_range`, which maps page after page.
use r.Common.{
  ℕ, zero, suc, ◌+◌, ◌-◌, ◌*◌, ◌/◌, ◌%◌, ◌^◌, ◌<◌, ◌≤◌, ◌≡◌, ◌≢◌, ◌⊎◌, refl, sym, ap, ◌==◌, ◌∙◌,
  true, false, Option, none, some, inl, inr, arith, done, ok, err, ℕ_discrete, subst, lt→ltb,
}
use r.Common.Scale.{div-mul_self}
use r.Common.Word.{add64, u64_mod, is_power_of_two}
use r.Mem.Walk.{pages}
use r.Aarch64.Kmem.{physaddr_as_virt, kzero}
use r.Aarch64.Vm.{PageSize, page_4k, page_2m, page_1g, page_bytes}
use r.Aarch64.Vm.Entry.{EntryOps, IsLawful, valid, page_or_table, addr, flag, with_phys_addr}
use r.Aarch64.Vm.Table.{Machine, PageTableError, leaf_entry, map_pages}
use r.Aarch64.Vm.Walk.{child, IsTree, IsMmu}
use r.Aarch64.Vm.Map.{leaf}
use r.Aarch64.Vm.Next.{Stopped}
use r.Aarch64.Vm.Install.{Mapped, map_to_lem}
use r.Aarch64.Vm.Apart.{window_size, window-low}
use r.Aarch64.Vm.Kept.{IsMapped, IsApart, IsMapped-kept}

-- The first address that the loop collects, and the last.
abbrev pub starts : ℕ → ℕ → ℕ → Option ℕ → Option ℕ
starts step q zero startva = startva
starts step q (suc n) startva =
    starts step (q + 1) n
      (elim startva [ none ↦ some (physaddr_as_virt (q * step)) | some va ↦ some va ])

abbrev pub stops : ℕ → ℕ → ℕ → ℕ → ℕ
stops step q zero endva = endva
stops step q (suc n) endva = stops step (q + 1) n (physaddr_as_virt (q * step) + step)

pub starts-some : (step q n v : ℕ) → starts step q n (some v) ≡ some v
starts-some step q zero v = refl
starts-some step q (suc n) v = starts-some step (q + 1) n v

pub stops-suc : (step q n v : ℕ) → stops step q (suc n) v ≡ physaddr_as_virt ((q + n) * step) + step
stops-suc step q zero v = ap (λ k. physaddr_as_virt (k * step) + step) (omega arith)
stops-suc step q (suc n) v =
    stops-suc step (q + 1) n (physaddr_as_virt (q * step) + step)
    ∙ ap (λ k. physaddr_as_virt (k * step) + step) (omega arith)

next_va :
    (size : PageSize) (pa : ℕ)
    → pa < window_size
    → add64 (physaddr_as_virt pa) (page_bytes size) ≡ done (physaddr_as_virt pa + page_bytes size)
unfolding physaddr_as_virt page_bytes
next_va page_4k pa h = rw (lt→ltb ((pa + kzero) % u64_mod + 4096) u64_mod (omega arith)) refl
next_va page_2m pa h = rw (lt→ltb ((pa + kzero) % u64_mod + 2097152) u64_mod (omega arith)) refl
next_va page_1g pa h = rw (lt→ltb ((pa + kzero) % u64_mod + 1073741824) u64_mod (omega arith)) refl

page_bytes-pos : (size : PageSize) → 0 < page_bytes size
unfolding page_bytes
page_bytes-pos page_4k = omega arith
page_bytes-pos page_2m = omega arith
page_bytes-pos page_1g = omega arith

-- The pages of a range that is not empty and ends within the window.
pub range_lem :
    (size : PageSize) (start end : ℕ)
    → start < end
    → end + page_bytes size < window_size
    → (is_power_of_two (page_bytes size) ≡ true)
      × (start / page_bytes size < (end + page_bytes size - 1) / page_bytes size)
      × ((k : ℕ)
          → k < (end + page_bytes size - 1) / page_bytes size
          → k * page_bytes size < window_size)
unfolding page_bytes is_power_of_two
range_lem page_4k start end h f = (refl, omega arith, λ k l. omega arith)
range_lem page_2m start end h f = (refl, omega arith, λ k l. omega arith)
range_lem page_1g start end h f = (refl, omega arith, λ k l. omega arith)

leaf-valid :
    {E : Type 0} (ops : EntryOps E)
    → IsLawful ops
    → (size : PageSize) (e : E) → ops.get valid (leaf_entry ops e size) ≡ ops.get valid e
leaf-valid ops lawful page_4k e = lawful.get-put_other page_or_table valid 1 e (λ e. cc e)
leaf-valid ops lawful page_2m e = refl
leaf-valid ops lawful page_1g e = refl

module _ {E : Type 0} (ops : EntryOps E) where
  -- The page stays mapped if the entry is valid.
  abbrev pub IsValidLeaf : PageSize → E → ℕ → Type 0
  IsValidLeaf size entry pa =
      flag ops valid (leaf_entry ops (with_phys_addr ops pa entry) size) ≡ true

  -- The pages from `first` up to `stop` are mapped by an entry, the tables are a tree, and a page that was
  -- mapped, of whatever size, stays so if it is apart from all of them.
  pub record RangeMapped (size : PageSize) (entry : E) (s s' : Machine E) (self first stop : ℕ)
      : Type 0 where
    pub rank : ℕ → ℕ
    pub tree : IsTree ops s' self rank
    pub at_self : child ops s' self 511 ≡ some self
    pub mapped :
        (k : ℕ) → first ≤ k → k < stop → IsMapped ops size entry s' self (k * page_bytes size)
    pub old :
        (size0 : PageSize) (entry0 : E) (pa : ℕ)
        → pa < window_size
        → IsValidLeaf size0 entry0 pa
        → ((k : ℕ) → first ≤ k → k < stop → IsApart size0 pa size k)
        → IsMapped ops size0 entry0 s self pa
        → IsMapped ops size0 entry0 s' self pa

  -- One of the pages has no place.
  abbrev pub StoppedAt : PageSize → Machine E → ℕ → ℕ → ℕ → PageTableError → Type 0
  StoppedAt size s' self first stop e =
      (k : ℕ) × (first ≤ k)
      × (k < stop)
      × Stopped ops s' self (physaddr_as_virt (k * page_bytes size)) (leaf size) e

module _ {E : Type 0} (ops : EntryOps E) (size : PageSize) (entry : E) where
  module _ (lawful : IsLawful ops) (is_valid : flag ops valid entry ≡ true)
      (leafy : size ≢ page_4k → flag ops page_or_table entry ≡ false) where
    pub valid_leaf :
        (pa : ℕ) → flag ops valid (leaf_entry ops (with_phys_addr ops pa entry) size) ≡ true
    unfolding with_phys_addr
    valid_leaf pa =
        ap (λ n. n == 1)
          (leaf-valid ops lawful size _
            ∙ lawful.get-put_other addr valid (pa / 2 ^ 12) entry (λ e. cc e))
        ∙ is_valid

    leafy_leaf :
        (pa : ℕ) → size ≢ page_4k → flag ops page_or_table (with_phys_addr ops pa entry) ≡ false
    unfolding with_phys_addr
    leafy_leaf pa h =
        rw (lawful.get-put_other addr page_or_table (pa / 2 ^ 12) entry (λ e. cc e)) (leafy h)

    page_of_address : (k : ℕ) → k * page_bytes size / page_bytes size ≡ k
    page_of_address k = div-mul_self (page_bytes size) (page_bytes-pos size) k

    -- The first page of the loop and those behind it.
    after :
        (n q self : ℕ) {s s1 s' : Machine E} {rank rank1 : ℕ → ℕ} {t : ℕ}
        → IsTree ops s self rank
        → q * page_bytes size < window_size
        → Mapped ops s s1 self
            (physaddr_as_virt (q * page_bytes size))
            rank
            rank1
            size
            (with_phys_addr ops (q * page_bytes size) entry)
            t
        → RangeMapped ops size entry s1 s' self (q + 1) (q + 1 + n)
        → RangeMapped ops size entry s s' self q (q + suc n)
    after n q self {s} {s1} {s'} {rank} {rank1} {t} tree here m r = record {
      rank = r.rank;
      tree = r.tree;
      at_self = r.at_self;
      mapped = λ k lo hi. elim (ℕ_discrete k q) [
        | yes e ↦
            subst (λ j. IsMapped ops size entry s' self (j * page_bytes size)) (sym e)
              (r.old size entry (q * page_bytes size) here (valid_leaf (q * page_bytes size))
                (λ k' lo' hi' le same.
                  let e' = sym (page_of_address q) ∙ same in absurd (omega arith))
                (t, m.found, m.written))
        | no ne ↦ r.mapped k (omega arith) (omega arith)
      ];
      old = λ size0 entry0 pa h v apart mk.
          r.old size0 entry0 pa h v (λ k lo hi. apart k (omega arith) (omega arith))
            (IsMapped-kept ops tree size0 pa (q * page_bytes size) h here
              (λ le same. apart q (omega arith) (omega arith) le (same ∙ page_of_address q)) m
              entry0 v mk);
    }

    module _ {resolve : Machine E → ℕ → Option ℕ} (mmu : IsMmu ops resolve) (self : ℕ)
        (small : self < 2 ^ 48) where
      pub map_pages_lem :
          (n q : ℕ) (s : Machine E) (rank : ℕ → ℕ)
          → ((k : ℕ) → k < q + n → k * page_bytes size < window_size)
          → IsTree ops s self rank
          → child ops s self 511 ≡ some self
          → (startva : Option ℕ) (endva : ℕ)
          → ((s' : Machine E) × (e : PageTableError) × (map_pages ops resolve s self entry size
                  (pages (page_bytes size) q n)
                  startva
                  endva
                ≡ done (s', err e))
              × StoppedAt ops size s' self q (q + n) e)
            ⊎ ((s' : Machine E) × (map_pages ops resolve s self entry size
                    (pages (page_bytes size) q n)
                    startva
                    endva
                  ≡ done (
                    s',
                    ok (starts (page_bytes size) q n startva, stops (page_bytes size) q n endva),
                  ))
                × RangeMapped ops size entry s s' self q (q + n))
      unfolding map_pages
      map_pages_lem zero q s rank bound tree at_self startva endva = inr (
        s,
        refl,
        record {
          rank = rank;
          tree = tree;
          at_self = at_self;
          mapped = λ k lo hi. absurd (omega arith);
          old = λ size0 entry0 pa h v apart m. m;
        },
      )
      map_pages_lem (suc n) q s rank bound tree at_self startva endva =
          let pa = q * page_bytes size in
          let here : pa < window_size = bound q (omega arith) in
          elim (map_to_lem ops lawful mmu tree small at_self size (with_phys_addr ops pa entry)
            (physaddr_as_virt pa) (window-low pa here) (leafy_leaf pa)) [
              | inl (s1, e, eq, x, _) ↦ inl (s1, e, rw eq refl, (q, omega arith, omega arith, x))
              | inr (s1, rank1, t, eq, m) ↦
                  elim (map_pages_lem n (q + 1) s1 rank1 (λ k l. bound k (omega arith)) m.tree
                    m.at_self
                    (elim startva [ none ↦ some (physaddr_as_virt pa) | some va ↦ some va ])
                    (physaddr_as_virt pa + page_bytes size)) [
                      | inl (s', e, eq', (k, lo, hi, x)) ↦ inl (
                        s',
                        e,
                        rw (eq, next_va size pa here) eq',
                        (k, omega arith, omega arith, x),
                      )
                      | inr (s', eq', r) ↦
                          inr (s', rw (eq, next_va size pa here) eq', after n q self tree here m r)
                    ]
            ]
