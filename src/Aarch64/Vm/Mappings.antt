-- ===== src/Aarch64/Vm/Mappings.antt =====
-- aarch64/src/vm.rs: the loop of `init` over its map.
use r.Common.{
  ℕ, Option, ◌+◌, ◌*◌, ◌^◌, ◌<◌, ◌≤◌, ◌≡◌, ◌≢◌, ◌⊎◌, refl, true, false, some, inl, inr, arith, List,
  [], ◌∷◌, ◌++◌, All, done, panic, ok, err, ap, subst,
}
use r.Mem.Walk.{first_page, stop_page}
use r.Aarch64.Vm.{PageSize, page_4k, page_bytes}
use r.Aarch64.Vm.Entry.{EntryOps, IsLawful, valid, page_or_table, flag}
use r.Aarch64.Vm.Table.{Machine, PageTableError, map_phys_range}
use r.Aarch64.Vm.Walk.{child, IsTree, IsMmu}
use r.Aarch64.Vm.Apart.{window_size}
use r.Aarch64.Vm.Kept.{IsMapped, IsApart}
use r.Aarch64.Vm.Pages.{range_lem, valid_leaf, IsValidLeaf, RangeMapped, StoppedAt}
use r.Aarch64.Vm.Range.{map_phys_range_lem}
use r.Aarch64.Vm.Init.{Mapping, map_all}

All-prefix : {A : Type 0} (P : A → Type 0) (xs ys : List A) → All P (xs ++ ys) → All P xs
All-prefix P [] ys h = tt
All-prefix P (x ∷ xs) ys h = (h.0, All-prefix P xs ys h.1)

module _ {E : Type 0} (ops : EntryOps E) where
  -- The pages of a mapping, by their numbers.
  abbrev pub first_of : Mapping E → ℕ
  first_of m = first_page m.range (page_bytes m.page_size)

  abbrev pub stop_of : Mapping E → ℕ
  stop_of m = stop_page m.range (page_bytes m.page_size)

  -- A range that is not empty and ends within the window, and an entry for pages.
  pub record IsMappable (m : Mapping E) : Type 0 where
    pub is_valid : flag ops valid m.flags ≡ true
    pub leafy : m.page_size ≢ page_4k → flag ops page_or_table m.flags ≡ false
    pub some_bytes : m.range.start < m.range.end
    pub fits : m.range.end + page_bytes m.page_size < window_size

  -- No page of the later mapping covers one of the earlier.
  abbrev pub AreApart : Mapping E → Mapping E → Type 0
  AreApart m later =
      (k j : ℕ)
      → first_of m ≤ k
      → k < stop_of m
      → first_of later ≤ j
      → j < stop_of later
      → IsApart m.page_size (k * page_bytes m.page_size) later.page_size j

  abbrev pub AllApart : List (Mapping E) → Type 0
  AllApart [] = Unit {0}
  AllApart (m ∷ ms) = All (AreApart m) ms × AllApart ms

  abbrev pub HasPages : Machine E → ℕ → Mapping E → Type 0
  HasPages s self m =
      (k : ℕ)
      → first_of m ≤ k
      → k < stop_of m
      → IsMapped ops m.page_size m.flags s self (k * page_bytes m.page_size)

  -- A page that no page of the mapping covers.
  abbrev pub IsOutside : PageSize → ℕ → Mapping E → Type 0
  IsOutside size pa m = (k : ℕ) → first_of m ≤ k → k < stop_of m → IsApart size pa m.page_size k

  -- All pages of all mappings are mapped, in a tree of tables, and no other page has lost its entry.
  pub record AllMapped (ms : List (Mapping E)) (s s' : Machine E) (self : ℕ) : Type 0 where
    pub rank : ℕ → ℕ
    pub tree : IsTree ops s' self rank
    pub at_self : child ops s' self 511 ≡ some self
    pub mapped : All (HasPages s' self) ms
    pub old :
        (size0 : PageSize) (entry0 : E) (pa : ℕ)
        → pa < window_size
        → IsValidLeaf ops size0 entry0 pa
        → All (IsOutside size0 pa) ms
        → IsMapped ops size0 entry0 s self pa
        → IsMapped ops size0 entry0 s' self pa

  -- Where the loop stops: the mappings `before` have been mapped, which leaves the machine `reached`, and there
  -- the next one is refused, because of the error at which the walk for one of its pages stops.
  pub record RefusedAt (resolve : Machine E → ℕ → Option ℕ) (ms : List (Mapping E)) (s : Machine E)
      (self : ℕ) : Type 0 where
    pub before : List (Mapping E)
    pub mapping : Mapping E
    pub later : List (Mapping E)
    pub of_map : ms ≡ before ++ (mapping ∷ later)
    pub reached : Machine E
    pub runs : map_all ops resolve s self before ≡ done reached
    pub so_far : AllMapped before s reached self
    pub state : Machine E
    pub error : PageTableError
    pub refused :
        map_phys_range ops resolve reached self mapping.range mapping.flags mapping.page_size
        ≡ done (state, err error)
    pub stopped :
        StoppedAt ops mapping.page_size state self (first_of mapping) (stop_of mapping) error

  module _ (lawful : IsLawful ops) {resolve : Machine E → ℕ → Option ℕ} (mmu : IsMmu ops resolve)
      (self : ℕ) (small : self < 2 ^ 48) where
    after :
        {m : Mapping E} {ms : List (Mapping E)} {s s1 s' : Machine E}
        → IsMappable m
        → All (AreApart m) ms
        → RangeMapped ops m.page_size m.flags s s1 self (first_of m) (stop_of m)
        → AllMapped ms s1 s' self
        → AllMapped (m ∷ ms) s s' self
    after {m} {ms} ok_m apart r rest = record {
      rank = rest.rank;
      tree = rest.tree;
      at_self = rest.at_self;
      mapped = (
        λ k lo hi.
            rest.old m.page_size m.flags (k * page_bytes m.page_size)
              ((range_lem m.page_size m.range.start m.range.end ok_m.some_bytes ok_m.fits).2 k
                (omega arith))
              (valid_leaf ops m.page_size m.flags lawful ok_m.is_valid ok_m.leafy
                (k * page_bytes m.page_size))
              (outside k lo hi ms apart) (r.mapped k lo hi),
        rest.mapped,
      );
      old = λ size0 entry0 pa h v out mk.
          rest.old size0 entry0 pa h v out.1 (r.old size0 entry0 pa h v out.0 mk);
    }
      where
        outside :
            (k : ℕ)
            → first_of m ≤ k
            → k < stop_of m
            → (ls : List (Mapping E)) → All (AreApart m) ls
            → All (IsOutside m.page_size (k * page_bytes m.page_size)) ls
        outside k lo hi [] a = a
        outside k lo hi (l ∷ ls) a = (λ j lo' hi'. a.0 k j lo hi lo' hi', outside k lo hi ls a.1)

    -- The empty map leaves the tables as they are.
    none_mapped :
        (s : Machine E) (rank : ℕ → ℕ)
        → IsTree ops s self rank
        → child ops s self 511 ≡ some self
        → AllMapped [] s s self
    none_mapped s rank tree at_self = record {
      rank = rank;
      tree = tree;
      at_self = at_self;
      mapped = tt;
      old = λ size0 entry0 pa h v out mk. mk;
    }

    -- A mapping more in front of those that are mapped before the loop stops.
    one_more :
        {m : Mapping E} {ms : List (Mapping E)} {s s1 : Machine E} {ends : ℕ × ℕ}
        → IsMappable m
        → All (AreApart m) ms
        → map_phys_range ops resolve s self m.range m.flags m.page_size ≡ done (s1, ok ends)
        → RangeMapped ops m.page_size m.flags s s1 self (first_of m) (stop_of m)
        → RefusedAt resolve ms s1 self
        → RefusedAt resolve (m ∷ ms) s self
    unfolding map_all
    one_more {m} ok_m apart eq r p = record {
      before = m ∷ p.before;
      mapping = p.mapping;
      later = p.later;
      of_map = ap (λ l. m ∷ l) p.of_map;
      reached = p.reached;
      runs = rw eq p.runs;
      so_far =
          after ok_m
            (All-prefix (AreApart m) p.before (p.mapping ∷ p.later)
              (subst (All (AreApart m)) p.of_map apart))
            r p.so_far;
      state = p.state;
      error = p.error;
      refused = p.refused;
      stopped = p.stopped;
    }

    -- For mappings whose ranges are not empty and end a page before the end of the window, whose
    -- entries are valid and, at a size above 4k, not flagged as ones for tables, and no page of
    -- which covers one of an earlier mapping, in a tree of tables below the table self, which
    -- lies below 2 ^ 48 and whose last entry points to itself: the loop of init ends with all
    -- pages of all mappings mapped, in a tree of tables, and every page that was mapped and that
    -- none of them covers still mapped; or it panics, and then some first mappings have been
    -- mapped so, and in the tables that this leaves map_phys_range refuses the next one, since
    -- the walk for one of its pages stops, in the tables that the refused call leaves, at an
    -- entry for a page, or at an invalid one when every page is allocated.
    pub map_all_lem :
        (ms : List (Mapping E)) (s : Machine E) (rank : ℕ → ℕ)
        → IsTree ops s self rank
        → child ops s self 511 ≡ some self
        → All IsMappable ms
        → AllApart ms
        → ((map_all ops resolve s self ms ≡ panic) × RefusedAt resolve ms s self)
          ⊎ ((s' : Machine E) × (map_all ops resolve s self ms ≡ done s') × AllMapped ms s s' self)
    unfolding map_all
    map_all_lem [] s rank tree at_self good apart = inr (s, refl, none_mapped s rank tree at_self)
    map_all_lem (m ∷ ms) s rank tree at_self good apart =
        let g = good.0 in
        elim (map_phys_range_lem ops m.page_size m.flags lawful g.is_valid g.leafy mmu self small
          tree at_self m.range g.some_bytes g.fits) [
            | inl (s1, e, eq, x) ↦ inl (
              rw eq refl,
              record {
                before = [];
                mapping = m;
                later = ms;
                of_map = refl;
                reached = s;
                runs = refl;
                so_far = none_mapped s rank tree at_self;
                state = s1;
                error = e;
                refused = eq;
                stopped = x;
              },
            )
            | inr (s1, eq, r) ↦ elim (map_all_lem ms s1 r.rank r.tree r.at_self good.1 apart.1) [
              | inl (eq', p) ↦ inl (rw eq eq', one_more g apart.0 eq r p)
              | inr (s', eq', rest) ↦ inr (s', rw eq eq', after g apart.0 r rest)
            ]
          ]
