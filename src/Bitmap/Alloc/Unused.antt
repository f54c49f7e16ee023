-- ===== src/Bitmap/Alloc/Unused.antt =====
-- port/src/bitmapalloc.rs: `free_unused_ranges`, for ranges of whole pages in order of their starts.
use r.Common.{
  ℕ, ◌*◌, ◌≤◌, ◌<◌, ◌≡◌, refl, sym, ap, ◌∙◌, Bool, true, false, ◌&&◌, ◌||◌, not, List, [], ◌∷◌, map,
  done, ok, arith, ltb, leb, if◌then◌else◌, dec_lt, lt→ltb, ltb-false,
}
use r.Common.Scale.{ltb-mul, later-mul, mul-le}
use r.Mem.{PhysRange}
use r.Bitmap.Alloc.{
  BitmapPageAlloc, mark_free, free_gaps, finish_free, free_unused_ranges, max_bytes,
}
use r.Bitmap.Alloc.Valid.{IsValid, IsValid-restart, allocated, total_pages}
use r.Bitmap.Alloc.Mark.{page_range, mark_range_at}

-- A range of whole pages.
pub record Span : Type 0 where
  pub first : ℕ
  pub stop : ℕ

abbrev pub phys : ℕ → Span → PhysRange
phys ps s = page_range ps s.first s.stop

abbrev pub in_span : ℕ → Span → Bool
in_span p s = leb s.first p && ltb p s.stop

abbrev pub in_any : ℕ → List Span → Bool
in_any p [] = false
in_any p (s ∷ ss) = in_span p s || in_any p ss

-- The spans start in order, from `lo` on, and end by `top`.
abbrev pub IsSortedFrom : ℕ → ℕ → List Span → Type 0
IsSortedFrom lo top [] = Unit
IsSortedFrom lo top (s ∷ ss) =
    (lo ≤ s.first) × (s.first ≤ s.stop) × (s.stop ≤ top) × IsSortedFrom s.first top ss

in_any-below :
    (ss : List Span) (lo top p : ℕ) → IsSortedFrom lo top ss → p < lo → in_any p ss ≡ false
in_any-below [] lo top p h l = refl
in_any-below (s ∷ ss) lo top p h l = ground (arith, in_any-below ss s.first top p h.3 (omega arith))

-- `a'` is `a` with the pages of a set freed, and no other page changed.
pub record Freed (num size : ℕ) (a a' : BitmapPageAlloc) (free : ℕ → Bool) : Type 0 where
  pub valid : IsValid num size a'
  pub same_page : a'.alloc_page_size ≡ a.alloc_page_size
  pub same_end : a'.end ≡ a.end
  pub at :
      (p : ℕ)
      → p < total_pages num size
      → allocated size a' p ≡ (if free p then false else allocated size a p)

-- `mark_free` where there is something to free, as both loops call it.
module _ (num size ps top : ℕ) (top_in : top ≤ total_pages num size) where
  gap_lem :
      (next stop : ℕ) (a : BitmapPageAlloc)
      → IsValid num size a
      → a.alloc_page_size ≡ ps
      → a.end ≡ top * ps
      → stop ≤ top
      → (a' : BitmapPageAlloc) × ((if ltb (next * ps) (stop * ps)
            then mark_free size a (page_range ps next stop)
            else done (a, ok tt))
          ≡ done (a', ok tt))
        × Freed num size a a' (λ p. leb next p && ltb p stop)
  unfolding mark_free
  gap_lem next stop a v same end_at h = elim (dec_lt next stop) [
    | yes l ↦
        let inside : ltb a.end (stop * ps) ≡ false =
          ltb-false _ _ (rw end_at (mul-le stop top ps h)) in
        let (a', e, k) =
          mark_range_at v false next stop (omega arith) (omega arith) true ps same inside in
        (
          a',
          rw (ltb-mul ps (rw same at v.page_pos) next stop, lt→ltb next stop l) e,
          record {
            valid = k.valid;
            same_page = k.same_page;
            same_end = k.same_end;
            at = λ p hp. ground (arith, k.at p hp);
          },
        )
    | no l ↦ (
      a,
      rw (ltb-mul ps (rw same at v.page_pos) next stop, ltb-false next stop (omega arith)) refl,
      record { valid = v; same_page = refl; same_end = refl; at = λ p hp. ground arith },
    )
  ]

  -- What the loop leaves, from the page `next` on.
  record Gaps (a : BitmapPageAlloc) (used : List Span) (next : ℕ) : Type 0 where
    after : BitmapPageAlloc
    reached : ℕ
    returns : free_gaps size a (map (phys ps) used) (next * ps) ≡ done (after, ok (reached * ps))
    from_next : next ≤ reached
    in_top : reached ≤ top
    beyond : (p : ℕ) → reached ≤ p → in_any p used ≡ false
    freed : Freed num size a after (λ p. (leb next p && ltb p reached) && not (in_any p used))

  free_gaps_lem :
      (used : List Span) (lo next : ℕ) (a : BitmapPageAlloc)
      → IsValid num size a
      → a.alloc_page_size ≡ ps
      → a.end ≡ top * ps
      → IsSortedFrom lo top used
      → next ≤ top
      → Gaps a used next
  unfolding free_gaps
  free_gaps_lem [] lo next a v same end_at sorted h = record {
    after = a;
    reached = next;
    returns = refl;
    from_next = omega arith;
    in_top = h;
    beyond = λ p l. refl;
    freed = record { valid = v; same_page = refl; same_end = refl; at = λ p l. ground arith };
  }
  free_gaps_lem (s ∷ ss) lo next a v same end_at sorted h =
      let (b, e, k) = gap_lem next s.first a v same end_at (omega arith) in
      let next' = if ltb next s.stop then s.stop else next in
      let rest =
        free_gaps_lem ss s.first next' b k.valid (k.same_page ∙ same) (k.same_end ∙ end_at) sorted.3
          (ground arith) in
      record {
        after = rest.after;
        reached = rest.reached;
        returns = rw e (rw (later-mul ps (rw same at v.page_pos) next s.stop) rest.returns);
        from_next = ground (arith, rest.from_next);
        in_top = rest.in_top;
        beyond = λ p l. ground (arith, rest.from_next, rest.beyond p l);
        freed = record {
          valid = rest.freed.valid;
          same_page = rest.freed.same_page ∙ k.same_page;
          same_end = rest.freed.same_end ∙ k.same_end;
          at = λ p l. ground (
            arith,
            k.at p l,
            rest.freed.at p l,
            rest.from_next,
            in_any-below ss s.first top p sorted.3,
          );
        };
      }

-- The pages that are to be free when `free_unused_ranges` is done.
abbrev pub unused : Span → List Span → ℕ → Bool
unused available used p = in_span p available && not (in_any p used)

-- What `free_unused_ranges` leaves.
pub record Settled (num size : ℕ) (a a' : BitmapPageAlloc) (available : Span) (used : List Span)
    : Type 0 where
  pub valid : IsValid num size a'
  pub same_page : a'.alloc_page_size ≡ a.alloc_page_size
  pub new_end : a'.end ≡ available.stop * a.alloc_page_size
  pub from_start : a'.next_pa_to_scan ≡ 0
  pub at :
      (p : ℕ)
      → p < total_pages num size
      → allocated size a' p ≡ (
          if leb available.stop p
          then true
          else if unused available used p
          then false
          else allocated size a p)

module _ (num size ps top : ℕ) (top_in : top ≤ total_pages num size) where
  pub max_bytes_lem :
      (a : BitmapPageAlloc)
      → a.alloc_page_size ≡ ps
      → max_bytes num size a ≡ total_pages num size * ps
  max_bytes_lem a same = rw same (grind arith)

  finish_free_lem :
      (available : Span) (used : List Span) (a : BitmapPageAlloc)
      → a.alloc_page_size ≡ ps
      → available.stop ≤ top
      → a.end ≡ top * ps
      → (g : Gaps num size ps top top_in a used available.first)
      → (a' : BitmapPageAlloc) × (finish_free num size g.after (phys ps available) (g.reached * ps)
          ≡ done (a', ok tt))
        × Settled num size a a' available used
  unfolding finish_free
  finish_free_lem available used a same within end_at g =
      let same' = g.freed.same_page ∙ same in
      let (b, e, k) =
        gap_lem num size ps top top_in g.reached available.stop g.after g.freed.valid same'
          (g.freed.same_end ∙ end_at) within in
      let same_b = k.same_page ∙ same' in
      let room : available.stop * ps ≤ total_pages num size * b.alloc_page_size =
        rw same_b (mul-le available.stop (total_pages num size) ps (omega arith)) in
      let ended = record b { end = available.stop * ps } in
      let (c, e', k') =
        mark_range_at (IsValid-restart (available.stop * ps) b.next_pa_to_scan k.valid room) true
          available.stop (total_pages num size) (omega arith) (omega arith) false ps same_b refl in
      (
        record c { next_pa_to_scan = 0 },
        rw e (rw (max_bytes_lem ended same_b) (rw e' refl)),
        record {
          valid = IsValid-restart c.end 0 k'.valid k'.valid.end_in;
          same_page = k'.same_page ∙ k.same_page ∙ g.freed.same_page;
          new_end = k'.same_end ∙ ap (λ n. available.stop * n) (sym same);
          from_start = refl;
          at = λ p l. ground (arith, k'.at p l, k.at p l, g.freed.at p l, g.from_next, g.beyond p);
        },
      )

  -- For whole pages in order, below the old end: `free_unused_ranges` returns without an error, the
  -- pages of the available range that no used range covers are free, all pages past it are marked as
  -- allocated, and every other page is as before.
  pub free_unused_ranges_lem :
      (available : Span) (used : List Span) (a : BitmapPageAlloc)
      → IsValid num size a
      → a.alloc_page_size ≡ ps
      → a.end ≡ top * ps
      → available.first ≤ top
      → available.stop ≤ top
      → IsSortedFrom 0 top used
      → (a' : BitmapPageAlloc) × (free_unused_ranges num size a
            (phys ps available)
            (map (phys ps) used)
          ≡ done (a', ok tt))
        × Settled num size a a' available used
  unfolding free_unused_ranges
  free_unused_ranges_lem available used a v same end_at first_in stop_in sorted =
      let g =
        free_gaps_lem num size ps top top_in used 0 available.first a v same end_at sorted
          first_in in
      let (a', e, s) = finish_free_lem available used a same stop_in end_at g in
      (a', rw g.returns e, s)
