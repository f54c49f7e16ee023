-- ===== src/Allocator/Large.antt =====
-- port/src/allocator.rs: freeing of large blocks, whose headers are kept apart from them.
use r.Common.{
  ℕ, ◌+◌, ◌%◌, ◌^◌, ◌<◌, ◌⊎◌, inl, inr, ==_refl, Option-cases, ◌≡◌, ◌≢◌, refl, ap, ◌∙◌, done, panic,
  Option, none, some, List, length, arith, leb-false, lt→ltb, ==_ne, ◌==◌, get_elem?, set,
}
use r.Allocator.Block.{Layout}
use r.Allocator.Store.{QuickFit, Header, hash, list_fuel}
use r.Allocator.Quick.{adjust, free_at, free, free_misc}
use r.Allocator.Unlink.{Misses}
use r.Allocator.NewHeader.{
  IsFull, own_header, pushed, free_misc-panics, free_misc-null, unlink_allocated_misc-none,
  malloc_64, malloc_64-null,
}

adjust-large :
    (layout : Layout) → 2 ^ 14 < layout.size → adjust layout ≡ (layout.size, layout.align)
unfolding adjust
adjust-large layout large = rw (lt→ltb (2 ^ 14) layout.size large) refl

free-free_misc :
    (block : ℕ) (layout : Layout) (q : QuickFit)
    → block ≢ 0
    → 2 ^ 14 < layout.size
    → free block layout q ≡ free_misc (free_at 1) block layout.size layout.align q
unfolding free free_at
free-free_misc block layout q not_null large =
    let adjusted = adjust-large layout large in
    rw (==_ne block 0 not_null, adjusted)
      (rw (leb-false layout.size (2 ^ 14) large)
        (ap (λ s. free_misc (free_at 1) block s.0 s.1 q) adjusted))

-- For a block that is not null, at a multiple of 64 and not within the last 64 bytes of the
-- address space, and a layout of more than 16384 bytes, when no header of the bucket of the
-- block's hash, a list shorter than the fuel, is for its address, the tail has no room for 64
-- bytes more, and the head of the quick list of 64 bytes, if it has one, is a header for a block
-- that is not null: if it has one, and with it memory for a header, free panics; if the quick
-- list is empty, free puts a header for the rest of the block at the block's own address, in
-- front of the freed large ones, and changes no other header.
pub free-large :
    (block : ℕ) (layout : Layout) (list : Option ℕ) (ps : List ℕ) (top : Option ℕ) (q : QuickFit)
    → block ≢ 0
    → block % 64 ≡ 0
    → block + 64 < 2 ^ 64
    → 2 ^ 14 < layout.size
    → get_elem? q.allocated_misc (hash block) ≡ some list
    → length ps < list_fuel q
    → Misses q.headers (λ node. node.addr == block) list ps none
    → IsFull q.tail
    → get_elem? q.qlists 0 ≡ some top
    → ((p : ℕ) → top ≡ some p → (h : Header) × (q.headers p ≡ some h) × (h.addr ≢ 0))
    → ((p : ℕ) × (top ≡ some p) × (free block layout q ≡ panic))
      ⊎ ((top ≡ none)
          × ((q' : QuickFit) × (free block layout q ≡ done (tt, q'))
              × (q'.misc ≡ some block)
              × (q'.headers block ≡ some (own_header block layout.size q.misc))
              × ((a : ℕ) → a ≢ block → q'.headers a ≡ q.headers a)
              × (q'.tail ≡ q.tail)))
free-large block layout list ps top q not_null aligned fits large bucket f m full at_top heads =
    let k = hash block in
    let q1 = record q { allocated_misc = set (set q.allocated_misc k none) k none } in
    let unlinked = unlink_allocated_misc-none block list ps q bucket f m in
    let start = free-free_misc block layout q not_null large in
    elim (Option-cases top) [
      | inr (p, e) ↦
          let (h, at, some_h) = heads p e in
          inl (
            p,
            e,
            start
                ∙ free_misc-panics block layout.size layout.align h.addr q q1 _ unlinked
                    (malloc_64 p h q1 (at_top ∙ ap some e) at) some_h,
          )
      | inl e ↦
          let emptied = record q1 { qlists = set (set q1.qlists 0 none) 0 none } in
          inr (
            e,
            (
              pushed block layout.size emptied,
              start
                  ∙ free_misc-null block layout.size layout.align q q1 emptied aligned (omega arith)
                      fits unlinked (malloc_64-null q1 full (at_top ∙ ap some e)),
              refl,
              rw (==_refl block) refl,
              λ a ne. rw (==_ne a block ne) refl,
              refl,
            ),
          )
    ]
