-- ===== src/Allocator/Reuse.antt =====
-- port/src/allocator.rs: a small block that is freed is the next one that its list gives out.
use r.Common.{
  ℕ, suc, ◌-◌, ◌/◌, ◌%◌, ◌^◌, ◌≡◌, ◌≢◌, refl, ap, ◌∙◌, true, done, panic, Option, none, some, arith,
  leb, le→leb, ◌==◌, ==_refl, ==_ne, length-set, get_elem?, set, get_elem?-set_self, set-set,
  set-get_elem?, length_of_get_elem?,
}
use r.Common.Word.{is_power_of_two, assert}
use r.Allocator.Block.{Layout, align_offset}
use r.Allocator.Store.{
  QuickFit, Header, M, ◌>>=◌, ◌>>◌, pure, lift, update, load, store, unlink, unlink_loop, head,
  list_fuel, get_qlist, set_qlist,
}
use r.Allocator.Quick.{
  adjust, quick_index, alloc_quick, alloc_tail, free_at, free, malloc_with, malloc,
}
use r.Allocator.Steps.{step, load_lem}
use r.Allocator.Fit.{IsQuick, quick_index_lem, pow_le}

get_qlist_lem :
    (i : ℕ) {l : Option ℕ} (q : QuickFit)
    → get_elem? q.qlists i ≡ some l
    → get_qlist i q ≡ done (l, q)
unfolding get_qlist
get_qlist_lem i q e = ap (λ o. elim o [ none ↦ panic | some l ↦ done (l, q) ]) e

-- The head of a list that is not empty is unlinked: it is returned with the rest of the list, and its
-- own link is cleared.
head_lem :
    (p : ℕ) (h : Header) (q : QuickFit)
    → q.headers p ≡ some h
    → head (some p) q
      ≡ done
          ((some p, h.next), record q { headers = update q.headers p (record h { next = none }) })
unfolding head unlink unlink_loop store
head_lem p h q e =
    let fuel : list_fuel q ≡ suc (suc (q.tail.arena.len / 64)) = omega arith in
    ap (λ n. unlink_loop (λ _. true) n none (some p) q) fuel
    ∙ step (load p) (λ h. store p (record h { next = none }) >>= λ _. pure (some p, h.next)) q
        (load_lem p q e)

head-none : (q : QuickFit) → head none q ≡ done ((none, none), q)
unfolding head unlink unlink_loop
head-none q =
    let fuel : list_fuel q ≡ suc (suc (q.tail.arena.len / 64)) = omega arith in
    ap (λ n. unlink_loop (λ _. true) n none none q) fuel

-- Allocating from the quick list of the blocks of 2 ^ k bytes.
module _ (k : ℕ) (quick : IsQuick k) where
  small : leb (2 ^ k) (2 ^ 14) ≡ true
  small = let (low, high) = quick in le→leb (2 ^ k) (2 ^ 14) (pow_le k 14 high)

  -- What `alloc_quick` does with the head of the list, once it knows the list.
  give : Option ℕ × Option ℕ → M (Option ℕ)
  give r = do
    set_qlist (k - 6) r.1
    elim r.0 [ none ↦ pure none | some p ↦ load p >>= λ h. pure (some h.addr) ]

  take : Option ℕ → M (Option ℕ)
  take l = do set_qlist (k - 6) none; r ← head l; give r

  pop : ℕ → M (Option ℕ)
  pop k = do
    qlist ← get_qlist k
    set_qlist k none
    r ← head qlist
    set_qlist k r.1
    elim r.0 [ none ↦ pure none | some p ↦ load p >>= λ h. pure (some h.addr) ]

  alloc_quick-pop : (q : QuickFit) → alloc_quick (2 ^ k) (2 ^ k) q ≡ (quick_index (2 ^ k) >>= pop) q
  unfolding alloc_quick pop
  alloc_quick-pop q = rw (small, ==_refl (2 ^ k)) refl

  -- The allocator after the head of the list was taken.
  abbrev pub popped : ℕ → Header → QuickFit → QuickFit
  popped p h q = record q {
    headers = update q.headers p (record h { next = none });
    qlists = set (set q.qlists (k - 6) none) (k - 6) h.next;
  }

  pub alloc_quick_lem :
      (p : ℕ) (h : Header) (q : QuickFit)
      → get_elem? q.qlists (k - 6) ≡ some (some p)
      → q.headers p ≡ some h
      → alloc_quick (2 ^ k) (2 ^ k) q ≡ done (some h.addr, popped p h q)
  unfolding pop take give set_qlist
  alloc_quick_lem p h q top at =
      let emptied = record q { qlists = set q.qlists (k - 6) none } in
      let mine : (popped p h q).headers p ≡ some (record h { next = none }) = rw (==_refl p) refl in
      alloc_quick-pop q
      ∙ step (quick_index (2 ^ k)) pop q (quick_index_lem k q quick)
      ∙ step (get_qlist (k - 6)) take q (get_qlist_lem (k - 6) q top)
      ∙ step (head (some p)) give emptied (head_lem p h emptied at)
      ∙ step (load p) (λ h. pure (some h.addr)) (popped p h q) (load_lem p (popped p h q) mine)

  -- From an empty list nothing is taken.
  pub alloc_quick-none :
      (q : QuickFit)
      → get_elem? q.qlists (k - 6) ≡ some none
      → alloc_quick (2 ^ k) (2 ^ k) q
        ≡ done (none, record q { qlists = set (set q.qlists (k - 6) none) (k - 6) none })
  unfolding pop take give set_qlist
  alloc_quick-none q top =
      let emptied = record q { qlists = set q.qlists (k - 6) none } in
      alloc_quick-pop q
      ∙ step (quick_index (2 ^ k)) pop q (quick_index_lem k q quick)
      ∙ step (get_qlist (k - 6)) take q (get_qlist_lem (k - 6) q top)
      ∙ step (head none) give emptied (head-none emptied)

module _ (layout : Layout) (k block : ℕ) (quick : IsQuick k)
    (fitted : adjust layout ≡ (2 ^ k, 2 ^ k)) (not_null : block ≢ 0)
    (aligned : block % 64 ≡ 0) where
  abbrev i : ℕ
  i = k - 6

  abbrev header : Option ℕ → Header
  header next = record { next = next; addr = block; size = 2 ^ k; align = 2 ^ k }

  -- The allocator after the block was freed.
  abbrev freed : Option ℕ → QuickFit → QuickFit
  freed next q = record q {
    headers = update q.headers block (header next);
    qlists = set (set q.qlists i none) i (some block);
  }

  -- What `free` does once it knows the list, and once it has read the list's head.
  link : Option ℕ → ℕ → M (Unit {0})
  link next offset = do
    lift (assert (offset == 0))
    store block (header next)
    set_qlist i (some block)

  check : Option ℕ → M (Unit {0})
  check next = do set_qlist i none; offset ← lift (align_offset block 64); link next offset

  push : ℕ → M (Unit {0})
  push k = do
    next ← get_qlist k
    set_qlist k none
    offset ← lift (align_offset block 64)
    lift (assert (offset == 0))
    store block (header next)
    set_qlist k (some block)

  free-push :
      (d : ℕ) (q : QuickFit) → free_at (suc d) block layout q ≡ (quick_index (2 ^ k) >>= push) q
  unfolding free_at push
  free-push d q = rw (==_ne block 0 not_null, fitted) (rw (small k quick, ==_refl (2 ^ k)) refl)

  offset_lem : align_offset block 64 ≡ done 0
  unfolding align_offset is_power_of_two
  offset_lem = rw aligned refl

  free_lem :
      (d : ℕ) (next : Option ℕ) (q : QuickFit)
      → get_elem? q.qlists i ≡ some next
      → free_at (suc d) block layout q ≡ done (tt, freed next q)
  unfolding push check link set_qlist store
  free_lem d next q e =
      let emptied = record q { qlists = set q.qlists i none } in
      free-push d q
      ∙ step (quick_index (2 ^ k)) push q (quick_index_lem k q quick)
      ∙ step (get_qlist i) check q (get_qlist_lem i q e)
      ∙ step (lift (align_offset block 64)) (link next) emptied
          (ap (λ r. lift r emptied) offset_lem)

  -- The allocator after the block was taken from its list again.
  abbrev reused : Option ℕ → QuickFit → QuickFit
  reused next q = record q {
    headers = update (update q.headers block (header next)) block (header none);
  }

  pop_lem :
      (next : Option ℕ) (q : QuickFit)
      → get_elem? q.qlists i ≡ some next
      → alloc_quick (2 ^ k) (2 ^ k) (freed next q) ≡ done (some block, reused next q)
  pop_lem next q e =
      let at = length_of_get_elem? q.qlists i next e in
      let top : get_elem? (freed next q).qlists i ≡ some (some block) =
        get_elem?-set_self (set q.qlists i none) i (some block)
          (rw (length-set q.qlists i none) at) in
      let lists : set (set (freed next q).qlists i none) i next ≡ q.qlists =
        set-set (freed next q).qlists i none next
        ∙ set-set (set q.qlists i none) i (some block) next
        ∙ set-set q.qlists i none next
        ∙ set-get_elem? q.qlists i next e in
      let mine : (freed next q).headers block ≡ some (header next) = rw (==_refl block) refl in
      alloc_quick_lem k quick block (header next) (freed next q) top mine
      ∙ ap (λ l. done (some block, record (reused next q) { qlists = l })) lists

  found : Option ℕ → M ℕ
  found p = elim p [
    | some a ↦ pure a
    | none ↦ do
      t ← alloc_tail (free_at 1) (adjust layout).0 (adjust layout).1
      pure (elim t [ none ↦ 0 | some a ↦ a ])
  ]

  malloc-found :
      (q : QuickFit)
      → malloc layout q ≡ (alloc_quick (adjust layout).0 (adjust layout).1 >>= found) q
  unfolding malloc malloc_with found
  malloc-found q = refl

  -- A block that is not null, at a multiple of 64, freed under a layout that adjust gives a power
  -- of two from 64 to 16384 as size and as alignment, and for which there is a quick list, is
  -- what the next malloc of that layout returns, and the two calls together leave the lists, the
  -- tail and all other headers as they were.
  pub malloc-free :
      (next : Option ℕ) (q : QuickFit)
      → get_elem? q.qlists i ≡ some next
      → (q' q'' : QuickFit) × (free block layout q ≡ done (tt, q'))
        × (malloc layout q' ≡ done (block, q''))
        × (q''.qlists ≡ q.qlists)
        × (q''.misc ≡ q.misc)
        × (q''.allocated_misc ≡ q.allocated_misc)
        × (q''.tail ≡ q.tail)
        × ((a : ℕ) → a ≢ block → q''.headers a ≡ q.headers a)
  unfolding free found
  malloc-free next q e = (
    freed next q,
    reused next q,
    free_lem 1 next q e,
    malloc-found (freed next q)
        ∙ ap (λ s. (alloc_quick s.0 s.1 >>= found) (freed next q)) fitted
        ∙ step (alloc_quick (2 ^ k) (2 ^ k)) found (freed next q) (pop_lem next q e),
    refl,
    refl,
    refl,
    refl,
    λ a ne. rw (==_ne a block ne) refl,
  )
