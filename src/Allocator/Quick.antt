-- ===== src/Allocator/Quick.antt =====
-- port/src/allocator.rs: the operations of `QuickFit`.
--
-- `free` calls `malloc` for a header, and `malloc` calls `free` for the prefix of a tail block. That
-- inner call is of a power-of-two size and alignment, and goes no deeper: a function takes the `free`
-- that it calls as an argument, and the outermost `free` has depth 2.
use r.Common.{
  ℕ, zero, suc, ◌+◌, ◌-◌, ◌^◌, min, max, ◌&&◌, Option, none, some, Run, done, panic, hang, ltb, leb,
  ◌==◌, if◌then◌else◌, expect,
}
use r.Common.Word.{sub64, assert}
use r.Allocator.Block.{
  Block, Layout, wrapping_add, align_offset, split_at_mut, from_size_align, next_power_of_two,
  ilog2,
}
use r.Allocator.Bump.{try_alloc}
use r.Allocator.Store.{
  M, ◌>>=◌, ◌>>◌, pure, lift, get, load, store, get_qlist, set_qlist, get_bucket, set_bucket,
  set_misc, set_tail, unlink, head, hash, alloc_unit_shift, min_alloc_size, max_quick_size,
  num_qlists, header_align,
}

unfoldable pub adjust : Layout → ℕ × ℕ
adjust layout =
    if ltb max_quick_size layout.size
    then (layout.size, layout.align)
    else let size = max min_alloc_size (next_power_of_two layout.size) in
      (size, max layout.align size)

-- `size.ilog2() as usize - ALLOC_UNIT_SHIFT`.
unfoldable pub quick_index : ℕ → M ℕ
quick_index size = do log ← lift (ilog2 size); lift (sub64 log alloc_unit_shift)

unfoldable pub alloc_misc : ℕ → ℕ → M (Option ℕ)
alloc_misc size align = do
  q ← get
  set_misc none
  (node, list) ← unlink (λ node. leb size node.size && leb align node.align) q.misc
  set_misc list
  elim node [
    | none ↦ pure none
    | some p ↦ do
      header ← load p
      let k = hash header.addr
      bucket ← get_bucket k
      set_bucket k none
      store p (record header { next = bucket })
      set_bucket k (some p)
      pure (some header.addr)
  ]

unfoldable pub alloc_quick : ℕ → ℕ → M (Option ℕ)
unfolding quick_index alloc_misc
alloc_quick size align =
    if leb size max_quick_size && align == size
    then (do
      k ← quick_index size
      qlist ← get_qlist k
      set_qlist k none
      (node, list) ← head qlist
      set_qlist k list
      elim node [ none ↦ pure none | some p ↦ do header ← load p; pure (some header.addr) ])
    else alloc_misc size align

unfoldable pub align_prefix : Block → Run Block
align_prefix prefix = go (align_offset prefix.ptr min_alloc_size)
  where
    go : Run ℕ → Run Block
    go (done offset) =
        if leb offset prefix.len
        then done (record { ptr = wrapping_add prefix.ptr offset; len = prefix.len - offset })
        else panic
    go panic = panic
    go hang = hang

module _ (free : ℕ → Layout → M (Unit {0})) where
  -- The loop `for k in (0..NUM_QLISTS).rev()`, with `n` rounds left.
  unfoldable pub try_sizes : ℕ → Block → M (Option Block)
  try_sizes zero prefix = pure none
  try_sizes (suc k) prefix = do
    let size = 2 ^ (k + alloc_unit_shift)
    offset ← lift (align_offset prefix.ptr size)
    let smaller = try_sizes k prefix
    if leb size prefix.len && offset == 0
        then elim (split_at_mut prefix size) [
          | none ↦ pure none
          | some (_, rest) ↦ do
            layout ← lift (expect (from_size_align size size))
            free prefix.ptr layout
            pure (if leb min_alloc_size rest.len then some rest else none)
        ]
        else smaller

  unfoldable pub try_free_prefix : Block → M (Option Block)
  unfolding try_sizes
  try_free_prefix prefix = try_sizes num_qlists prefix

  -- The loop of `free_prefix`. Each round frees at least 64 bytes of the prefix.
  unfoldable pub free_rest : ℕ → Block → M (Unit {0})
  free_rest zero prefix = lift hang
  free_rest (suc fuel) prefix =
      try_free_prefix prefix >>= λ rest. elim rest [ none ↦ pure tt | some b ↦ free_rest fuel b ]

  unfoldable pub free_prefix : Block → M (Unit {0})
  unfolding align_prefix free_rest
  free_prefix prefix = do aligned ← lift (align_prefix prefix); free_rest (aligned.len + 1) aligned

  -- `self.tail.try_alloc(size, align)`, the arguments in the order of the call.
  unfoldable pub alloc_tail : ℕ → ℕ → M (Option ℕ)
  alloc_tail size align = do
    q ← get
    (found, tail) ← lift (try_alloc q.tail size align)
    set_tail tail
    elim found [
      | none ↦ pure none
      | some (prefix, block) ↦ do free_prefix prefix; pure (some block.ptr)
    ]

  unfoldable pub malloc_with : Layout → M ℕ
  unfolding alloc_tail
  malloc_with layout = do
    let (size, align) = adjust layout
    p ← alloc_quick size align
    elim p [
      | some a ↦ pure a
      | none ↦ do t ← alloc_tail size align; pure (elim t [ none ↦ 0 | some a ↦ a ])
    ]

unfoldable pub unlink_allocated_misc : ℕ → M (Option ℕ)
unlink_allocated_misc block = do
  let k = hash block
  list ← get_bucket k
  set_bucket k none
  (node, list') ← unlink (λ node. node.addr == block) list
  set_bucket k list'
  pure node

-- What `free_misc` does where it finds no header: the closure of its `or_else`. `then` gives a value
-- only if `hblock` is null, and `expect` panics without one. The header's place, and the block's
-- address, size and alignment that it records.
unfoldable pub header_block : ℕ → ℕ → ℕ → ℕ → M (ℕ × ℕ × ℕ × ℕ)
header_block hblock block size align =
    if hblock == 0
    then (do
      offset ← lift (align_offset block min_alloc_size)
      let h = wrapping_add block offset
      rest ← lift (sub64 size (offset + min_alloc_size))
      pure (h, wrapping_add h min_alloc_size, rest, min_alloc_size))
    else lift panic

module _ (free : ℕ → Layout → M (Unit {0})) where
  unfoldable pub free_misc : ℕ → ℕ → ℕ → M (Unit {0})
  unfolding unlink_allocated_misc header_block malloc_with
  free_misc block size align = do
    found ← unlink_allocated_misc block
    p ← elim found [
      | some p ↦ pure p
      | none ↦ do
        hblock ← malloc_with free (record { size = 64; align = header_align })
        (h, addr, rest, align') ← header_block hblock block size align
        store h (record { next = none; addr = addr; size = rest; align = align' })
        pure h
    ]
    header ← load p
    q ← get
    store p (record header { next = q.misc })
    set_misc (some p)

unfoldable pub free_at : ℕ → ℕ → Layout → M (Unit {0})
unfolding quick_index free_misc
free_at zero block layout = lift hang
free_at (suc depth) block layout =
    let misc = free_misc (free_at depth) in
    if block == 0
    then pure tt
    else let (size, align) = adjust layout in
      if leb size max_quick_size && align == size
      then (do
        k ← quick_index size
        next ← get_qlist k
        set_qlist k none
        offset ← lift (align_offset block header_align)
        lift (assert (offset == 0))
        store block (record { next = next; addr = block; size = size; align = align })
        set_qlist k (some block))
      else misc block size align

unfoldable pub free : ℕ → Layout → M (Unit {0})
unfolding free_at
free block layout = free_at 2 block layout

unfoldable pub malloc : Layout → M ℕ
unfolding malloc_with free_at
malloc layout = malloc_with (free_at 1) layout

-- `ptr::copy`: `n` bytes, read before any is written.
unfoldable pub copy : ℕ → ℕ → ℕ → M (Unit {0})
copy src dst n q = done (
  tt,
  record q {
    bytes = λ a. if leb dst a && ltb a (dst + n) then q.bytes (src + (a - dst)) else q.bytes a;
  },
)

unfoldable pub realloc : ℕ → Layout → ℕ → M ℕ
unfolding copy
realloc block layout new_size = if block == 0 then malloc layout else (do
  new_layout ← lift (expect (from_size_align new_size layout.align))
  let (size, align) = adjust new_layout
  if size == layout.size && align == layout.align then pure block else (do
    np ← malloc new_layout
    if np == 0
        then pure np
        else (do copy block np (min layout.size new_size); free block layout; pure np)))
