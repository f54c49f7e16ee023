-- ===== src/Allocator/Place.antt =====
-- port/src/allocator.rs: where `BumpAlloc` places its blocks.
use r.Common.{
  ℕ, ◌+◌, ◌-◌, ◌*◌, ◌/◌, ◌%◌, ◌^◌, ◌≤◌, ◌<◌, ◌≡◌, refl, ap, ◌∙◌, true, false, Option, none, some,
  done, panic, ok, err, Bool-cases, arith, leb, lt→ltb, le→leb, leb-false, dec_le, if◌then◌else◌,
  ◌⊎◌, inl, inr, ℕ_discrete,
}
use r.Common.Word.{is_power_of_two, u64_mod}
use r.Mem.Align.{is_power_of_two_pos}
use r.Allocator.Block.{Block, Layout, align_offset}
use r.Allocator.Bump.{BumpAlloc, try_alloc, allocate, alloc_error}
use native.Mathlib.Nat.{mod-lt, mod-eq_of_lt, div-add-mod', mul-mod_left, mod_self}

-- The bytes up to the next multiple of `align`.
abbrev pub padding : ℕ → ℕ → ℕ
padding ptr align = (align - ptr % align) % align

padding_lem :
    (ptr align : ℕ)
    → 0 < align
    → (padding ptr align < align) × ((ptr + padding ptr align) % align ≡ 0)
padding_lem ptr align pos = elim (ℕ_discrete (ptr % align) 0) [
  | yes e ↦
      let full : align - ptr % align ≡ align = omega arith in
      let none : padding ptr align ≡ 0 = ap (λ n. n % align) full ∙ mod_self align in
      let same : ptr + padding ptr align ≡ ptr = omega arith in
      (omega arith, ap (λ n. n % align) same ∙ e)
  | no ne ↦
      let r = ptr % align in
      let some_padding : padding ptr align ≡ align - r =
        mod-eq_of_lt {n = align - r} {m = align} (omega (arith, mod-lt ptr pos)) in
      let up : ptr + padding ptr align ≡ (ptr / align + 1) * align =
        grind (arith, div-add-mod' ptr align, mod-lt ptr pos, some_padding) in
      (omega (arith, mod-lt ptr pos), ap (λ n. n % align) up ∙ mul-mod_left (ptr / align + 1) align)
]

-- An allocator whose arena lies in the address space, and whose cursor is in the arena.
pub record IsValid (b : BumpAlloc) : Type 0 where
  pub in_memory : b.arena.ptr + b.arena.len < 2 ^ 64
  pub in_arena : b.cursor ≤ b.arena.len

-- The offset in the arena of the next block of an alignment.
abbrev pub next_offset : BumpAlloc → ℕ → ℕ
next_offset b align = b.cursor + padding (b.arena.ptr + b.cursor) align

-- The result of a call that finds room: the bytes skipped, and the block behind them.
abbrev pub placed : BumpAlloc → ℕ → ℕ → Option (Block × Block) × BumpAlloc
placed b align size =
    let first = b.arena.ptr + b.cursor in
    (
      some (
        record { ptr = first; len = padding first align },
        record { ptr = b.arena.ptr + next_offset b align; len = size },
      ),
      record b { cursor = next_offset b align + size },
    )

module _ {b : BumpAlloc} (v : IsValid b) (align size : ℕ) (pow2 : is_power_of_two align ≡ true)
    (fits : next_offset b align + size < 2 ^ 64) where
  -- Where the sizes do not overflow, `try_alloc` finds room exactly when the padded block ends within
  -- the arena.
  try_alloc-eq :
      try_alloc b align size
      ≡ done
          (if leb (next_offset b align + size) b.arena.len then placed b align size else (none, b))
  unfolding try_alloc align_offset
  try_alloc-eq =
      let first : (b.arena.ptr + b.cursor) % u64_mod ≡ b.arena.ptr + b.cursor = omega arith in
      let pad = padding (b.arena.ptr + b.cursor) align in
      elim (dec_le (next_offset b align + size) b.arena.len) [
        | yes room ↦
            let block : (b.arena.ptr + b.cursor + pad) % u64_mod
                ≡ b.arena.ptr + next_offset b align =
              omega arith in
            rw (first, pow2, lt→ltb (b.cursor + pad) u64_mod (omega arith))
              (rw (lt→ltb (next_offset b align + size) u64_mod fits)
                (rw (le→leb (next_offset b align + size) b.arena.len room, block) refl))
        | no full ↦
            rw (first, pow2, lt→ltb (b.cursor + pad) u64_mod (omega arith))
              (rw (lt→ltb (next_offset b align + size) u64_mod fits)
                (rw (leb-false (next_offset b align + size) b.arena.len (omega arith)) refl))
      ]

  pub try_alloc-full :
      b.arena.len < next_offset b align + size → try_alloc b align size ≡ done (none, b)
  try_alloc-full full =
      try_alloc-eq ∙ rw (leb-false (next_offset b align + size) b.arena.len full) refl

  try_alloc-room :
      next_offset b align + size ≤ b.arena.len → try_alloc b align size ≡ done (placed b align size)
  try_alloc-room room =
      try_alloc-eq ∙ rw (le→leb (next_offset b align + size) b.arena.len room) refl

  -- What a call that finds room gives: a block of the size that was asked for, at a multiple of the
  -- alignment, in the arena behind all that was handed out before; the prefix is what lies between.
  pub record Placed (prefix block : Block) (b' : BumpAlloc) : Type 0 where
    pub aligned : block.ptr % align ≡ 0
    pub size_kept : block.len ≡ size
    pub behind : prefix.ptr ≡ b.arena.ptr + b.cursor
    pub adjacent : prefix.ptr + prefix.len ≡ block.ptr
    pub least : prefix.len < align
    pub same_arena : b'.arena ≡ b.arena
    pub cursor_at : b'.arena.ptr + b'.cursor ≡ block.ptr + block.len
    pub valid : IsValid b'

  -- `try_alloc` always returns: without a block, the allocator unchanged, if the padded block does not
  -- fit into the rest of the arena, or else with a block in its place.
  pub try_alloc_lem :
      ((try_alloc b align size ≡ done (none, b)) × (b.arena.len < next_offset b align + size))
      ⊎ ((prefix block : Block) × (b' : BumpAlloc) × (try_alloc b align size
            ≡ done (some (prefix, block), b'))
          × Placed prefix block b')
  try_alloc_lem = elim (dec_le (next_offset b align + size) b.arena.len) [
    | no full ↦ inl (
      try_alloc-eq ∙ rw (leb-false (next_offset b align + size) b.arena.len (omega arith)) refl,
      omega arith,
    )
    | yes room ↦
        let pad = padding_lem (b.arena.ptr + b.cursor) align (is_power_of_two_pos align pow2) in
        let first = b.arena.ptr + b.cursor in
        let sum : b.arena.ptr + next_offset b align ≡ first + padding first align = omega arith in
        inr (
          record { ptr = first; len = padding first align },
          record { ptr = b.arena.ptr + next_offset b align; len = size },
          record b { cursor = next_offset b align + size },
          try_alloc-room room,
          record {
            aligned = ap (λ n. n % align) sum ∙ pad.1;
            size_kept = refl;
            behind = refl;
            adjacent = omega arith;
            least = pad.0;
            same_arena = refl;
            cursor_at = omega arith;
            valid = record { in_memory = v.in_memory; in_arena = room };
          },
        )
  ]

-- What a call of `allocate` gives that finds room: the size and the alignment that were asked for have
-- changed places.
pub record Swapped (b : BumpAlloc) (layout : Layout) (block : Block) (b' : BumpAlloc) : Type 0 where
  pub aligned : block.ptr % layout.size ≡ 0
  pub size_kept : block.len ≡ layout.align
  pub behind : b.arena.ptr + b.cursor ≤ block.ptr
  pub same_arena : b'.arena ≡ b.arena
  pub cursor_at : b'.arena.ptr + b'.cursor ≡ block.ptr + block.len
  pub valid : IsValid b'

allocate-panics :
    (b : BumpAlloc) (layout : Layout)
    → is_power_of_two layout.size ≡ false
    → allocate b layout ≡ panic
unfolding allocate try_alloc align_offset
allocate-panics b layout h = rw h refl

-- On a valid bump allocator, for a layout whose size and alignment do not overflow the address
-- space when the alignment is placed at a multiple of the size: allocate panics if the size is
-- not a power of two; otherwise it returns an error and the allocator unchanged if so many bytes
-- do not fit, or else a block behind all that was handed out before, whose length is the
-- alignment that was asked for and whose address is a multiple of the size that was asked for,
-- leaving a valid allocator whose cursor is the end of the block.
pub allocate-Swapped :
    {b : BumpAlloc}
    → IsValid b
    → (layout : Layout) → next_offset b layout.size + layout.align < 2 ^ 64
    → ((is_power_of_two layout.size ≡ false) × (allocate b layout ≡ panic))
      ⊎ ((is_power_of_two layout.size ≡ true)
          × (((allocate b layout ≡ done (err alloc_error, b))
                × (b.arena.len < next_offset b layout.size + layout.align))
              ⊎ ((block : Block) × (b' : BumpAlloc) × (allocate b layout ≡ done (ok block, b'))
                  × Swapped b layout block b')))
unfolding allocate
allocate-Swapped {b} v layout fits = elim (Bool-cases (is_power_of_two layout.size)) [
  | inr other ↦ inl (other, allocate-panics b layout other)
  | inl pow2 ↦ inr (
    pow2,
    elim (try_alloc_lem v layout.size layout.align pow2 fits) [
      | inl (e, full) ↦ inl (rw e refl, full)
      | inr (prefix, block, b', e, p) ↦ inr (
        block,
        b',
        rw e refl,
        record {
          aligned = p.aligned;
          size_kept = p.size_kept;
          behind = omega (arith, p.behind, p.adjacent);
          same_arena = p.same_arena;
          cursor_at = p.cursor_at;
          valid = p.valid;
        },
      )
    ],
  )
]
