-- ===== src/Allocator/NewHeader.antt =====
-- port/src/allocator.rs: where `free_misc` finds no header for a block, and makes one.
use r.Common.{
  ℕ, ◌+◌, ◌-◌, ◌%◌, ◌^◌, ◌≤◌, ◌<◌, le→leb, ==_refl, ◌≡◌, ◌≢◌, refl, ap, ◌∙◌, done, panic, hang,
  Option, none, some, List, length, arith, ==_ne, ◌==◌, get_elem?, set,
}
use r.Allocator.Block.{next_power_of_two, align_offset, wrapping_add}
use r.Allocator.Store.{
  QuickFit, Header, M, lift, ◌>>=◌, ◌>>◌, pure, store, hash, list_fuel, unlink, get_bucket,
  set_bucket, set_tail, update, load, set_misc,
}
use r.Allocator.Quick.{
  adjust, alloc_quick, alloc_tail, free_at, free_misc, malloc_with, unlink_allocated_misc,
  header_block,
}
use r.Allocator.Steps.{step, load_lem}
use r.Allocator.Reuse.{alloc_quick_lem, alloc_quick-none, popped}
use r.Allocator.Place
use r.Allocator.Place.{next_offset, try_alloc-full}
use r.Common.Word.{is_power_of_two, u64_mod, sub64}
use r.Allocator.Bump.{BumpAlloc, try_alloc}
use r.Allocator.Unlink.{Misses, unlink-none}

-- A call that panics ends the computation.
fails : {A B : Type 0} (m : M A) (f : A → M B) (q : QuickFit) → m q ≡ panic → (m >>= f) q ≡ panic
fails m f q e = ap (λ r. elim r [ done (a, q') ↦ f a q' | panic ↦ panic | hang ↦ hang ]) e

-- What `free_misc` does where it finds no header.
new_header : ℕ → ℕ → ℕ → M ℕ
new_header block size align = do
  hblock ← malloc_with (free_at 1) (record { size = 64; align = 64 })
  (h, addr, rest, align') ← header_block hblock block size align
  store h (record { next = none; addr = addr; size = rest; align = align' })
  pure h

new_header-panics :
    (block size align h : ℕ) (q q' : QuickFit)
    → malloc_with (free_at 1) (record { size = 64; align = 64 }) q ≡ done (h, q')
    → h ≢ 0
    → new_header block size align q ≡ panic
unfolding header_block new_header
new_header-panics block size align h q q' allocated some_h =
    step (malloc_with (free_at 1) (record { size = 64; align = 64 })) _ q allocated
    ∙ rw (==_ne h 0 some_h) refl

pub free_misc-panics :
    (block size align h : ℕ) (q q' q'' : QuickFit)
    → unlink_allocated_misc block q ≡ done (none, q')
    → malloc_with (free_at 1) (record { size = 64; align = 64 }) q' ≡ done (h, q'')
    → h ≢ 0
    → free_misc (free_at 1) block size align q ≡ panic
unfolding free_misc new_header
free_misc-panics block size align h q q' q'' unlinked allocated some_h =
    step (unlink_allocated_misc block) _ q unlinked
    ∙ fails (new_header block size align) _ q'
        (new_header-panics block size align h q' q'' allocated some_h)

get_bucket_lem :
    (i : ℕ) {l : Option ℕ} (q : QuickFit)
    → get_elem? q.allocated_misc i ≡ some l
    → get_bucket i q ≡ done (l, q)
unfolding get_bucket
get_bucket_lem i q e = ap (λ o. elim o [ none ↦ panic | some l ↦ done (l, q) ]) e

-- A header that is not in its bucket is not found. The bucket is then empty.
pub unlink_allocated_misc-none :
    (block : ℕ) (list : Option ℕ) (ps : List ℕ) (q : QuickFit)
    → get_elem? q.allocated_misc (hash block) ≡ some list
    → length ps < list_fuel q
    → Misses q.headers (λ node. node.addr == block) list ps none
    → unlink_allocated_misc block q
      ≡ done (
        none,
        record q {
          allocated_misc = set (set q.allocated_misc (hash block) none) (hash block) none;
        },
      )
unfolding unlink_allocated_misc set_bucket
unlink_allocated_misc-none block list ps q bucket f m =
    let emptied = record q { allocated_misc = set q.allocated_misc (hash block) none } in
    step (get_bucket (hash block)) _ q (get_bucket_lem (hash block) q bucket)
    ∙ step (unlink (λ node. node.addr == block) list) _ emptied
        (unlink-none (λ node. node.addr == block) list ps emptied f m)

-- A block of 64 bytes is that of the head of the first quick list.
pub malloc_64 :
    (p : ℕ) (h : Header) (q : QuickFit)
    → get_elem? q.qlists 0 ≡ some (some p)
    → q.headers p ≡ some h
    → malloc_with (free_at 1) (record { size = 64; align = 64 }) q
      ≡ done (h.addr, popped 6 (omega arith, omega arith) p h q)
unfolding malloc_with adjust next_power_of_two
malloc_64 p h q top at =
    step (alloc_quick 64 64) _ q (alloc_quick_lem 6 (omega arith, omega arith) p h q top at)

-- No room for a block of 64 bytes is left in the tail.
abbrev pub IsFull : BumpAlloc → Type 0
IsFull b =
    Place.IsValid b × (next_offset b 64 + 64 < 2 ^ 64) × (b.arena.len < next_offset b 64 + 64)

alloc_tail-none : (q : QuickFit) → IsFull q.tail → alloc_tail (free_at 1) 64 64 q ≡ done (none, q)
unfolding alloc_tail set_tail is_power_of_two
alloc_tail-none q (v, fits, full) =
    step (lift (try_alloc q.tail 64 64)) _ q
      (ap (λ r. lift r q) (try_alloc-full v 64 64 refl fits full))

-- With an empty quick list as well, there is no block of 64 bytes.
pub malloc_64-null :
    (q : QuickFit)
    → IsFull q.tail
    → get_elem? q.qlists 0 ≡ some none
    → malloc_with (free_at 1) (record { size = 64; align = 64 }) q
      ≡ done (0, record q { qlists = set (set q.qlists 0 none) 0 none })
unfolding malloc_with adjust next_power_of_two
malloc_64-null q full top =
    let emptied = record q { qlists = set (set q.qlists 0 none) 0 none } in
    step (alloc_quick 64 64) _ q (alloc_quick-none 6 (omega arith, omega arith) q top)
    ∙ step (alloc_tail (free_at 1) 64 64) _ emptied (alloc_tail-none emptied full)

-- The header that a block of `size` bytes holds itself.
abbrev pub own_header : ℕ → ℕ → Option ℕ → Header
own_header block size next = record { next = next; addr = block + 64; size = size - 64; align = 64 }

align_offset_lem : (ptr : ℕ) → ptr % 64 ≡ 0 → align_offset ptr 64 ≡ done 0
unfolding align_offset is_power_of_two
align_offset_lem ptr aligned = rw aligned refl

-- What `header_block` does with the offset of the header, and with the size that is left.
parts : ℕ → ℕ → ℕ → M (ℕ × ℕ × ℕ × ℕ)
parts block offset rest =
    pure (wrapping_add block offset, wrapping_add (wrapping_add block offset) 64, rest, 64)

behind : ℕ → ℕ → ℕ → M (ℕ × ℕ × ℕ × ℕ)
behind block size offset = lift (sub64 size (offset + 64)) >>= parts block offset

header_block-null :
    (block size align : ℕ) (q : QuickFit)
    → block % 64 ≡ 0
    → 64 ≤ size
    → block + 64 < 2 ^ 64
    → header_block 0 block size align q ≡ done ((block, block + 64, size - 64, 64), q)
unfolding header_block behind parts
header_block-null block size align q aligned large fits =
    let start : (block + 0) % u64_mod ≡ block = omega arith in
    let body : (block + 64) % u64_mod ≡ block + 64 = omega arith in
    let rest : sub64 size 64 ≡ done (size - 64) = rw (le→leb 64 size large) refl in
    step (lift (align_offset block 64)) (behind block size) q
      (ap (λ r. lift r q) (align_offset_lem block aligned))
    ∙ step (lift (sub64 size 64)) (parts block 0) q (ap (λ r. lift r q) rest)
    ∙ ap (λ h. done ((h, wrapping_add h 64, size - 64, 64), q)) start
    ∙ ap (λ r. done ((block, r, size - 64, 64), q)) body

new_header-null :
    (block size align : ℕ) (q q' : QuickFit)
    → block % 64 ≡ 0
    → 64 ≤ size
    → block + 64 < 2 ^ 64
    → malloc_with (free_at 1) (record { size = 64; align = 64 }) q ≡ done (0, q')
    → new_header block size align q
      ≡ done (block, record q' { headers = update q'.headers block (own_header block size none) })
unfolding new_header store
new_header-null block size align q q' aligned large fits allocated =
    step (malloc_with (free_at 1) (record { size = 64; align = 64 })) _ q allocated
    ∙ step (header_block 0 block size align) _ q'
        (header_block-null block size align q' aligned large fits)

-- The allocator after the block was put in front of the freed large ones.
abbrev pub pushed : ℕ → ℕ → QuickFit → QuickFit
pushed block size q = record q {
  headers =
      update (update q.headers block (own_header block size none)) block
        (own_header block size q.misc);
  misc = some block;
}

pub free_misc-null :
    (block size align : ℕ) (q q' q'' : QuickFit)
    → block % 64 ≡ 0
    → 64 ≤ size
    → block + 64 < 2 ^ 64
    → unlink_allocated_misc block q ≡ done (none, q')
    → malloc_with (free_at 1) (record { size = 64; align = 64 }) q' ≡ done (0, q'')
    → free_misc (free_at 1) block size align q ≡ done (tt, pushed block size q'')
unfolding free_misc new_header store set_misc
free_misc-null block size align q q' q'' aligned large fits unlinked allocated =
    let made = record q'' { headers = update q''.headers block (own_header block size none) } in
    let mine : made.headers block ≡ some (own_header block size none) = rw (==_refl block) refl in
    step (unlink_allocated_misc block) _ q unlinked
    ∙ step (new_header block size align) _ q'
        (new_header-null block size align q' q'' aligned large fits allocated)
    ∙ step (load block) _ made (load_lem block made mine)
