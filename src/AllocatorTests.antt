-- ===== src/AllocatorTests.antt =====
-- Runs of the allocators.
use r.Common.{
  ℕ, ◌+◌, ◌*◌, ◌^◌, ◌≤◌, ◌<◌, ◌≡◌, ◌≢◌, ◌⊎◌, refl, max, Bool, true, [], ◌∷◌, Option, none, some,
  false, err, ok, Run, done, panic, hang, arith, leb, ◌==◌, if◌then◌else◌,
}
use r.Common.Word.{is_power_of_two}
use r.Allocator.Block.{
  Block, Layout, align_offset, next_power_of_two, ilog2, split_at_mut, from_size_align,
}
use r.Allocator.Bump
use r.Allocator.Bump.{BumpAlloc, try_alloc, alloc_error}
use r.Allocator.Store.{
  QuickFit, Header, M, ◌>>=◌, pure, new, load, store, get_qlist, set_qlist, set_tail, unlink, head,
  hash, set_misc,
}
use r.Allocator.Quick.{malloc, free, try_free_prefix, free_prefix, alloc_quick, alloc_misc, adjust}
use r.Allocator.Place
use r.Allocator.Place.{next_offset, Placed, try_alloc_lem, Swapped, allocate-Swapped}
use r.Allocator.Fit.{IsQuick, adjust_lem}
use r.Allocator.Reuse.{malloc-free}
use r.Allocator.Unlink.{alloc_misc-loses}
use r.Allocator.NewHeader.{IsFull, own_header}
use r.Allocator.Large.{free-large}

abbrev arena : QuickFit
unfolding new
arena = new (record { arena = record { ptr = 4096; len = 65536 }; cursor = 0 }) (λ _. 0)

abbrev value {ℓ} : {A : Type ℓ} → Run (A × QuickFit) → Run A
value (done (a, q)) = done a
value panic = panic
value hang = hang

abbrev lay : ℕ → ℕ → Layout
lay s a = record { size = s; align = a }

abbrev script : M (ℕ × ℕ × ℕ × ℕ)
script = malloc (lay 100 8) >>= λ a. malloc (lay 1000 8) >>= λ b. malloc (lay 200 8) >>= λ c.
    free a (lay 100 8) >>= λ _. malloc (lay 80 8) >>= λ d. pure (a, b, c, d)

script_test : value (script arena) ≡ done (4096, 5120, 4352, 4096)
unfolding arena free_prefix malloc alloc_quick adjust free load store is_power_of_two align_offset
    next_power_of_two ilog2 split_at_mut from_size_align try_alloc get_qlist set_qlist set_tail head
    unlink try_free_prefix set_misc
script_test = refl

abbrev bump : BumpAlloc
bump = record { arena = record { ptr = 4096; len = 65536 }; cursor = 8 }

bump-IsValid : Place.IsValid bump
bump-IsValid = record { in_memory = omega arith; in_arena = omega arith }

align_64 : is_power_of_two 64 ≡ true
unfolding is_power_of_two
align_64 = refl

try_alloc_lem_example :
    ((try_alloc bump 64 100 ≡ done (none, bump)) × (65536 < next_offset bump 64 + 100))
    ⊎ ((prefix block : Block) × (b' : BumpAlloc) × (try_alloc bump 64 100
          ≡ done (some (prefix, block), b'))
        × Placed bump-IsValid 64 100 align_64 (omega arith) prefix block b')
try_alloc_lem_example = try_alloc_lem bump-IsValid 64 100 align_64 (omega arith)

allocate-Swapped_example :
    ((is_power_of_two 128 ≡ false) × (Bump.allocate bump (lay 128 8) ≡ panic))
    ⊎ ((is_power_of_two 128 ≡ true)
        × (((Bump.allocate bump (lay 128 8) ≡ done (err alloc_error, bump))
              × (65536 < next_offset bump 128 + 8))
            ⊎ ((block : Block) × (b' : BumpAlloc) × (Bump.allocate bump (lay 128 8)
                  ≡ done (ok block, b'))
                × Swapped bump (lay 128 8) block b')))
allocate-Swapped_example = allocate-Swapped bump-IsValid (lay 128 8) (omega arith)

adjust_lem_example :
    ((2 ^ 14 < 100) × (adjust (lay 100 8) ≡ (100, 8)))
    ⊎ ((k : ℕ) × IsQuick k
        × (100 ≤ 2 ^ k)
        × ((k ≡ 6) ⊎ (2 ^ k < 2 * 100))
        × (adjust (lay 100 8) ≡ (2 ^ k, max 8 (2 ^ k))))
adjust_lem_example = adjust_lem (lay 100 8)

malloc-free_example :
    (q' q'' : QuickFit) × (free 4096 (lay 100 8) arena ≡ done (tt, q'))
    × (malloc (lay 100 8) q' ≡ done (4096, q''))
    × (q''.qlists ≡ arena.qlists)
    × (q''.misc ≡ arena.misc)
    × (q''.allocated_misc ≡ arena.allocated_misc)
    × (q''.tail ≡ arena.tail)
    × ((a : ℕ) → a ≢ 4096 → q''.headers a ≡ arena.headers a)
unfolding arena adjust next_power_of_two
malloc-free_example =
    malloc-free (lay 100 8) 7 4096 (omega arith, omega arith) refl (omega arith) refl none arena
      refl

-- Two freed large blocks, of 20000 and of 40000 bytes.
abbrev large : ℕ → Option ℕ → Header
large size next = record { next = next; addr = 32768; size = size; align = 64 }

abbrev two_headers : ℕ → Option Header
two_headers a =
    if a == 8192
    then some (large 20000 (some 16384))
    else if a == 16384
    then some (large 40000 none)
    else none

abbrev with_misc : QuickFit
unfolding arena
with_misc = record arena { misc = some 8192; headers = two_headers }

abbrev at_least : ℕ → Header → Bool
at_least size h = leb size h.size

alloc_misc-loses_example :
    alloc_misc 50000 64 with_misc ≡ done (none, record with_misc { misc = none })
unfolding arena with_misc
alloc_misc-loses_example =
    alloc_misc-loses 50000 64 (8192 ∷ 16384 ∷ []) with_misc (omega arith)
      (refl, (large 20000 (some 16384), refl, refl, (refl, (large 40000 none, refl, refl, refl))))

-- The arena is used up, and nothing was freed.
abbrev used_up : QuickFit
used_up = record arena { tail = record { arena = arena.tail.arena; cursor = 65536 } }

used_up-IsFull : IsFull used_up.tail
unfolding arena
used_up-IsFull =
    (record { in_memory = omega arith; in_arena = omega arith }, omega arith, omega arith)

abbrev no_block : Option ℕ
no_block = none

free-large_example :
    ((p : ℕ) × (no_block ≡ some p) × (free 8192 (lay 20000 8) used_up ≡ panic))
    ⊎ ((no_block ≡ none)
        × ((q' : QuickFit) × (free 8192 (lay 20000 8) used_up ≡ done (tt, q'))
            × (q'.misc ≡ some 8192)
            × (q'.headers 8192 ≡ some (own_header 8192 20000 none))
            × ((a : ℕ) → a ≢ 8192 → q'.headers a ≡ none)
            × (q'.tail ≡ used_up.tail)))
unfolding arena hash
free-large_example =
    free-large 8192 (lay 20000 8) none [] none used_up (omega arith) refl (omega arith)
      (omega arith) refl (omega arith) refl used_up-IsFull refl (λ p e. absurd (cc e))
