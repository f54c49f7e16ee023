-- ===== src/Allocator/Bump.antt =====
-- port/src/allocator.rs: `BumpAlloc`.
--
-- `fetch_update` is one atomic change of the cursor: its closure depends on the cursor alone, so a
-- retry after a lost race is a call on the newer cursor.
use r.Common.{ℕ, Option, none, some, Run, done, ◌>>=◌, Result, ok, err, leb, if◌then◌else◌}
use r.Common.Word.{add64}
use r.Allocator.Block.{Block, Layout, wrapping_add, align_offset}

pub record BumpAlloc : Type 0 where
  pub arena : Block
  pub cursor : ℕ

unfoldable pub new : Block → BumpAlloc
new arena = record { arena = arena; cursor = 0 }

unfoldable pub try_alloc : BumpAlloc → ℕ → ℕ → Run (Option (Block × Block) × BumpAlloc)
try_alloc b align size = do
  let base = b.arena.ptr
  let first = wrapping_add base b.cursor
  adjust ← align_offset first align
  offset ← add64 b.cursor adjust
  next ← add64 offset size
  done (
      if leb next b.arena.len
      then (
        some (
          record { ptr = first; len = adjust },
          record { ptr = wrapping_add first adjust; len = size },
        ),
        record b { cursor = next },
      )
      else (none, b))

-- `impl Allocator for BumpAlloc`. `deallocate` is unimplemented, and panics.
pub data AllocError : Type 0 where
  alloc_error : AllocError

unfoldable pub allocate : BumpAlloc → Layout → Run (Result AllocError Block × BumpAlloc)
allocate b layout = do
  (found, b') ← try_alloc b layout.size layout.align
  done (elim found [ none ↦ (err alloc_error, b') | some (_, block) ↦ (ok block, b') ])
