-- ===== src/Allocator/Global.antt =====
-- port/src/allocator.rs: `GlobalQuickAlloc`, the global allocator.
--
-- The `AtomicPtr` is a slot that holds the allocator or is null; `swap` takes it out for the duration of
-- a call. A call that finds the slot null, as a nested or a concurrent one does, panics.
use r.Common.{ℕ, ◌*◌, Option, none, some, Run, done, panic, hang}
use r.Allocator.Block.{Layout}
use r.Allocator.Store.{QuickFit, M}
use r.Allocator.Quick.{malloc, free, realloc}

abbrev pub global_heap_size : ℕ
global_heap_size = 4 * 1024 * 1024

abbrev pub Slot : Type 0
Slot = Option QuickFit

unfoldable pub with_allocator {ℓ} : {A : Type ℓ} → Slot → M A → Run (A × Slot)
with_allocator none thunk = panic
with_allocator (some a) thunk = elim (thunk a) [
  | done (x, a') ↦ done (x, some a')
  | panic ↦ panic
  | hang ↦ hang
]

unfoldable pub alloc : Slot → Layout → Run (ℕ × Slot)
alloc slot layout = with_allocator slot (malloc layout)

unfoldable pub dealloc : Slot → ℕ → Layout → Run (Unit {0} × Slot)
dealloc slot ptr layout = with_allocator slot (free ptr layout)

unfoldable pub global_realloc : Slot → ℕ → Layout → ℕ → Run (ℕ × Slot)
global_realloc slot ptr layout new_size = with_allocator slot (realloc ptr layout new_size)
