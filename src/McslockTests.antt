-- ===== src/McslockTests.antt =====
-- port/src/mcslock.rs: runs of the lock on two threads.
use r.Common.{
  ℕ, List, ◌∷◌, zero, suc, ◌≡◌, ◌≢◌, ◌⊎◌, refl, true, false, none, some, Option-cases, inl, inr,
  ==_ne,
}
use r.Mcslock.{
  System, Reach, Step, swap, next_access, new_lock, move_to, start, and_then, call_lock,
  call_unlock, access, spurious, clear_next, check_next, wait_next, hand_over, release,
}
use mathlib.Core.List.{Memᴰ}
use r.Mcslock.Inv.{queued, owning, spinning}
use r.Mcslock.Fifo.{Fifo, reach-Fifo}
use r.Mcslock.Exclusion.{reach-exclusive, reach-hand_over}
use r.Mcslock.Stuck.{reach-stuck}

-- Some accesses of a thread, as long as it moves.
abbrev accesses : ℕ → ℕ → System → System
accesses zero t s = s
accesses (suc n) t s = elim (next_access s t (s.pc t)) [ none ↦ s | some s' ↦ accesses n t s' ]

accesses-Reach : (n t : ℕ) (s : System) → Reach s → Reach (accesses n t s)
accesses-Reach zero t s r = r
accesses-Reach (suc n) t s r = elim (Option-cases (next_access s t (s.pc t))) [
  | inl e ↦ rw (e, accesses) r
  | inr (s', e) ↦ rw (e, accesses) (accesses-Reach n t s' (and_then s s' r (access t s' e)))
]

-- Thread 0 holds the lock.
abbrev held_once : System
held_once = accesses 5 0 (move_to new_lock 0 clear_next)

held_once-Reach : Reach held_once
held_once-Reach =
    accesses-Reach 5 0 (move_to new_lock 0 clear_next) (and_then _ _ start (call_lock 0 refl))

-- Thread 1 has called `lock` as well, and spins.
abbrev contended : System
contended = accesses 6 1 (move_to held_once 1 clear_next)

contended-Reach : Reach contended
unfolding next_access
contended-Reach =
    accesses-Reach 6 1 (move_to held_once 1 clear_next)
      (and_then _ _ held_once-Reach (call_lock 1 refl))

-- Thread 0 calls `unlock` and reads its next node, to release thread 1.
abbrev handing_over : System
handing_over = accesses 2 0 (move_to contended 0 check_next)

handing_over-Reach : Reach handing_over
unfolding next_access
handing_over-Reach =
    accesses-Reach 2 0 (move_to contended 0 check_next)
      (and_then _ _ contended-Reach (call_unlock 0 refl))

handing_over-owner : handing_over.locked 1 ≡ true
unfolding next_access
handing_over-owner = refl

abbrev first_thread : ℕ
first_thread = 0

reach-exclusive_example : first_thread ≡ 0
unfolding next_access
reach-exclusive_example = reach-exclusive handing_over handing_over-Reach 0 0 refl refl

-- Thread 0 alone: its exchange in `unlock` fails without a reason.
abbrev failed : System
failed = move_to (accesses 1 0 (move_to held_once 0 check_next)) 0 wait_next

failed-Reach : Reach failed
unfolding next_access
failed-Reach =
    and_then _ _
      (accesses-Reach 1 0 (move_to held_once 0 check_next)
        (and_then _ _ held_once-Reach (call_unlock 0 refl)))
      (spurious 0 refl)

failed-alone : (u : ℕ) → u ≢ 0 → queued (failed.pc u) ≡ false
unfolding next_access
failed-alone u ne = rw (==_ne u 0 ne) refl

reach-stuck_example :
    (next_access failed 0 wait_next ≡ none)
    × ((s' : System)
        → Step failed s'
        → (s'.pc 0 ≡ wait_next)
          × (((u : ℕ) → u ≢ 0 → queued (s'.pc u) ≡ false)
              ⊎ ((u : ℕ) × (failed.pc u ≡ swap) × (next_access failed u swap ≡ some s'))))
unfolding next_access
reach-stuck_example = reach-stuck failed failed-Reach 0 refl failed-alone

-- Thread 0 has called `unlock` and is to read its next node, that of thread 1.
abbrev reads_next : System
reads_next = accesses 1 0 (move_to contended 0 check_next)

reads_next-Reach : Reach reads_next
unfolding next_access
reads_next-Reach =
    accesses-Reach 1 0 (move_to contended 0 check_next)
      (and_then _ _ contended-Reach (call_unlock 0 refl))

reach-hand_over_example :
    (n : ℕ) × (next_access reads_next 0 hand_over ≡ some (move_to reads_next 0 (release n)))
    × (spinning (reads_next.pc n) ≡ true)
unfolding next_access
reach-hand_over_example = reach-hand_over reads_next reads_next-Reach 0 refl

reach-Fifo_example :
    (q : List ℕ) × Fifo contended contended-Reach q
    × ((t : ℕ) → queued (contended.pc t) ≡ true → Memᴰ t q)
    × ((t : ℕ) → Memᴰ t q → queued (contended.pc t) ≡ true)
    × ((t : ℕ) → owning (contended.pc t) ≡ true → (rest : List ℕ) × (q ≡ t ∷ rest))
reach-Fifo_example = reach-Fifo contended contended-Reach
