-- ===== src/Mcslock.antt =====
-- port/src/mcslock.rs: `LockNode`, `MCSLock` and the steps of `lock` and `unlock`.
--
-- A thread is a number, and so is its node: each call of `lock` has a node of its own. Each access to
-- an atomic is one step of its thread; between two steps any other thread may move. The orderings
-- given (acquire, release) make the accesses to one node and to the queue appear in such an order.
pub mod Inv
pub mod Moves
pub mod Standing
pub mod Writes
pub mod Leave
pub mod Enter
pub mod Link
pub mod Places
pub mod Handover
pub mod Accesses
pub mod Exclusion
pub mod Fifo
pub mod Stuck
use r.Common.{ℕ, Bool, true, false, Option, none, some, ◌≡◌, ◌==◌, if◌then◌else◌}

-- Where a thread stands: the access that it makes next. `set_locked` and `link` know the predecessor
-- that `swap` returned, and `release` the next node that was read.
pub data Pc : Type 0 where
  idle clear_next clear_locked swap spin holding check_next exchange wait_next hand_over : Pc
  set_locked link release : ℕ → Pc

pub record System : Type 0 where
  pub queue : Option ℕ
  pub next : ℕ → Option ℕ
  pub locked : ℕ → Bool
  pub pc : ℕ → Pc

abbrev pub upd {ℓ} : {A : Type ℓ} → (ℕ → A) → ℕ → A → ℕ → A
upd f t a u = if u == t then a else f u

abbrev pub new_lock : System
new_lock = record { queue = none; next = λ _. none; locked = λ _. false; pc = λ _. idle }

-- The thread goes on to another place.
abbrev pub move_to : System → ℕ → Pc → System
move_to s t pc = record s { pc = upd s.pc t pc }

-- `queue == p`, for the pointer of a node.
abbrev pub is_node : Option ℕ → ℕ → Bool
is_node none t = false
is_node (some p) t = p == t

-- The next access of a thread, where it is in one of the two functions. A thread that spins does not
-- move on until the loop's condition changes. Where a node to be released is missing, the code would
-- follow a null pointer, and the thread stops here.
unfoldable pub next_access : System → ℕ → Pc → Option System
next_access s t idle = none
next_access s t clear_next = some (move_to (record s { next = upd s.next t none }) t clear_locked)
next_access s t clear_locked = some (move_to (record s { locked = upd s.locked t false }) t swap)
next_access s t swap = some (elim s.queue [
  | none ↦ move_to (record s { queue = some t }) t holding
  | some p ↦ move_to (record s { queue = some t }) t (set_locked p)
])
next_access s t (set_locked p) =
    some (move_to (record s { locked = upd s.locked t true }) t (link p))
next_access s t (link p) = some (move_to (record s { next = upd s.next p (some t) }) t spin)
next_access s t spin = if s.locked t then none else some (move_to s t holding)
next_access s t holding = none
next_access s t check_next = elim (s.next t) [
  | none ↦ some (move_to s t exchange)
  | some _ ↦ some (move_to s t hand_over)
]
next_access s t exchange =
    if is_node s.queue t
    then some (move_to (record s { queue = none }) t idle)
    else some (move_to s t wait_next)
next_access s t wait_next = elim (s.next t) [ none ↦ none | some _ ↦ some (move_to s t hand_over) ]
next_access s t hand_over = elim (s.next t) [
  | none ↦ none
  | some n ↦ some (move_to s t (release n))
]
next_access s t (release n) = some (move_to (record s { locked = upd s.locked n false }) t idle)

-- The steps of the system: a call of `lock`, a call of `unlock` by the thread that holds the lock, an
-- access, and a failure of `compare_exchange_weak` without a reason.
pub data Step (s : System) : System → Type 0 where
  call_lock : (t : ℕ) → s.pc t ≡ idle → Step s (move_to s t clear_next)
  call_unlock : (t : ℕ) → s.pc t ≡ holding → Step s (move_to s t check_next)
  access : (t : ℕ) (s' : System) → next_access s t (s.pc t) ≡ some s' → Step s s'
  spurious : (t : ℕ) → s.pc t ≡ exchange → Step s (move_to s t wait_next)

pub data Reach : System → Type 0 where
  start : Reach new_lock
  and_then : (s s' : System) → Reach s → Step s s' → Reach s'
