-- ===== src/Mcslock/Inv.antt =====
-- port/src/mcslock.rs: the order of the threads in the queue, and what holds of every reachable state.
use r.Common.{
  ℕ, ◌+◌, ◌-◌, ◌≤◌, ◌<◌, ◌≡◌, ◌≢◌, Bool, true, false, not, ◌&&◌, Option, none, some, ltb, ◌==◌,
  if◌then◌else◌,
}
use r.Mcslock.{
  System, Pc, idle, clear_next, clear_locked, swap, spin, holding, check_next, exchange, wait_next,
  hand_over, set_locked, link, release,
}

-- The threads before they hold the lock but in the queue, and those that hold it or give it up.
abbrev pub waiting : Pc → Bool
waiting idle = false
waiting clear_next = false
waiting clear_locked = false
waiting swap = false
waiting spin = true
waiting holding = false
waiting check_next = false
waiting exchange = false
waiting wait_next = false
waiting hand_over = false
waiting (set_locked p) = true
waiting (link p) = true
waiting (release n) = false

abbrev pub owning : Pc → Bool
owning idle = false
owning clear_next = false
owning clear_locked = false
owning swap = false
owning spin = false
owning holding = true
owning check_next = true
owning exchange = true
owning wait_next = true
owning hand_over = true
owning (set_locked p) = false
owning (link p) = false
owning (release n) = true

abbrev pub queued : Pc → Bool
queued pc = if owning pc then true else waiting pc

abbrev pub spinning : Pc → Bool
spinning spin = true
spinning _ = false

-- After the node's link was cleared, and before the node is in the queue.
abbrev pub cleared : Pc → Bool
cleared clear_locked = true
cleared swap = true
cleared _ = false

-- The predecessor that a thread still has to be linked to, and the successor that it is to release.
abbrev pub linking : Pc → Option ℕ
linking (set_locked p) = some p
linking (link p) = some p
linking _ = none

abbrev pub releasing : Pc → Option ℕ
releasing (release n) = some n
releasing _ = none

abbrev pub marked : Pc → Bool
marked (link p) = true
marked _ = false

-- The threads that have entered the queue are numbered in the order of their swaps: `ticket` of a
-- thread, and the thread `at` a number. Those from `served` up to `issued` are in the queue.
pub record Order : Type 0 where
  pub ticket : ℕ → ℕ
  pub at : ℕ → ℕ
  pub served : ℕ
  pub issued : ℕ

abbrev pub successor : System → Order → ℕ → Option ℕ
successor s o k =
    if ltb (k + 1) o.issued && spinning (s.pc (o.at (k + 1))) then some (o.at (k + 1)) else none

abbrev pub reading : Pc → Bool
reading hand_over = true
reading _ = false

pub record Inv (s : System) (o : Order) : Type 0 where
  pub bounds : o.served ≤ o.issued
  pub queued_at :
      (t : ℕ)
      → queued (s.pc t) ≡ true
      → (o.served ≤ o.ticket t) × (o.ticket t < o.issued) × (o.at (o.ticket t) ≡ t)
  pub at_queued :
      (k : ℕ)
      → o.served ≤ k
      → k < o.issued
      → (queued (s.pc (o.at k)) ≡ true) × (o.ticket (o.at k) ≡ k)
  pub tail : s.queue ≡ (if o.issued == o.served then none else some (o.at (o.issued - 1)))
  pub owner_first : (t : ℕ) → owning (s.pc t) ≡ true → o.ticket t ≡ o.served
  pub before :
      (t p : ℕ) → linking (s.pc t) ≡ some p → (o.served < o.ticket t) × (p ≡ o.at (o.ticket t - 1))
  pub marked_locked : (t : ℕ) → marked (s.pc t) ≡ true → s.locked t ≡ true
  pub spin_locked : (t : ℕ) → spinning (s.pc t) ≡ true → s.locked t ≡ not (o.ticket t == o.served)
  pub next_at : (k : ℕ) → o.served ≤ k → k < o.issued → s.next (o.at k) ≡ successor s o k
  pub fresh : (t : ℕ) → cleared (s.pc t) ≡ true → s.next t ≡ none
  pub handing : (t n : ℕ) → releasing (s.pc t) ≡ some n → s.next t ≡ some n
  pub ready : (t : ℕ) → reading (s.pc t) ≡ true → s.next t ≢ none
