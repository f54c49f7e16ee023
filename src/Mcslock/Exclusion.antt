-- ===== src/Mcslock/Exclusion.antt =====
-- port/src/mcslock.rs: every step keeps the order of the queue; the lock has one holder.
use r.Common.{
  ℕ, ◌+◌, ◌≡◌, inl, inr, refl, sym, ap, ◌∙◌, true, some, ltb, arith, Bool-cases, Option-cases,
}
use mathlib.Core.Option.{some-injective}
use r.Mcslock.{
  System, Pc, Step, Reach, new_lock, next_access, move_to, call_lock, call_unlock, access, spurious,
  start, and_then, clear_next, check_next, wait_next, hand_over, release,
}
use r.Mcslock.Inv.{Order, Inv, owning, successor, spinning}
use r.Mcslock.Leave.{owning-queued, ticket_injective}
use r.Mcslock.Places.{go_on}
use r.Mcslock.Handover.{held}
use r.Mcslock.Accesses.{Ordered, Followed, same, next_access-Ordered}

-- A step that only moves its thread to a place of the same kind.
walked :
    (s : System) (o : Order)
    → Inv s o
    → (t : ℕ) (v : Pc) → Inv (move_to s t v) o
    → Followed s o (move_to s t v)
walked s o i t v i' = record { order' = o; inv' = i'; advance = same }

pub step-Followed : (s s' : System) (o : Order) → Inv s o → Step s s' → Followed s o s'
step-Followed s _ o i (call_lock t here) = walked s o i t clear_next (
    go_on i t clear_next (rw here refl) (rw here refl) refl refl refl (rw here refl) refl refl
      (λ h. absurd (cc h)))
step-Followed s _ o i (call_unlock t here) = walked s o i t check_next (
    go_on i t check_next (rw here refl) (rw here refl) refl refl refl (rw here refl) refl refl
      (λ h. absurd (cc h)))
step-Followed s _ o i (access t s' e) = next_access-Ordered s o i t (s.pc t) refl s' e
step-Followed s _ o i (spurious t here) = walked s o i t wait_next (
    go_on i t wait_next (rw here refl) (rw here refl) refl refl refl (rw here refl) refl refl
      (λ h. absurd (cc h)))

step-Ordered : (s s' : System) → Ordered s → Step s s' → Ordered s'
step-Ordered s s' x step =
    let f = step-Followed s s' x.order x.inv step in record { order = f.order'; inv = f.inv' }

abbrev pub new_order : Order
new_order = record { ticket = λ _. 0; at = λ _. 0; served = 0; issued = 0 }

pub new_lock-Inv : Inv new_lock new_order
new_lock-Inv = record {
  bounds = omega arith;
  queued_at = λ t h. absurd (cc h);
  at_queued = λ k lo hi. absurd (omega arith);
  tail = refl;
  owner_first = λ t h. absurd (cc h);
  before = λ t p h. absurd (cc h);
  marked_locked = λ t h. absurd (cc h);
  spin_locked = λ t h. absurd (cc h);
  next_at = λ k lo hi. absurd (omega arith);
  fresh = λ t h. absurd (cc h);
  handing = λ t n h. absurd (cc h);
  ready = λ t h. absurd (cc h);
}

pub reach-Ordered : (s : System) → Reach s → Ordered s
reach-Ordered _ start = record { order = new_order; inv = new_lock-Inv }
reach-Ordered _ (and_then s s' r x) = step-Ordered s s' (reach-Ordered s r) x

spinning-successor :
    (s : System) (o : Order) (k n : ℕ) → successor s o k ≡ some n → spinning (s.pc n) ≡ true
spinning-successor s o k n e = elim (Bool-cases (ltb (k + 1) o.issued)) [
  | inr b ↦ absurd (cc (rw b at e))
  | inl b ↦ elim (Bool-cases (spinning (s.pc (o.at (k + 1))))) [
    | inr c ↦ absurd (cc (rw (b, c) at e))
    | inl c ↦ ap (λ y. spinning (s.pc y)) (sym (some-injective _ _ (rw (b, c) at e))) ∙ c
  ]
]

-- In every state that is reached from the new lock by any interleaving of the accesses of any number
-- of threads, failures of the weak exchange included, two threads that are between the end of `lock`
-- and the end of `unlock` are the same thread.
pub reach-exclusive :
    (s : System) → Reach s → (t u : ℕ) → owning (s.pc t) ≡ true → owning (s.pc u) ≡ true → t ≡ u
reach-exclusive s r t u ht hu =
    let x = reach-Ordered s r in
    ticket_injective x.inv t u (owning-queued (s.pc t) ht) (owning-queued (s.pc u) hu)
      (x.inv.owner_first t ht ∙ sym (x.inv.owner_first u hu))

-- In every reached state where a thread in `unlock` is to read its next node, the node is there, so
-- that no null pointer is followed, and it belongs to a thread that spins in `lock`.
pub reach-hand_over :
    (s : System)
    → Reach s
    → (t : ℕ) → s.pc t ≡ hand_over
    → (n : ℕ) × (next_access s t (s.pc t) ≡ some (move_to s t (release n)))
      × (spinning (s.pc n) ≡ true)
unfolding next_access
reach-hand_over s r t here =
    let x = reach-Ordered s r in
    let i = x.inv in
    let o = x.order in
    let h = held i t (rw here refl) in
    let lo = h.0 in
    let e : s.next t ≡ successor s o o.served =
      ap s.next (sym h.1) ∙ i.next_at o.served (omega arith) lo in
    elim (Option-cases (s.next t)) [
      | inl q ↦ absurd (i.ready t (rw here refl) q)
      | inr (n, q) ↦
          (n, rw (here, q, next_access) refl, spinning-successor s o o.served n (sym e ∙ q))
    ]
