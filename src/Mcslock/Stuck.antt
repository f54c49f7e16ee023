-- ===== src/Mcslock/Stuck.antt =====
-- port/src/mcslock.rs: a thread that waits in `unlock` for a successor, with no other thread in the queue.
use r.Common.{
  ℕ, List, ◌+◌, ◌≡◌, ◌≢◌, ◌⊎◌, inl, inr, refl, sym, ap, ◌∙◌, false, none, some, ltb-false, dec_lt,
  arith, Bool-cases, Option-cases, ==_ne, ℕ_discrete,
}
use mathlib.Core.Option.{some-injective}
use r.Mcslock.{
  System, Pc, Step, Reach, next_access, move_to, is_node, call_lock, call_unlock, access, spurious,
  idle, clear_next, clear_locked, swap, spin, holding, check_next, exchange, wait_next, hand_over,
  set_locked, link, release,
}
use r.Mcslock.Inv.{Order, Inv, queued}
use r.Mcslock.Handover.{held}
use r.Mcslock.Exclusion.{reach-Ordered, step-Followed}
use r.Mcslock.Fifo.{QueueStep, stay, enter, leave, advance-QueueStep}

-- An access moves no other thread.
module _ (s : System) (t u : ℕ) (other : t ≢ u) where
  moved :
      (v : Pc) (s0 s' : System)
      → s0.pc t ≡ s.pc t
      → some (move_to s0 u v) ≡ some s'
      → s'.pc t ≡ s.pc t
  moved v s0 s' kept e = ap (λ x. x.pc t) (sym (some-injective _ _ e)) ∙ rw (==_ne t u other) kept

  next_access-pc : (v : Pc) (s' : System) → next_access s u v ≡ some s' → s'.pc t ≡ s.pc t
  unfolding next_access
  next_access-pc idle s' e = absurd (cc e)
  next_access-pc clear_next s' e = moved clear_locked _ s' refl e
  next_access-pc clear_locked s' e = moved swap _ s' refl e
  next_access-pc swap s' e = elim (Option-cases s.queue) [
    | inl q ↦ moved holding (record s { queue = some u }) s' refl (rw q at e)
    | inr (p, q) ↦ moved (set_locked p) (record s { queue = some u }) s' refl (rw q at e)
  ]
  next_access-pc (set_locked p) s' e = moved (link p) _ s' refl e
  next_access-pc (link p) s' e = moved spin _ s' refl e
  next_access-pc spin s' e = elim (Bool-cases (s.locked u)) [
    | inl b ↦ absurd (cc (rw b at e))
    | inr b ↦ moved holding s s' refl (rw b at e)
  ]
  next_access-pc holding s' e = absurd (cc e)
  next_access-pc check_next s' e = elim (Option-cases (s.next u)) [
    | inl q ↦ moved exchange s s' refl (rw (q, next_access) at e)
    | inr (p, q) ↦ moved hand_over s s' refl (rw (q, next_access) at e)
  ]
  next_access-pc exchange s' e = elim (Bool-cases (is_node s.queue u)) [
    | inl b ↦ moved idle (record s { queue = none }) s' refl (rw b at e)
    | inr b ↦ moved wait_next s s' refl (rw b at e)
  ]
  next_access-pc wait_next s' e = elim (Option-cases (s.next u)) [
    | inl q ↦ absurd (cc (rw (q, next_access) at e))
    | inr (p, q) ↦ moved hand_over s s' refl (rw (q, next_access) at e)
  ]
  next_access-pc hand_over s' e = elim (Option-cases (s.next u)) [
    | inl q ↦ absurd (cc (rw (q, next_access) at e))
    | inr (p, q) ↦ moved (release p) s s' refl (rw (q, next_access) at e)
  ]
  next_access-pc (release n) s' e = moved idle _ s' refl e

module _ {s : System} {o : Order} (i : Inv s o) (t : ℕ) (here : s.pc t ≡ wait_next)
    (alone : (u : ℕ) → u ≢ t → queued (s.pc u) ≡ false) where
  no_access : next_access s t (s.pc t) ≡ none
  unfolding next_access
  no_access =
      let h = held i t (rw here refl) in
      let lo = h.0 in
      let none_next : s.next t ≡ none =
        ap s.next (sym h.1)
        ∙ i.next_at o.served (omega arith) lo
        ∙ elim (dec_lt (o.served + 1) o.issued) [
          | no l ↦ rw (ltb-false (o.served + 1) o.issued (omega arith)) refl
          | yes l ↦
              let q = i.at_queued (o.served + 1) (omega arith) l in
              let ne : o.at (o.served + 1) ≢ t = λ e.
                let tick : o.ticket t ≡ o.served + 1 = ap o.ticket (sym e) ∙ q.1 in
                let f = h.2 in absurd (omega arith) in
              absurd (cc (q.0, alone (o.at (o.served + 1)) ne))
        ] in
      rw (here, none_next, next_access) refl

  -- A thread at another place is another thread.
  not_here : (u : ℕ) (v : Pc) → s.pc u ≡ v → v ≢ wait_next → t ≢ u
  not_here u v at ne same = ne (sym at ∙ ap s.pc (sym same) ∙ here)

  -- No step of any thread moves this one.
  stays : (s' : System) → Step s s' → s'.pc t ≡ wait_next
  stays _ (call_lock u at) = rw (==_ne t u (not_here u idle at (λ e. cc e))) here
  stays _ (call_unlock u at) = rw (==_ne t u (not_here u holding at (λ e. cc e))) here
  stays _ (spurious u at) = rw (==_ne t u (not_here u exchange at (λ e. cc e))) here
  stays _ (access u s' e) = elim (ℕ_discrete t u) [
    | yes same ↦ absurd (cc (no_access, e, same))
    | no other ↦ next_access-pc s t u other (s.pc u) s' e ∙ here
  ]

  still_alone :
      (s' : System) (q q' : List ℕ)
      → QueueStep s s' q q'
      → ((u : ℕ) → u ≢ t → queued (s'.pc u) ≡ false)
        ⊎ ((u : ℕ) × (s.pc u ≡ swap) × (next_access s u swap ≡ some s'))
  still_alone s' q _ (stay _ kept) = inl (λ u ne. kept u ∙ alone u ne)
  still_alone s' q _ (enter _ u at e in_queue kept) = inr (u, at, e)
  still_alone s' _ q (leave _ u own out kept) = inl (λ v ne. elim (ℕ_discrete v u) [
    | yes same ↦ ap (λ x. queued (s'.pc x)) same ∙ out
    | no other ↦ kept v other ∙ alone v ne
  ])

-- In every reached state where a thread waits in unlock for a successor and no other thread is in
-- the queue, the thread has no access to make, and each step that the system may take leaves it
-- waiting; after the step no other thread is in the queue either, unless the step was the swap of
-- a thread.
pub reach-stuck :
    (s : System)
    → Reach s
    → (t : ℕ) → s.pc t ≡ wait_next
    → ((u : ℕ) → u ≢ t → queued (s.pc u) ≡ false)
    → (next_access s t (s.pc t) ≡ none)
      × ((s' : System)
          → Step s s'
          → (s'.pc t ≡ wait_next)
            × (((u : ℕ) → u ≢ t → queued (s'.pc u) ≡ false)
                ⊎ ((u : ℕ) × (s.pc u ≡ swap) × (next_access s u swap ≡ some s'))))
reach-stuck s r t here alone =
    let x = reach-Ordered s r in
    (
      no_access x.inv t here alone,
      λ s' step.
          let f = step-Followed s s' x.order x.inv step in
          (
            stays x.inv t here alone s' step,
            still_alone x.inv t here alone s' _ _
                (advance-QueueStep x.order f.order' x.inv f.inv' f.advance),
          ),
    )
