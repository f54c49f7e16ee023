-- ===== src/Mcslock/Handover.antt =====
-- port/src/mcslock.rs: the two ways in which a thread gives up the lock.
use r.Common.{
  ℕ, ◌+◌, ◌-◌, ◌<◌, ◌≡◌, ◌≢◌, inl, inr, refl, sym, ap, ◌∙◌, true, false, not, none, some, ltb-false,
  lt→ltb, dec_lt, ◌==◌, ==_refl, ==_ne, ℕ_discrete, arith, Bool-cases,
}
use mathlib.Core.Option.{some-injective}
use r.Mcslock.{System, upd, exchange, release}
use r.Mcslock.Inv.{Order, Inv, owning, successor, spinning}
use r.Mcslock.Leave.{left, left-Inv, owning-queued, ticket_injective}
use r.Mcslock.Standing.{spinning-queued, linking-queued, linking-spinning, marked-spinning}
use r.Mcslock.Places.{last}

module _ {s : System} {o : Order} (i : Inv s o) (t : ℕ) where
  pub held :
      owning (s.pc t) ≡ true → (o.served < o.issued) × (o.at o.served ≡ t) × (o.ticket t ≡ o.served)
  held own =
      let f = i.owner_first t own in
      let b = i.queued_at t (owning-queued (s.pc t) own) in
      let hi = b.1 in (omega arith, ap o.at (sym f) ∙ b.2, f)

  -- The node that the thread is to release belongs to the next thread of the queue, which spins.
  awaited :
      (n : ℕ)
      → s.pc t ≡ release n
      → (o.served + 1 < o.issued) × (n ≡ o.at (o.served + 1)) × (spinning (s.pc n) ≡ true)
  awaited n here =
      let h = held (rw here refl) in
      let lo = h.0 in
      let e : successor s o o.served ≡ some n =
        sym (i.next_at o.served (omega arith) lo) ∙ ap s.next h.1 ∙ i.handing t n (rw here refl) in
      elim (dec_lt (o.served + 1) o.issued) [
        | no l ↦ absurd (cc (rw (ltb-false (o.served + 1) o.issued (omega arith)) at e))
        | yes l ↦ elim (Bool-cases (spinning (s.pc (o.at (o.served + 1))))) [
          | inr b ↦ absurd (cc (rw (lt→ltb (o.served + 1) o.issued l, b) at e))
          | inl b ↦
              let same : o.at (o.served + 1) ≡ n =
                some-injective _ _ (rw (lt→ltb (o.served + 1) o.issued l, b) at e) in
              (l, sym same, ap (λ y. spinning (s.pc y)) (sym same) ∙ b)
        ]
      ]

  released :
      (u n : ℕ)
      → s.pc t ≡ release n
      → spinning (s.pc u) ≡ true
      → u ≢ t
      → upd s.locked n false u ≡ not (o.ticket u == o.served + 1)
  released u n here e ne =
      let a = awaited n here in
      let own : owning (s.pc t) ≡ true = rw here refl in
      let qu = spinning-queued (s.pc u) e in
      let b = i.queued_at u qu in
      elim (ℕ_discrete u n) [
        | yes same ↦
            let tick : o.ticket u ≡ o.served + 1 =
              ap o.ticket (same ∙ a.1) ∙ (i.at_queued (o.served + 1) (omega arith) a.0).1 in
            rw (tick, ==_refl (o.served + 1), same, ==_refl n) refl
        | no other ↦
            let not_next : o.ticket u ≢ o.served + 1 = λ x. other (sym b.2 ∙ ap o.at x ∙ sym a.1) in
            let not_first : o.ticket u ≢ o.served = λ x.
              ne (ticket_injective i u t qu (owning-queued (s.pc t) own) (x ∙ sym (held own).2)) in
            rw (==_ne u n other, ==_ne (o.ticket u) (o.served + 1) not_next)
              (i.spin_locked u e ∙ ap not (==_ne (o.ticket u) o.served not_first))
      ]

  pub exchange-Inv :
      s.pc t ≡ exchange
      → s.queue ≡ some t
      → Inv (left s t none s.locked) (record o { served = o.served + 1 })
  exchange-Inv here q =
      let own : owning (s.pc t) ≡ true = rw here refl in
      let h = held own in
      let f = h.2 in
      let l = last i t t q in
      let lo = l.0 in
      let k : o.ticket t ≡ o.issued - 1 =
        ap o.ticket l.1 ∙ (i.at_queued (o.issued - 1) (omega arith) (omega arith)).1 in
      let one : o.issued ≡ o.served + 1 = omega arith in
      left-Inv i t own none s.locked (rw (one, ==_refl (o.served + 1)) refl)
        (λ u p e.
          let b = (i.queued_at u (linking-queued (s.pc u) p e)).1 in λ x. absurd (omega arith))
        i.marked_locked
        (λ u e ne.
          let b = i.queued_at u (spinning-queued (s.pc u) e) in
          let lo' = b.0 in
          let hi' = b.1 in
          absurd (
            ne (
              ticket_injective i u t (spinning-queued (s.pc u) e) (owning-queued (s.pc t) own)
                (omega arith))))

  pub release-Inv :
      (n : ℕ)
      → s.pc t ≡ release n
      → Inv (left s t s.queue (upd s.locked n false)) (record o { served = o.served + 1 })
  release-Inv n here =
      let own : owning (s.pc t) ≡ true = rw here refl in
      let h = held own in
      let lo = h.0 in
      let b = i.bounds in
      let succ = awaited n here in
      let more = succ.0 in
      left-Inv i t own s.queue (upd s.locked n false)
        (i.tail
          ∙ rw
              (
                ==_ne o.issued o.served (λ e. absurd (omega arith)),
                ==_ne o.issued (o.served + 1) (λ e. absurd (omega arith)),
              )
              refl)
        (λ u p e x.
          let same : u ≡ n =
            sym (i.queued_at u (linking-queued (s.pc u) p e)).2 ∙ ap o.at x ∙ sym succ.1 in
          cc (linking-spinning (s.pc u) p e, ap (λ y. spinning (s.pc y)) same, succ.2))
        (λ u e.
          let ne : u ≢ n =
            λ same. cc (marked-spinning (s.pc u) e, ap (λ y. spinning (s.pc y)) same, succ.2) in
          rw (==_ne u n ne) (i.marked_locked u e))
        (λ u e ne. released u n here e ne)
