-- ===== src/Mcslock/Moves.antt =====
-- port/src/mcslock.rs: the steps that change where a thread stands and nothing that others rely on.
use r.Common.{
  ℕ, ◌+◌, ◌-◌, ◌≤◌, ◌<◌, ◌≡◌, ◌≢◌, ◌⊎◌, inl, inr, refl, sym, ap, ◌∙◌, true, false, ◌&&◌, none, some,
  ltb, ==_refl, ==_ne, if◌then◌else◌, arith, ℕ_discrete, dec_lt, ltb-false,
}
use r.Mcslock.{System, Pc, move_to}
use r.Mcslock.Inv.{
  reading, Order, Inv, successor, owning, queued, spinning, cleared, linking, releasing, marked,
}

module _ {s : System} {o : Order} (i : Inv s o) (t : ℕ) (v : Pc)
    (same_queued : queued v ≡ queued (s.pc t)) (first : owning v ≡ true → o.ticket t ≡ o.served)
    (link_to : (p : ℕ) → linking v ≡ some p → (o.served < o.ticket t) × (p ≡ o.at (o.ticket t - 1)))
    (mark : marked v ≡ true → s.locked t ≡ true) (no_spin : spinning v ≡ false)
    (unseen : (spinning (s.pc t) ≡ false) ⊎ (o.ticket t ≡ o.served))
    (clear : cleared v ≡ true → s.next t ≡ none)
    (release_next : (n : ℕ) → releasing v ≡ some n → s.next t ≡ some n)
    (ready_next : reading v ≡ true → s.next t ≢ none) where
  queued_after : (u : ℕ) → queued ((move_to s t v).pc u) ≡ queued (s.pc u)
  queued_after u = elim (ℕ_discrete u t) [
    | yes e ↦ rw e (rw (==_refl t) same_queued)
    | no ne ↦ rw (==_ne u t ne) refl
  ]

  spinning_after :
      (k : ℕ)
      → o.served ≤ k
      → k + 1 < o.issued
      → spinning ((move_to s t v).pc (o.at (k + 1))) ≡ spinning (s.pc (o.at (k + 1)))
  spinning_after k lo hi = elim (ℕ_discrete (o.at (k + 1)) t) [
    | yes e ↦
        let at = i.at_queued (k + 1) (omega arith) hi in
        let ticket : o.ticket t ≡ k + 1 = ap o.ticket (sym e) ∙ at.1 in
        elim unseen [
          | inl not_spinning ↦ rw e (rw (==_refl t) (no_spin ∙ sym not_spinning))
          | inr at_front ↦ absurd (omega arith)
        ]
    | no ne ↦ rw (==_ne (o.at (k + 1)) t ne) refl
  ]

  successor_after :
      (k : ℕ) → o.served ≤ k → k < o.issued → successor (move_to s t v) o k ≡ successor s o k
  successor_after k lo hi = elim (dec_lt (k + 1) o.issued) [
    | yes l ↦
        ap (λ b. if ltb (k + 1) o.issued && b then some (o.at (k + 1)) else none)
          (spinning_after k lo l)
    | no l ↦ rw (ltb-false (k + 1) o.issued (omega arith)) refl
  ]

  pub move-Inv : Inv (move_to s t v) o
  move-Inv = record {
    bounds = i.bounds;
    queued_at = λ u h. i.queued_at u (sym (queued_after u) ∙ h);
    at_queued = λ k lo hi. let (q, e) = i.at_queued k lo hi in (queued_after (o.at k) ∙ q, e);
    tail = i.tail;
    owner_first = λ u h. elim (ℕ_discrete u t) [
      | yes e ↦ ap o.ticket e ∙ first (rw (e, ==_refl t) at h)
      | no ne ↦ i.owner_first u (rw (==_ne u t ne) at h)
    ];
    before = λ u p h. elim (ℕ_discrete u t) [
      | yes e ↦ rw e (link_to p (rw (e, ==_refl t) at h))
      | no ne ↦ i.before u p (rw (==_ne u t ne) at h)
    ];
    marked_locked = λ u h. elim (ℕ_discrete u t) [
      | yes e ↦ ap s.locked e ∙ mark (rw (e, ==_refl t) at h)
      | no ne ↦ i.marked_locked u (rw (==_ne u t ne) at h)
    ];
    spin_locked = λ u h. elim (ℕ_discrete u t) [
      | yes e ↦ absurd (cc (rw (e, ==_refl t) at h, no_spin))
      | no ne ↦ i.spin_locked u (rw (==_ne u t ne) at h)
    ];
    next_at = λ k lo hi. i.next_at k lo hi ∙ sym (successor_after k lo hi);
    fresh = λ u h. elim (ℕ_discrete u t) [
      | yes e ↦ ap s.next e ∙ clear (rw (e, ==_refl t) at h)
      | no ne ↦ i.fresh u (rw (==_ne u t ne) at h)
    ];
    handing = λ u n h. elim (ℕ_discrete u t) [
      | yes e ↦ ap s.next e ∙ release_next n (rw (e, ==_refl t) at h)
      | no ne ↦ i.handing u n (rw (==_ne u t ne) at h)
    ];
    ready = λ u h. elim (ℕ_discrete u t) [
      | yes e ↦ λ x. ready_next (rw (e, ==_refl t) at h) (ap s.next (sym e) ∙ x)
      | no ne ↦ i.ready u (rw (==_ne u t ne) at h)
    ];
  }
