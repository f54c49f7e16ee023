-- ===== src/Mcslock/Enter.antt =====
-- port/src/mcslock.rs: the step by which a thread enters the queue, with `queue.swap`.
use r.Common.{
  ℕ, ◌+◌, ◌-◌, ◌≤◌, ◌<◌, ◌≡◌, ◌≢◌, refl, sym, ap, ◌∙◌, true, false, ◌&&◌, Option, none, some, ltb,
  ltb-false, lt→ltb, dec_lt, ==_refl, ==_ne, if◌then◌else◌, ℕ_discrete, arith,
}
use r.Mcslock.Standing.{linking-queued}
use r.Mcslock.{System, Pc, upd}
use r.Mcslock.Inv.{
  reading, Order, Inv, owning, successor, queued, spinning, cleared, linking, marked, releasing,
}

abbrev pub entered : System → ℕ → Pc → System
entered s t v = record s { queue = some t; pc = upd s.pc t v }

abbrev pub numbered : Order → ℕ → Order
numbered o t = record o {
  ticket = upd o.ticket t o.issued;
  at = upd o.at o.issued t;
  issued = o.issued + 1;
}

module _ {s : System} {o : Order} (i : Inv s o) (t : ℕ) (v : Pc) (out : queued (s.pc t) ≡ false)
    (clear : s.next t ≡ none) (inside : queued v ≡ true)
    (first : owning v ≡ true → o.issued ≡ o.served)
    (link_to : (p : ℕ) → linking v ≡ some p → (o.served < o.issued) × (p ≡ o.at (o.issued - 1)))
    (no_mark : marked v ≡ false) (no_spin : spinning v ≡ false) (not_clear : cleared v ≡ false)
    (no_release : releasing v ≡ none) (no_reading : reading v ≡ false) where
  other : (u : ℕ) → queued (s.pc u) ≡ true → u ≢ t
  other u q e = cc (ap (λ x. queued (s.pc x)) e, q, out)

  at_old : (k : ℕ) → k < o.issued → (numbered o t).at k ≡ o.at k
  at_old k h = rw (==_ne k o.issued (omega arith)) refl

  at_new : (numbered o t).at o.issued ≡ t
  at_new = rw (==_refl o.issued) refl

  no_spin_new : spinning ((entered s t v).pc t) ≡ false
  no_spin_new = rw (==_refl t) no_spin

  successor_old :
      (k : ℕ)
      → o.served ≤ k
      → k + 1 < o.issued
      → successor (entered s t v) (numbered o t) k ≡ successor s o k
  successor_old k lo hi =
      let ne = other (o.at (k + 1)) (i.at_queued (k + 1) (omega arith) hi).0 in
      rw
        (
          at_old (k + 1) hi,
          lt→ltb (k + 1) (o.issued + 1) (omega arith),
          lt→ltb (k + 1) o.issued hi,
          ==_ne (o.at (k + 1)) t ne,
        )
        refl

  abbrev successor_at : ℕ → Option ℕ
  successor_at j =
      if ltb j (o.issued + 1) && spinning ((entered s t v).pc ((numbered o t).at j))
      then some ((numbered o t).at j)
      else none

  successor_last : (k : ℕ) → k + 1 ≡ o.issued → successor (entered s t v) (numbered o t) k ≡ none
  successor_last k e =
      ap (λ j. successor_at j) e
      ∙ rw (==_refl o.issued, ==_refl t, no_spin, lt→ltb o.issued (o.issued + 1) (omega arith)) refl

  next_entered :
      (k : ℕ)
      → o.served ≤ k
      → k < o.issued + 1
      → s.next ((numbered o t).at k) ≡ successor (entered s t v) (numbered o t) k
  next_entered k lo hi = elim (ℕ_discrete k o.issued) [
    | yes e ↦ rw (e, ==_refl o.issued, ltb-false (o.issued + 1) (o.issued + 1) (omega arith)) clear
    | no ne ↦ elim (dec_lt (k + 1) o.issued) [
      | yes h ↦
          ap s.next (at_old k (omega arith))
          ∙ i.next_at k lo (omega arith)
          ∙ sym (successor_old k lo h)
      | no h ↦
          ap s.next (at_old k (omega arith))
          ∙ i.next_at k lo (omega arith)
          ∙ rw (ltb-false (k + 1) o.issued (omega arith)) (sym (successor_last k (omega arith)))
    ]
  ]

  pub entered-Inv : Inv (entered s t v) (numbered o t)
  entered-Inv = record {
    bounds = let b = i.bounds in omega arith;
    queued_at = λ u h. elim (ℕ_discrete u t) [
      | yes e ↦ rw (e, ==_refl t, ==_refl o.issued) (i.bounds, omega arith, refl)
      | no ne ↦
          let b = i.queued_at u (rw (==_ne u t ne) at h) in
          rw (==_ne u t ne) (b.0, (let l = b.1 in omega arith), at_old (o.ticket u) b.1 ∙ b.2)
    ];
    at_queued = λ k lo hi. elim (ℕ_discrete k o.issued) [
      | yes e ↦ rw (e, ==_refl o.issued, ==_refl t) (inside, refl)
      | no ne ↦
          let b = i.at_queued k lo (omega arith) in
          rw (at_old k (omega arith), ==_ne (o.at k) t (other (o.at k) b.0)) b
    ];
    tail = rw (==_ne (o.issued + 1) o.served (let b = i.bounds in λ e. absurd (omega arith))) (
        let e : o.issued + 1 - 1 ≡ o.issued = omega arith in
        ap some (sym (ap (numbered o t).at e ∙ at_new)));
    owner_first = λ u h. elim (ℕ_discrete u t) [
      | yes e ↦ rw (e, ==_refl t) (first (rw (e, ==_refl t) at h))
      | no ne ↦ rw (==_ne u t ne) (i.owner_first u (rw (==_ne u t ne) at h))
    ];
    before = λ u p h. elim (ℕ_discrete u t) [
      | yes e ↦
          let b = link_to p (rw (e, ==_refl t) at h) in
          let l = b.0 in rw (e, ==_refl t) (b.0, b.1 ∙ sym (at_old (o.issued - 1) (omega arith)))
      | no ne ↦
          let h' : linking (s.pc u) ≡ some p = rw (==_ne u t ne) at h in
          let b = i.before u p h' in
          let l = b.0 in
          let hi = (i.queued_at u (linking-queued (s.pc u) p h')).1 in
          rw (==_ne u t ne) (b.0, b.1 ∙ sym (at_old (o.ticket u - 1) (omega arith)))
    ];
    marked_locked = λ u h. elim (ℕ_discrete u t) [
      | yes e ↦ absurd (cc (rw (e, ==_refl t) at h, no_mark))
      | no ne ↦ i.marked_locked u (rw (==_ne u t ne) at h)
    ];
    spin_locked = λ u h. elim (ℕ_discrete u t) [
      | yes e ↦ absurd (cc (rw (e, ==_refl t) at h, no_spin))
      | no ne ↦ rw (==_ne u t ne) (i.spin_locked u (rw (==_ne u t ne) at h))
    ];
    next_at = next_entered;
    fresh = λ u h. elim (ℕ_discrete u t) [
      | yes e ↦ absurd (cc (rw (e, ==_refl t) at h, not_clear))
      | no ne ↦ i.fresh u (rw (==_ne u t ne) at h)
    ];
    handing = λ u n h. elim (ℕ_discrete u t) [
      | yes e ↦ absurd (cc (rw (e, ==_refl t) at h, no_release))
      | no ne ↦ i.handing u n (rw (==_ne u t ne) at h)
    ];
    ready = λ u h. elim (ℕ_discrete u t) [
      | yes e ↦ absurd (cc (rw (e, ==_refl t) at h, no_reading))
      | no ne ↦ i.ready u (rw (==_ne u t ne) at h)
    ];
  }
