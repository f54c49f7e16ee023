-- ===== src/Mcslock/Link.antt =====
-- port/src/mcslock.rs: the step by which a thread writes itself into its predecessor's node.
use r.Common.{
  ℕ, ◌+◌, ◌-◌, ◌≤◌, ◌<◌, ◌≡◌, ◌≢◌, refl, sym, ap, ◌∙◌, true, false, none, some, ltb-false, lt→ltb,
  dec_lt, ==_refl, ==_ne, ℕ_discrete, arith,
}
use r.Mcslock.{
  System, Pc, upd, idle, clear_next, clear_locked, swap, spin, holding, check_next, exchange,
  wait_next, hand_over, set_locked, link, release,
}
use r.Mcslock.Inv.{Order, Inv, owning, successor, queued, cleared, releasing}

abbrev pub linked : System → ℕ → ℕ → System
linked s t p = record s { next = upd s.next p (some t); pc = upd s.pc t spin }

releasing-owning : (v : Pc) (n : ℕ) → releasing v ≡ some n → owning v ≡ true
releasing-owning (release m) n h = refl
releasing-owning idle n h = absurd (cc h)
releasing-owning clear_next n h = absurd (cc h)
releasing-owning clear_locked n h = absurd (cc h)
releasing-owning swap n h = absurd (cc h)
releasing-owning spin n h = absurd (cc h)
releasing-owning holding n h = absurd (cc h)
releasing-owning check_next n h = absurd (cc h)
releasing-owning exchange n h = absurd (cc h)
releasing-owning wait_next n h = absurd (cc h)
releasing-owning hand_over n h = absurd (cc h)
releasing-owning (set_locked p) n h = absurd (cc h)
releasing-owning (link p) n h = absurd (cc h)

cleared-queued : (v : Pc) → cleared v ≡ true → queued v ≡ false
cleared-queued clear_locked h = refl
cleared-queued swap h = refl
cleared-queued idle h = absurd (cc h)
cleared-queued clear_next h = absurd (cc h)
cleared-queued spin h = absurd (cc h)
cleared-queued holding h = absurd (cc h)
cleared-queued check_next h = absurd (cc h)
cleared-queued exchange h = absurd (cc h)
cleared-queued wait_next h = absurd (cc h)
cleared-queued hand_over h = absurd (cc h)
cleared-queued (set_locked p) h = absurd (cc h)
cleared-queued (link p) h = absurd (cc h)
cleared-queued (release n) h = absurd (cc h)

module _ {s : System} {o : Order} (i : Inv s o) (t p : ℕ) (here : s.pc t ≡ link p) where
  -- The thread and its predecessor stand in the queue one behind the other.
  queued_here : queued (s.pc t) ≡ true
  queued_here = rw here refl

  behind : (o.served < o.ticket t) × (p ≡ o.at (o.ticket t - 1))
  behind = i.before t p (rw here refl)

  place : (o.served ≤ o.ticket t) × (o.ticket t < o.issued) × (o.at (o.ticket t) ≡ t)
  place = i.queued_at t queued_here

  pred : (queued (s.pc p) ≡ true) × (o.ticket p ≡ o.ticket t - 1)
  pred =
      let b = behind.0 in
      let hi = place.1 in
      let q = i.at_queued (o.ticket t - 1) (omega arith) (omega arith) in rw (behind.1) q

  pred_next : s.next p ≡ none
  pred_next =
      let b = behind.0 in
      let hi = place.1 in
      let e : o.ticket t - 1 + 1 ≡ o.ticket t = omega arith in
      ap s.next (behind.1)
      ∙ i.next_at (o.ticket t - 1) (omega arith) (omega arith)
      ∙ rw (e, place.2, here, lt→ltb (o.ticket t) o.issued hi) refl

  next_linked :
      (k : ℕ)
      → o.served ≤ k
      → k < o.issued
      → (linked s t p).next (o.at k) ≡ successor (linked s t p) o k
  next_linked k lo hi = elim (ℕ_discrete (k + 1) (o.ticket t)) [
    | yes e ↦
        let at_p : o.at k ≡ p = ap o.at (omega arith) ∙ sym behind.1 in
        let l = place.1 in
        rw (at_p, ==_refl p, e, lt→ltb (o.ticket t) o.issued l, place.2, ==_refl t) refl
    | no ne ↦
        let not_p : o.at k ≢ p = λ e.
          let same : k ≡ o.ticket t - 1 = sym (i.at_queued k lo hi).1 ∙ ap o.ticket e ∙ pred.1 in
          let b = behind.0 in absurd (omega arith) in
        rw (==_ne (o.at k) p not_p) (
          i.next_at k lo hi ∙ elim (dec_lt (k + 1) o.issued) [
            | yes h ↦
                let not_t : o.at (k + 1) ≢ t =
                  λ e. ne (sym (i.at_queued (k + 1) (omega arith) h).1 ∙ ap o.ticket e) in
                rw (==_ne (o.at (k + 1)) t not_t) refl
            | no h ↦ rw (ltb-false (k + 1) o.issued (omega arith)) refl
          ])
  ]

  pub linked-Inv : Inv (linked s t p) o
  linked-Inv = record {
    bounds = i.bounds;
    queued_at = λ u h. elim (ℕ_discrete u t) [
      | yes e ↦ rw e place
      | no ne ↦ i.queued_at u (rw (==_ne u t ne) at h)
    ];
    at_queued = λ k lo hi. elim (ℕ_discrete (o.at k) t) [
      | yes e ↦ (rw (e, ==_refl t) refl, (i.at_queued k lo hi).1)
      | no ne ↦ (rw (==_ne (o.at k) t ne) (i.at_queued k lo hi).0, (i.at_queued k lo hi).1)
    ];
    tail = i.tail;
    owner_first = λ u h. elim (ℕ_discrete u t) [
      | yes e ↦ absurd (cc (rw (e, ==_refl t) at h))
      | no ne ↦ i.owner_first u (rw (==_ne u t ne) at h)
    ];
    before = λ u q h. elim (ℕ_discrete u t) [
      | yes e ↦ absurd (cc (rw (e, ==_refl t) at h))
      | no ne ↦ i.before u q (rw (==_ne u t ne) at h)
    ];
    marked_locked = λ u h. elim (ℕ_discrete u t) [
      | yes e ↦ absurd (cc (rw (e, ==_refl t) at h))
      | no ne ↦ i.marked_locked u (rw (==_ne u t ne) at h)
    ];
    spin_locked = λ u h. elim (ℕ_discrete u t) [
      | yes e ↦
          let b = behind.0 in
          let late : o.ticket t ≢ o.served = λ q. absurd (omega arith) in
          rw (e, ==_ne (o.ticket t) o.served late) (i.marked_locked t (rw here refl))
      | no ne ↦ i.spin_locked u (rw (==_ne u t ne) at h)
    ];
    next_at = next_linked;
    fresh = λ u h. elim (ℕ_discrete u t) [
      | yes e ↦ absurd (cc (rw (e, ==_refl t) at h))
      | no ne ↦
          let h' : cleared (s.pc u) ≡ true = rw (==_ne u t ne) at h in
          let not_p : u ≢ p =
            λ e. cc (ap (λ x. queued (s.pc x)) e, pred.0, cleared-queued (s.pc u) h') in
          rw (==_ne u p not_p) (i.fresh u h')
    ];
    handing = λ u n h. elim (ℕ_discrete u t) [
      | yes e ↦ absurd (cc (rw (e, ==_refl t) at h))
      | no ne ↦
          let h' : s.next u ≡ some n = i.handing u n (rw (==_ne u t ne) at h) in
          let not_p : u ≢ p = λ e. cc (ap s.next e, h', pred_next) in rw (==_ne u p not_p) h'
    ];
    ready = λ u h. elim (ℕ_discrete u t) [
      | yes e ↦ absurd (cc (rw (e, ==_refl t) at h))
      | no ne ↦
          let h' : s.next u ≢ none = i.ready u (rw (==_ne u t ne) at h) in
          let not_p : u ≢ p = λ e. h' (ap s.next e ∙ pred_next) in rw (==_ne u p not_p) h'
    ];
  }
