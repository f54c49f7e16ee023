-- ===== src/Mcslock/Leave.antt =====
-- port/src/mcslock.rs: the step by which a thread gives up the lock.
use r.Common.{
  ℕ, ◌+◌, ◌-◌, ◌≤◌, ◌<◌, ◌≡◌, ◌≢◌, refl, sym, ap, ◌∙◌, Bool, true, not, Option, none, some,
  ltb-false, dec_lt, ◌==◌, ==_refl, ==_ne, if◌then◌else◌, ℕ_discrete, arith,
}
use r.Mcslock.{System, Pc, upd, idle}
use r.Mcslock.Inv.{Order, Inv, owning, successor, queued, spinning, linking, marked}

abbrev pub left : System → ℕ → Option ℕ → (ℕ → Bool) → System
left s t q l = record s { queue = q; locked = l; pc = upd s.pc t idle }

pub owning-queued : (v : Pc) → owning v ≡ true → queued v ≡ true
owning-queued v h = rw h refl

module _ {s : System} {o : Order} (i : Inv s o) where
  -- Two threads in the queue with one ticket are the same.
  pub ticket_injective :
      (t u : ℕ) → queued (s.pc t) ≡ true → queued (s.pc u) ≡ true → o.ticket t ≡ o.ticket u → t ≡ u
  ticket_injective t u qt qu e = sym (i.queued_at t qt).2 ∙ ap o.at e ∙ (i.queued_at u qu).2

  module _ (t : ℕ) (own : owning (s.pc t) ≡ true) (q : Option ℕ) (l : ℕ → Bool)
      (tail' : q ≡ (if o.issued == o.served + 1 then none else some (o.at (o.issued - 1))))
      (no_link : (u p : ℕ) → linking (s.pc u) ≡ some p → o.ticket u ≢ o.served + 1)
      (locked_marked : (u : ℕ) → marked (s.pc u) ≡ true → l u ≡ true)
      (locked_spin : (u : ℕ)
        → spinning (s.pc u) ≡ true
        → u ≢ t
        → l u ≡ not (o.ticket u == o.served + 1)) where
    front : o.ticket t ≡ o.served
    front = i.owner_first t own

    behind : (u : ℕ) → u ≢ t → queued (s.pc u) ≡ true → o.ticket u ≢ o.served
    behind u ne h e = ne (ticket_injective u t h (owning-queued (s.pc t) own) (e ∙ sym front))

    at_other : (k : ℕ) → o.served + 1 ≤ k → k < o.issued → o.at k ≢ t
    at_other k lo hi e =
        let ticket : o.ticket t ≡ k = ap o.ticket (sym e) ∙ (i.at_queued k (omega arith) hi).1 in
        absurd (omega arith)

    successor-left :
        (k : ℕ)
        → o.served + 1 ≤ k
        → k < o.issued
        → successor (left s t q l) (record o { served = o.served + 1 }) k ≡ successor s o k
    successor-left k lo hi = elim (dec_lt (k + 1) o.issued) [
      | yes h ↦ rw (==_ne (o.at (k + 1)) t (at_other (k + 1) (omega arith) h)) refl
      | no h ↦ rw (ltb-false (k + 1) o.issued (omega arith)) refl
    ]

    pub left-Inv : Inv (left s t q l) (record o { served = o.served + 1 })
    left-Inv = record {
      bounds = let b = i.queued_at t (owning-queued (s.pc t) own) in let f = front in omega arith;
      queued_at = λ u h. elim (ℕ_discrete u t) [
        | yes e ↦ absurd (cc (rw (e, ==_refl t) at h))
        | no ne ↦
            let h' : queued (s.pc u) ≡ true = rw (==_ne u t ne) at h in
            let b = i.queued_at u h' in let f = behind u ne h' in (omega arith, b.1, b.2)
      ];
      at_queued = λ k lo hi.
          let b = i.at_queued k (omega arith) hi in
          (rw (==_ne (o.at k) t (at_other k lo hi)) b.0, b.1);
      tail = tail';
      owner_first = λ u h. elim (ℕ_discrete u t) [
        | yes e ↦ absurd (cc (rw (e, ==_refl t) at h))
        | no ne ↦
            let h' : owning (s.pc u) ≡ true = rw (==_ne u t ne) at h in
            absurd (behind u ne (owning-queued (s.pc u) h') (i.owner_first u h'))
      ];
      before = λ u p h. elim (ℕ_discrete u t) [
        | yes e ↦ absurd (cc (rw (e, ==_refl t) at h))
        | no ne ↦
            let h' : linking (s.pc u) ≡ some p = rw (==_ne u t ne) at h in
            let b = i.before u p h' in let f = no_link u p h' in (omega arith, b.1)
      ];
      marked_locked = λ u h. elim (ℕ_discrete u t) [
        | yes e ↦ absurd (cc (rw (e, ==_refl t) at h))
        | no ne ↦ locked_marked u (rw (==_ne u t ne) at h)
      ];
      spin_locked = λ u h. elim (ℕ_discrete u t) [
        | yes e ↦ absurd (cc (rw (e, ==_refl t) at h))
        | no ne ↦ locked_spin u (rw (==_ne u t ne) at h) ne
      ];
      next_at = λ k lo hi. i.next_at k (omega arith) hi ∙ sym (successor-left k lo hi);
      fresh = λ u h. elim (ℕ_discrete u t) [
        | yes e ↦ absurd (cc (rw (e, ==_refl t) at h))
        | no ne ↦ i.fresh u (rw (==_ne u t ne) at h)
      ];
      handing = λ u n h. elim (ℕ_discrete u t) [
        | yes e ↦ absurd (cc (rw (e, ==_refl t) at h))
        | no ne ↦ i.handing u n (rw (==_ne u t ne) at h)
      ];
      ready = λ u h. elim (ℕ_discrete u t) [
        | yes e ↦ absurd (cc (rw (e, ==_refl t) at h))
        | no ne ↦ i.ready u (rw (==_ne u t ne) at h)
      ];
    }
