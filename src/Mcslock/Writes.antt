-- ===== src/Mcslock/Writes.antt =====
-- port/src/mcslock.rs: the stores to a node that its own thread makes while no other relies on it.
use r.Common.{
  ℕ, ◌≡◌, sym, ◌≢◌, refl, ap, ◌∙◌, Bool, true, false, none, some, ==_refl, ==_ne, ℕ_discrete,
}
use r.Mcslock.{
  System, Pc, upd, idle, clear_next, clear_locked, swap, spin, holding, check_next, exchange,
  wait_next, hand_over, set_locked, link, release,
}
use r.Mcslock.Standing.{reading-queued}
use r.Mcslock.Inv.{Order, Inv, queued, spinning, marked, releasing}

releasing-queued : (v : Pc) (n : ℕ) → releasing v ≡ some n → queued v ≡ true
releasing-queued (release m) n h = refl
releasing-queued idle n h = absurd (cc h)
releasing-queued clear_next n h = absurd (cc h)
releasing-queued clear_locked n h = absurd (cc h)
releasing-queued swap n h = absurd (cc h)
releasing-queued spin n h = absurd (cc h)
releasing-queued holding n h = absurd (cc h)
releasing-queued check_next n h = absurd (cc h)
releasing-queued exchange n h = absurd (cc h)
releasing-queued wait_next n h = absurd (cc h)
releasing-queued hand_over n h = absurd (cc h)
releasing-queued (set_locked p) n h = absurd (cc h)
releasing-queued (link p) n h = absurd (cc h)

upd_other {ℓ} : {A : Type ℓ} (f : ℕ → A) (t : ℕ) (a : A) (u : ℕ) → u ≢ t → upd f t a u ≡ f u
upd_other f t a u ne = rw (==_ne u t ne) refl

module _ {s : System} {o : Order} (i : Inv s o) (t : ℕ) where
  pub clear-Inv : queued (s.pc t) ≡ false → Inv (record s { next = upd s.next t none }) o
  clear-Inv out =
      let other : (u : ℕ) → queued (s.pc u) ≡ true → u ≢ t =
        λ u q e. cc (ap (λ x. queued (s.pc x)) e, q, out) in
      record {
        bounds = i.bounds;
        queued_at = i.queued_at;
        at_queued = i.at_queued;
        tail = i.tail;
        owner_first = i.owner_first;
        before = i.before;
        marked_locked = i.marked_locked;
        spin_locked = i.spin_locked;
        next_at = λ k lo hi.
            upd_other s.next t none (o.at k) (other (o.at k) (i.at_queued k lo hi).0)
            ∙ i.next_at k lo hi;
        fresh = λ u h. elim (ℕ_discrete u t) [
          | yes e ↦ rw e (rw (==_refl t) refl)
          | no ne ↦ upd_other s.next t none u ne ∙ i.fresh u h
        ];
        handing = λ u n h.
            upd_other s.next t none u (other u (releasing-queued (s.pc u) n h)) ∙ i.handing u n h;
        ready = λ u h x.
            i.ready u h (sym (upd_other s.next t none u (other u (reading-queued (s.pc u) h))) ∙ x);
      }

  pub write_locked-Inv :
      (b : Bool)
      → marked (s.pc t) ≡ false
      → spinning (s.pc t) ≡ false
      → Inv (record s { locked = upd s.locked t b }) o
  write_locked-Inv b no_mark no_spin = record {
    bounds = i.bounds;
    queued_at = i.queued_at;
    at_queued = i.at_queued;
    tail = i.tail;
    owner_first = i.owner_first;
    before = i.before;
    next_at = i.next_at;
    fresh = i.fresh;
    handing = i.handing;
    ready = i.ready;
    marked_locked = λ u h. elim (ℕ_discrete u t) [
      | yes e ↦ absurd (cc (ap (λ x. marked (s.pc x)) e, h, no_mark))
      | no ne ↦ upd_other s.locked t b u ne ∙ i.marked_locked u h
    ];
    spin_locked = λ u h. elim (ℕ_discrete u t) [
      | yes e ↦ absurd (cc (ap (λ x. spinning (s.pc x)) e, h, no_spin))
      | no ne ↦ upd_other s.locked t b u ne ∙ i.spin_locked u h
    ];
  }
