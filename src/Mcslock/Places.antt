-- ===== src/Mcslock/Places.antt =====
-- port/src/mcslock.rs: the steps from one place of the two functions to the next.
use r.Common.{
  ℕ, ◌-◌, ◌<◌, ◌≡◌, ◌≢◌, inl, inr, refl, sym, ap, ◌∙◌, true, false, not, none, some, ==_refl, ==_ne,
  ℕ_discrete, arith,
}
use mathlib.Core.Option.{some-injective}
use r.Mcslock.{
  System, Pc, move_to, upd, clear_next, clear_locked, swap, spin, holding, hand_over, set_locked,
  link, release,
}
use r.Mcslock.Inv.{
  reading, Order, Inv, owning, queued, spinning, cleared, linking, marked, releasing,
}
use r.Mcslock.Moves.{move-Inv}
use r.Mcslock.Writes.{clear-Inv, write_locked-Inv}

module _ {s : System} {o : Order} (i : Inv s o) (t : ℕ) where
  -- A thread goes on within one of the two functions, to a place that promises no more.
  pub go_on :
      (v : Pc)
      → queued v ≡ queued (s.pc t)
      → owning v ≡ owning (s.pc t)
      → linking v ≡ none
      → marked v ≡ false
      → spinning v ≡ false
      → spinning (s.pc t) ≡ false
      → cleared v ≡ false
      → releasing v ≡ none
      → (reading v ≡ true → s.next t ≢ none)
      → Inv (move_to s t v) o
  go_on v same own no_link no_mark no_spin was_not not_clear no_release reads =
      move-Inv i t v same (λ h. i.owner_first t (sym own ∙ h)) (λ p h. absurd (cc (h, no_link)))
        (λ h. absurd (cc (h, no_mark))) no_spin (inl was_not) (λ h. absurd (cc (h, not_clear)))
        (λ n h. absurd (cc (h, no_release))) reads

  pub clear_next-Inv :
      s.pc t ≡ clear_next → Inv (move_to (record s { next = upd s.next t none }) t clear_locked) o
  clear_next-Inv here =
      move-Inv (clear-Inv i t (rw here refl)) t clear_locked (rw here refl) (λ h. absurd (cc h))
        (λ p h. absurd (cc h)) (λ h. absurd (cc h)) refl (inl (rw here refl))
        (λ h. rw (==_refl t) refl) (λ n h. absurd (cc h)) (λ h. absurd (cc h))

  pub clear_locked-Inv :
      s.pc t ≡ clear_locked → Inv (move_to (record s { locked = upd s.locked t false }) t swap) o
  clear_locked-Inv here =
      move-Inv (write_locked-Inv i t false (rw here refl) (rw here refl)) t swap (rw here refl)
        (λ h. absurd (cc h)) (λ p h. absurd (cc h)) (λ h. absurd (cc h)) refl (inl (rw here refl))
        (λ h. i.fresh t (rw here refl)) (λ n h. absurd (cc h)) (λ h. absurd (cc h))

  pub set_locked-Inv :
      (p : ℕ)
      → s.pc t ≡ set_locked p
      → Inv (move_to (record s { locked = upd s.locked t true }) t (link p)) o
  set_locked-Inv p here =
      move-Inv (write_locked-Inv i t true (rw here refl) (rw here refl)) t (link p) (rw here refl)
        (λ h. absurd (cc h)) (λ q h. i.before t q (rw here h)) (λ h. rw (==_refl t) refl) refl
        (inl (rw here refl)) (λ h. absurd (cc h)) (λ n h. absurd (cc h)) (λ h. absurd (cc h))

  pub spin-Inv : s.pc t ≡ spin → s.locked t ≡ false → Inv (move_to s t holding) o
  spin-Inv here opened =
      let h = i.spin_locked t (rw here refl) in
      let front : o.ticket t ≡ o.served = elim (ℕ_discrete (o.ticket t) o.served) [
        | yes e ↦ e
        | no ne ↦ absurd (cc (h, opened, ap not (==_ne (o.ticket t) o.served ne)))
      ] in
      move-Inv i t holding (rw here refl) (λ h. front) (λ p h. absurd (cc h)) (λ h. absurd (cc h))
        refl (inr front) (λ h. absurd (cc h)) (λ n h. absurd (cc h)) (λ h. absurd (cc h))

  pub hand_over-Inv :
      (n : ℕ) → s.pc t ≡ hand_over → s.next t ≡ some n → Inv (move_to s t (release n)) o
  hand_over-Inv n here e =
      move-Inv i t (release n) (rw here refl) (λ h. i.owner_first t (rw here refl))
        (λ p h. absurd (cc h)) (λ h. absurd (cc h)) refl (inl (rw here refl)) (λ h. absurd (cc h))
        (λ m h. e ∙ h) (λ h. absurd (cc h))

  -- An empty queue, or its last thread.
  pub empty : s.queue ≡ none → o.issued ≡ o.served
  empty e = elim (ℕ_discrete o.issued o.served) [
    | yes h ↦ h
    | no ne ↦ absurd (cc (e, rw (==_ne o.issued o.served ne) at i.tail))
  ]

  pub last : (p : ℕ) → s.queue ≡ some p → (o.served < o.issued) × (p ≡ o.at (o.issued - 1))
  last p e = elim (ℕ_discrete o.issued o.served) [
    | yes h ↦ absurd (cc (e, rw (h, ==_refl o.served) at i.tail))
    | no ne ↦
        let b = i.bounds in
        (omega arith, some-injective _ _ (sym e ∙ (rw (==_ne o.issued o.served ne) at i.tail)))
  ]
