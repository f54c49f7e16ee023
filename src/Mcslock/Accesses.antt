-- ===== src/Mcslock/Accesses.antt =====
-- port/src/mcslock.rs: every access keeps the order of the queue.
use r.Common.{
  ℕ, ◌+◌, ◌≡◌, inl, inr, refl, ap, ◌∙◌, true, false, Option, none, some, ==_iff, ==_refl,
  Bool-cases, Option-cases, subst,
}
use mathlib.Core.Option.{some-injective}
use r.Mcslock.{
  System, Pc, move_to, is_node, next_access, idle, clear_next, clear_locked, swap, spin, holding,
  check_next, exchange, wait_next, hand_over, set_locked, link, release,
}
use r.Mcslock.Inv.{Order, Inv, owning}
use r.Mcslock.Leave.{left}
use r.Mcslock.Enter.{entered, numbered, entered-Inv}
use r.Mcslock.Link.{linked-Inv}
use r.Mcslock.Places.{
  go_on, clear_next-Inv, clear_locked-Inv, set_locked-Inv, spin-Inv, hand_over-Inv, empty, last,
}
use r.Mcslock.Handover.{exchange-Inv, release-Inv}

pub record Ordered (s : System) : Type 0 where
  pub order : Order
  pub inv : Inv s order

-- What a step does to the order: nothing, or a thread enters at the end, or the first one leaves.
pub data Advance (s : System) (o : Order) (s' : System) : Order → Type 0 where
  same : Advance s o s' o
  joined : (t : ℕ) → s.pc t ≡ swap → next_access s t swap ≡ some s' → Advance s o s' (numbered o t)
  departed :
      (t : ℕ)
      → owning (s.pc t) ≡ true
      → owning (s'.pc t) ≡ false
      → Advance s o s' (record o { served = o.served + 1 })

pub record Followed (s : System) (o : Order) (s' : System) : Type 0 where
  pub order' : Order
  pub inv' : Inv s' order'
  pub advance : Advance s o s' order'

is_node-some : (q : Option ℕ) (t : ℕ) → is_node q t ≡ true → q ≡ some t
is_node-some none t h = absurd (cc h)
is_node-some (some p) t h = ap some ((==_iff p t).0 h)

went :
    (s0 : System) (o0 : Order) (s s' : System) (o : Order)
    → Inv s o
    → Advance s0 o0 s o
    → some s ≡ some s'
    → Followed s0 o0 s'
went s0 o0 s s' o i a e =
    subst (Followed s0 o0) (some-injective _ _ e) (record { order' = o; inv' = i; advance = a })

-- A step that leaves the order as it is.
went_on : (s0 s s' : System) (o : Order) → Inv s o → some s ≡ some s' → Followed s0 o s'
went_on s0 s s' o i e = went s0 o s s' o i same e

swap-Ordered :
    (s : System) (o : Order) (i : Inv s o) (t : ℕ)
    → s.pc t ≡ swap
    → (s' : System) → next_access s t swap ≡ some s'
    → Followed s o s'
unfolding next_access
swap-Ordered s o i t here s' e = elim (Option-cases s.queue) [
  | inl q ↦
      went s o (entered s t holding) s' (numbered o t)
        (entered-Inv i t holding (rw here refl) (i.fresh t (rw here refl)) refl (λ h. empty i t q)
          (λ p h. absurd (cc h)) refl refl refl refl refl)
        (joined t here (rw q refl)) (rw q at e)
  | inr (p, q) ↦
      went s o (entered s t (set_locked p)) s' (numbered o t)
        (entered-Inv i t (set_locked p) (rw here refl) (i.fresh t (rw here refl)) refl
          (λ h. absurd (cc h)) (λ x h. last i t x (q ∙ h)) refl refl refl refl refl)
        (joined t here (rw q refl)) (rw q at e)
]

spin-Ordered :
    (s : System) (o : Order) (i : Inv s o) (t : ℕ)
    → s.pc t ≡ spin
    → (s' : System) → next_access s t spin ≡ some s'
    → Followed s o s'
unfolding next_access
spin-Ordered s o i t here s' e = elim (Bool-cases (s.locked t)) [
  | inl b ↦ absurd (cc (rw b at e))
  | inr b ↦ went_on s (move_to s t holding) s' o (spin-Inv i t here b) (rw b at e)
]

-- The loads of `node.next` in `unlock`.
check_next-Ordered :
    (s : System) (o : Order) (i : Inv s o) (t : ℕ)
    → s.pc t ≡ check_next
    → (s' : System) → next_access s t check_next ≡ some s'
    → Followed s o s'
unfolding next_access
check_next-Ordered s o i t here s' e = elim (Option-cases (s.next t)) [
  | inl q ↦
      went_on s (move_to s t exchange) s' o
        (go_on i t exchange (rw here refl) (rw here refl) refl refl refl (rw here refl) refl refl
          (λ h. absurd (cc h)))
        (rw (q, next_access) at e)
  | inr (p, q) ↦
      went_on s (move_to s t hand_over) s' o
        (go_on i t hand_over (rw here refl) (rw here refl) refl refl refl (rw here refl) refl refl
          (λ h x. cc (x, q)))
        (rw (q, next_access) at e)
]

wait_next-Ordered :
    (s : System) (o : Order) (i : Inv s o) (t : ℕ)
    → s.pc t ≡ wait_next
    → (s' : System) → next_access s t wait_next ≡ some s'
    → Followed s o s'
unfolding next_access
wait_next-Ordered s o i t here s' e = elim (Option-cases (s.next t)) [
  | inl q ↦ absurd (cc (rw (q, next_access) at e))
  | inr (p, q) ↦
      went_on s (move_to s t hand_over) s' o
        (go_on i t hand_over (rw here refl) (rw here refl) refl refl refl (rw here refl) refl refl
          (λ h x. cc (x, q)))
        (rw (q, next_access) at e)
]

hand_over-Ordered :
    (s : System) (o : Order) (i : Inv s o) (t : ℕ)
    → s.pc t ≡ hand_over
    → (s' : System) → next_access s t hand_over ≡ some s'
    → Followed s o s'
unfolding next_access
hand_over-Ordered s o i t here s' e = elim (Option-cases (s.next t)) [
  | inl q ↦ absurd (cc (rw (q, next_access) at e))
  | inr (p, q) ↦
      went_on s (move_to s t (release p)) s' o (hand_over-Inv i t p here q)
        (rw (q, next_access) at e)
]

exchange-Ordered :
    (s : System) (o : Order) (i : Inv s o) (t : ℕ)
    → s.pc t ≡ exchange
    → (s' : System) → next_access s t exchange ≡ some s'
    → Followed s o s'
unfolding next_access
exchange-Ordered s o i t here s' e = elim (Bool-cases (is_node s.queue t)) [
  | inl b ↦
      went s o (left s t none s.locked) s' (record o { served = o.served + 1 })
        (exchange-Inv i t here (is_node-some s.queue t b))
        (departed t (rw here refl) (rw (==_refl t) refl)) (rw b at e)
  | inr b ↦
      went_on s (move_to s t wait_next) s' o
        (go_on i t wait_next (rw here refl) (rw here refl) refl refl refl (rw here refl) refl refl
          (λ h. absurd (cc h)))
        (rw b at e)
]

pub next_access-Ordered :
    (s : System) (o : Order) (i : Inv s o) (t : ℕ) (v : Pc)
    → s.pc t ≡ v
    → (s' : System) → next_access s t v ≡ some s'
    → Followed s o s'
unfolding next_access
next_access-Ordered s o i t idle here s' e = absurd (cc e)
next_access-Ordered s o i t clear_next here s' e = went_on s _ s' o (clear_next-Inv i t here) e
next_access-Ordered s o i t clear_locked here s' e = went_on s _ s' o (clear_locked-Inv i t here) e
next_access-Ordered s o i t swap here s' e = swap-Ordered s o i t here s' e
next_access-Ordered s o i t (set_locked p) here s' e =
    went_on s _ s' o (set_locked-Inv i t p here) e
next_access-Ordered s o i t (link p) here s' e = went_on s _ s' o (linked-Inv i t p here) e
next_access-Ordered s o i t spin here s' e = spin-Ordered s o i t here s' e
next_access-Ordered s o i t holding here s' e = absurd (cc e)
next_access-Ordered s o i t check_next here s' e = check_next-Ordered s o i t here s' e
next_access-Ordered s o i t exchange here s' e = exchange-Ordered s o i t here s' e
next_access-Ordered s o i t wait_next here s' e = wait_next-Ordered s o i t here s' e
next_access-Ordered s o i t hand_over here s' e = hand_over-Ordered s o i t here s' e
next_access-Ordered s o i t (release n) here s' e =
    went s o _ s' (record o { served = o.served + 1 }) (release-Inv i t n here)
      (departed t (rw here refl) (rw (==_refl t) refl)) e
