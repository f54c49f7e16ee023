-- ===== src/Mcslock/Fifo.antt =====
-- port/src/mcslock.rs: the lock as a queue of threads, which enter it at the end and leave it at the front.
use r.Common.{
  ℕ, zero, suc, ◌+◌, ◌-◌, ◌≤◌, ◌<◌, ◌≡◌, refl, sym, ap, ◌∙◌, ◌≢◌, Bool, true, false, Bool-cases,
  inl, inr, some, List, [], ◌∷◌, ◌++◌, ==_refl, ==_ne, ℕ_discrete, arith, subst,
}
use mathlib.Core.List.{Memᴰ}
use mathlib.Core.List.Memᴰ.{head, tail}
use r.Mcslock.{System, Reach, Step, new_lock, start, and_then, swap, next_access}
use r.Mcslock.Inv.{Order, Inv, owning, queued}
use r.Mcslock.Enter.{numbered}
use r.Mcslock.Handover.{held}
use r.Mcslock.Accesses.{Advance, same, joined, departed}
use r.Mcslock.Exclusion.{step-Followed, new_order, new_lock-Inv}

-- All threads but one are in the queue after a step if they were before it.
abbrev pub OthersStay : System → System → ℕ → Type 0
OthersStay s s' t = (u : ℕ) → u ≢ t → queued (s'.pc u) ≡ queued (s.pc u)

-- What a step may do to a queue of threads. It stays as it is in a step that leaves every thread inside
-- or outside; a thread enters it at the end by its swap, and leaves it from the front, as it gives up the
-- lock.
pub data QueueStep (s s' : System) : List ℕ → List ℕ → Type 0 where
  stay : (q : List ℕ) → ((u : ℕ) → queued (s'.pc u) ≡ queued (s.pc u)) → QueueStep s s' q q
  enter :
      (q : List ℕ) (t : ℕ)
      → s.pc t ≡ swap
      → next_access s t swap ≡ some s'
      → queued (s'.pc t) ≡ true
      → OthersStay s s' t
      → QueueStep s s' q (q ++ (t ∷ []))
  leave :
      (q : List ℕ) (t : ℕ)
      → owning (s.pc t) ≡ true
      → queued (s'.pc t) ≡ false
      → OthersStay s s' t
      → QueueStep s s' (t ∷ q) q

-- The queue that the steps of a run make, from the new lock on.
pub data Fifo : (s : System) → Reach s → List ℕ → Type 0 where
  new : Fifo new_lock start []
  go :
      (s s' : System) (r : Reach s) (step : Step s s') (q q' : List ℕ)
      → Fifo s r q
      → QueueStep s s' q q'
      → Fifo s' (and_then s s' r step) q'

-- `n` threads from a number on.
abbrev line : (ℕ → ℕ) → ℕ → ℕ → List ℕ
line at k zero = []
line at k (suc n) = at k ∷ line at (k + 1) n

abbrev queue_of : Order → List ℕ
queue_of o = line o.at o.served (o.issued - o.served)

line-append :
    (at at' : ℕ → ℕ) (n k : ℕ)
    → ((j : ℕ) → j < k + n → at' j ≡ at j)
    → line at' k (suc n) ≡ line at k n ++ (at' (k + n) ∷ [])
line-append at at' zero k e = ap (λ j. at' j ∷ []) (omega arith)
line-append at at' (suc n) k e = rw (e k (omega arith)) (
    ap (λ l. at k ∷ l)
      (line-append at at' n (k + 1) (λ j h. e j (omega arith))
        ∙ ap (λ j. line at (k + 1) n ++ (at' j ∷ [])) (omega arith)))

line-Memᴰ : (at : ℕ → ℕ) (n k j : ℕ) → k ≤ j → j < k + n → Memᴰ (at j) (line at k n)
line-Memᴰ at zero k j lo hi = absurd (omega arith)
line-Memᴰ at (suc n) k j lo hi = elim (ℕ_discrete j k) [
  | yes e ↦ head (ap at e)
  | no ne ↦ tail (line-Memᴰ at n (k + 1) j (omega arith) (omega arith))
]

of_line :
    (at : ℕ → ℕ) (n k : ℕ) {t : ℕ}
    → Memᴰ t (line at k n)
    → (j : ℕ) × (k ≤ j) × (j < k + n) × (t ≡ at j)
of_line at zero k m = elim m [ ]
of_line at (suc n) k (head e) = (k, omega arith, omega arith, e)
of_line at (suc n) k (tail m) =
    let (j, lo, hi, e) = of_line at n (k + 1) m in (j, omega arith, omega arith, e)

Memᴰ-init : (q : List ℕ) (t : ℕ) {u : ℕ} → Memᴰ u q → Memᴰ u (q ++ (t ∷ []))
Memᴰ-init [] t m = elim m [ ]
Memᴰ-init (x ∷ q) t (head e) = head e
Memᴰ-init (x ∷ q) t (tail m) = tail (Memᴰ-init q t m)

Memᴰ-other : (q : List ℕ) (t u : ℕ) → u ≢ t → Memᴰ u (q ++ (t ∷ [])) → Memᴰ u q
Memᴰ-other [] t u ne (head e) = absurd (ne e)
Memᴰ-other [] t u ne (tail m) = elim m [ ]
Memᴰ-other (x ∷ q) t u ne (head e) = head e
Memᴰ-other (x ∷ q) t u ne (tail m) = tail (Memᴰ-other q t u ne m)

Memᴰ-last : (q : List ℕ) (t : ℕ) → Memᴰ t (q ++ (t ∷ []))
Memᴰ-last [] t = head refl
Memᴰ-last (x ∷ q) t = tail (Memᴰ-last q t)

-- The threads of the queue are those that wait for the lock or hold it.
module _ {s : System} {o : Order} (i : Inv s o) where
  queued-Memᴰ : (t : ℕ) → queued (s.pc t) ≡ true → Memᴰ t (queue_of o)
  queued-Memᴰ t h =
      let b = i.bounds in
      let (lo, hi, e) = i.queued_at t h in
      subst (λ u. Memᴰ u (queue_of o)) e
        (line-Memᴰ o.at (o.issued - o.served) o.served (o.ticket t) lo (omega arith))

  Memᴰ-queued : (t : ℕ) → Memᴰ t (queue_of o) → queued (s.pc t) ≡ true
  Memᴰ-queued t m =
      let b = i.bounds in
      let (j, lo, hi, e) = of_line o.at (o.issued - o.served) o.served m in
      ap (λ u. queued (s.pc u)) e ∙ (i.at_queued j lo (omega arith)).0

same_test : (b c : Bool) → (b ≡ true → c ≡ true) → (c ≡ true → b ≡ true) → b ≡ c
same_test true c f g = sym (f refl)
same_test false true f g = g refl
same_test false false f g = refl

-- A thread that is a member of both queues or of neither is in or outside in both states.
same_queued :
    {s s' : System} {o o' : Order} (i : Inv s o) (i' : Inv s' o') (u : ℕ)
    → (Memᴰ u (queue_of o') → Memᴰ u (queue_of o))
    → (Memᴰ u (queue_of o) → Memᴰ u (queue_of o'))
    → queued (s'.pc u) ≡ queued (s.pc u)
same_queued {s} {s'} i i' u back forth =
    same_test (queued (s'.pc u)) (queued (s.pc u))
      (λ h. Memᴰ-queued i u (back (queued-Memᴰ i' u h)))
      (λ h. Memᴰ-queued i' u (forth (queued-Memᴰ i u h)))

queue_of-numbered :
    (o : Order) (t : ℕ) → o.served ≤ o.issued → queue_of (numbered o t) ≡ queue_of o ++ (t ∷ [])
queue_of-numbered o t b =
    let n = o.issued - o.served in
    let count : o.issued + 1 - o.served ≡ suc n = omega arith in
    let last : o.served + n ≡ o.issued = omega arith in
    ap (line (numbered o t).at o.served) count
    ∙ line-append o.at (numbered o t).at n o.served
        (λ j h. rw (==_ne j o.issued (omega arith)) refl)
    ∙ ap (λ j. line o.at o.served n ++ ((numbered o t).at j ∷ [])) last
    ∙ rw (==_refl o.issued) refl

-- The order once the first thread has left.
abbrev next_served : Order → Order
next_served o = record o { served = o.served + 1 }

queue_of-next_served :
    (o : Order) (t : ℕ)
    → o.served < o.issued
    → o.at o.served ≡ t
    → queue_of o ≡ t ∷ queue_of (next_served o)
queue_of-next_served o t lo first =
    let count : o.issued - o.served ≡ suc (o.issued - (o.served + 1)) = omega arith in
    ap (line o.at o.served) count ∙ ap (λ u. u ∷ queue_of (next_served o)) first

joined-QueueStep :
    {s s' : System} (o : Order) (i : Inv s o) (t : ℕ) (i' : Inv s' (numbered o t))
    → s.pc t ≡ swap
    → next_access s t swap ≡ some s'
    → QueueStep s s' (queue_of o) (queue_of (numbered o t))
joined-QueueStep {s} {s'} o i t i' here e =
    let q = queue_of-numbered o t i.bounds in
    subst (QueueStep s s' (queue_of o)) (sym q) (
      enter (queue_of o) t here e
        (Memᴰ-queued i' t (subst (Memᴰ t) (sym q) (Memᴰ-last (queue_of o) t)))
        (λ u ne.
          same_queued i i' u (λ m. Memᴰ-other (queue_of o) t u ne (subst (Memᴰ u) q m))
            (λ m. subst (Memᴰ u) (sym q) (Memᴰ-init (queue_of o) t m))))

departed-QueueStep :
    {s s' : System} (o : Order) (i : Inv s o) (t : ℕ) (i' : Inv s' (next_served o))
    → owning (s.pc t) ≡ true
    → QueueStep s s' (queue_of o) (queue_of (next_served o))
departed-QueueStep {s} {s'} o i t i' own =
    let h = held i t own in
    let q = queue_of-next_served o t h.0 h.1 in
    let gone : queued (s'.pc t) ≡ false = elim (Bool-cases (queued (s'.pc t))) [
      | inl b ↦
          let ticket = i.owner_first t own in
          let (lo, _, _) = i'.queued_at t b in absurd (omega arith)
      | inr b ↦ b
    ] in
    subst (λ l. QueueStep s s' l (queue_of (next_served o))) (sym q)
      (leave (queue_of (next_served o)) t own gone (λ u ne.
        same_queued i i' u (λ m. subst (Memᴰ u) (sym q) (tail m))
          (λ m. after_first u t ne (subst (Memᴰ u) q m))))
  where
    after_first : (u t : ℕ) {q : List ℕ} → u ≢ t → Memᴰ u (t ∷ q) → Memᴰ u q
    after_first u t ne (head e) = absurd (ne e)
    after_first u t ne (tail m) = m

-- What a step does to the queue of the order that it keeps.
pub advance-QueueStep :
    {s s' : System} (o o' : Order)
    → Inv s o
    → Inv s' o'
    → Advance s o s' o'
    → QueueStep s s' (queue_of o) (queue_of o')
advance-QueueStep o _ i i' same = stay _ (λ u. same_queued i i' u (λ m. m) (λ m. m))
advance-QueueStep o _ i i' (joined t here e) = joined-QueueStep o i t i' here e
advance-QueueStep o _ i i' (departed t own out) = departed-QueueStep o i t i' own

reach-queue_of : (s : System) (r : Reach s) → (o : Order) × Inv s o × Fifo s r (queue_of o)
reach-queue_of _ start = (new_order, new_lock-Inv, new)
reach-queue_of _ (and_then s s' r step) =
    let (o, i, f) = reach-queue_of s r in
    let x = step-Followed s s' o i step in
    (
      x.order',
      x.inv',
      go s s' r step (queue_of o) (queue_of x.order') f
          (advance-QueueStep o x.order' i x.inv' x.advance),
    )

-- Every run from the new lock makes a queue of threads, step by step: the step in which a thread
-- swaps itself into the lock puts it at the end, the step in which the thread at the front gives
-- up the lock takes it away, and every other step leaves each thread inside or outside of the
-- queue. In the state that is reached, the threads of the queue are those that wait for the lock,
-- hold it or give it up, and one that holds it or gives it up is the first.
pub reach-Fifo :
    (s : System) (r : Reach s)
    → (q : List ℕ) × Fifo s r q
      × ((t : ℕ) → queued (s.pc t) ≡ true → Memᴰ t q)
      × ((t : ℕ) → Memᴰ t q → queued (s.pc t) ≡ true)
      × ((t : ℕ) → owning (s.pc t) ≡ true → (rest : List ℕ) × (q ≡ t ∷ rest))
reach-Fifo s r =
    let (o, i, f) = reach-queue_of s r in
    (
      queue_of o,
      f,
      queued-Memᴰ i,
      Memᴰ-queued i,
      λ t own. let h = held i t own in (queue_of (next_served o), queue_of-next_served o t h.0 h.1),
    )
