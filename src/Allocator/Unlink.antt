-- ===== src/Allocator/Unlink.antt =====
-- port/src/allocator.rs: what `unlink` returns for nodes behind the head of a list, and
-- an allocation of a large block.
use r.Common.{
  ℕ, zero, suc, ◌<◌, ◌≡◌, ◌≢◌, refl, ap, ap₂, ◌∙◌, Bool, true, false, done, Option, none, some,
  List, [], ◌∷◌, length, arith, leb, ◌&&◌, ==_ne,
}
use r.Allocator.Store.{
  QuickFit, Header, update, load, store, unlink, unlink_loop, list_fuel, set_misc,
}
use r.Allocator.Quick.{alloc_misc}
use r.Allocator.Steps.{step, load_lem}

-- From `l` on, the nodes `ps` are linked in this order and none of them satisfies the predicate; then
-- comes `m`.
abbrev pub Misses : (ℕ → Option Header) → (Header → Bool) → Option ℕ → List ℕ → Option ℕ → Type 0
Misses headers predicate l [] m = l ≡ m
Misses headers predicate l (p ∷ ps) m =
    (l ≡ some p)
    × ((h : Header) × (headers p ≡ some h)
        × (predicate h ≡ false)
        × Misses headers predicate h.next ps m)

-- The node before `m`.
abbrev pub last : Option ℕ → List ℕ → Option ℕ
last prev [] = prev
last prev (p ∷ ps) = last (some p) ps

module _ (predicate : Header → Bool) where
  -- A round at a node that does not match.
  miss_round :
      (fuel : ℕ) (prev : Option ℕ) (p : ℕ) (h : Header) (q : QuickFit)
      → q.headers p ≡ some h
      → predicate h ≡ false
      → unlink_loop predicate (suc fuel) prev (some p) q
        ≡ unlink_loop predicate fuel (some p) h.next q
  unfolding unlink_loop
  miss_round fuel prev p h q e miss = step (load p) _ q (load_lem p q e) ∙ rw miss refl

  none_loop :
      (fuel : ℕ) (prev l : Option ℕ) (ps : List ℕ) (q : QuickFit)
      → length ps < fuel
      → Misses q.headers predicate l ps none
      → unlink_loop predicate fuel prev l q ≡ done ((none, none), q)
  unfolding unlink_loop
  none_loop zero prev l ps q f m = absurd (omega arith)
  none_loop (suc fuel) prev l [] q f m = ap (λ l. unlink_loop predicate (suc fuel) prev l q) m
  none_loop (suc fuel) prev l (p ∷ ps) q f (e, (h, at, miss, rest)) =
      ap (λ l. unlink_loop predicate (suc fuel) prev l q) e
      ∙ miss_round fuel prev p h q at miss
      ∙ none_loop fuel (some p) h.next ps q (omega arith) rest

  hit_loop :
      (fuel : ℕ) (prev l : Option ℕ) (ps : List ℕ) (p r : ℕ) (h rh : Header) (q : QuickFit)
      → length ps < fuel
      → Misses q.headers predicate l ps (some p)
      → q.headers p ≡ some h
      → predicate h ≡ true
      → last prev ps ≡ some r
      → q.headers r ≡ some rh
      → r ≢ p
      → unlink_loop predicate fuel prev l q
        ≡ done (
          (some p, some p),
          record q {
            headers =
                update
                  (update q.headers p (record h { next = none }))
                  r
                  (record rh { next = h.next });
          },
        )
  unfolding unlink_loop store
  hit_loop zero prev l ps p r h rh q f m at yes_h before at_r ne = absurd (omega arith)
  hit_loop (suc fuel) prev l [] p r h rh q f m at yes_h before at_r ne =
      ap₂ (λ l prev. unlink_loop predicate (suc fuel) prev l q) m before
      ∙ step (load p) _ q (load_lem p q at)
      ∙ (let q' = record q { headers = update q.headers p (record h { next = none }) } in
          let at_r' : q'.headers r ≡ some rh = rw (==_ne r p ne) at_r in
          rw yes_h (step (load r) _ q' (load_lem r q' at_r')))
  hit_loop (suc fuel) prev l (p' ∷ ps) p r h rh q f (e, (h', at', miss, rest)) at yes_h before at_r
        ne =
      ap (λ l. unlink_loop predicate (suc fuel) prev l q) e
      ∙ miss_round fuel prev p' h' q at' miss
      ∙ hit_loop fuel (some p') h'.next ps p r h rh q (omega arith) rest at yes_h before at_r ne

  -- Where no node of a list satisfies the predicate, `unlink` finds none, but the list that it returns
  -- is empty, whatever the list was.
  pub unlink-none :
      (l : Option ℕ) (ps : List ℕ) (q : QuickFit)
      → length ps < list_fuel q
      → Misses q.headers predicate l ps none
      → unlink predicate l q ≡ done ((none, none), q)
  unfolding unlink
  unlink-none l ps q f m = none_loop (list_fuel q) none l ps q f m

  -- Where the first node that satisfies the predicate is not the head, `unlink` takes it out of the
  -- links, but the list that it returns starts at this node, and not at the head.
  unlink-behind :
      (l : Option ℕ) (ps : List ℕ) (p r : ℕ) (h rh : Header) (q : QuickFit)
      → length ps < list_fuel q
      → Misses q.headers predicate l ps (some p)
      → q.headers p ≡ some h
      → predicate h ≡ true
      → last none ps ≡ some r
      → q.headers r ≡ some rh
      → r ≢ p
      → unlink predicate l q
        ≡ done (
          (some p, some p),
          record q {
            headers =
                update
                  (update q.headers p (record h { next = none }))
                  r
                  (record rh { next = h.next });
          },
        )
  unfolding unlink
  unlink-behind l ps p r h rh q f m at yes_h before at_r ne =
      hit_loop (list_fuel q) none l ps p r h rh q f m at yes_h before at_r ne

-- An allocation that no freed large block fits loses all of them.
pub alloc_misc-loses :
    (size align : ℕ) (ps : List ℕ) (q : QuickFit)
    → length ps < list_fuel q
    → Misses q.headers (λ node. leb size node.size && leb align node.align) q.misc ps none
    → alloc_misc size align q ≡ done (none, record q { misc = none })
unfolding alloc_misc set_misc
alloc_misc-loses size align ps q f m =
    step (unlink (λ node. leb size node.size && leb align node.align) q.misc) _
      (record q { misc = none })
      (unlink-none (λ node. leb size node.size && leb align node.align) q.misc ps
        (record q { misc = none }) f m)
