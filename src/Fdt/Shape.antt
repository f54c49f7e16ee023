-- ===== src/Fdt/Shape.antt =====
-- port/src/fdt.rs: the shape of a structure block, and the rounds of a walk over it.
--
-- The shape of a block is stated on its tokens: between a begin and its end stand properties, nops and
-- complete nodes.
use r.Common.{
  ℕ, suc, ◌+◌, ◌-◌, ◌≤◌, ◌<◌, ◌≡◌, ◌≢◌, refl, sym, ap, ◌∙◌, Bool, true, false, Option, some, List,
  length, ltb, lt→ltb, ◌==◌, ==_ne, if◌then◌else◌, arith, Option-cases, inl, inr, Bool-cases, Run,
  panic, Step, again, stop, loop, loop-again, again-injective, loop-stop,
}
use r.Fdt.Token.{
  FdtToken, FdtBeginNodeContext, FdtTokenContext, begin_node, end_node, prop, nop, end, parse_token,
}
use r.Fdt.Progress.{token_len, parse_token-progress}
use r.Fdt.Node.{Node, Walk, node_token, node_round}

-- Whether a token is one that a walk steps over without a change of depth.
abbrev pub is_flat : FdtToken → Bool
is_flat (begin_node ctx) = false
is_flat (end_node ctx) = false
is_flat (prop ctx) = true
is_flat (nop ctx) = true
is_flat (end ctx) = true

module _ (s : List ℕ) where
  -- From `i` up to `k` stand flat tokens and complete nodes.
  pub data Body : ℕ → ℕ → Type 0 where
    empty : {i : ℕ} → Body i i
    flat :
        {i k : ℕ} (t : FdtToken)
        → parse_token s i ≡ some t
        → is_flat t ≡ true
        → Body (i + token_len t) k
        → Body i k
    child :
        {i m k : ℕ} (ctx : FdtBeginNodeContext) (e : FdtTokenContext)
        → parse_token s i ≡ some (begin_node ctx)
        → Body (i + ctx.total_len) m
        → parse_token s m ≡ some (end_node e)
        → Body (m + e.total_len) k
        → Body i k

  abbrev pub left : Walk → ℕ
  left w = length s - w.i

  unfoldable pub fuel : ℕ
  fuel = suc (length s)

  -- A round that goes on takes its token.
  taken :
      {w w' : Walk} {n : ℕ}
      → (let again' : Walk → Step Walk (Option Node) = again in again' w ≡ again' w')
      → w.i ≡ n
      → w'.i ≡ n
  taken e h = ap (λ x. x.i) (sym (again-injective e)) ∙ h

  end_round :
      (w w' : Walk) (n : ℕ) (b c : Bool) (r : Run (Option Node))
      → (if b
          then stop panic
          else if c
          then stop r
          else again (record w { i = n; depth = w.depth - 1 }))
        ≡ again w'
      → w'.i ≡ n
  end_round w w' n true c r e = absurd (cc e)
  end_round w w' n false true r e = absurd (cc e)
  end_round w w' n false false r e = taken e refl

  node_token-again :
      (w w' : Walk) (t : FdtToken) → node_token s w t ≡ again w' → w'.i ≡ w.i + token_len t
  unfolding node_token
  node_token-again w w' (begin_node ctx) h = taken h refl
  node_token-again w w' (end_node ctx) h =
      end_round w w' (w.i + ctx.total_len) (w.depth == 0) (w.depth - 1 == w.node_depth) _ h
  node_token-again w w' (prop ctx) h = taken h refl
  node_token-again w w' (nop ctx) h = taken h refl
  node_token-again w w' (end ctx) h = taken h refl

  pub node_round-lower : (w w' : Walk) → node_round s w ≡ again w' → left w' < left w
  unfolding node_round
  node_round-lower w w' h = elim (Bool-cases (ltb w.i (length s))) [
    | inl inside ↦ elim (Option-cases (parse_token s w.i)) [
      | inl e ↦ absurd (cc (rw (inside, e) at h))
      | inr (t, e) ↦
          omega
            (arith, node_token-again w w' t (rw (inside, e) at h), parse_token-progress s w.i t e)
    ]
    | inr outside ↦ absurd (cc (rw outside at h))
  ]

  -- One round, at a token.
  node_round-token :
      (w : Walk) (t : FdtToken) → parse_token s w.i ≡ some t → node_round s w ≡ node_token s w t
  unfolding node_round
  node_round-token w t e =
      let inside = parse_token-progress s w.i t e in
      rw (lt→ltb w.i (length s) (omega arith), e) refl

  unfoldable pub run : Walk → Run (Option Node)
  run w = loop (node_round s) fuel w

  pub run-again :
      (w w' : Walk) (t : FdtToken)
      → parse_token s w.i ≡ some t
      → node_token s w t ≡ again w'
      → run w ≡ run w'
  unfolding run fuel
  run-again w w' t e h =
      loop-again (node_round s) left node_round-lower (suc (length s)) w w' (omega arith)
        (node_round-token w t e ∙ h)

  pub run-stop :
      (w : Walk) (r : Run (Option Node)) (t : FdtToken)
      → parse_token s w.i ≡ some t
      → node_token s w t ≡ stop r
      → run w ≡ r
  unfolding run fuel
  run-stop w r t e h = loop-stop (node_round s) (length s) w r (node_round-token w t e ∙ h)

  -- At a depth below that of the node, a body is stepped over.
  abbrev pub at : Walk → ℕ → Walk
  at w i = record w { i = i }

  abbrev deeper : Walk → Walk
  deeper w = record w { depth = w.depth + 1 }

  flat_step :
      (w : Walk) (t : FdtToken)
      → is_flat t ≡ true
      → node_token s w t ≡ again (at w (w.i + token_len t))
  unfolding node_token
  flat_step w (begin_node ctx) h = absurd (cc h)
  flat_step w (end_node ctx) h = absurd (cc h)
  flat_step w (prop ctx) h = refl
  flat_step w (nop ctx) h = refl
  flat_step w (end ctx) h = refl

  begin_step :
      (w : Walk) (ctx : FdtBeginNodeContext)
      → w.node_depth ≢ w.depth
      → node_token s w (begin_node ctx) ≡ again (at (deeper w) (w.i + ctx.total_len))
  unfolding node_token
  begin_step w ctx deep = rw (==_ne w.depth w.node_depth (λ e. deep (sym e))) refl

  end_step :
      (w : Walk) (ctx : FdtTokenContext)
      → w.node_depth ≢ w.depth
      → node_token s (deeper w) (end_node ctx) ≡ again (at w (w.i + ctx.total_len))
  unfolding node_token
  end_step w ctx deep =
      let back : w.depth + 1 - 1 ≡ w.depth = omega arith in
      let some_depth : (w.depth + 1 == 0) ≡ false = ==_ne (w.depth + 1) 0 (omega arith) in
      rw (some_depth, back, ==_ne w.depth w.node_depth (λ e. deep (sym e))) refl

  pub run-Body :
      {i k : ℕ} (w : Walk) → Body i k → w.node_depth < w.depth → run (at w i) ≡ run (at w k)
  run-Body w empty deep = refl
  run-Body w (flat t e f b) deep =
      run-again (at w _) (at w _) t e (flat_step (at w _) t f) ∙ run-Body w b deep
  run-Body w (child ctx x e b e' b') deep =
      run-again (at w _) (at (deeper w) _) (begin_node ctx) e
        (begin_step (at w _) ctx (omega arith))
      ∙ run-Body (deeper w) b (omega arith)
      ∙ run-again (at (deeper w) _) (at w _) (end_node x) e' (end_step (at w _) x (omega arith))
      ∙ run-Body w b' deep

  -- Flat tokens alone stand from `i` up to `k`.
  pub data Flats : ℕ → ℕ → Type 0 where
    empty : {i : ℕ} → Flats i i
    flat :
        {i k : ℕ} (t : FdtToken)
        → parse_token s i ≡ some t
        → is_flat t ≡ true
        → Flats (i + token_len t) k
        → Flats i k

  pub run-Flats : {i k : ℕ} (w : Walk) → Flats i k → run (at w i) ≡ run (at w k)
  run-Flats w empty = refl
  run-Flats w (flat t e f b) =
      run-again (at w _) (at w _) t e (flat_step (at w _) t f) ∙ run-Flats w b

  -- A complete node at `i`: its begin token, its body up to `k`, and its end token.
  pub record Stands (i k : ℕ) : Type 0 where
    pub begin : FdtBeginNodeContext
    pub stop : FdtTokenContext
    pub begins : parse_token s i ≡ some (begin_node begin)
    pub body : Body (i + begin.total_len) k
    pub ends : parse_token s k ≡ some (end_node stop)

  -- The node that the tree has there, at a depth.
  abbrev pub node_of : {i k : ℕ} → Stands i k → ℕ → Node
  node_of {i} {k} n d = record {
    start = i;
    name_start = n.begin.name_start;
    next_token_start = i + n.begin.total_len;
    total_len = k + n.stop.total_len - i;
    depth = d;
  }

  Body-le : {i k : ℕ} → Body i k → i ≤ k
  Body-le empty = omega arith
  Body-le (flat t e f b) = omega (arith, Body-le b)
  Body-le (child ctx x e b e' b') = omega (arith, Body-le b, Body-le b')

  pub Stands-le : {i k : ℕ} → Stands i k → i ≤ k
  Stands-le n = omega (arith, Body-le n.body)
