-- ===== src/Fdt/Find.antt =====
-- port/src/fdt.rs: `node_from_index` and the iterator of children, on a well-formed block and past it.
use r.Common.{
  ℕ, suc, ◌+◌, ◌-◌, ◌≡◌, ◌≢◌, refl, sym, ◌∙◌, Bool, true, false, Option, none, some, List, length,
  ltb, ◌==◌, ==_refl, ==_ne, if◌then◌else◌, arith, Option-cases, inl, inr, Bool-cases, done, panic,
  hang, again, stop, loop-ne-hang,
}
use r.Fdt.Token.{
  FdtToken, FdtBeginNodeContext, FdtTokenContext, begin_node, end_node, prop, nop, end, parse_token,
}
use r.Fdt.Progress.{parse_token-progress}
use r.Fdt.Node.{Node, Walk, node_token, node_round, node_from_index, children_next}
use r.Fdt.Shape.{
  Flats, Stands, node_of, Stands-le, left, fuel, node_round-lower, run, run-again, run-stop, at,
  run-Body, run-Flats,
}

module _ (s : List ℕ) where
  -- The walk at its start, and after the begin token of its node at `i`.
  abbrev fresh : ℕ → ℕ → Walk
  fresh i d = record {
    i = i;
    begin_node_ctx = none;
    next_token_start = 0;
    node_depth = d;
    depth = d;
  }

  abbrev inside : ℕ → ℕ → FdtBeginNodeContext → Walk
  inside i d ctx = record {
    i = i + ctx.total_len;
    begin_node_ctx = some ctx;
    next_token_start = i + ctx.total_len;
    node_depth = d;
    depth = d + 1;
  }

  opened : (i d : ℕ) → node_from_index s i d ≡ run s (fresh i d)
  unfolding node_from_index run fuel
  opened i d = refl

  first_step :
      (i d : ℕ) (ctx : FdtBeginNodeContext)
      → node_token s (fresh i d) (begin_node ctx) ≡ again (inside i d ctx)
  unfolding node_token
  first_step i d ctx = rw (==_refl d) refl

  last_step :
      {i k : ℕ} (d : ℕ) (n : Stands s i k)
      → node_token s (at s (inside i d n.begin) k) (end_node n.stop)
        ≡ stop (done (some (node_of s n d)))
  unfolding node_token
  last_step {i} {k} d n =
      let back : d + 1 - 1 ≡ d = omega arith in
      let some_depth : (d + 1 == 0) ≡ false = ==_ne (d + 1) 0 (omega arith) in
      let start : n.begin.start ≡ i = (parse_token-progress s i _ n.begins).0 in
      let stop_at : n.stop.start ≡ k = (parse_token-progress s k _ n.ends).0 in
      rw (some_depth, back, ==_refl d, start, stop_at) refl

  -- After any properties and nops, `node_from_index` finds the complete node that stands first.
  pub node_from_index_lem :
      {i j k : ℕ} (d : ℕ)
      → Flats s i j
      → (n : Stands s j k) → node_from_index s i d ≡ done (some (node_of s n d))
  node_from_index_lem {i} {j} {k} d lead n =
      opened i d
      ∙ run-Flats s (fresh i d) lead
      ∙ run-again s (fresh j d) (inside j d n.begin) (begin_node n.begin) n.begins
          (first_step j d n.begin)
      ∙ run-Body s (inside j d n.begin) n.body (omega arith)
      ∙ run-stop s (at s (inside j d n.begin) k) (done (some (node_of s n d))) (end_node n.stop)
          n.ends (last_step d n)

  -- The iterator of the children, at a position where a complete node follows after properties and
  -- nops, yields that node and moves behind it.
  pub children_next_lem :
      {i j k : ℕ} (d : ℕ)
      → Flats s i j
      → (n : Stands s j k) → children_next s d i ≡ done (some (node_of s n d, k + n.stop.total_len))
  unfolding children_next
  children_next_lem {j} {k} d lead n =
      let behind : j + (k + n.stop.total_len - j) ≡ k + n.stop.total_len =
        omega (arith, Stands-le s n) in
      rw (node_from_index_lem d lead n) (rw behind refl)

  -- The walk after the end token of a parent, one level up.
  abbrev above : ℕ → ℕ → Walk
  above i d = record {
    i = i;
    begin_node_ctx = none;
    next_token_start = 0;
    node_depth = d + 1;
    depth = d;
  }

  leave_step :
      (i d : ℕ) (e : FdtTokenContext)
      → node_token s (fresh i (d + 1)) (end_node e) ≡ again (above (i + e.total_len) d)
  unfolding node_token
  leave_step i d e =
      let back : d + 1 - 1 ≡ d = omega arith in
      let some_depth : (d + 1 == 0) ≡ false = ==_ne (d + 1) 0 (omega arith) in
      let other : (d == d + 1) ≡ false = ==_ne d (d + 1) (omega arith) in
      rw (some_depth, back, other) refl

  enter_step :
      (i d : ℕ) (ctx : FdtBeginNodeContext)
      → node_token s (above i d) (begin_node ctx) ≡ again (fresh (i + ctx.total_len) (d + 1))
  unfolding node_token
  enter_step i d ctx =
      let other : (d == d + 1) ≡ false = ==_ne d (d + 1) (omega arith) in rw other refl

  -- The children of a node do not end with the node: where the end token of a node at depth `d` is
  -- followed by a sibling, the iterator of its children goes on with the children of the sibling.
  pub children-past_end :
      (k d : ℕ) (e : FdtTokenContext) (sibling : FdtBeginNodeContext)
      → parse_token s k ≡ some (end_node e)
      → parse_token s (k + e.total_len) ≡ some (begin_node sibling)
      → children_next s (d + 1) k ≡ children_next s (d + 1) (k + e.total_len + sibling.total_len)
  unfolding children_next
  children-past_end k d e sibling ends begins =
      let same : node_from_index s k (d + 1)
          ≡ node_from_index s (k + e.total_len + sibling.total_len) (d + 1) =
        opened k (d + 1)
        ∙ run-again s (fresh k (d + 1)) (above (k + e.total_len) d) (end_node e) ends
            (leave_step k d e)
        ∙ run-again s (above (k + e.total_len) d)
            (fresh (k + e.total_len + sibling.total_len) (d + 1)) (begin_node sibling) begins
            (enter_step (k + e.total_len) d sibling)
        ∙ sym (opened (k + e.total_len + sibling.total_len) (d + 1)) in
      rw same refl

  -- A walk for a node always comes to an end, on any bytes.
  node_token-ends : (w : Walk) (t : FdtToken) → node_token s w t ≢ stop hang
  unfolding node_token
  node_token-ends w (begin_node ctx) h = cc h
  node_token-ends w (end_node ctx) h = end_round_ends _ _ _ _ h
    where
      end_round_ends :
          (b c : Bool) (x : Option Node) (v : Walk)
          → (if b then stop panic else if c then stop (done x) else again v) ≢ stop hang
      end_round_ends true c x v e = cc e
      end_round_ends false true x v e = cc e
      end_round_ends false false x v e = cc e
  node_token-ends w (prop ctx) h = cc h
  node_token-ends w (nop ctx) h = cc h
  node_token-ends w (end ctx) h = cc h

  node_round-ends : (w : Walk) → node_round s w ≢ stop hang
  unfolding node_round
  node_round-ends w h = elim (Bool-cases (ltb w.i (length s))) [
    | inl inside ↦ elim (Option-cases (parse_token s w.i)) [
      | inl e ↦ cc (rw (inside, e) at h)
      | inr (t, e) ↦ node_token-ends w t (rw (inside, e) at h)
    ]
    | inr outside ↦ cc (rw outside at h)
  ]

  pub node_from_index-ends : (start d : ℕ) → node_from_index s start d ≢ hang
  unfolding run fuel
  node_from_index-ends start d h =
      loop-ne-hang (node_round s) (left s) (node_round-lower s) node_round-ends (suc (length s))
        (fresh start d) (omega arith) (sym (opened start d) ∙ h)
