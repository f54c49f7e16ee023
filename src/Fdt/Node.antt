-- ===== src/Fdt/Node.antt =====
-- port/src/fdt.rs: the nodes of the tree and their properties, found by walking the tokens.
--
-- Each `while` loop is a `loop` over its variables, with fuel one above the length of the structure
-- block: a token takes at least four bytes. `depth -= 1` below zero is a panic.
use r.Common.{
  ℕ, suc, ◌+◌, ◌-◌, Bool, ◌&&◌, Option, none, some, List, Run, done, panic, ◌>>=◌, ltb, leb, ◌==◌,
  if◌then◌else◌, length, Step, again, stop, loop,
}
use r.Fdt.Token.{
  FdtToken, FdtBeginNodeContext, FdtTokenContext, FdtPropContext, begin_node, end_node, prop, nop,
  end, parse_token,
}

pub record Node : Type 0 where
  pub start : ℕ
  pub name_start : ℕ
  pub next_token_start : ℕ
  pub total_len : ℕ
  pub depth : ℕ

pub record Property : Type 0 where
  pub start : ℕ
  pub name_start : ℕ
  pub value_start : ℕ
  pub value_len : ℕ
  pub total_len : ℕ

unfoldable pub encloses : Node → Node → Bool
encloses n child =
    leb n.start child.start && leb (child.start + child.total_len) (n.start + n.total_len)

abbrev pub is_root : Node → Bool
is_root n = n.depth == 0

-- The variables of the walks.
pub record Walk : Type 0 where
  pub i : ℕ
  pub begin_node_ctx : Option FdtBeginNodeContext
  pub next_token_start : ℕ
  pub node_depth : ℕ
  pub depth : ℕ

-- The node that a walk has found when it meets the end token `ctx`.
abbrev found_node : Walk → FdtTokenContext → FdtBeginNodeContext → Node
found_node w ctx begin_ctx = record {
  start = begin_ctx.start;
  name_start = begin_ctx.name_start;
  next_token_start = w.next_token_start;
  total_len = (ctx.start + ctx.total_len) - begin_ctx.start;
  depth = w.node_depth;
}

module _ (structs : List ℕ) where
  -- What one round of `node_from_index` does with its token.
  unfoldable pub node_token : Walk → FdtToken → Step Walk (Option Node)
  node_token w (begin_node ctx) = again (record {
    i = w.i + ctx.total_len;
    begin_node_ctx = if w.depth == w.node_depth then some ctx else w.begin_node_ctx;
    next_token_start = if w.depth == w.node_depth then w.i + ctx.total_len else w.next_token_start;
    node_depth = w.node_depth;
    depth = w.depth + 1;
  })
  node_token w (end_node ctx) =
      if w.depth == 0
      then stop panic
      else if w.depth - 1 == w.node_depth
      then stop (
          done (elim w.begin_node_ctx [
            | none ↦ none
            | some begin_ctx ↦ some (found_node w ctx begin_ctx)
          ]))
      else again (record w { i = w.i + ctx.total_len; depth = w.depth - 1 })
  node_token w (prop ctx) = again (record w { i = w.i + ctx.total_len })
  node_token w (nop ctx) = again (record w { i = w.i + ctx.total_len })
  node_token w (end ctx) = again (record w { i = w.i + ctx.total_len })

  unfoldable pub node_round : Walk → Step Walk (Option Node)
  node_round w =
      if ltb w.i (length structs)
      then elim (parse_token structs w.i) [
        | none ↦ stop (done none)
        | some token ↦ node_token w token
      ]
      else stop (done none)

  unfoldable pub node_from_index : ℕ → ℕ → Run (Option Node)
  unfolding node_round node_token loop
  node_from_index start node_depth = loop node_round (suc (length structs)) (record {
    i = start;
    begin_node_ctx = none;
    next_token_start = 0;
    node_depth = node_depth;
    depth = node_depth;
  })

  -- The iterator `children`: from position `i`, the next child and the position after it.
  unfoldable pub children_next : ℕ → ℕ → Run (Option (Node × ℕ))
  children_next child_depth i = do
    child ← node_from_index i child_depth
    done (elim child [ none ↦ none | some c ↦ some (c, c.start + c.total_len) ])

  -- What one round of the iterator `nodes` does with its token. `node_depth` and `next_token_start`
  -- are set at the first begin token of the call.
  unfoldable pub nodes_token : Walk → FdtToken → Step Walk (Option (Node × ℕ × ℕ))
  nodes_token w (begin_node ctx) = again (elim w.begin_node_ctx [
    | none ↦ record {
      i = w.i + ctx.total_len;
      begin_node_ctx = some ctx;
      next_token_start = w.i + ctx.total_len;
      node_depth = w.depth;
      depth = w.depth + 1;
    }
    | some _ ↦ record w { i = w.i + ctx.total_len; depth = w.depth + 1 }
  ])
  nodes_token w (end_node ctx) = if w.depth == 0 then stop panic else elim w.begin_node_ctx [
    | none ↦ again (record w { i = w.i + ctx.total_len; depth = w.depth - 1 })
    | some begin_ctx ↦
        if w.depth - 1 == w.node_depth
        then stop (done (some (found_node w ctx begin_ctx, w.next_token_start, w.depth)))
        else again (record w { i = w.i + ctx.total_len; depth = w.depth - 1 })
  ]
  nodes_token w (prop ctx) = again (record w { i = w.i + ctx.total_len })
  nodes_token w (nop ctx) = again (record w { i = w.i + ctx.total_len })
  nodes_token w (end ctx) = again (record w { i = w.i + ctx.total_len })

  unfoldable pub nodes_round : Walk → Step Walk (Option (Node × ℕ × ℕ))
  nodes_round w =
      if ltb w.i (length structs)
      then elim (parse_token structs w.i) [
        | none ↦ stop (done none)
        | some token ↦ nodes_token w token
      ]
      else stop (done none)

  -- The iterator `nodes`: from its `i` and `depth`, the next node with the new `i` and `depth`.
  unfoldable pub nodes_next : ℕ → ℕ → Run (Option (Node × ℕ × ℕ))
  unfolding nodes_round nodes_token loop
  nodes_next i depth =
      loop nodes_round (suc (length structs)) (record {
        i = i;
        begin_node_ctx = none;
        next_token_start = 0;
        node_depth = 0;
        depth = depth;
      })

  abbrev found_property : FdtPropContext → Property
  found_property ctx = record {
    start = ctx.start;
    name_start = ctx.name_start;
    value_start = ctx.value_start;
    value_len = ctx.value_len;
    total_len = ctx.total_len;
  }

  unfoldable pub properties_round : ℕ → ℕ → Step ℕ (Option (Property × ℕ))
  properties_round end_i i =
      if ltb i end_i
      then elim (parse_token structs i) [
        | some (prop ctx) ↦ stop (done (some (found_property ctx, i + ctx.total_len)))
        | some (nop ctx) ↦ again (i + ctx.total_len)
        | _ ↦ stop (done none)
      ]
      else stop (done none)

  -- The iterator `properties` of a node that ends at `end_i`.
  unfoldable pub properties_next : ℕ → ℕ → Run (Option (Property × ℕ))
  unfolding properties_round loop
  properties_next end_i i = loop (properties_round end_i) (suc (length structs)) i
