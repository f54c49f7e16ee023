-- ===== src/Fdt/Prop.antt =====
-- port/src/fdt.rs: names and values of properties, and the `compatible` search.
use r.Common.{
  ℕ, suc, ◌+◌, Bool, true, false, Option, none, some, List, [], ◌∷◌, ◌++◌, Run, done, ◌>>=◌,
  and_then, leb, ◌==◌, if◌then◌else◌, length, Step, again, stop, call, loop,
}
use r.Fdt.Bytes.{get_range, bytes_to_u32, inline_str, str_eq, opt_str_eq}
use r.Fdt.Header.{DeviceTree, structs, strings}
use r.Fdt.Node.{Node, Property, properties_next, node_from_index, nodes_next}

module _ (dt : DeviceTree) where
  unfoldable pub root : Run (Option Node)
  root = do s ← structs dt; node_from_index s 0 0

  unfoldable pub node_name : Node → Run (Option (List ℕ))
  node_name node = do s ← structs dt; done (inline_str s node.name_start)

  unfoldable pub property_name : Property → Run (Option (List ℕ))
  property_name prop = do s ← strings dt; done (inline_str s prop.name_start)

  -- One round of `properties(node).find(|p| property_name(p) == Some(prop_name))`.
  unfoldable pub property_round : List ℕ → ℕ → List ℕ → ℕ → Step ℕ (Option Property)
  property_round s end_i prop_name i = call (properties_next s end_i i) λ next. elim next [
    | none ↦ stop (done none)
    | some (p, i') ↦
        call (property_name p)
          λ name. if opt_str_eq name (some prop_name) then stop (done (some p)) else again i'
  ]

  unfoldable pub property : Node → List ℕ → Run (Option Property)
  unfolding property_round loop
  property node prop_name = do
    s ← structs dt
    loop (property_round s (node.start + node.total_len) prop_name) (suc (length s))
        node.next_token_start

  unfoldable pub property_value_bytes : Property → Run (Option (List ℕ))
  property_value_bytes prop = do
    s ← structs dt
    done (get_range s prop.value_start (prop.value_start + prop.value_len))

  unfoldable pub property_value_as_u32 : Property → Run (Option ℕ)
  property_value_as_u32 prop = do
    s ← structs dt
    done (and_then (get_range s prop.value_start (prop.value_start + prop.value_len)) bytes_to_u32)

  -- The iterator `property_value_as_u32_iter`, at `value_i` of a value that ends at `value_end`.
  unfoldable pub u32_iter_next : ℕ → ℕ → Run (Option (ℕ × ℕ))
  u32_iter_next value_end value_i = if leb value_end value_i then done none else (do
    s ← structs dt
    done (
        and_then (and_then (get_range s value_i (value_i + 4)) bytes_to_u32)
          λ v. some (v, value_i + 4)))

  -- `split(|b| *b == 0).any(|bs| bs == bytes_to_find)`; `piece` is the current piece so far.
  unfoldable pub any_piece : List ℕ → List ℕ → List ℕ → Bool
  any_piece bytes_to_find piece [] = str_eq piece bytes_to_find
  any_piece bytes_to_find piece (b ∷ bs) =
      let rest = any_piece bytes_to_find [] bs in
      let longer = any_piece bytes_to_find (piece ++ (b ∷ [])) bs in
      if b == 0 then (if str_eq piece bytes_to_find then true else rest) else longer

  unfoldable pub property_value_contains : Property → List ℕ → Run Bool
  unfolding any_piece
  property_value_contains prop bytes_to_find = do
    value ← property_value_bytes prop
    done (elim value [ none ↦ false | some v ↦ any_piece bytes_to_find [] v ])

  abbrev compatible : List ℕ
  compatible = b'c' ∷ b'o' ∷ b'm' ∷ b'p' ∷ b'a' ∷ b't' ∷ b'i' ∷ b'b' ∷ b'l' ∷ b'e' ∷ []

  -- The filter of `find_compatible`.
  unfoldable pub is_compatible : List ℕ → Node → Run Bool
  is_compatible comp n = do
    comp_prop ← property n compatible
    elim comp_prop [ none ↦ done false | some p ↦ property_value_contains p comp ]

  unfoldable pub compatible_round : List ℕ → List ℕ → (ℕ × ℕ) → Step (ℕ × ℕ) (Option (Node × ℕ × ℕ))
  compatible_round s comp (i, depth) = call (nodes_next s i depth) λ next. elim next [
    | none ↦ stop (done none)
    | some (n, i', depth') ↦
        call (is_compatible comp n)
          λ matches. if matches then stop (done (some (n, i', depth'))) else again (i', depth')
  ]

  -- The iterator `find_compatible`: the next match from the state `(i, depth)` of `nodes`.
  unfoldable pub find_compatible_next : List ℕ → ℕ → ℕ → Run (Option (Node × ℕ × ℕ))
  unfolding compatible_round loop
  find_compatible_next comp i depth = do
    s ← structs dt
    loop (compatible_round s comp) (suc (length s)) (i, depth)
