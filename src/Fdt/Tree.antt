-- ===== src/Fdt/Tree.antt =====
-- port/src/fdt.rs: the parent of a node, and the node at a path.
--
-- Both search by recursion through `children`. A call and a step along the children each take one unit
-- of fuel; the fuel is two above twice the length of the structure block, since a child starts past
-- its parent and a next child past the last one.
use r.Common.{
  ℕ, zero, suc, ◌+◌, ◌*◌, true, false, not, ◌||◌, Option, none, some, List, [], ◌∷◌, ◌++◌, Run,
  done, hang, ◌>>=◌, ltb, leb, ◌==◌, if◌then◌else◌, length,
}
use r.Fdt.Bytes.{opt_str_eq}
use r.Fdt.Header.{DeviceTree, structs}
use r.Fdt.Node.{Node, encloses, children_next}
use r.Fdt.Prop.{root, node_name}

abbrev tree_fuel : List ℕ → ℕ
tree_fuel s = 2 * length s + 2

module _ (s : List ℕ) where
  mutual
    -- The inner function `find_parent`, and its loop over the children from position `i` on.
    pub find_parent : ℕ → Node → Node → Run (Option Node)
    find_parent zero node child = hang
    find_parent (suc fuel) node child =
        elim (not (encloses node child) || leb child.depth node.depth) [
          | true ↦ done none
          | false ↦ elim (ltb (node.depth + 1) child.depth) [
            | true ↦ find_parent_in fuel node.next_token_start (node.depth + 1) child >>= λ found.
                done (elim found [ some p ↦ some p | none ↦ some node ])
            | false ↦ done (some node)
          ]
        ]

    pub find_parent_in : ℕ → ℕ → ℕ → Node → Run (Option Node)
    find_parent_in zero i child_depth child = hang
    find_parent_in (suc fuel) i child_depth child = children_next s child_depth i >>= λ c. elim c [
      | none ↦ done none
      | some (n, i') ↦ find_parent fuel n child >>= λ found. elim found [
        | some p ↦ done (some p)
        | none ↦ find_parent_in fuel i' child_depth child
      ]
    ]

module _ (dt : DeviceTree) where
  unfoldable pub parent : Node → Run (Option Node)
  unfolding find_parent find_parent_in
  parent child = do
    r ← root dt
    s ← structs dt
    elim r [ none ↦ done none | some n ↦ find_parent s (tree_fuel s) n child ]

-- `path.split_terminator('/')`: the pieces between slashes, less a last one that is empty.
unfoldable pub split_path : List ℕ → List ℕ → List (List ℕ)
split_path piece [] = if length piece == 0 then [] else piece ∷ []
split_path piece (b ∷ bs) =
    let rest = split_path [] bs in
    let longer = split_path (piece ++ (b ∷ [])) bs in if b == b'/' then piece ∷ rest else longer

-- `path_iter.next()`.
abbrev pub next_element : List (List ℕ) → Option (List ℕ) × List (List ℕ)
next_element [] = (none, [])
next_element (e ∷ es) = (some e, es)

module _ (dt : DeviceTree) (s : List ℕ) where
  mutual
    -- The inner function `find_subpath`, and its loop over the children. Every call takes its next
    -- element from one iterator: each returns what it leaves of the path.
    pub find_subpath :
        ℕ → List (List ℕ) → Node → Option (List ℕ) → Run (Option Node × List (List ℕ))
    find_subpath zero path node curr = hang
    find_subpath (suc fuel) path node curr = node_name dt node >>= λ name.
        elim (opt_str_eq curr name) [
          | false ↦ done (none, path)
          | true ↦ elim path [
            | [] ↦ done (some node, [])
            | e ∷ rest ↦ find_subpath_in fuel rest node.next_token_start (node.depth + 1) (some e)
          ]
        ]

    pub find_subpath_in :
        ℕ → List (List ℕ) → ℕ → ℕ → Option (List ℕ) → Run (Option Node × List (List ℕ))
    find_subpath_in zero path i child_depth curr = hang
    find_subpath_in (suc fuel) path i child_depth curr = children_next s child_depth i >>= λ c.
        elim c [
          | none ↦ done (none, path)
          | some (n, i') ↦ find_subpath fuel path n curr >>= λ found. elim found.0 [
            | some m ↦ done (some m, found.1)
            | none ↦ find_subpath_in fuel found.1 i' child_depth curr
          ]
        ]

module _ (dt : DeviceTree) where
  unfoldable pub find_by_path : List ℕ → Run (Option Node)
  unfolding find_subpath find_subpath_in split_path
  find_by_path path =
      let first = next_element (split_path [] path) in
      root dt >>= λ r. elim r [
        | none ↦ done none
        | some node ↦ structs dt >>= λ s.
            find_subpath dt s (tree_fuel s) first.1 node first.0 >>= λ found. done found.0
      ]
