-- ===== src/Fdt/Cells.antt =====
-- port/src/fdt.rs: `reg` and `ranges`, read by the cell counts of the bus and translated up to the
-- root.
use r.Common.{
  ℕ, zero, suc, ◌+◌, ◌-◌, ◌*◌, Bool, true, false, ◌||◌, Option, none, some, List, [], ◌∷◌, Run,
  done, hang, ◌>>=◌, and_then, unwrap_or, ltb, ◌==◌, if◌then◌else◌, Step, again, stop, call, loop,
}
use r.Common.Word.{sub64}
use r.Fdt.Reg.{RegBlock, TranslatedReg, translated, unreachable, Range, identity, mapped, translate}
use r.Fdt.Bytes.{get_range, bytes_to_u64, bytes_to_u32_as_u64}
use r.Fdt.Header.{DeviceTree, structs}
use r.Fdt.Node.{Node, Property, is_root}
use r.Fdt.Prop.{property, property_value_as_u32}
use r.Fdt.Tree.{parent}

abbrev address_cells_name : List ℕ
address_cells_name =
    b'#' ∷ b'a' ∷ b'd' ∷ b'd' ∷ b'r' ∷ b'e' ∷ b's' ∷ b's' ∷ b'-' ∷ b'c' ∷ b'e' ∷ b'l' ∷ b'l' ∷ b's'
    ∷ []

abbrev size_cells_name : List ℕ
size_cells_name = b'#' ∷ b's' ∷ b'i' ∷ b'z' ∷ b'e' ∷ b'-' ∷ b'c' ∷ b'e' ∷ b'l' ∷ b'l' ∷ b's' ∷ []

abbrev reg_name : List ℕ
reg_name = b'r' ∷ b'e' ∷ b'g' ∷ []

abbrev ranges_name : List ℕ
ranges_name = b'r' ∷ b'a' ∷ b'n' ∷ b'g' ∷ b'e' ∷ b's' ∷ []

unfoldable pub consume_cells : List ℕ → ℕ → ℕ → Option ℕ
consume_cells s value_i num_cells =
    and_then (get_range s value_i (value_i + num_cells * 4))
      (if num_cells == 1 then bytes_to_u32_as_u64 else bytes_to_u64)

-- The variables of the iterators: where the value stands, and the cell counts that apply.
pub record RegIter : Type 0 where
  pub address_cells : ℕ
  pub size_cells : ℕ
  pub value_end : ℕ
  pub value_i : ℕ

pub record RangeIter : Type 0 where
  pub parent_address_cells : ℕ
  pub address_cells : ℕ
  pub size_cells : ℕ
  pub is_identity : Bool
  pub identity_returned : Bool
  pub value_end : ℕ
  pub value_i : ℕ

-- The closure of `property_reg_iter`.
unfoldable pub reg_next : List ℕ → RegIter → Run (Option (RegBlock × RegIter))
reg_next s it =
    if it.address_cells == 0 || ltb 2 it.address_cells || ltb 2 it.size_cells
    then done none
    else (do
      let address_size = it.address_cells * 4
      let len_size = it.size_cells * 4
      remaining ← sub64 it.value_end it.value_i
      if ltb remaining (address_size + len_size)
          then done none
          else done (
              and_then (consume_cells s it.value_i it.address_cells) λ a.
                let value_i = it.value_i + address_size in
                let len =
                  if ltb 0 it.size_cells then consume_cells s value_i it.size_cells else none in
                some (record { addr = a; len = len }, record it { value_i = value_i + len_size })))

-- The closure of `property_range_iter`.
unfoldable pub range_next : List ℕ → RangeIter → Run (Option (Range × RangeIter))
range_next s it =
    if it.is_identity
    then done (
        if it.identity_returned
        then none
        else some (identity, record it { identity_returned = true }))
    else if it.address_cells == 0
        || it.size_cells == 0
        || ltb 2 it.address_cells
        || ltb 2 it.size_cells
    then done none
    else if it.parent_address_cells == 0 || ltb 2 it.parent_address_cells
    then done none
    else (do
      let address_size = it.address_cells * 4
      let parent_address_size = it.parent_address_cells * 4
      let len_size = it.size_cells * 4
      remaining ← sub64 it.value_end it.value_i
      if ltb remaining (address_size + parent_address_size + len_size)
          then done none
          else done (
              and_then (consume_cells s it.value_i it.address_cells) λ child.
                let parent_i = it.value_i + address_size in
                and_then (consume_cells s parent_i it.parent_address_cells) λ par.
                  let len_i = parent_i + parent_address_size in
                  and_then (consume_cells s len_i it.size_cells) λ len. some (
                    mapped (record { child_bus_addr = child; parent_bus_addr = par; len = len }),
                    record it { value_i = len_i + len_size },
                  )))

-- The state of `property_translated_reg_iter`: `curr_reg`, and `reg_iter` past it.
pub record TranslatedIter : Type 0 where
  pub curr_reg : Option RegBlock
  pub reg_iter : RegIter

module _ (dt : DeviceTree) where
  -- A cell count of a node, or its default.
  unfoldable pub cells_of : List ℕ → ℕ → Option Node → Run ℕ
  cells_of name default none = done default
  cells_of name default (some n) = do
    p ← property dt n name
    elim p [
      | none ↦ done default
      | some q ↦ property_value_as_u32 dt q >>= λ v. done (unwrap_or v default)
    ]

  unfoldable pub node_address_size_cells : Option Node → Run (ℕ × ℕ)
  unfolding cells_of
  node_address_size_cells node = do
    address_cells ← cells_of address_cells_name 2 node
    size_cells ← cells_of size_cells_name 1 node
    done (address_cells, size_cells)

  -- `prop.map_or((0, 0), |p| (p.value_start, p.value_len))`.
  abbrev value_span : Option Property → ℕ × ℕ
  value_span none = (0, 0)
  value_span (some p) = (p.value_start, p.value_len)

  unfoldable pub property_reg_iter : Node → Run RegIter
  property_reg_iter node = do
    par ← parent dt node
    (address_cells, size_cells) ← node_address_size_cells par
    p ← property dt node reg_name
    let (value_start, value_len) = value_span p
    done (record {
      address_cells = address_cells;
      size_cells = size_cells;
      value_end = value_start + value_len;
      value_i = value_start;
    })

  unfoldable pub property_range_iter : Node → Run RangeIter
  property_range_iter node = do
    par ← parent dt node
    (parent_address_cells, _) ← node_address_size_cells par
    (address_cells, size_cells) ← node_address_size_cells (some node)
    p ← property dt node ranges_name
    let (value_start, value_len) = value_span p
    done (record {
      parent_address_cells = parent_address_cells;
      address_cells = address_cells;
      size_cells = size_cells;
      is_identity = value_start == value_start + value_len;
      identity_returned = false;
      value_end = value_start + value_len;
      value_i = value_start;
    })

  -- The inner loop of `property_translated_reg_iter`: the first range that translates `reg`.
  unfoldable pub ranges_round : List ℕ → RegBlock → RangeIter → Step RangeIter (Option RegBlock)
  ranges_round s reg it = call (range_next s it) λ next. elim next [
    | none ↦ stop (done none)
    | some (range, it') ↦
        call (translate range reg)
          λ moved. elim moved [ none ↦ again it' | some new_reg ↦ stop (done (some new_reg)) ]
  ]

  unfoldable pub translate_by_ranges : Node → RegBlock → Run (Option RegBlock)
  unfolding ranges_round loop
  translate_by_ranges par reg = do
    s ← structs dt
    it ← property_range_iter par
    loop (ranges_round s reg) (it.value_end - it.value_i + 2) it

  -- The loop `while curr_parent.is_some()`; `none` is the end of the iterator.
  unfoldable pub climb : ℕ → Option Node → RegBlock → Run (Option TranslatedReg)
  climb zero curr_parent reg = hang
  climb (suc fuel) none reg = done none
  climb (suc fuel) (some par) reg = elim (is_root par) [
    | true ↦ done (some (translated reg))
    | false ↦ translate_by_ranges par reg >>= λ found. elim found [
      | none ↦ done (some unreachable)
      | some new_reg ↦ parent dt par >>= λ above. climb fuel above new_reg
    ]
  ]

  -- `curr_reg = reg_iter.next()`.
  unfoldable pub pull : List ℕ → RegIter → Run TranslatedIter
  pull s it = do
    next ← reg_next s it
    done (elim next [
      | none ↦ record { curr_reg = none; reg_iter = it }
      | some (reg, it') ↦ record { curr_reg = some reg; reg_iter = it' }
    ])

  unfoldable pub property_translated_reg_iter : Node → Run TranslatedIter
  property_translated_reg_iter node = do s ← structs dt; it ← property_reg_iter node; pull s it

  unfoldable pub translated_next :
      Node → TranslatedIter → Run (Option (TranslatedReg × TranslatedIter))
  unfolding climb
  translated_next node it = elim it.curr_reg [
    | none ↦ done none
    | some reg ↦ do
      s ← structs dt
      it' ← pull s it.reg_iter
      par ← parent dt node
      t ← climb (node.depth + 2) par reg
      done (elim t [ none ↦ none | some x ↦ some (x, it') ])
  ]
