-- ===== src/Fdt/Token.antt =====
-- port/src/fdt.rs: the tokens of the structure block.
use r.Common.{ℕ, ◌+◌, Option, none, some, List, and_then, unwrap_or, ◌==◌, if◌then◌else◌}
use r.Fdt.Bytes.{get_from, bytes_to_u32, position_nul, align4}

pub record FdtTokenContext : Type 0 where
  pub start : ℕ
  pub total_len : ℕ

pub record FdtBeginNodeContext : Type 0 where
  pub start : ℕ
  pub total_len : ℕ
  pub name_start : ℕ

pub record FdtPropContext : Type 0 where
  pub start : ℕ
  pub total_len : ℕ
  pub name_start : ℕ
  pub value_start : ℕ
  pub value_len : ℕ

pub data FdtToken : Type 0 where
  begin_node : FdtBeginNodeContext → FdtToken
  end_node : FdtTokenContext → FdtToken
  prop : FdtPropContext → FdtToken
  nop : FdtTokenContext → FdtToken
  end : FdtTokenContext → FdtToken

-- `structs.get(i..).and_then(bytes_to_u32)`.
unfoldable pub word_at : List ℕ → ℕ → Option ℕ
unfolding bytes_to_u32
word_at structs i = and_then (get_from structs i) bytes_to_u32

-- The name after a begin-node word with its zero and padding, or 0 where no zero follows.
unfoldable pub name_size : List ℕ → ℕ → ℕ
unfolding position_nul align4
name_size structs i =
    unwrap_or
      (and_then (and_then (get_from structs (i + 4)) position_nul) λ sz. some (align4 (sz + 1))) 0

unfoldable pub parse_begin : List ℕ → ℕ → FdtToken
unfolding name_size
parse_begin structs i =
    begin_node (record { start = i; name_start = i + 4; total_len = 4 + name_size structs i })

unfoldable pub parse_prop : List ℕ → ℕ → FdtToken
unfolding word_at align4
parse_prop structs i =
    let len = unwrap_or (word_at structs (i + 4)) 0 in
    let nameoff = unwrap_or (word_at structs (i + 8)) 0 in
    prop (record {
      start = i;
      name_start = nameoff;
      value_start = i + 12;
      value_len = len;
      total_len = 12 + align4 len;
    })

abbrev short_token : ℕ → FdtTokenContext
short_token i = record { start = i; total_len = 4 }

unfoldable pub parse_token : List ℕ → ℕ → Option FdtToken
unfolding word_at parse_begin parse_prop
parse_token structs i = and_then (word_at structs i) λ token.
    if token == 0x1
    then some (parse_begin structs i)
    else if token == 0x2
    then some (end_node (short_token i))
    else if token == 0x3
    then some (parse_prop structs i)
    else if token == 0x4
    then some (nop (short_token i))
    else if token == 0x9
    then some (end (short_token i))
    else none
