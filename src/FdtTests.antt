-- ===== src/FdtTests.antt =====
-- Runs of the device tree parser on a small tree, and its theorems at that tree.
use r.Common.{
  ℕ, ◌+◌, ◌-◌, ◌≤◌, ◌≡◌, ◌≢◌, refl, List, [], ◌∷◌, ◌++◌, length, some, done, hang, ok, arith, drop,
  get_or, All,
}
use r.Fdt.Bytes.{align4, bytes_to_u32}
use r.Fdt.Header.{FdtHeader, new, from_usize, fdt_magic, read_memory}
use r.Fdt.Token.{FdtToken, begin_node, end_node, parse_token, word_at, parse_begin, name_size}
use r.Fdt.Node.{node_from_index, children_next}
use r.Fdt.Progress.{token_start, token_len, parse_token-progress}
use r.Fdt.Shape.{Stands, node_of, empty, child}
use r.Fdt.Find.{node_from_index_lem, children_next_lem, children-past_end, node_from_index-ends}
use r.Fdt.Reg.{RegBlock, RangeMapping, mapped, translate}
use r.Fdt.Translate
use r.Fdt.Translate.{covers, translate_lem, translate-translate}
use r.Fdt.Words.{IsWord}
use r.Fdt.Load.{fields, encode_header, new-encode_header, from_usize-encode_header}

-- The structure block of a root with the children `a`, which is empty, and `b`, which has the child `c`.
abbrev tree : List ℕ
tree =
    0 ∷ 0 ∷ 0 ∷ 1 ∷ 0 ∷ 0 ∷ 0 ∷ 0 ∷ 0 ∷ 0 ∷ 0 ∷ 1 ∷ b'a' ∷ 0 ∷ 0 ∷ 0 ∷ 0 ∷ 0 ∷ 0 ∷ 2 ∷ 0 ∷ 0 ∷ 0 ∷ 1
    ∷ b'b' ∷ 0 ∷ 0 ∷ 0 ∷ 0 ∷ 0 ∷ 0 ∷ 1 ∷ b'c' ∷ 0 ∷ 0 ∷ 0 ∷ 0 ∷ 0 ∷ 0 ∷ 2 ∷ 0 ∷ 0 ∷ 0 ∷ 2 ∷ 0 ∷ 0
    ∷ 0 ∷ 2 ∷ 0 ∷ 0 ∷ 0 ∷ 9 ∷ []

abbrev begin_at : ℕ → FdtToken
begin_at i = begin_node (record { start = i; name_start = i + 4; total_len = 8 })

abbrev end_at : ℕ → FdtToken
end_at i = end_node (record { start = i; total_len = 4 })

begin_b : parse_token tree 20 ≡ some (begin_at 20)
unfolding parse_token word_at parse_begin name_size bytes_to_u32 align4
begin_b = refl

begin_c : parse_token tree 28 ≡ some (begin_at 28)
unfolding parse_token word_at parse_begin name_size bytes_to_u32 align4
begin_c = refl

end_a : parse_token tree 16 ≡ some (end_at 16)
unfolding parse_token word_at bytes_to_u32
end_a = refl

end_b : parse_token tree 40 ≡ some (end_at 40)
unfolding parse_token word_at bytes_to_u32
end_b = refl

end_c : parse_token tree 36 ≡ some (end_at 36)
unfolding parse_token word_at bytes_to_u32
end_c = refl

node_b : Stands tree 20 40
node_b = record {
  begin = record { start = 20; name_start = 24; total_len = 8 };
  stop = record { start = 40; total_len = 4 };
  begins = begin_b;
  body = child _ _ begin_c empty end_c empty;
  ends = end_b;
}

node_from_index_lem_example :
    node_from_index tree 20 1
    ≡ done (
        some (record {
          start = 20;
          name_start = 24;
          next_token_start = 28;
          total_len = 24;
          depth = 1;
        }))
unfolding node_b
node_from_index_lem_example = node_from_index_lem tree 1 empty node_b

children_next_lem_example : children_next tree 1 20 ≡ done (some (node_of tree node_b 1, 44))
unfolding node_b
children_next_lem_example = children_next_lem tree 1 empty node_b

children-past_end_example : children_next tree 2 16 ≡ children_next tree 2 28
children-past_end_example = children-past_end tree 16 1 _ _ end_a begin_b

-- The empty node `a` at depth 1 is given the child `c` of its sibling.
cousin_test :
    children_next tree 2 16
    ≡ done (
        some (
          record { start = 28; name_start = 32; next_token_start = 36; total_len = 12; depth = 2 },
          40,
        ))
unfolding children_next node_from_index parse_token word_at parse_begin name_size bytes_to_u32
    align4
cousin_test = refl

node_from_index-ends_example : node_from_index tree 3 1 ≢ hang
node_from_index-ends_example = node_from_index-ends tree 3 1

parse_token-progress_example :
    (token_start (begin_at 20) ≡ 20) × (4 ≤ token_len (begin_at 20)) × (20 + 4 ≤ length tree)
parse_token-progress_example = parse_token-progress tree 20 (begin_at 20) begin_b

abbrev soc : RangeMapping
soc = record { child_bus_addr = 0x7e000000; parent_bus_addr = 0x3f000000; len = 0x1000000 }

abbrev wide : RangeMapping
wide = record { child_bus_addr = 0x30000000; parent_bus_addr = 0x130000000; len = 0x10000000 }

soc-IsValid : Translate.IsValid soc
soc-IsValid = record { child = omega arith; parent = omega arith }

wide-IsValid : Translate.IsValid wide
wide-IsValid = record { child = omega arith; parent = omega arith }

abbrev uart : RegBlock
uart = record { addr = 0x7e201000; len = some 0x1000 }

translate_lem_example :
    translate (mapped soc) uart ≡ done (some (record { addr = 0x3f201000; len = some 0x1000 }))
translate_lem_example = translate_lem soc uart soc-IsValid

translate-translate_example :
    (reg' reg'' : RegBlock) × (translate (mapped soc) uart ≡ done (some reg'))
    × (translate (mapped wide) reg' ≡ done (some reg''))
    × (reg''.addr ≡ 0x13f201000)
    × (reg''.len ≡ some 0x1000)
translate-translate_example =
    translate-translate soc wide uart soc-IsValid wide-IsValid (omega arith) (omega arith) refl

abbrev header : FdtHeader
header = record {
  magic = fdt_magic;
  totalsize = 42;
  off_dt_struct = 40;
  off_dt_strings = 40;
  off_mem_rsvmap = 40;
  version = 17;
  last_comp_version = 16;
  boot_cpuid_phys = 0;
  size_dt_strings = 0;
  size_dt_struct = 0;
}

abbrev blob : List ℕ
blob = encode_header header ++ (1 ∷ 2 ∷ [])

header_words : All IsWord (fields header)
header_words = (
  omega arith,
  (
    omega arith,
    (
      omega arith,
      (
        omega arith,
        (
          omega arith,
          (omega arith, (omega arith, (omega arith, (omega arith, (omega arith, tt))))),
        ),
      ),
    ),
  ),
)

new-encode_header_example : new blob ≡ ok (record { bytes = blob; header = header })
new-encode_header_example = new-encode_header header (1 ∷ 2 ∷ []) header_words (omega arith)

from_usize-encode_header_example :
    from_usize (λ a. get_or (drop (a - 4096) blob) 0 0) 4096
    ≡ ok (record { bytes = blob; header = header })
unfolding read_memory
from_usize-encode_header_example =
    from_usize-encode_header (λ a. get_or (drop (a - 4096) blob) 0 0) 4096 header (1 ∷ 2 ∷ [])
      header_words refl refl refl
