-- ===== src/Fdt/Bytes.antt =====
-- port/src/fdt.rs: numbers and strings out of byte slices.
--
-- A byte slice is a list of numbers below 256. Indices are exact numbers: each is a sum of at most
-- three `u32` values read from the tree and of positions in a slice, far below 2 ^ 64.
use r.Common.{
  ℕ, zero, suc, ◌+◌, ◌-◌, ◌*◌, ◌%◌, bit_and, Bool, true, false, ◌&&◌, ◌||◌, Option, none, some,
  List, [], ◌∷◌, length, take, drop, and_then, ltb, leb, ◌==◌, if◌then◌else◌,
}
use r.Common.Word.{u64_mod}

-- `bytes.get(start..)`, `bytes.get(..n)` and `bytes.get(start..end)`.
abbrev pub get_from : List ℕ → ℕ → Option (List ℕ)
get_from bytes start = if leb start (length bytes) then some (drop start bytes) else none

abbrev pub get_to : List ℕ → ℕ → Option (List ℕ)
get_to bytes n = if leb n (length bytes) then some (take n bytes) else none

abbrev pub get_range : List ℕ → ℕ → ℕ → Option (List ℕ)
get_range bytes start end =
    if leb start end && leb end (length bytes)
    then some (take (end - start) (drop start bytes))
    else none

-- `from_be_bytes`.
abbrev pub from_be_bytes : ℕ → List ℕ → ℕ
from_be_bytes acc [] = acc
from_be_bytes acc (b ∷ bs) = from_be_bytes (acc * 256 + b) bs

unfoldable pub bytes_to_u32 : List ℕ → Option ℕ
bytes_to_u32 bytes = and_then (get_to bytes 4) λ bs. some (from_be_bytes 0 bs)

unfoldable pub bytes_to_u32_offset : List ℕ → ℕ → Option ℕ
bytes_to_u32_offset bytes offset =
    and_then (get_range bytes offset (offset + 4)) λ bs. some (from_be_bytes 0 bs)

unfoldable pub bytes_to_u64 : List ℕ → Option ℕ
bytes_to_u64 bytes = and_then (get_to bytes 8) λ bs. some (from_be_bytes 0 bs)

unfoldable pub bytes_to_u32_as_u64 : List ℕ → Option ℕ
bytes_to_u32_as_u64 bytes = and_then (get_to bytes 4) λ bs. some (from_be_bytes 0 bs)

-- `n + (0usize.wrapping_sub(n) & 3)`, with `n` below 2 ^ 64.
unfoldable pub align4 : ℕ → ℕ
align4 n = n + bit_and ((u64_mod - n) % u64_mod) 3

-- `position(|&b| b == 0)`, and the bytes before the first zero.
unfoldable pub position_nul : List ℕ → Option ℕ
position_nul [] = none
position_nul (b ∷ bs) = if b == 0 then some 0 else and_then (position_nul bs) λ n. some (suc n)

-- `CStr::to_str`: the bytes are UTF-8. Of a sequence, `n` more bytes are due, the next of them from
-- `lo` to `hi`.
unfoldable pub utf8_from : ℕ → ℕ → ℕ → List ℕ → Bool
utf8_from zero lo hi [] = true
utf8_from (suc n) lo hi [] = false
utf8_from zero lo hi (b ∷ bs) =
    let (due, from, to) : ℕ × ℕ × ℕ =
      if ltb b 0xe0
      then (1, 0x80, 0xbf)
      else if b == 0xe0
      then (2, 0xa0, 0xbf)
      else if b == 0xed
      then (2, 0x80, 0x9f)
      else if ltb b 0xf0
      then (2, 0x80, 0xbf)
      else if b == 0xf0
      then (3, 0x90, 0xbf)
      else if b == 0xf4
      then (3, 0x80, 0x8f)
      else (3, 0x80, 0xbf) in
    (ltb b 0x80 || leb 0xc2 b && leb b 0xf4) && utf8_from (if ltb b 0x80 then 0 else due) from to bs
utf8_from (suc n) lo hi (b ∷ bs) = (leb lo b && leb b hi) && utf8_from n 0x80 0xbf bs

unfoldable pub inline_str : List ℕ → ℕ → Option (List ℕ)
unfolding position_nul utf8_from
inline_str bytes start = and_then (get_from bytes start) λ init_bytes.
    and_then (position_nul init_bytes)
      λ n. if utf8_from 0 0 0 (take n init_bytes) then some (take n init_bytes) else none

-- `==` on strings, and on optional strings.
unfoldable pub str_eq : List ℕ → List ℕ → Bool
str_eq [] [] = true
str_eq [] (b ∷ bs) = false
str_eq (a ∷ as') [] = false
str_eq (a ∷ as') (b ∷ bs) = a == b && str_eq as' bs

unfoldable pub opt_str_eq : Option (List ℕ) → Option (List ℕ) → Bool
opt_str_eq none none = true
opt_str_eq none (some b) = false
opt_str_eq (some a) none = false
opt_str_eq (some a) (some b) = str_eq a b
