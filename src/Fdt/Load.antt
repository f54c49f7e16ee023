-- ===== src/Fdt/Load.antt =====
-- port/src/fdt.rs: headers written and read back, and the trees that are accepted.
use r.Common.{
  ℕ, ◌%◌, ◌^◌, ◌<◌, ◌≡◌, refl, sym, ap, ◌∙◌, Bool, true, false, ◌||◌, Option, none, some, List, [],
  ◌∷◌, ◌++◌, length, take, All, leb-false, ◌==◌, ==_refl, if◌then◌else◌, arith, and_then, Result,
  ok, err,
}
use r.Common.Word.{u32_mod}
use r.Fdt.Bytes.{bytes_to_u32_offset}
use r.Fdt.Header.{
  FdtHeader, DeviceTree, ParseError, invalid_header, invalid_magic, buffer_too_small, fdt_magic,
  header_size, new_header, check_header, fdt_header_new, new, read_memory, from_usize,
}
use r.Fdt.Words.{words, IsWord, word_at_offset}

-- The fields of a header, in the order of the format.
abbrev pub fields : FdtHeader → List ℕ
fields h =
    h.magic ∷ h.totalsize ∷ h.off_dt_struct ∷ h.off_dt_strings ∷ h.off_mem_rsvmap ∷ h.version
    ∷ h.last_comp_version ∷ h.boot_cpuid_phys ∷ h.size_dt_strings ∷ h.size_dt_struct ∷ []

abbrev pub encode_header : FdtHeader → List ℕ
encode_header h = words (fields h)

new_header-encode_header :
    (h : FdtHeader) (rest : List ℕ)
    → All IsWord (fields h)
    → new_header (encode_header h ++ rest) ≡ some h
unfolding new_header
new_header-encode_header h rest w =
    let at = word_at_offset (fields h) rest in
    rw (at 0 _ w refl, at 1 _ w refl, at 2 _ w refl, at 3 _ w refl, at 4 _ w refl)
      (rw (at 5 _ w refl, at 6 _ w refl, at 7 _ w refl, at 8 _ w refl, at 9 _ w refl) refl)

fdt_header_new-encode_header :
    (h : FdtHeader) (rest : List ℕ) (ignore_size : Bool)
    → All IsWord (fields h)
    → fdt_header_new (encode_header h ++ rest) ignore_size
      ≡ check_header (length (encode_header h ++ rest) % u32_mod) ignore_size h
unfolding fdt_header_new
fdt_header_new-encode_header h rest ignore_size w =
    rw (new_header-encode_header h rest w, fdt_header_new) refl

tree_of : (bytes : List ℕ) → Result ParseError FdtHeader → Result ParseError DeviceTree
tree_of bytes r = elim r [
  | ok header ↦ ok (record { bytes = bytes; header = header })
  | err e ↦ err e
]

check_tree :
    (bytes : List ℕ) (h : FdtHeader) (b c : Bool)
    → tree_of bytes
        (if b then (if c || false then ok h else err buffer_too_small) else err invalid_magic)
      ≡ (if b
          then (if c then ok (record { bytes = bytes; header = h }) else err buffer_too_small)
          else err invalid_magic)
unfolding tree_of
check_tree bytes h true true = refl
check_tree bytes h true false = refl
check_tree bytes h false c = refl

-- A buffer that starts with a header is accepted as a tree exactly when the magic number is right and
-- the total size is the length of the buffer; otherwise the error names the first test that fails.
pub new-encode_header :
    (h : FdtHeader) (rest : List ℕ)
    → All IsWord (fields h)
    → length (encode_header h ++ rest) < 2 ^ 32
    → new (encode_header h ++ rest) ≡ (
        if h.magic == fdt_magic
        then (if length (encode_header h ++ rest) == h.totalsize
            then ok (record { bytes = encode_header h ++ rest; header = h })
            else err buffer_too_small)
        else err invalid_magic)
unfolding new check_header tree_of
new-encode_header h rest w small =
    let bytes = encode_header h ++ rest in
    let len : length bytes % u32_mod ≡ length bytes = omega arith in
    ap (tree_of bytes) (fdt_header_new-encode_header h rest false w)
    ∙ ap (λ n. tree_of bytes (check_header n false h)) len
    ∙ check_tree bytes h (h.magic == fdt_magic) (length bytes == h.totalsize)

skip {ℓ κ} :
    {A : Type ℓ} {B : Type κ} (o : Option A) (f : A → Option B)
    → ((a : A) → f a ≡ none)
    → and_then o f ≡ none
skip none f h = refl
skip (some a) f h = h a

missing {ℓ κ} :
    {A : Type ℓ} {B : Type κ} (o : Option A) (f : A → Option B) → o ≡ none → and_then o f ≡ none
missing o f e = ap (λ o. and_then o f) e

too_short : (bytes : List ℕ) → length bytes < 40 → bytes_to_u32_offset bytes 36 ≡ none
unfolding bytes_to_u32_offset
too_short bytes h = rw (leb-false 40 (length bytes) h) refl

new_header-short : (bytes : List ℕ) → length bytes < header_size → new_header bytes ≡ none
unfolding new_header
new_header-short bytes h =
    let at : ℕ → Option ℕ = bytes_to_u32_offset bytes in
    skip (at 0) _ λ _. skip (at 4) _ λ _. skip (at 8) _ λ _. skip (at 12) _ λ _. skip (at 16) _ λ _.
      skip (at 20) _ λ _.
        skip (at 24) _
          λ _. skip (at 28) _ λ _. skip (at 32) _ λ _. missing (at 36) _ (too_short bytes h)

-- A buffer that is shorter than a header is refused.
new-short : (bytes : List ℕ) → length bytes < header_size → new bytes ≡ err invalid_header
unfolding new fdt_header_new tree_of
new-short bytes h =
    ap
      (λ o. tree_of bytes (elim o [
        | none ↦ err invalid_header
        | some h ↦ check_header (length bytes % u32_mod) false h
      ]))
      (new_header-short bytes h)

accept :
    (h : FdtHeader) (n : ℕ) (ignore_size : Bool)
    → h.magic ≡ fdt_magic
    → ((n == h.totalsize) || ignore_size) ≡ true
    → check_header n ignore_size h ≡ ok h
unfolding check_header
accept h n ignore_size magic size = rw (magic, size) refl

or_true : (b : Bool) → (b || true) ≡ true
or_true b = ground arith

-- The two parts of `from_usize`, at the results of its calls.
from_read : (ℕ → List ℕ) → Result ParseError FdtHeader → Result ParseError DeviceTree
from_read buf r = elim r [
  | err e ↦ err e
  | ok for_header ↦
      tree_of (buf for_header.totalsize) (fdt_header_new (buf for_header.totalsize) false)
]

from_usize-from_read :
    (memory : ℕ → ℕ) (ptr : ℕ)
    → from_usize memory ptr
      ≡ from_read
          (read_memory memory ptr)
          (fdt_header_new (read_memory memory ptr header_size) true)
unfolding from_usize from_read tree_of
from_usize-from_read memory ptr = refl

-- Where memory holds a header with the right magic number and, from its address on, as many bytes as
-- the total size says, `from_usize` yields the tree of those bytes.
pub from_usize-encode_header :
    (memory : ℕ → ℕ) (ptr : ℕ) (h : FdtHeader) (rest : List ℕ)
    → All IsWord (fields h)
    → h.magic ≡ fdt_magic
    → h.totalsize ≡ length (encode_header h ++ rest)
    → read_memory memory ptr h.totalsize ≡ encode_header h ++ rest
    → from_usize memory ptr ≡ ok (record { bytes = encode_header h ++ rest; header = h })
unfolding from_read read_memory tree_of
from_usize-encode_header memory ptr h rest w magic total holds =
    let bytes = encode_header h ++ rest in
    let whole : read_memory memory ptr (length bytes) ≡ bytes =
      ap (read_memory memory ptr) (sym total) ∙ holds in
    let first : read_memory memory ptr header_size ≡ encode_header h = ap (take 40) whole in
    let small : length bytes % u32_mod ≡ h.totalsize = let t = w.1.0 in omega arith in
    let for_header : fdt_header_new (read_memory memory ptr header_size) true ≡ ok h =
      ap (λ b. fdt_header_new b true) first
      ∙ fdt_header_new-encode_header h [] true w
      ∙ accept h _ true magic (or_true _) in
    let header : fdt_header_new bytes false ≡ ok h =
      fdt_header_new-encode_header h rest false w
      ∙ accept h _ false magic (rw (small, ==_refl h.totalsize) refl) in
    from_usize-from_read memory ptr
    ∙ ap (from_read (read_memory memory ptr)) for_header
    ∙ ap (λ b. tree_of b (fdt_header_new b false)) holds
    ∙ ap (tree_of bytes) header
