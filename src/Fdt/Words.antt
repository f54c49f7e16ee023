-- ===== src/Fdt/Words.antt =====
-- port/src/fdt.rs: big-endian words, written and read back.
use r.Common.{
  ℕ, zero, suc, ◌+◌, ◌-◌, ◌*◌, ◌/◌, ◌%◌, ◌^◌, ◌<◌, ◌≡◌, refl, ap, ap₂, ◌∙◌, some, List, [], ◌∷◌,
  ◌++◌, length, All, get_elem?, leb, le→leb, arith, and_then,
}
use r.Fdt.Bytes.{bytes_to_u32, bytes_to_u32_offset, from_be_bytes, get_range}

-- The four bytes of a word, the highest first, and those of several words.
abbrev pub to_be_bytes : ℕ → List ℕ
to_be_bytes n = n / 2 ^ 24 % 256 ∷ n / 2 ^ 16 % 256 ∷ n / 2 ^ 8 % 256 ∷ n % 256 ∷ []

abbrev pub words : List ℕ → List ℕ
words [] = []
words (n ∷ ns) = to_be_bytes n ++ words ns

abbrev pub IsWord : ℕ → Type 0
IsWord n = n < 2 ^ 32

value_of_bytes :
    (n : ℕ)
    → IsWord n
    → ((((0 * 256 + n / 2 ^ 24 % 256) * 256 + n / 2 ^ 16 % 256) * 256 + n / 2 ^ 8 % 256) * 256
        + n % 256)
      ≡ n
value_of_bytes n h = omega arith

-- A word that was written is read back.
bytes_to_u32-to_be_bytes :
    (n : ℕ) (rest : List ℕ) → IsWord n → bytes_to_u32 (to_be_bytes n ++ rest) ≡ some n
unfolding bytes_to_u32
bytes_to_u32-to_be_bytes n rest h =
    rw (le→leb 4 (suc (suc (suc (suc (length rest))))) (omega arith)) (ap some (value_of_bytes n h))

get_range-cons :
    (x : ℕ) (xs : List ℕ) (i j : ℕ) → get_range (x ∷ xs) (suc i) (suc j) ≡ get_range xs i j
get_range-cons x xs i j =
    let a : leb (suc i) (suc j) ≡ leb i j = ground arith in
    let b : leb (suc j) (suc (length xs)) ≡ leb j (length xs) = ground arith in
    let c : suc j - suc i ≡ j - i = omega arith in rw (a, b, c) refl

next_word :
    (a b c d : ℕ) (xs : List ℕ) (k : ℕ)
    → bytes_to_u32_offset (a ∷ b ∷ c ∷ d ∷ xs) (4 * suc k) ≡ bytes_to_u32_offset xs (4 * k)
unfolding bytes_to_u32_offset
next_word a b c d xs k =
    let from : 4 * suc k ≡ suc (suc (suc (suc (4 * k)))) = omega arith in
    let to : 4 * suc k + 4 ≡ suc (suc (suc (suc (4 * k + 4)))) = omega arith in
    ap (λ r. and_then r λ bs. some (from_be_bytes 0 bs))
      (ap₂ (get_range (a ∷ b ∷ c ∷ d ∷ xs)) from to
        ∙ get_range-cons a (b ∷ c ∷ d ∷ xs) (suc (suc (suc (4 * k)))) _
        ∙ get_range-cons b (c ∷ d ∷ xs) (suc (suc (4 * k))) _
        ∙ get_range-cons c (d ∷ xs) (suc (4 * k)) _
        ∙ get_range-cons d xs (4 * k) (4 * k + 4))

first_word :
    (n : ℕ) (rest : List ℕ) → IsWord n → bytes_to_u32_offset (to_be_bytes n ++ rest) 0 ≡ some n
unfolding bytes_to_u32_offset
first_word n rest h =
    rw (le→leb 4 (suc (suc (suc (suc (length rest))))) (omega arith)) (ap some (value_of_bytes n h))

-- Of several words, each at its offset.
pub word_at_offset :
    (ns : List ℕ) (rest : List ℕ) (k n : ℕ)
    → All IsWord ns
    → get_elem? ns k ≡ some n
    → bytes_to_u32_offset (words ns ++ rest) (4 * k) ≡ some n
word_at_offset [] rest k n h e = absurd (cc e)
word_at_offset (m ∷ ns) rest zero n h e =
    let same : m ≡ n = cc e in first_word m (words ns ++ rest) h.0 ∙ ap some same
word_at_offset (m ∷ ns) rest (suc k) n h e =
    next_word _ _ _ _ (words ns ++ rest) k ∙ word_at_offset ns rest k n h.1 e
