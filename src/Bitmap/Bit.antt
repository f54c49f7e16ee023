-- ===== src/Bitmap/Bit.antt =====
-- port/src/bitmapalloc.rs: reading and writing a bit of a byte and of a bitmap.
use r.Common.{
  ℕ, zero, suc, bit_or, ◌^◌, ◌+◌, ◌*◌, ◌/◌, ◌%◌, ◌<◌, ◌≡◌, refl, Bool, true, false, not, ◌&&◌, ◌||◌,
  done, arith, ltb, ◌==◌, ◌≢◌, if◌then◌else◌, length, get_or, set as set_elem, get_elem?-eq-get_or,
  get_or-set_self, get_or-set_ne, all_below, all_below_pair, all_below_sound, All, All-set,
  All-get_elem?, ltb→lt, Bool-cases, inl, inr,
}
use r.Bitmap.{Bitmap, test_bit, write_bit, is_set, set, trailing_ones, ones_run}

abbrev bool_eq : Bool → Bool → Bool
bool_eq true b = b
bool_eq false b = not b

bool_eq_sound : (a b : Bool) → bool_eq a b ≡ true → a ≡ b
bool_eq_sound true b h = ground arith
bool_eq_sound false b h = ground arith

-- Every byte, with each bit written, read back at each bit.
abbrev write_ok : Bool → ℕ → ℕ → Bool
write_ok b x y =
    let byte = x / 8 in
    let i = x % 8 in
    bool_eq (test_bit (write_bit byte i b) y) (if y == i then b else test_bit byte y)
    && ltb (write_bit byte i b) 256

write_table : (b : Bool) → all_below 2048 (λ x. all_below 8 (write_ok b x)) ≡ true
unfolding all_below test_bit write_bit
write_table true = refl
write_table false = refl

and_left : (a b : Bool) → (a && b) ≡ true → a ≡ true
and_left a b h = ground arith

and_right : (a b : Bool) → (a && b) ≡ true → b ≡ true
and_right a b h = ground arith

module _ (byte i : ℕ) (b : Bool) (hb : byte < 256) (hi : i < 8) where
  write_at :
      (y : ℕ)
      → y < 8
      → (bool_eq (test_bit (write_bit byte i b) y) (if y == i then b else test_bit byte y)
          && ltb (write_bit byte i b) 256)
        ≡ true
  write_at y hy =
      let q : (byte * 8 + i) / 8 ≡ byte = omega arith in
      let m : (byte * 8 + i) % 8 ≡ i = omega arith in
      rw (q, m) at
        (all_below_pair 2048 8 (write_ok b) (byte * 8 + i) y (write_table b) (omega arith) hy)

  test_bit-write_bit :
      (j : ℕ) → j < 8 → test_bit (write_bit byte i b) j ≡ (if j == i then b else test_bit byte j)
  test_bit-write_bit j hj = bool_eq_sound _ _ (and_left _ _ (write_at j hj))

  write_bit-lt : write_bit byte i b < 256
  write_bit-lt = ltb→lt _ _ (and_right _ _ (write_at 0 (omega arith)))

abbrev pub IsByte : ℕ → Type 0
IsByte b = b < 256

-- The bit `i` of a bitmap, as a value.
abbrev pub bit_at : Bitmap → ℕ → Bool
bit_at m i = test_bit (get_or m.bytes (i / 8) 0) (i % 8)

-- The bitmap with the bit `i` written, as a value.
abbrev pub with_bit : Bitmap → ℕ → Bool → Bitmap
with_bit m i b = record {
  bytes = set_elem m.bytes (i / 8) (write_bit (get_or m.bytes (i / 8) 0) (i % 8) b);
}

module _ (m : Bitmap) (i : ℕ) (h : i < 8 * length m.bytes) where
  in_bytes : i / 8 < length m.bytes
  in_bytes = omega arith

  pub is_set_lem : is_set m i ≡ done (bit_at m i)
  unfolding is_set
  is_set_lem = rw (get_elem?-eq-get_or m.bytes (i / 8) 0 in_bytes)

  pub set_lem : (b : Bool) → set m i b ≡ done (with_bit m i b)
  unfolding set
  set_lem b = rw (get_elem?-eq-get_or m.bytes (i / 8) 0 in_bytes)

  pub bit_at-with_bit :
      (b : Bool) (j : ℕ)
      → All IsByte m.bytes
      → bit_at (with_bit m i b) j ≡ (if j == i then b else bit_at m j)
  bit_at-with_bit b j bytes = elim (Bool-cases (j / 8 == i / 8)) [
    | inl same ↦ ground (
      arith,
      test_bit-write_bit (get_or m.bytes (i / 8) 0) (i % 8) b
          (All-get_elem? IsByte m.bytes (i / 8) 0 bytes in_bytes) (omega arith) (j % 8)
          (omega arith),
      get_or-set_self m.bytes (i / 8) (write_bit (get_or m.bytes (i / 8) 0) (i % 8) b) 0 in_bytes,
    )
    | inr other ↦ ground (
      arith,
      get_or-set_ne m.bytes (i / 8) (j / 8) (write_bit (get_or m.bytes (i / 8) 0) (i % 8) b) 0,
    )
  ]

  pub with_bit-IsByte : (b : Bool) → All IsByte m.bytes → All IsByte (with_bit m i b).bytes
  with_bit-IsByte b bytes = All-set IsByte m.bytes (i / 8) _ bytes (
      write_bit-lt (get_or m.bytes (i / 8) 0) (i % 8) b
        (All-get_elem? IsByte m.bytes (i / 8) 0 bytes in_bytes) (omega arith))

-- The first clear bit of a byte that is not all ones: `trailing_ones` finds it, all bits below it are
-- set, and setting it is writing it.
abbrev free_bit_ok : ℕ → Bool
free_bit_ok byte =
    byte == 0xff
    || ltb (trailing_ones byte) 8
      && not (test_bit byte (trailing_ones byte))
      && bool_eq (bit_or byte (2 ^ trailing_ones byte) == write_bit byte (trailing_ones byte) true)
          true

free_bit_table : all_below 256 free_bit_ok ≡ true
unfolding all_below trailing_ones ones_run test_bit write_bit
free_bit_table = refl

pub trailing_ones_lem :
    (byte : ℕ)
    → byte < 256
    → byte ≢ 0xff
    → (trailing_ones byte < 8)
      × (test_bit byte (trailing_ones byte) ≡ false)
      × (bit_or byte (2 ^ trailing_ones byte) ≡ write_bit byte (trailing_ones byte) true)
trailing_ones_lem byte h n =
    let ok = all_below_sound 256 free_bit_ok byte free_bit_table h in ground arith

-- A byte that is all ones has each of its bits set.
ones_table : all_below 8 (test_bit 0xff) ≡ true
unfolding all_below test_bit
ones_table = refl

pub test_bit_ones : (i : ℕ) → i < 8 → test_bit 0xff i ≡ true
test_bit_ones i h = all_below_sound 8 (test_bit 0xff) i ones_table h

-- And the other way round: a byte whose bits are all set is 0xff.
abbrev ones_only_ok : ℕ → Bool
ones_only_ok byte = byte == 0xff || not (all_below 8 (test_bit byte))

ones_only_table : all_below 256 ones_only_ok ≡ true
unfolding all_below test_bit
ones_only_table = refl

all_below_intro : (n : ℕ) (p : ℕ → Bool) → ((i : ℕ) → i < n → p i ≡ true) → all_below n p ≡ true
unfolding all_below
all_below_intro zero p h = refl
all_below_intro (suc n) p h =
    ground (arith, h n (omega arith), all_below_intro n p (λ i l. h i (omega arith)))

pub eq_ones : (byte : ℕ) → byte < 256 → ((i : ℕ) → i < 8 → test_bit byte i ≡ true) → byte ≡ 0xff
eq_ones byte h all = ground (
  arith,
  all_below_sound 256 ones_only_ok byte ones_only_table h,
  all_below_intro 8 (test_bit byte) all,
)
