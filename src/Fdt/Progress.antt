-- ===== src/Fdt/Progress.antt =====
-- port/src/fdt.rs: a token takes at least its word, and a padded length is the next multiple of 4.
use r.Common.{
  ℕ, ◌+◌, ◌-◌, ◌%◌, ◌^◌, ◌≤◌, ◌<◌, ◌≡◌, refl, Bool, true, false, none, some, List, length, ◌==◌,
  if◌then◌else◌, arith, Option-cases, inl, inr, subst, length-drop,
}
use mathlib.Core.Option.{some-injective}
use r.Common.Bits.{bit_and_mask}
use r.Common.Word.{u64_mod}
use r.Fdt.Bytes.{align4, bytes_to_u32}
use r.Fdt.Token.{
  FdtToken, begin_node, end_node, prop, nop, end, parse_token, parse_begin, parse_prop, word_at,
}

-- `align4` rounds up to a multiple of 4, and to the first one.
align4_lem : (n : ℕ) → n < 2 ^ 64 → (n ≤ align4 n) × (align4 n < n + 4) × (align4 n % 4 ≡ 0)
unfolding align4
align4_lem n h = omega (arith, bit_and_mask 2 ((u64_mod - n) % u64_mod))

-- Where a token stands, and the bytes that it takes.
abbrev pub token_start : FdtToken → ℕ
token_start (begin_node ctx) = ctx.start
token_start (end_node ctx) = ctx.start
token_start (prop ctx) = ctx.start
token_start (nop ctx) = ctx.start
token_start (end ctx) = ctx.start

abbrev pub token_len : FdtToken → ℕ
token_len (begin_node ctx) = ctx.total_len
token_len (end_node ctx) = ctx.total_len
token_len (prop ctx) = ctx.total_len
token_len (nop ctx) = ctx.total_len
token_len (end ctx) = ctx.total_len

-- A word that is read lies within the slice.
word_at-in : (s : List ℕ) (i w : ℕ) → word_at s i ≡ some w → i + 4 ≤ length s
unfolding word_at bytes_to_u32
word_at-in s i w h = ground (arith, length-drop i s)

-- A predicate of each token that a chain of tests picks from.
pick :
    (P : FdtToken → Type 0) (b c d e f : Bool) (t u v w x : FdtToken)
    → P t
    → P u
    → P v
    → P w
    → P x
    → (y : FdtToken)
    → (if b
        then some t
        else if c
        then some u
        else if d
        then some v
        else if e
        then some w
        else if f
        then some x
        else none)
      ≡ some y
    → P y
pick P true c d e f t u v w x pt pu pv pw px y h = subst P (some-injective _ _ h) pt
pick P false true d e f t u v w x pt pu pv pw px y h = subst P (some-injective _ _ h) pu
pick P false false true e f t u v w x pt pu pv pw px y h = subst P (some-injective _ _ h) pv
pick P false false false true f t u v w x pt pu pv pw px y h = subst P (some-injective _ _ h) pw
pick P false false false false true t u v w x pt pu pv pw px y h = subst P (some-injective _ _ h) px
pick P false false false false false t u v w x pt pu pv pw px y h = absurd (cc h)

-- A token stands where it was parsed, takes at least its word, and its word lies within the block.
pub parse_token-progress :
    (s : List ℕ) (i : ℕ) (t : FdtToken)
    → parse_token s i ≡ some t
    → (token_start t ≡ i) × (4 ≤ token_len t) × (i + 4 ≤ length s)
unfolding parse_token parse_begin parse_prop
parse_token-progress s i t h = elim (Option-cases (word_at s i)) [
  | inl e ↦ absurd (cc (rw e at h))
  | inr (w, e) ↦
      let (start, len) =
        pick (λ t. (token_start t ≡ i) × (4 ≤ token_len t)) (w == 1) (w == 2) (w == 3) (w == 4)
          (w == 9) (parse_begin s i) _ (parse_prop s i) _ _ (refl, omega arith) (refl, omega arith)
          (refl, omega arith) (refl, omega arith) (refl, omega arith) t (rw e at h) in
      (start, len, word_at-in s i w e)
]
