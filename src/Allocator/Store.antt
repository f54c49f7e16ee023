-- ===== src/Allocator/Store.antt =====
-- port/src/allocator.rs: the state of `QuickFit`, its linked headers in memory, and their lists.
--
-- The headers lie in blocks that are not in use; `headers` is what memory holds at an address that a
-- header was written to. Following a pointer to where there is none is undefined in Rust, and a panic
-- here. Headers are 64 bytes long at multiples of 64, so that two of them overlap only if they are one.
use r.Common.{
  ℕ, zero, suc, ◌+◌, ◌-◌, ◌*◌, ◌/◌, ◌%◌, ◌^◌, bit_xor, Bool, true, false, Option, none, some, List,
  Run, done, panic, hang, ◌==◌, if◌then◌else◌, get_elem?, set, replicate,
}
use r.Common.Word.{u64_mod}
use r.Allocator.Bump.{BumpAlloc}

abbrev pub alloc_unit_shift : ℕ
alloc_unit_shift = 6

abbrev pub min_alloc_size : ℕ
min_alloc_size = 2 ^ alloc_unit_shift

abbrev pub max_quick_shift : ℕ
max_quick_shift = 14

abbrev pub max_quick_size : ℕ
max_quick_size = 2 ^ max_quick_shift

abbrev pub num_qlists : ℕ
num_qlists = 14 - alloc_unit_shift + 1

abbrev pub num_hash_buckets : ℕ
num_hash_buckets = 31

-- `align_of::<Header>()`.
abbrev pub header_align : ℕ
header_align = 64

pub record Header : Type 0 where
  pub next : Option ℕ
  pub addr : ℕ
  pub size : ℕ
  pub align : ℕ

pub record QuickFit : Type 0 where
  pub tail : BumpAlloc
  pub qlists : List (Option ℕ)
  pub misc : Option ℕ
  pub allocated_misc : List (Option ℕ)
  pub headers : ℕ → Option Header
  pub bytes : ℕ → ℕ

unfoldable pub new : BumpAlloc → (ℕ → ℕ) → QuickFit
new tail bytes = record {
  tail = tail;
  qlists = replicate num_qlists none;
  misc = none;
  allocated_misc = replicate num_hash_buckets none;
  headers = λ _. none;
  bytes = bytes;
}

-- A call on the allocator: its value, and the state that it leaves.
abbrev pub M {ℓ} : Type ℓ → Type ℓ
M A = QuickFit → Run (A × QuickFit)

abbrev pub pure {ℓ} : {A : Type ℓ} → A → M A
pure a q = done (a, q)

abbrev pub lift {ℓ} : {A : Type ℓ} → Run A → M A
lift (done a) q = done (a, q)
lift panic q = panic
lift hang q = hang

infixl 5 ◌>>=◌ ◌>>◌
abbrev pub ◌>>=◌ {ℓ κ} : {A : Type ℓ} {B : Type κ} → M A → (A → M B) → M B
◌>>=◌ m f q = elim (m q) [ done (a, q') ↦ f a q' | panic ↦ panic | hang ↦ hang ]

abbrev pub ◌>>◌ {ℓ} : {B : Type ℓ} → M (Unit {0}) → M B → M B
m >> k = m >>= λ _. k

abbrev pub get : M QuickFit
get q = done (q, q)

abbrev pub update : (ℕ → Option Header) → ℕ → Header → ℕ → Option Header
update f p h a = if a == p then some h else f a

unfoldable pub load : ℕ → M Header
load p q = elim (q.headers p) [ none ↦ panic | some h ↦ done (h, q) ]

unfoldable pub store : ℕ → Header → M (Unit {0})
store p h q = done (tt, record q { headers = update q.headers p h })

-- Reading and writing a list head of the two arrays.
unfoldable pub get_qlist : ℕ → M (Option ℕ)
get_qlist k q = elim (get_elem? q.qlists k) [ none ↦ panic | some l ↦ done (l, q) ]

unfoldable pub set_qlist : ℕ → Option ℕ → M (Unit {0})
set_qlist k l q = done (tt, record q { qlists = set q.qlists k l })

unfoldable pub get_bucket : ℕ → M (Option ℕ)
get_bucket k q = elim (get_elem? q.allocated_misc k) [ none ↦ panic | some l ↦ done (l, q) ]

unfoldable pub set_bucket : ℕ → Option ℕ → M (Unit {0})
set_bucket k l q = done (tt, record q { allocated_misc = set q.allocated_misc k l })

unfoldable pub set_misc : Option ℕ → M (Unit {0})
set_misc l q = done (tt, record q { misc = l })

unfoldable pub set_tail : BumpAlloc → M (Unit {0})
set_tail b q = done (tt, record q { tail = b })

-- The loop of `unlink`, at the node `list` behind `prev`. What it returns as the list is the variable
-- `list` of the loop, which has moved on by then.
unfoldable pub unlink_loop : (Header → Bool) → ℕ → Option ℕ → Option ℕ → M (Option ℕ × Option ℕ)
unfolding load store
unlink_loop predicate zero prev list = lift hang
unlink_loop predicate (suc fuel) prev none = pure (none, none)
unlink_loop predicate (suc fuel) prev (some node) = load node >>= λ h. elim (predicate h) [
  | true ↦ store node (record h { next = none }) >>= λ _. elim prev [
    | none ↦ pure (some node, h.next)
    | some p ↦
        load p >>= λ ph. store p (record ph { next = h.next }) >>= λ _. pure (some node, some node)
  ]
  | false ↦ unlink_loop predicate fuel (some node) h.next
]

-- The headers lie in the arena, 64 bytes each: no list is longer.
abbrev pub list_fuel : QuickFit → ℕ
list_fuel q = q.tail.arena.len / 64 + 2

unfoldable pub unlink : (Header → Bool) → Option ℕ → M (Option ℕ × Option ℕ)
unfolding unlink_loop
unlink predicate list q = unlink_loop predicate (list_fuel q) none list q

unfoldable pub head : Option ℕ → M (Option ℕ × Option ℕ)
unfolding unlink
head list = unlink (λ _. true) list

unfoldable pub hash : ℕ → ℕ
hash ptr =
    let k1 = bit_xor ptr (ptr / 2 ^ 33) in
    let k2 = k1 * 0xff51afd7ed558ccd % u64_mod in
    let k3 = bit_xor k2 (k2 / 2 ^ 33) in
    let k4 = k3 * 0xc4ceb9fe1a85ec53 % u64_mod in k4 / 2 ^ 33 % num_hash_buckets
