-- ===== src/Aarch64/Io.antt =====
-- aarch64/src/io.rs: access to the registers of devices, and the waiting for one.
--
-- Loads and stores of device memory are volatile: each is an event for the devices, which are a state
-- with two operations. A load may change the state.
use r.Common.{
  ℕ, zero, suc, ◌<◌, ◌≡◌, refl, bit_or, Bool, true, false, Run, done, hang, ◌>>=◌, expect, arith,
}
use r.Mem.{VirtRange, virt_offset_addr}

pub data GpioPull : Type 0 where
  off down up : GpioPull

abbrev pub pull_code : GpioPull → ℕ
pull_code off = 0
pull_code down = 1
pull_code up = 2

pub record Devices (D : Type 0) : Type 0 where
  pub load : D → ℕ → ℕ × D
  pub store : D → ℕ → ℕ → D

module _ {D : Type 0} (devices : Devices D) where
  abbrev pub register : VirtRange → ℕ → Run ℕ
  register range offset = do addr ← virt_offset_addr range offset; expect addr

  -- A loop of `spin_loop` hints.
  abbrev pub delay : ℕ → D → D
  delay count d = d

  unfoldable pub write_reg : VirtRange → ℕ → ℕ → D → Run D
  write_reg range offset val d = do dst ← register range offset; done (devices.store d dst val)

  unfoldable pub write_or_reg : VirtRange → ℕ → ℕ → D → Run D
  write_or_reg range offset val d = do
    dst ← register range offset
    let (old, d') = devices.load d dst
    done (devices.store d' dst (bit_or val old))

  unfoldable pub read_reg : VirtRange → ℕ → D → Run (ℕ × D)
  read_reg range offset d = do src ← register range offset; done (devices.load d src)

  -- `while busy(read_reg(range, offset)) {}`, with as many reads as the fuel.
  unfoldable pub wait : VirtRange → ℕ → (ℕ → Bool) → ℕ → D → Run D
  wait range offset busy zero d = hang
  wait range offset busy (suc fuel) d = do
    (v, d') ← read_reg range offset d
    elim (busy v) [ true ↦ wait range offset busy fuel d' | false ↦ done d' ]

  -- The devices after some loads of an address.
  abbrev pub after : ℕ → ℕ → D → D
  after addr zero d = d
  after addr (suc k) d = after addr k (devices.load d addr).1

  -- The first `k` loads of the register find it busy, and the next one does not.
  abbrev pub ReadyAfter : ℕ → (ℕ → Bool) → ℕ → D → Type 0
  ReadyAfter addr busy zero d = busy (devices.load d addr).0 ≡ false
  ReadyAfter addr busy (suc k) d =
      (busy (devices.load d addr).0 ≡ true) × ReadyAfter addr busy k (devices.load d addr).1

  pub wait_lem :
      (range : VirtRange) (offset addr : ℕ) (busy : ℕ → Bool)
      → register range offset ≡ done addr
      → (k fuel : ℕ) (d : D) → k < fuel
      → ReadyAfter addr busy k d
      → wait range offset busy fuel d ≡ done (after addr (suc k) d)
  unfolding wait read_reg
  wait_lem range offset addr busy at k zero d l r = absurd (omega arith)
  wait_lem range offset addr busy at zero (suc fuel) d l r = rw (at, r) refl
  wait_lem range offset addr busy at (suc k) (suc fuel) d l r =
      rw (at, r.0)
        (wait_lem range offset addr busy at k fuel (devices.load d addr).1 (omega arith) r.1)
