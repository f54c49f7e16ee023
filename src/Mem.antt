-- ===== src/Mem.antt =====
-- port/src/mem.rs: physical and virtual ranges, and the walk of a range page by page.
--
-- A `PhysAddr` is a transparent `u64`, and is a number here. Additions and subtractions are those of
-- the checked profile.
pub mod Align
pub mod Walk
use r.Common.{
  ℕ, zero, suc, ◌+◌, ◌-◌, ◌*◌, ◌/◌, ◌%◌, ◌^◌, min, max, bit_and, Bool, ◌&&◌, Option, none, some,
  List, [], ◌∷◌, Run, done, ◌>>=◌, ◌>>◌, ltb, leb, if◌then◌else◌, unwrap_or,
}
use r.Common.Word.{add64, sub64, not64, is_power_of_two, assert}
use r.Fdt.Reg.{RegBlock}

abbrev pub page_size_4k : ℕ
page_size_4k = 4 * 2 ^ 10

abbrev pub page_size_2m : ℕ
page_size_2m = 2 * 2 ^ 20

abbrev pub page_size_1g : ℕ
page_size_1g = 2 ^ 30

pub record VirtRange : Type 0 where
  pub start : ℕ
  pub end : ℕ

pub record PhysRange : Type 0 where
  pub start : ℕ
  pub end : ℕ

-- `Range::contains`.
abbrev contains : ℕ → ℕ → ℕ → Bool
contains start end addr = leb start addr && ltb addr end

unfoldable pub virt_with_len : ℕ → ℕ → Run VirtRange
virt_with_len start len = do e ← add64 start len; done (record { start = start; end = e })

unfoldable pub virt_offset_addr : VirtRange → ℕ → Run (Option ℕ)
virt_offset_addr r offset = do
  addr ← add64 r.start offset
  done (if contains r.start r.end addr then some addr else none)

unfoldable pub virt_from_reg : RegBlock → Run VirtRange
virt_from_reg r = do e ← add64 r.addr (unwrap_or r.len 0); done (record { start = r.addr; end = e })

unfoldable pub round_up : ℕ → ℕ → Run ℕ
round_up addr step = do
  assert (is_power_of_two step)
  a ← add64 addr step
  done (bit_and (a - 1) (not64 (step - 1)))

unfoldable pub round_down : ℕ → ℕ → Run ℕ
round_down addr step = do assert (is_power_of_two step); done (bit_and addr (not64 (step - 1)))

-- `impl Step for PhysAddr`.
unfoldable pub steps_between : ℕ → ℕ → Option ℕ
steps_between startpa endpa = if leb startpa endpa then some (endpa - startpa) else none

unfoldable pub forward_checked : ℕ → ℕ → Option ℕ
forward_checked startpa count =
    if ltb (startpa + count) (2 ^ 64) then some (startpa + count) else none

unfoldable pub backward_checked : ℕ → ℕ → Option ℕ
backward_checked startpa count = if leb count startpa then some (startpa - count) else none

abbrev pub with_end : ℕ → ℕ → PhysRange
with_end start end = record { start = start; end = end }

unfoldable pub with_len : ℕ → ℕ → Run PhysRange
with_len start len = do e ← add64 start len; done (with_end start e)

unfoldable pub offset_addr : PhysRange → ℕ → Run (Option ℕ)
offset_addr r offset = do
  addr ← add64 r.start offset
  done (if contains r.start r.end addr then some addr else none)

unfoldable pub size : PhysRange → Run ℕ
size r = sub64 r.end r.start

-- The first `n` items of `(start..).step_by(step)`.
pub steps : ℕ → ℕ → ℕ → List ℕ
steps zero start step = []
steps (suc n) start step = start ∷ steps n (start + step) step

-- `(start..end).step_by(step)`: the items `start + k * step` below `end`. The standard library walks
-- by `forward_checked`, and stops also where that fails, past every `u64`.
unfoldable pub step_by : ℕ → ℕ → ℕ → List ℕ
unfolding steps
step_by start end step = steps ((end - start + step - 1) / step) start step

unfoldable pub step_by_rounded : PhysRange → ℕ → Run (List ℕ)
unfolding step_by
step_by_rounded r step_size = do
  startpa ← round_down r.start step_size
  endpa ← round_up r.end step_size
  done (step_by startpa endpa step_size)

unfoldable pub add : PhysRange → PhysRange → PhysRange
add r other = record { start = min r.start other.start; end = max r.end other.end }

unfoldable pub phys_from_reg : RegBlock → Run PhysRange
phys_from_reg r = do e ← add64 r.addr (unwrap_or r.len 0); done (record { start = r.addr; end = e })
