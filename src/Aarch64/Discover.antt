-- ===== src/Aarch64/Discover.antt =====
-- aarch64/src: how the device drivers find their registers in the device tree.
use r.Common.{ℕ, Option, none, some, List, Run, done, ◌>>=◌, expect}
use r.Fdt.Reg.{RegBlock, regblock, with_offset}
use r.Fdt.Header.{DeviceTree}
use r.Fdt.Node.{Node}
use r.Fdt.Prop.{find_compatible_next}
use r.Fdt.Cells.{property_translated_reg_iter, translated_next}
use r.Mem.{VirtRange, virt_from_reg}

module _ (dt : DeviceTree) where
  -- `find_compatible(comp).next()`.
  unfoldable pub first_compatible : List ℕ → Run (Option Node)
  first_compatible comp = do
    found ← find_compatible_next dt comp 0 0
    done (elim found [ none ↦ none | some (n, _, _) ↦ some n ])

  -- `and_then(|n| property_translated_reg_iter(n).next()).and_then(|reg| reg.regblock())`.
  unfoldable pub first_reg : Option Node → Run (Option RegBlock)
  first_reg none = done none
  first_reg (some n) = do
    it ← property_translated_reg_iter dt n
    next ← translated_next dt n it
    done (elim next [ none ↦ none | some (reg, _) ↦ regblock reg ])

  -- The registers of the first compatible device, behind an offset.
  unfoldable pub device_range : List ℕ → ℕ → Run VirtRange
  device_range comp offset = do
    node ← first_compatible comp
    found ← first_reg node
    reg ← expect found
    moved ← with_offset reg offset
    virt_from_reg moved

  -- The same without an offset.
  unfoldable pub bare_range : List ℕ → Run VirtRange
  bare_range comp = do
    node ← first_compatible comp
    found ← first_reg node
    reg ← expect found
    virt_from_reg reg
