-- ===== src/Fdt/Reg.antt =====
-- port/src/fdt.rs: register blocks, and their translation by the ranges of a bus.
use r.Common.{ℕ, ◌-◌, Option, none, some, Run, done, ◌>>=◌}
use r.Common.{ltb, leb, if◌then◌else◌}
use r.Common.Word.{add64}

pub record RegBlock : Type 0 where
  pub addr : ℕ
  pub len : Option ℕ

unfoldable pub from_addr : ℕ → RegBlock
from_addr a = record { addr = a; len = none }

unfoldable pub with_offset : RegBlock → ℕ → Run RegBlock
with_offset r offset = do a ← add64 r.addr offset; done (record { addr = a; len = r.len })

pub data TranslatedReg : Type 0 where
  translated : RegBlock → TranslatedReg
  unreachable : TranslatedReg

unfoldable pub regblock : TranslatedReg → Option RegBlock
regblock (translated r) = some r
regblock unreachable = none

pub record RangeMapping : Type 0 where
  pub child_bus_addr : ℕ
  pub parent_bus_addr : ℕ
  pub len : ℕ

pub data Range : Type 0 where
  identity : Range
  mapped : RangeMapping → Range

-- `&&` does not evaluate its second operand, and so does not add, when the first is false.
unfoldable pub translate : Range → RegBlock → Run (Option RegBlock)
translate identity r = done (some r)
translate (mapped map) r =
    if leb map.child_bus_addr r.addr
    then (do
      stop ← add64 map.child_bus_addr map.len
      if ltb r.addr stop
          then (do
            a ← add64 (r.addr - map.child_bus_addr) map.parent_bus_addr
            done (some (record { addr = a; len = r.len })))
          else done none)
    else done none
