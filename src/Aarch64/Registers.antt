-- ===== src/Aarch64/Registers.antt =====
-- aarch64/src/registers.rs: the board's part number and where its devices lie.
--
-- The number comes from a system register, and its conversion to the enum is derived by the crate
-- num_enum: both are arguments.
use r.Common.{ℕ, ◌*◌, Option, none, some, Run, done, ◌>>=◌, Result, ok, err}
use r.Mem.{PhysRange, with_len, page_size_2m}

pub data PartNum : Type 0 where
  unknown raspberry_pi1 raspberry_pi2 raspberry_pi3 raspberry_pi4 : PartNum

abbrev mmio_at : ℕ → Run (Option PhysRange)
mmio_at base = do r ← with_len base (2 * page_size_2m); done (some r)

unfoldable pub mmio : PartNum → Run (Option PhysRange)
mmio raspberry_pi1 = mmio_at 0x2000_0000
mmio raspberry_pi2 = mmio_at 0x3f00_0000
mmio raspberry_pi3 = mmio_at 0x3f00_0000
mmio raspberry_pi4 = mmio_at 0xfe00_0000
mmio unknown = done none

unfoldable pub rpi_mmio : Result ℕ PartNum → Run (Option PhysRange)
rpi_mmio (ok p) = mmio p
rpi_mmio (err e) = done none
