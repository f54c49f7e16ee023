-- ===== src/Xtask.antt =====
-- xtask/src/main.rs: the build tool's command line, its environment and the commands that it starts.
--
-- Text is its bytes. Starting a program, the files and the environment are arguments: what a program
-- does to the outside is a state. The options are those that the parser of the command line yields.
-- A panic is also an exit with an error.
pub mod Config
pub mod Commands
pub mod Cargo
pub mod Steps
pub mod Order
use r.Common.{
  ℕ, ◌+◌, ◌≡◌, ◌&&◌, Bool, true, false, leb, ltb, if◌then◌else◌, Option, none, some, List, [], ◌∷◌,
  ◌++◌, map, Run, done, ◌>>=◌, Result, ok, err, unwrap_or,
}
use r.Common.Text.{codes}

abbrev pub Text : Type 0
Text = List ℕ

-- `format!`: the parts one after the other.
unfoldable pub concat : List Text → Text
concat [] = []
concat (t ∷ ts) = t ++ concat ts

-- `to_lowercase`, for ASCII.
abbrev pub lower : ℕ → ℕ
lower c = if leb b'A' c && leb c b'Z' then c + 32 else c

abbrev pub to_lowercase : Text → Text
to_lowercase t = map lower t

pub data Profile : Type 0 where
  debug release : Profile

-- `Profile::from`, of the flag `--release`.
abbrev pub profile_from : Bool → Profile
profile_from true = release
profile_from false = debug

abbrev pub profile_dir : Profile → Text
profile_dir debug = codes "debug"
profile_dir release = codes "release"

-- `Display`, by the derived `Debug`.
abbrev pub profile_display : Profile → Text
profile_display debug = codes "Debug"
profile_display release = codes "Release"

pub data Arch : Type 0 where
  aarch64 riscv64 x86_64 : Arch

abbrev pub arch_from : Option Arch → Arch
arch_from arch = unwrap_or arch x86_64

abbrev pub arch_display : Arch → Text
arch_display aarch64 = codes "Aarch64"
arch_display riscv64 = codes "Riscv64"
arch_display x86_64 = codes "X86_64"

-- What the tool reads of its surroundings: environment variables, whether a file is there, and the
-- workspace's path.
pub record Surroundings : Type 0 where
  pub env : Text → Option Text
  pub exists : Text → Bool
  pub workspace : Text

module _ (around : Surroundings) where
  abbrev pub env_or : Text → Text → Text
  env_or var default = unwrap_or (around.env var) default

  abbrev pub cargo : Text
  cargo = env_or (codes "CARGO") (codes "cargo")

  abbrev qemu_default : Arch → Text
  qemu_default aarch64 = codes "qemu-system-aarch64"
  qemu_default riscv64 = codes "qemu-system-riscv64"
  qemu_default x86_64 = codes "qemu-system-x86_64"

  unfoldable pub qemu_system : Arch → Text
  qemu_system arch = env_or (codes "QEMU") (qemu_default arch)

  unfoldable pub target : Arch → Text
  unfolding concat
  target arch =
      env_or (codes "TARGET")
        (concat (to_lowercase (arch_display arch) ∷ codes "-unknown-none-elf" ∷ []))

-- A `process::Command`.
pub record Command : Type 0 where
  pub program : Text
  pub args : List Text
  pub current_dir : Option Text

abbrev pub command : Text → Command
command program = record { program = program; args = []; current_dir = none }

abbrev pub arg : Command → Text → Command
arg c a = record c { args = c.args ++ (a ∷ []) }

unfoldable pub add_args : Command → List Text → Command
add_args c [] = c
add_args c (a ∷ rest) = add_args (arg c a) rest

abbrev pub in_dir : Command → Text → Command
in_dir c dir = record c { current_dir = some dir }

-- Starting a command: an error if it cannot be started, or whether its status is success.
abbrev pub Starter : Type 0 → Type 0
Starter W = W → Command → W × Result Text Bool

abbrev pub Outcome : Type 0 → Type 0
Outcome W = W × Result Text (Unit {0})

module _ {W : Type 0} (start : Starter W) where
  -- `annotated_status(&mut cmd)?` and the test of the status.
  unfoldable pub run_command : Command → Text → W → Outcome W
  run_command cmd failure w =
      let (w', r) = start w cmd in
      (
        w',
        elim r [
          | err e ↦ err (concat (cmd.program ∷ codes ": " ∷ e ∷ []))
          | ok success ↦ if success then ok tt else err failure
        ],
      )

  -- `s1.run().and_then(|_| s2.run())`.
  unfoldable pub then_run : Outcome W → (W → Outcome W) → Outcome W
  then_run (w, ok u) next = next w
  then_run (w, err e) next = (w, err e)

  -- Commands in a row, up to the first that fails.
  unfoldable pub run_commands : List (Command × Text) → W → Outcome W
  run_commands [] w = (w, ok tt)
  run_commands ((cmd, failure) ∷ cmds) w = then_run (run_command cmd failure w) (run_commands cmds)
