-- ===== src/Xtask/Cargo.antt =====
-- xtask/src/main.rs: the commands of the steps that only run cargo: expand, kasm, clippy, clean, test and check.
use r.Common.{Bool, none, some, List, [], ◌∷◌, ◌++◌, map}
use r.Common.Text.{codes}
use r.Xtask.{
  Text, concat, to_lowercase, Profile, Arch, arch_display, Surroundings, cargo, target, Command,
  command, arg, add_args, in_dir,
}
use r.Xtask.Config.{Configuration, apply_to_clippy_step}
use r.Xtask.Commands.{
  RustupState, std_supported_target, when, is_release, build_std, exclude_other_arches,
}

module _ (around : Surroundings) where
  -- The beginning that `ExpandStep` and `KasmStep` share, up to what they ask of the compiler.
  abbrev rustc_command : Arch → Command
  rustc_command arch =
      add_args
        (add_args (arg (in_dir (command (cargo around)) around.workspace) (codes "rustc"))
          build_std)
        (codes "-p"
          ∷ to_lowercase (arch_display arch)
          ∷ codes "--target"
          ∷ concat (codes "lib/" ∷ target around arch ∷ codes ".json" ∷ [])
          ∷ codes "--"
          ∷ [])

  unfoldable pub expand_command : Arch → Profile → Command
  expand_command arch profile =
      when (is_release profile) (codes "--release" ∷ [])
        (add_args (rustc_command arch) (codes "-Z" ∷ codes "unpretty=expanded" ∷ []))

  unfoldable pub kasm_command : Arch → Profile → Command
  kasm_command arch profile =
      when (is_release profile) (codes "--release" ∷ [])
        (add_args (rustc_command arch) (codes "--emit" ∷ codes "asm" ∷ []))

  unfoldable pub clippy_command : Arch → Configuration → Profile → Command
  clippy_command arch config profile = when (is_release profile) (codes "--release" ∷ []) (
      exclude_other_arches arch (
        arg
          (in_dir (apply_to_clippy_step (arg (command (cargo around)) (codes "clippy")) config)
            around.workspace)
          (codes "--workspace")))

  unfoldable pub clean_command : Command
  clean_command = arg (in_dir (command (cargo around)) around.workspace) (codes "clean")

  abbrev json_args : Bool → Command → Command
  json_args json = when json (codes "--message-format=json" ∷ codes "--quiet" ∷ [])

  -- The commands of `TestStep`, on a host of the given architecture.
  unfoldable pub test_commands : RustupState → Text → Bool → List Command
  test_commands rustup arch json =
      map
        (λ args. json_args json (add_args (in_dir (command (cargo around)) around.workspace) args))
        ((codes "test" ∷ codes "--package" ∷ codes "port" ∷ codes "--lib" ∷ [])
          ∷ elim (std_supported_target rustup arch) [
            | none ↦ []
            | some t ↦
                (codes "test"
                  ∷ codes "--package"
                  ∷ arch
                  ∷ codes "--bins"
                  ∷ codes "--target"
                  ∷ t.name
                  ∷ [])
                ∷ []
          ])

  abbrev check_bins : Text → List Text
  check_bins name = codes "check" ∷ codes "--package" ∷ name ∷ codes "--bins" ∷ []

  abbrev check_tests : RustupState → Text → List (List Text)
  check_tests rustup arch = elim (std_supported_target rustup arch) [
    | none ↦ []
    | some t ↦
        (codes "check"
          ∷ codes "--package"
          ∷ arch
          ∷ codes "--tests"
          ∷ codes "--benches"
          ∷ codes "--target"
          ∷ t.name
          ∷ [])
        ∷ []
  ]

  unfoldable pub check_commands : RustupState → Bool → List Command
  check_commands rustup json =
      map
        (λ args. in_dir (json_args json (add_args (command (cargo around)) args)) around.workspace)
        (check_bins (codes "aarch64")
          ∷ check_bins (codes "riscv64")
          ∷ check_bins (codes "x86_64")
          ∷ (codes "check"
              ∷ codes "--package"
              ∷ codes "port"
              ∷ codes "--lib"
              ∷ codes "--tests"
              ∷ codes "--benches"
              ∷ [])
          ∷ (check_tests rustup (codes "aarch64")
              ++ (check_tests rustup (codes "riscv64") ++ check_tests rustup (codes "x86_64"))))
