-- ===== src/XtaskTests.antt =====
-- xtask/src: the subcommand `qemu` on a small configuration.
use r.Common.{◌≡◌, refl, true, false, none, some, List, [], ◌∷◌, done, ok, map, Result}
use r.Common.Text.{codes}
use r.Xtask.{Text, debug, release, aarch64, Surroundings, Command, add_args, Starter}
use r.Xtask.Config.{
  Configuration, Files, apply_to_build_step, apply_link, apply_rustflags, apply_platform_config,
  apply_build,
}
use r.Xtask.Commands.{Options, exclude_other_arches}
use r.Xtask.Cargo.{expand_command, kasm_command}
use r.Xtask.Steps.{build_command, load_config, run_qemu}
use r.Xtask.Order.{for_arch, Runs, after_build, run_qemu_lem, before_dashes, expand_command-release}

abbrev around : Surroundings
around = record { env = λ name. none; exists = λ path. false; workspace = codes "/r9" }

-- The commands that were started, the last one first; all of them succeed.
abbrev recording : Starter (List Command)
recording log cmd = (cmd ∷ log, ok true)

abbrev no_files : Files (List Command)
no_files = record { read_to_string = λ w path. none; create = λ w path contents. none }

abbrev configuration : Configuration
configuration = record {
  build = some (record { buildflags = none; rustflags = none; target = codes "lib/aarch64.json" });
  config = none;
  link = none;
  qemu = some (record { machine = some (codes "raspi3b"); dtb = none });
}

abbrev load : Text → Configuration
load name = configuration

abbrev options : Options
options = record {
  arch = none;
  release_flag = false;
  config = codes "default";
  gdb = false;
  kvm = false;
  dump_dtb = [];
  json = false;
}

-- The command of the build.
abbrev build_cmd : Command
build_cmd = record {
  program = codes "cargo";
  args =
      codes "build"
      ∷ codes "--target"
      ∷ codes "lib/aarch64.json"
      ∷ codes "--workspace"
      ∷ codes "--exclude"
      ∷ codes "xtask"
      ∷ codes "--exclude"
      ∷ codes "riscv64"
      ∷ codes "--exclude"
      ∷ codes "x86_64"
      ∷ codes "-Z"
      ∷ codes "build-std=core,alloc"
      ∷ [];
  current_dir = some (codes "/r9");
}

built :
    build_command around recording no_files load aarch64
      (load_config around recording no_files load aarch64 options.config)
      debug
      []
    ≡ done ([], build_cmd)
unfolding build_command load_config apply_to_build_step apply_link add_args exclude_other_arches
    apply_rustflags apply_platform_config apply_build
built = refl

run_qemu_lem_example :
    (cmds : List (Command × Text)) × (log : List Command) × (r : Result Text (Unit {0})) × (run_qemu
        around recording no_files load
        (for_arch options aarch64)
        []
      ≡ done (log, r))
    × Runs recording [] ((build_cmd, codes "build kernel failed") ∷ cmds) log r
    × (map (λ c. (c.0.program, c.1)) cmds ≡ after_build around aarch64)
run_qemu_lem_example =
    run_qemu_lem around recording no_files load options aarch64 [] [] build_cmd refl built

expand_command-release_example :
    (before_dashes (expand_command around aarch64 release).args
      ≡ before_dashes (expand_command around aarch64 debug).args)
    × (before_dashes (kasm_command around aarch64 release).args
        ≡ before_dashes (kasm_command around aarch64 debug).args)
expand_command-release_example = expand_command-release around aarch64
