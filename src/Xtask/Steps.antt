-- ===== src/Xtask/Steps.antt =====
-- xtask/src/main.rs: the steps and the subcommands.
--
-- The option `verbose`, which only prints, is left out. The configuration of an architecture is read
-- by `load`.
use r.Common.{if◌then◌else◌, [], ◌∷◌, map, Run, done, ◌>>=◌, err, expect}
use r.Common.Text.{codes}
use r.Xtask.{
  Text, concat, to_lowercase, Profile, profile_from, Arch, arch_from, arch_display, Surroundings,
  cargo, target, Command, command, arg, add_args, in_dir, Starter, Outcome, run_command, then_run,
  run_commands,
}
use r.Xtask.Config.{Configuration, Files, apply_to_build_step}
use r.Xtask.Commands.{
  Options, RustupState, kvm_allowed, when, is_release, build_std, exclude, exclude_other_arches,
  dist_commands, qemu_command,
}
use r.Xtask.Cargo.{
  expand_command, kasm_command, clippy_command, clean_command, test_commands, check_commands,
}

module _ (around : Surroundings) {W : Type 0} (start : Starter W) (files : Files W)
    (load : Text → Configuration) where
  unfoldable pub load_config : Arch → Text → Configuration
  load_config arch name = load (
      concat (
        around.workspace
        ∷ codes "/"
        ∷ to_lowercase (arch_display arch)
        ∷ codes "/lib/config_"
        ∷ name
        ∷ codes ".toml"
        ∷ []))

  unfoldable pub build_command : Arch → Configuration → Profile → W → Run (W × Command)
  build_command arch config profile w = do
    (w', cmd) ←
        apply_to_build_step files (arg (command (cargo around)) (codes "build")) config
          (target around arch) profile around.workspace w
    done (
      w',
      add_args
          (when (is_release profile) (codes "--release" ∷ []) (
            exclude_other_arches arch
              (exclude (codes "xtask") (arg (in_dir cmd around.workspace) (codes "--workspace")))))
          build_std,
    )

  -- `BuildStep::new` wants an architecture; `DistStep` and `QemuStep` have a default.
  unfoldable pub build_step : Options → W → Run (Outcome W)
  build_step o w = do
    arch ← expect o.arch
    (w', cmd) ← build_command arch (load_config arch o.config) (profile_from o.release_flag) w
    done (run_command start cmd (codes "build kernel failed") w')

  unfoldable pub dist_step : Options → W → Outcome W
  unfolding run_commands
  dist_step o w =
      run_commands start (dist_commands around (arch_from o.arch) (profile_from o.release_flag)) w

  unfoldable pub qemu_step : Options → W → Outcome W
  qemu_step o w =
      let arch = arch_from o.arch in
      if kvm_allowed o
      then run_command start
          (qemu_command around arch (load_config arch o.config) (profile_from o.release_flag) o)
          (codes "qemu failed") w
      else (w, err (codes "KVM only supported under x86-64"))

  -- The subcommands `dist` and `qemu` of `main`.
  unfoldable pub run_dist : Options → W → Run (Outcome W)
  run_dist o w = do s1 ← build_step o w; done (then_run start s1 (dist_step o))

  unfoldable pub run_qemu : Options → W → Run (Outcome W)
  run_qemu o w = do
    s1 ← build_step o w
    done (then_run start (then_run start s1 (dist_step o)) (qemu_step o))

  -- Those of one step.
  unfoldable pub run_expand : Options → W → Outcome W
  run_expand o w =
      run_command start (expand_command around (arch_from o.arch) (profile_from o.release_flag))
        (codes "build kernel failed") w

  unfoldable pub run_kasm : Options → W → Outcome W
  run_kasm o w =
      run_command start (kasm_command around (arch_from o.arch) (profile_from o.release_flag))
        (codes "build kernel failed") w

  unfoldable pub run_clippy : Options → W → Outcome W
  run_clippy o w =
      let arch = arch_from o.arch in
      run_command start
        (clippy_command around arch (load_config arch o.config) (profile_from o.release_flag))
        (codes "clippy failed") w

  unfoldable pub run_test : RustupState → Text → Options → W → Outcome W
  unfolding run_commands
  run_test rustup arch o w =
      run_commands start
        (map (λ c. (c, codes "test failed")) (test_commands around rustup arch o.json)) w

  unfoldable pub run_check : RustupState → Options → W → Outcome W
  unfolding run_commands
  run_check rustup o w =
      run_commands start
        (map (λ c. (c, codes "check failed")) (check_commands around rustup o.json)) w

  unfoldable pub run_clean : W → Outcome W
  run_clean w = run_command start (clean_command around) (codes "clean failed") w
