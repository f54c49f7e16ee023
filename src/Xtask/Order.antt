-- ===== src/Xtask/Order.antt =====
-- xtask/src/main.rs: in which order commands run, and what reaches them.
use r.Common.{
  ◌≡◌, refl, sym, ap, ◌∙◌, true, if◌then◌else◌, some, List, [], ◌∷◌, ◌++◌, done, ok, err, map,
  Result, Option, none, Bool, false,
}
use mathlib.Core.Path.{fun_ext}
use r.Common.Text.{codes}
use r.Fdt.Bytes.{str_eq}
use r.Xtask.{
  Text, concat, qemu_system, arg, Profile, debug, release, profile_from, profile_dir, Arch, aarch64,
  riscv64, x86_64, Surroundings, target, Command, add_args, Starter, Outcome, run_command, then_run,
  run_commands,
}
use r.Xtask.Config.{option_arg, Qemu, apply_to_qemu_step, Configuration, Files, target_path}
use r.Xtask.Commands.{Options, objcopy, when, dist_commands, qemu_command, kvm_allowed}
use r.Xtask.Cargo.{expand_command, kasm_command}
use r.Xtask.Steps.{build_command, load_config, build_step, dist_step, qemu_step, run_qemu}

-- The options with `--arch`.
abbrev pub for_arch : Options → Arch → Options
for_arch o arch = record o { arch = some arch }

-- A row of commands that are started one after the other: the next one only when the one before it has
-- ended with success.
pub data Runs {W : Type 0} (start : Starter W)
    : W → List (Command × Text) → W → Result Text (Unit {0}) → Type 0 where
  finished : {w : W} → Runs start w [] w (ok tt)
  succeeded :
      {w w' : W} {cmd : Command} {failure : Text} {cmds : List (Command × Text)}
      {r : Result Text (Unit {0})} (w1 : W)
      → start w cmd ≡ (w1, ok true)
      → Runs start w1 cmds w' r
      → Runs start w ((cmd, failure) ∷ cmds) w' r
  failed :
      {w : W} {cmd : Command} {failure : Text} {cmds : List (Command × Text)} (w1 : W)
      → start w cmd ≡ (w1, ok false)
      → Runs start w ((cmd, failure) ∷ cmds) w1 (err failure)
  not_started :
      {w : W} {cmd : Command} {failure : Text} {cmds : List (Command × Text)} (w1 : W) (e : Text)
      → start w cmd ≡ (w1, err e)
      → Runs start w ((cmd, failure) ∷ cmds) w1 (err (concat (cmd.program ∷ codes ": " ∷ e ∷ [])))

-- The programs that follow the build, each with the error of its failure.
abbrev pub after_build : Surroundings → Arch → List (Text × Text)
after_build around aarch64 =
    (objcopy around, codes "objcopy failed")
    ∷ (codes "gzip", codes "gzip failed")
    ∷ (qemu_system around aarch64, codes "qemu failed")
    ∷ []
after_build around riscv64 =
    (objcopy around, codes "objcopy failed")
    ∷ (qemu_system around riscv64, codes "qemu failed")
    ∷ []
after_build around x86_64 =
    (objcopy around, codes "objcopy failed") ∷ (qemu_system around x86_64, codes "qemu failed") ∷ []

add_args-program : (c : Command) (args : List Text) → (add_args c args).program ≡ c.program
unfolding add_args
add_args-program c [] = refl
add_args-program c (a ∷ args) = add_args-program (arg c a) args

when-program : (b : Bool) (args : List Text) (c : Command) → (when b args c).program ≡ c.program
when-program true args c = add_args-program c args
when-program false args c = refl

option_program :
    (name : Text) (value : Option Text) (c : Command)
    → (option_arg name value c).program ≡ c.program
option_program name none c = refl
option_program name (some v) c = refl

apply_to_qemu_step-program :
    (c : Command) (config : Configuration) → (apply_to_qemu_step c config).program ≡ c.program
unfolding apply_to_qemu_step
apply_to_qemu_step-program c config = of_qemu config.qemu
  where
    of_qemu :
        (q : Option Qemu) → (apply_to_qemu_step c (record config { qemu = q })).program ≡ c.program
    of_qemu none = refl
    of_qemu (some x) =
        option_program (codes "-dtb") x.dtb (option_arg (codes "-M") x.machine c)
        ∙ option_program (codes "-M") x.machine c

ruleset programs_kept = (add_args-program, when-program, apply_to_qemu_step-program)

programs :
    (around : Surroundings) (arch : Arch) (config : Configuration) (profile : Profile) (o : Options)
    → map
        (λ c. (c.0.program, c.1))
        (dist_commands around arch profile
          ++ ((qemu_command around arch config profile o, codes "qemu failed") ∷ []))
      ≡ after_build around arch
unfolding dist_commands qemu_command
programs around aarch64 config profile o = simp programs_kept
programs around riscv64 config profile o = simp programs_kept
programs around x86_64 config profile o = simp programs_kept

module _ (around : Surroundings) {W : Type 0} (start : Starter W) (files : Files W)
    (load : Text → Configuration) where
  then_run-then_run :
      (o : Outcome W) (f g : W → Outcome W)
      → then_run start (then_run start o f) g ≡ then_run start o (λ w. then_run start (f w) g)
  unfolding then_run
  then_run-then_run (w, ok u) f g = refl
  then_run-then_run (w, err e) f g = refl

  then_run-ok : (o : Outcome W) → then_run start o (λ w. (w, ok tt)) ≡ o
  unfolding then_run
  then_run-ok (w, ok u) = refl
  then_run-ok (w, err e) = refl

  run_commands-append :
      (xs ys : List (Command × Text)) (w : W)
      → run_commands start (xs ++ ys) w
        ≡ then_run start (run_commands start xs w) (run_commands start ys)
  unfolding run_commands then_run
  run_commands-append [] ys w = refl
  run_commands-append ((cmd, failure) ∷ xs) ys w =
      ap (then_run start (run_command start cmd failure w)) (fun_ext (run_commands-append xs ys))
      ∙ sym (
          then_run-then_run (run_command start cmd failure w) (run_commands start xs)
            (run_commands start ys))

  -- Where the emulator may be started, the subcommand is one row of commands.
  run_qemu-run_commands :
      (o : Options) (arch : Arch) (w w' : W) (cmd : Command)
      → kvm_allowed (for_arch o arch) ≡ true
      → build_command around start files load arch
          (load_config around start files load arch o.config)
          (profile_from o.release_flag)
          w
        ≡ done (w', cmd)
      → run_qemu around start files load (for_arch o arch) w
        ≡ done (
            run_commands start
              ((cmd, codes "build kernel failed")
                ∷ (dist_commands around arch (profile_from o.release_flag)
                    ++ ((
                      qemu_command around arch
                          (load_config around start files load arch o.config)
                          (profile_from o.release_flag)
                          (for_arch o arch),
                      codes "qemu failed",
                    )
                        ∷ [])))
              w')
  unfolding run_qemu build_step dist_step qemu_step run_commands
  run_qemu-run_commands o arch w w' cmd allowed built =
      let profile = profile_from o.release_flag in
      let config = load_config around start files load arch o.config in
      let qemu = qemu_command around arch config profile (for_arch o arch) in
      let first = run_command start cmd (codes "build kernel failed") w' in
      let dist = dist_commands around arch profile in
      let last : (u : W)
          → qemu_step around start files load (for_arch o arch) u
            ≡ run_commands start ((qemu, codes "qemu failed") ∷ []) u =
        λ u. rw allowed (sym (then_run-ok (run_command start qemu (codes "qemu failed") u))) in
      rw built (
        ap done (
          then_run-then_run first (run_commands start dist)
            (qemu_step around start files load (for_arch o arch))
          ∙ ap (then_run start first) (
              fun_ext (λ v.
                ap (then_run start (run_commands start dist v)) (fun_ext last)
                ∙ sym (run_commands-append dist ((qemu, codes "qemu failed") ∷ []) v)))))

  run_commands-Runs :
      (cmds : List (Command × Text)) (w : W)
      → Runs start w cmds (run_commands start cmds w).0 (run_commands start cmds w).1
  unfolding run_commands run_command then_run
  run_commands-Runs [] w = finished
  run_commands-Runs ((cmd, failure) ∷ cmds) w = outcome (run_commands-Runs cmds) (start w cmd) refl
    where
      outcome :
          ((v : W) → Runs start v cmds (run_commands start cmds v).0 (run_commands start cmds v).1)
          → (x : W × Result Text Bool) → start w cmd ≡ x
          → Runs start w
              ((cmd, failure) ∷ cmds)
              (run_commands start ((cmd, failure) ∷ cmds) w).0
              (run_commands start ((cmd, failure) ∷ cmds) w).1
      outcome rest (w1, ok true) e =
          rw (ap (λ p. p.1) e, ap (λ p. p.0) e) (succeeded w1 e (rest w1))
      outcome rest (w1, ok false) e = rw (ap (λ p. p.1) e, ap (λ p. p.0) e) (failed w1 e)
      outcome rest (w1, err x) e = rw (ap (λ p. p.1) e, ap (λ p. p.0) e) (not_started w1 x e)

  -- Where the architecture allows KVM or it is not asked for, and the build's command can be
  -- made, the subcommand qemu runs a row of commands, each only after the one before has ended
  -- with success; it ends with the error of the first that does not, or without one after the
  -- last. They are the command of the build and then objcopy, for aarch64 gzip, and the emulator,
  -- each with the error that names it.
  pub run_qemu_lem :
      (o : Options) (arch : Arch) (w w1 : W) (cmd : Command)
      → kvm_allowed (for_arch o arch) ≡ true
      → build_command around start files load arch
          (load_config around start files load arch o.config)
          (profile_from o.release_flag)
          w
        ≡ done (w1, cmd)
      → (cmds : List (Command × Text)) × (w' : W) × (r : Result Text (Unit {0})) × (run_qemu around
            start files load
            (for_arch o arch)
            w
          ≡ done (w', r))
        × Runs start w1 ((cmd, codes "build kernel failed") ∷ cmds) w' r
        × (map (λ c. (c.0.program, c.1)) cmds ≡ after_build around arch)
  run_qemu_lem o arch w w1 cmd allowed built =
      let profile = profile_from o.release_flag in
      let config = load_config around start files load arch o.config in
      let qemu = qemu_command around arch config profile (for_arch o arch) in
      let cmds = dist_commands around arch profile ++ ((qemu, codes "qemu failed") ∷ []) in
      let all = (cmd, codes "build kernel failed") ∷ cmds in
      (
        cmds,
        (run_commands start all w1).0,
        (run_commands start all w1).1,
        run_qemu-run_commands o arch w w1 cmd allowed built,
        run_commands-Runs all w1,
        programs around arch config profile (for_arch o arch),
      )

-- The arguments that cargo takes itself, and those that it hands on to the compiler.
pub before_dashes : List Text → List Text
before_dashes [] = []
before_dashes (a ∷ args) =
    let rest = before_dashes args in if str_eq a (codes "--") then [] else a ∷ rest

-- What the commands of `expand` and `kasm` tell cargo itself, which are the arguments in front of `--`, is
-- the same for a release as for a debug build.
pub expand_command-release :
    (around : Surroundings) (arch : Arch)
    → (before_dashes (expand_command around arch release).args
        ≡ before_dashes (expand_command around arch debug).args)
      × (before_dashes (kasm_command around arch release).args
          ≡ before_dashes (kasm_command around arch debug).args)
unfolding before_dashes expand_command kasm_command add_args concat str_eq
expand_command-release around aarch64 = (refl, refl)
expand_command-release around riscv64 = (refl, refl)
expand_command-release around x86_64 = (refl, refl)

-- The linker script is written into the directory that the profile's results stand in.
target_path-profile_dir :
    (workspace_path target : Text) (profile : Profile)
    → target_path workspace_path target profile
      ≡ concat (workspace_path ∷ codes "/target/" ∷ target ∷ codes "/" ∷ profile_dir profile ∷ [])
unfolding concat
target_path-profile_dir workspace_path target debug = refl
target_path-profile_dir workspace_path target release = refl
