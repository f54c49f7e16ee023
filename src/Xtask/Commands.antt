-- ===== src/Xtask/Commands.antt =====
-- xtask/src/main.rs: the commands of the steps dist and qemu, and what the commands of all steps share.
--
-- The installed toolchains that rustup lists are an argument, by what the code reads of each.
use r.Common.{
  ◌-◌, ◌&&◌, ◌||◌, ◌==◌, Bool, true, false, not, if◌then◌else◌, Option, none, some, List, [], ◌∷◌,
  ◌++◌, length, drop,
}
use r.Common.Text.{codes}
use r.Fdt.Bytes.{str_eq}
use r.Xtask.{
  Text, concat, Profile, debug, release, profile_dir, Arch, aarch64, riscv64, x86_64, arch_from,
  Surroundings, env_or, qemu_system, target, Command, command, arg, add_args, in_dir,
}
use r.Xtask.Config.{Configuration, join, apply_to_qemu_step}

pub record Options : Type 0 where
  pub arch : Option Arch
  pub release_flag : Bool
  pub config : Text
  pub gdb : Bool
  pub kvm : Bool
  pub dump_dtb : Text
  pub json : Bool

pub record Triple : Type 0 where
  pub architecture : Text
  pub name : Text

pub record RustupState : Type 0 where
  pub installed_targets : List Triple
  pub curr_toolchain : Text

abbrev target_arch : Text → Text
target_arch arch = if str_eq arch (codes "riscv64") then codes "riscv64gc" else arch

abbrev ends_with : Text → Text → Bool
ends_with text suffix = str_eq (drop (length text - length suffix) text) suffix

-- The filter and the `find` of `std_supported_target`.
pub find_target : Text → Text → List Triple → Option Triple
find_target curr arch [] = none
find_target curr arch (t ∷ ts) =
    if str_eq t.architecture arch
      && (ends_with curr t.name || str_eq t.name (arch ++ codes "-unknown-linux-gnu"))
    then some t
    else find_target curr arch ts

unfoldable pub std_supported_target : RustupState → Text → Option Triple
unfolding find_target
std_supported_target rustup arch =
    find_target rustup.curr_toolchain (target_arch arch) rustup.installed_targets

-- `split('-')`: the segments, with the one that is being read.
pub split_dashes : Text → Text → List Text
split_dashes segment [] = segment ∷ []
split_dashes segment (c ∷ text) =
    if c == b'-' then segment ∷ split_dashes [] text else split_dashes (segment ++ (c ∷ [])) text

-- Each of the two packages that is not built.
abbrev pub exclude : Text → Command → Command
exclude name cmd = arg (arg cmd (codes "--exclude")) name

unfoldable pub exclude_other_arches : Arch → Command → Command
exclude_other_arches aarch64 cmd = exclude (codes "x86_64") (exclude (codes "riscv64") cmd)
exclude_other_arches riscv64 cmd = exclude (codes "x86_64") (exclude (codes "aarch64") cmd)
exclude_other_arches x86_64 cmd = exclude (codes "riscv64") (exclude (codes "aarch64") cmd)

abbrev pub when : Bool → List Text → Command → Command
when b args cmd = if b then add_args cmd args else cmd

abbrev pub is_release : Profile → Bool
is_release debug = false
is_release release = true

abbrev pub build_std : List Text
build_std = codes "-Z" ∷ codes "build-std=core,alloc" ∷ []

abbrev pub kvm_allowed : Options → Bool
kvm_allowed o = elim (arch_from o.arch) [ x86_64 ↦ true | _ ↦ not o.kvm ]

-- `PathBuf::from(home)` with `toolchains` pushed.
abbrev toolchains_of : Text → Text
toolchains_of [] = codes "toolchains"
toolchains_of (c ∷ home) = (c ∷ home) ++ codes "/toolchains"

module _ (around : Surroundings) where
  -- The host is the last three segments of the toolchain's name.
  unfoldable pub objcopy : Text
  unfolding split_dashes concat join
  objcopy =
      let toolchain =
        env_or around (codes "RUSTUP_TOOLCHAIN") (codes "nightly-x86_64-unknown-none") in
      let segments = split_dashes [] toolchain in
      let host = join (codes "-") (drop (length segments - 3) segments) in
      let home = env_or around (codes "RUSTUP_HOME") [] in
      let base = toolchains_of home in
      let path = concat (
        base
        ∷ codes "/"
        ∷ toolchain
        ∷ codes "/lib/rustlib/"
        ∷ host
        ∷ codes "/bin/llvm-objcopy"
        ∷ []) in
      env_or around (codes "OBJCOPY") (if around.exists path then path else codes "llvm-objcopy")

  -- A file among the results of the build.
  abbrev pub built : Arch → Profile → Text → Text
  built arch profile file = concat (
      codes "target/"
      ∷ target around arch
      ∷ codes "/"
      ∷ profile_dir profile
      ∷ codes "/"
      ∷ file
      ∷ [])

  -- The commands of `DistStep`, each with the error of its failure.
  unfoldable pub dist_commands : Arch → Profile → List (Command × Text)
  dist_commands aarch64 profile =
      (
        in_dir
            (add_args (command objcopy) (
              codes "-O"
              ∷ codes "binary"
              ∷ built aarch64 profile (codes "aarch64")
              ∷ built aarch64 profile (codes "aarch64-qemu")
              ∷ []))
            around.workspace,
        codes "objcopy failed",
      )
      ∷ (
        in_dir
            (add_args (command (codes "gzip"))
              (codes "-k" ∷ codes "-f" ∷ built aarch64 profile (codes "aarch64-qemu") ∷ []))
            around.workspace,
        codes "gzip failed",
      )
      ∷ []
  dist_commands x86_64 profile =
      (
        in_dir
            (add_args (command objcopy) (
              codes "--input-target=elf64-x86-64"
              ∷ codes "--output-target=elf32-i386"
              ∷ built x86_64 profile (codes "x86_64")
              ∷ built x86_64 profile (codes "r9.elf32")
              ∷ []))
            around.workspace,
        codes "objcopy failed",
      )
      ∷ []
  dist_commands riscv64 profile =
      (
        in_dir
            (add_args (command objcopy) (
              codes "-O"
              ∷ codes "binary"
              ∷ built riscv64 profile (codes "riscv64")
              ∷ built riscv64 profile (codes "riscv64-qemu")
              ∷ []))
            around.workspace,
        codes "objcopy failed",
      )
      ∷ []

  abbrev gdb_args : Bool → Command → Command
  gdb_args wait_for_gdb = when wait_for_gdb (codes "-s" ∷ codes "-S" ∷ [])

  abbrev riscv64_machine : Text → Text
  riscv64_machine [] = codes "virt"
  riscv64_machine (c ∷ file) = concat (codes "virt,dumpdtb=" ∷ (c ∷ file) ∷ [])

  unfoldable pub qemu_command : Arch → Configuration → Profile → Options → Command
  qemu_command aarch64 config profile o =
      in_dir
        (add_args
          (gdb_args o.gdb (
            add_args (apply_to_qemu_step (command (qemu_system around aarch64)) config) (
              codes "-nographic"
              ∷ codes "-serial"
              ∷ codes "null"
              ∷ codes "-serial"
              ∷ codes "mon:stdio"
              ∷ [])))
          (codes "-d"
            ∷ codes "int"
            ∷ codes "-kernel"
            ∷ built aarch64 profile (codes "aarch64-qemu.gz")
            ∷ []))
        around.workspace
  qemu_command riscv64 config profile o =
      in_dir
        (add_args
          (gdb_args o.gdb (
            add_args (command (qemu_system around riscv64)) (
              codes "-nographic"
              ∷ codes "-machine"
              ∷ riscv64_machine o.dump_dtb
              ∷ codes "-cpu"
              ∷ codes "rv64"
              ∷ codes "-netdev"
              ∷ codes "type=user,id=net0"
              ∷ codes "-device"
              ∷ codes "virtio-net-device,netdev=net0"
              ∷ codes "-smp"
              ∷ codes "4"
              ∷ codes "-m"
              ∷ codes "1024M"
              ∷ codes "-serial"
              ∷ codes "mon:stdio"
              ∷ [])))
          (codes "-d"
            ∷ codes "guest_errors,unimp"
            ∷ codes "-kernel"
            ∷ built riscv64 profile (codes "riscv64")
            ∷ []))
        around.workspace
  qemu_command x86_64 config profile o =
      in_dir
        (add_args
          (gdb_args o.gdb (
            add_args
              (add_args (arg (command (qemu_system around x86_64)) (codes "-nographic")) (
                if o.kvm
                then codes "-accel"
                  ∷ codes "kvm"
                  ∷ codes "-cpu"
                  ∷ codes "host,pdpe1gb,xsaveopt,fsgsbase,apic,msr"
                  ∷ []
                else codes "-M"
                  ∷ codes "q35"
                  ∷ codes "-cpu"
                  ∷ codes "qemu64,pdpe1gb,xsaveopt,fsgsbase,apic,msr"
                  ∷ []))
              (codes "-smp" ∷ codes "8" ∷ codes "-s" ∷ codes "-m" ∷ codes "8192" ∷ [])))
          (codes "-kernel" ∷ built x86_64 profile (codes "r9.elf32") ∷ []))
        around.workspace
