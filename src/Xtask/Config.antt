-- ===== src/Xtask/Config.antt =====
-- xtask/src/config.rs: how the configuration of an architecture changes the commands.
--
-- The configuration is the value that the crates serde and toml read from its file. A table of options
-- is the list of its entries, in the order in which it is walked.
use r.Common.{
  ℕ, zero, suc, ◌-◌, length, ◌==◌, ◌&&◌, Bool, true, false, if◌then◌else◌, Option, none, some, List,
  [], ◌∷◌, ◌++◌, Run, done, ◌>>=◌, expect,
}
use r.Common.Text.{codes}
use r.Fdt.Bytes.{str_eq}
use r.Xtask.{Text, concat, to_lowercase, Profile, profile_display, Command, arg, add_args}

pub record Build : Type 0 where
  pub buildflags : Option (List Text)
  pub rustflags : Option (List Text)
  pub target : Text

pub record Config : Type 0 where
  pub dev : Option (List Text)
  pub features : Option (List Text)
  pub ip : Option (List Text)
  pub link : Option (List Text)
  pub nodev : Option (List Text)
  pub nouart : Option (List Text)
  pub platform : Option Text
  pub dtb : Option Text

pub record Qemu : Type 0 where
  pub machine : Option Text
  pub dtb : Option Text

pub record Configuration : Type 0 where
  pub build : Option Build
  pub config : Option Config
  pub link : Option (List (Text × Text))
  pub qemu : Option Qemu

-- The command and the flags of the compiler that are collected beside it.
abbrev pub Flags : Type 0
Flags = Command × List Text

abbrev optional : Option (List Text) → List Text
optional none = []
optional (some ts) = ts

-- `join`.
unfoldable pub join : Text → List Text → Text
join sep [] = []
join sep (t ∷ []) = t
join sep (t ∷ u ∷ ts) = t ++ (sep ++ join sep (u ∷ ts))

unfoldable pub apply_build : Configuration → Flags → Flags
apply_build configuration (cmd, rustflags) = elim configuration.build [
  | none ↦ (cmd, rustflags)
  | some config ↦ (
    add_args (arg (arg cmd (codes "--target")) config.target) (optional config.buildflags),
    rustflags ++ optional config.rustflags,
  )
]

-- The options of a section: each a `--cfg` with the section's prefix.
pub prefixed : Text → List Text → List Text
prefixed prefix [] = []
prefixed prefix (t ∷ ts) = codes "--cfg" ∷ concat (prefix ∷ codes "_" ∷ t ∷ []) ∷ prefixed prefix ts

abbrev is_empty : Text → Bool
is_empty [] = true
is_empty (c ∷ t) = false

-- The features, joined; one feature with an empty name is taken as it is.
abbrev joined_features : List Text → Text
joined_features [] = []
joined_features (f ∷ fs) =
    let joined = join (codes ",") (f ∷ fs) in if is_empty joined then f else joined

abbrev with_features : Option (List Text) → Command → Command
with_features none cmd = cmd
with_features (some features) cmd =
    arg cmd (concat (codes "--features=" ∷ joined_features features ∷ []))

abbrev platform_flags : Option Text → List Text
platform_flags none = []
platform_flags (some platform) =
    codes "--cfg" ∷ concat (codes "platform=\"" ∷ platform ∷ codes "\"" ∷ []) ∷ []

unfoldable pub apply_platform_config : Configuration → Flags → Flags
apply_platform_config configuration (cmd, rustflags) = elim configuration.config [
  | none ↦ (cmd, rustflags)
  | some config ↦ (
    with_features config.features cmd,
    rustflags
        ++ platform_flags config.platform
        ++ prefixed (codes "dev") (optional config.dev)
        ++ prefixed (codes "ip") (optional config.ip)
        ++ prefixed (codes "link") (optional config.link)
        ++ prefixed (codes "nodev") (optional config.nodev)
        ++ prefixed (codes "nouart") (optional config.nouart),
  )
]

unfoldable pub apply_rustflags : Command → List Text → Command
apply_rustflags cmd [] = cmd
apply_rustflags cmd (f ∷ fs) =
    arg (arg cmd (codes "--config"))
      (concat (codes "build.rustflags='" ∷ join (codes " ") (f ∷ fs) ∷ codes "'" ∷ []))

unfoldable pub apply_to_clippy_step : Command → Configuration → Command
apply_to_clippy_step cmd config =
    let (cmd', rustflags) = apply_platform_config config (cmd, []) in apply_rustflags cmd' rustflags

-- `link["script"]`.
pub lookup : Text → List (Text × Text) → Option Text
lookup key [] = none
lookup key ((k, v) ∷ entries) = if str_eq k key then some v else lookup key entries

pub starts_with : Text → Text → Bool
starts_with text [] = true
starts_with [] (p ∷ pattern) = false
starts_with (c ∷ text) (p ∷ pattern) = (c == p) && starts_with text pattern

-- `str::replace`: what is left of a match is passed over, the number of bytes given.
pub replace_from : ℕ → Text → Text → Text → Text
replace_from skip [] pattern value = []
replace_from zero (c ∷ text) pattern value =
    let matches = starts_with (c ∷ text) pattern in
    let rest = replace_from (if matches then length pattern - 1 else 0) text pattern value in
    if matches then value ++ rest else c ∷ rest
replace_from (suc skip) (c ∷ text) pattern value = replace_from skip text pattern value

-- The placeholders of a linker script, by the entries of the table.
pub fill : Text → List (Text × Text) → Text
fill contents [] = contents
fill contents ((k, v) ∷ entries) =
    fill
      (if str_eq k (codes "arch")
        then replace_from 0 contents (codes "${ARCH}") v
        else if str_eq k (codes "load-address")
        then replace_from 0 contents (codes "${LOAD-ADDRESS}") v
        else contents)
      entries

-- The directory of the target, where the linker script is written.
abbrev pub target_path : Text → Text → Profile → Text
target_path workspace_path target profile = concat (
    workspace_path
    ∷ codes "/target/"
    ∷ target
    ∷ codes "/"
    ∷ to_lowercase (profile_display profile)
    ∷ [])

-- Reading a file, and making one with its directory, which may fail.
pub record Files (W : Type 0) : Type 0 where
  pub read_to_string : W → Text → Option Text
  pub create : W → Text → Text → Option W

module _ {W : Type 0} (files : Files W) where
  unfoldable pub apply_link :
      Configuration → Text → Profile → Text → W → List Text → Run (W × List Text)
  unfolding lookup fill
  apply_link configuration target profile workspace_path w rustflags = elim configuration.link [
    | none ↦ done (w, rustflags)
    | some link ↦ do
      filename ← expect (lookup (codes "script") link)
      if is_empty filename then done (w, rustflags) else (do
        contents ←
            expect (files.read_to_string w (concat (workspace_path ∷ codes "/" ∷ filename ∷ [])))
        let path = target_path workspace_path target profile
        w' ← expect (files.create w (path ++ codes "/kernel.ld") (fill contents link))
        done (
          w',
          rustflags ++ (concat (codes "-Clink-args=-T" ∷ path ∷ codes "/kernel.ld" ∷ []) ∷ []),
        ))
  ]

  unfoldable pub apply_to_build_step :
      Command → Configuration → Text → Profile → Text → W → Run (W × Command)
  apply_to_build_step cmd config target profile workspace_path w = do
    let (cmd', rustflags) = apply_platform_config config (apply_build config (cmd, []))
    (w', rustflags') ← apply_link config target profile workspace_path w rustflags
    done (w', apply_rustflags cmd' rustflags')

abbrev pub option_arg : Text → Option Text → Command → Command
option_arg flag none cmd = cmd
option_arg flag (some v) cmd = arg (arg cmd flag) v

unfoldable pub apply_to_qemu_step : Command → Configuration → Command
apply_to_qemu_step cmd configuration = elim configuration.qemu [
  | none ↦ cmd
  | some config ↦ option_arg (codes "-dtb") config.dtb (option_arg (codes "-M") config.machine cmd)
]
