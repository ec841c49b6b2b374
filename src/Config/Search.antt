-- ===== src/Config/Search.antt =====
-- The search for config.json: the directory of the DLL, the mod's directory, and the file. The calls of
-- Windows and of the file system are the parameter `Files`.
use palworld_pal_crosschat.Base.{
  ℕ, ◌≡◌, refl, sym, ap, ◌∙◌, ◌⊎◌, inl, inr, Bool, true, false, not, ◌||◌, Option, none, some, [],
  ◌∷◌, leb, ◌==◌, if◌then◌else◌, Bool-cases, Option-cases, is_empty, Bytes, codes,
}
use mathlib.Core.Option.{some-injective}
use palworld_pal_crosschat.Config.{load_config}
use palworld_pal_crosschat.Config.Types.{Config, default_config}
use palworld_pal_crosschat.Config.Valid.{IsUsable, load_config-IsUsable}
use palworld_pal_crosschat.Config.Json.{
  JsonLib, ConfigFile, no_root, missing, unopened, unparsed, parsed,
}

-- `module_handle` says whether GetModuleHandleExW succeeds, `module_file_name` is what
-- GetModuleFileNameW returns and the path that it writes, `open_file` is `none` where the stream is not
-- good, and `parse` is `none` where the parser throws. Paths are lists of UTF-16 code units.
pub record Files (lib : JsonLib) : Type 0 where
  pub module_handle : Bool
  pub module_file_name : ℕ × Bytes
  pub parent_path : Bytes → Bytes
  pub filename : Bytes → Bytes
  pub append : Bytes → Bytes → Bytes
  pub towlower : ℕ → ℕ
  pub exists : Bytes → Bool
  pub open_file : Bytes → Option Bytes
  pub parse : Bytes → Option lib.Json

abbrev pub max_path : ℕ
max_path = 260

-- The loop over two strings of equal size, through `towlower`.
unfoldable pub equals_ignore_case : (ℕ → ℕ) → Bytes → Bytes → Bool
equals_ignore_case lower [] [] = true
equals_ignore_case lower (x ∷ a) (y ∷ b) =
    let rest = equals_ignore_case lower a b in if lower x == lower y then rest else false
equals_ignore_case lower _ _ = false

abbrev pub read_json : {lib : JsonLib} → Option lib.Json → ConfigFile lib
read_json none = unparsed
read_json (some root) = parsed root

module _ {lib : JsonLib} (files : Files lib) where
  unfoldable pub get_this_dll_directory : Bytes
  get_this_dll_directory =
      if not files.module_handle
      then []
      else (let (len, path) = files.module_file_name in
          if len == 0 || leb max_path len then [] else files.parent_path path)

  -- The parent of a "dlls" directory, or the directory itself.
  unfoldable pub get_mod_root_directory : Bytes
  unfolding get_this_dll_directory equals_ignore_case
  get_mod_root_directory =
      let dll_dir = get_this_dll_directory in
      if is_empty dll_dir
      then []
      else if equals_ignore_case files.towlower (files.filename dll_dir) (codes "dlls")
      then files.parent_path dll_dir
      else dll_dir

  abbrev pub config_path : Bytes
  config_path = files.append get_mod_root_directory (codes "config.json")

  -- The part of `LoadConfig` before the settings are read.
  unfoldable pub find_config : ConfigFile lib
  unfolding get_mod_root_directory
  find_config =
      if is_empty get_mod_root_directory
      then no_root
      else if not (files.exists config_path)
      then missing
      else elim (files.open_file config_path) [
        | none ↦ unopened
        | some text ↦ read_json (files.parse text)
      ]

  -- `LoadConfig` from the first call on.
  unfoldable pub load_settings : Option Config
  unfolding find_config load_config
  load_settings = load_config lib find_config

  -- A config.json in the mod's directory that is there, opens and parses.
  abbrev pub IsFound : Type 0
  IsFound =
      (is_empty get_mod_root_directory ≡ false)
      × (files.exists config_path ≡ true)
      × ((text : Bytes) × (root : lib.Json) × (files.open_file config_path ≡ some text)
          × (files.parse text ≡ some root))

  defaulted :
      (file : ConfigFile lib) (cfg : Config)
      → load_config lib find_config ≡ some cfg
      → find_config ≡ file
      → load_config lib file ≡ some default_config
      → cfg ≡ default_config
  defaulted file cfg h e fails = some-injective _ _ (sym h ∙ (ap (load_config lib) e ∙ fails))

  find_config-cases :
      (cfg : Config) → load_config lib find_config ≡ some cfg → (cfg ≡ default_config) ⊎ IsFound
  unfolding find_config load_config
  find_config-cases cfg h = elim (Bool-cases (is_empty get_mod_root_directory)) [
    | inl e ↦ inl (defaulted no_root cfg h (rw (find_config, e) refl) refl)
    | inr rooted ↦ elim (Bool-cases (files.exists config_path)) [
      | inr e ↦ inl (defaulted missing cfg h (rw (find_config, rooted) (rw e refl)) refl)
      | inl there ↦ elim (Option-cases (files.open_file config_path)) [
        | inl e ↦
            inl (defaulted unopened cfg h (rw (find_config, rooted) (rw there (rw e refl))) refl)
        | inr (text, opened) ↦ elim (Option-cases (files.parse text)) [
          | inl e ↦ inl (
              defaulted unparsed cfg h (rw (find_config, rooted) (rw there (rw opened (rw e refl))))
                refl)
          | inr (root, read) ↦ inr (rooted, there, (text, root, opened, read))
        ]
      ]
    ]
  ]

-- Settings that `LoadConfig` returns are the disabled default settings, or they come from a
-- config.json in the mod's directory that is there, opens and parses, are enabled and fit for use: a
-- known origin, a database host, user and name, an interval of at least 100 ms, a batch, a broadcast
-- limit and a backoff limit of at least 1, a port from 1 to 65535, the global or the Discord category,
-- and filter patterns that are not empty with no negative minutes.
pub load_settings-IsUsable :
    {lib : JsonLib} (files : Files lib) {cfg : Config}
    → load_settings files ≡ some cfg
    → (cfg ≡ default_config) ⊎ (IsUsable cfg × IsFound files)
unfolding load_settings
load_settings-IsUsable files {cfg} h = elim (find_config-cases files cfg h) [
  | inl e ↦ inl e
  | inr found ↦ elim (load_config-IsUsable _ (find_config files) h) [
    | inl e ↦ inl e
    | inr usable ↦ inr (usable, found)
  ]
]
