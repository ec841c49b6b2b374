-- ===== src/Tests/Settings.antt =====
-- Settings: a JSON library over a small type of values, and the files that `LoadConfig` reads.
use palworld_pal_crosschat.Base.{
  ◌≡◌, refl, ◌⊎◌, Bool, true, false, ◌||◌, ◌++◌, to_lower, Option, none, some, [], if◌then◌else◌,
  is_some, Bytes, codes, str_eq,
}
use palworld_pal_crosschat.Config.Types.{Config, default_config}
use palworld_pal_crosschat.Config.Json.{JsonLib, parsed}
use palworld_pal_crosschat.Config.{load_config}
use palworld_pal_crosschat.Config.Valid.{IsUsable, load_config-throws}
use palworld_pal_crosschat.Config.Search.{Files, IsFound, load_settings, load_settings-IsUsable}

data Value : Type 0 where
  absent : Value
  text : Bytes → Value
  members : (Bytes → Value) → Value

abbrev is_members : Value → Bool
is_members absent = false
is_members (text _) = false
is_members (members _) = true

abbrev present : Value → Bool
present absent = false
present (text _) = true
present (members _) = true

abbrev member : Value → Bytes → Value
member absent key = absent
member (text _) key = absent
member (members f) key = f key

abbrev text_of : Value → Option Bytes
text_of absent = none
text_of (text s) = some s
text_of (members _) = none

abbrev value_at : Value → Bytes → Value → Option Value
value_at absent key fallback = none
value_at (text _) key fallback = none
value_at (members f) key fallback = some (if present (f key) then f key else fallback)

abbrev nothing : Value
nothing = members (λ key. absent)

abbrev values : JsonLib
values = record {
  Json = Value;
  is_object = is_members;
  contains_key = λ j key. present (member j key);
  at = member;
  is_null = λ j. false;
  get_string = text_of;
  get_int = λ j. none;
  get_bool = λ j. none;
  is_array = λ j. false;
  elements = λ j. [];
  is_string = λ j. is_some (text_of j);
  value = value_at;
  empty_object = nothing;
}

value_at-is_members : (j : Value) (key : Bytes) → is_some (value_at j key nothing) ≡ is_members j
value_at-is_members absent key = refl
value_at-is_members (text s) key = refl
value_at-is_members (members f) key = refl

-- A file that holds only a JSON string: the exception gets out of `LoadConfig`.
load_config-throws_example :
    is_some (load_config values (parsed (text (codes "oops")))) ≡ is_members (text (codes "oops"))
load_config-throws_example = load_config-throws values value_at-is_members (text (codes "oops"))

abbrev general : Value
general =
    members (λ key. if str_eq key (codes "ServerOrigin") then text (codes "pal-na") else absent)

abbrev database : Value
database = members (λ key.
    if str_eq key (codes "Host") || str_eq key (codes "User") || str_eq key (codes "Database")
    then text (codes "db")
    else absent)

abbrev root : Value
root = members (λ key.
    if str_eq key (codes "General")
    then general
    else if str_eq key (codes "MySQL")
    then database
    else absent)

abbrev settings_or_default : Option Config → Config
settings_or_default none = default_config
settings_or_default (some cfg) = cfg

abbrev settings : Config
settings = settings_or_default (load_config values (parsed root))

-- The DLL in /mods/dlls, with the file beside that directory.
abbrev dll_files : Files values
dll_files = record {
  module_handle = true;
  module_file_name = (18, codes "/mods/dlls/main.dll");
  parent_path = λ p. if str_eq p (codes "/mods/dlls") then codes "/mods" else codes "/mods/dlls";
  filename = λ p. codes "DLLs";
  append = λ dir name. dir ++ (codes "/" ++ name);
  towlower = to_lower;
  exists = λ p. str_eq p (codes "/mods/config.json");
  open_file = λ p. some p;
  parse = λ s. some root;
}

loads : load_settings dll_files ≡ some settings
unfolding load_settings load_config
loads = refl

load_settings-IsUsable_example :
    (settings ≡ default_config) ⊎ (IsUsable settings × IsFound dll_files)
load_settings-IsUsable_example = load_settings-IsUsable dll_files {cfg = settings} loads
