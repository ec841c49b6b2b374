-- ===== src/Config/Json.antt =====
-- What `LoadConfig` uses of the JSON library and of the file system.
use palworld_pal_crosschat.Base.{Bool, Option, List, Bytes, ℤ}

-- `get_string`, `get_int` and `get_bool` are `get<T>()`, with `none` for a throw; `at` is read only
-- where `contains_key` holds; `value` is `json::value(key, fallback)`, with `none` for a throw.
pub record JsonLib : Type 1 where
  pub Json : Type 0
  pub is_object : Json → Bool
  pub contains_key : Json → Bytes → Bool
  pub at : Json → Bytes → Json
  pub is_null : Json → Bool
  pub get_string : Json → Option Bytes
  pub get_int : Json → Option ℤ
  pub get_bool : Json → Option Bool
  pub is_array : Json → Bool
  pub elements : Json → List Json
  pub is_string : Json → Bool
  pub value : Json → Bytes → Json → Option Json
  pub empty_object : Json

-- How the search for config.json ends.
pub data ConfigFile (lib : JsonLib) : Type 0 where
  no_root missing unopened unparsed : ConfigFile lib
  parsed : lib.Json → ConfigFile lib
