-- ===== src/Config/Valid.antt =====
-- Which settings `LoadConfig` returns.
use mathlib.Core.Option.{some-injective}
use palworld_pal_crosschat.Base.{
  ◌≡◌, refl, sym, subst, ◌≢◌, ◌⊎◌, inl, inr, Bool, true, false, not, ◌||◌, Option, none, some, List,
  [], ◌∷◌, map, arith, if◌then◌else◌, Bool-cases, is_some, if_both, All, is_empty, Bytes, codes,
  to_lower, str_eq, str_eq_iff, ℤ, pos, ◌≤ℤ◌, ltb_ℤ, leb_ℤ, at_least-le,
}
use palworld_pal_crosschat.ChatApi.{chat_category_global, chat_category_discord}
use palworld_pal_crosschat.Config.Types.{FilterPatternConfig, Config, default_config}
use palworld_pal_crosschat.Config.Json.{
  JsonLib, ConfigFile, no_root, missing, unopened, unparsed, parsed,
}
use palworld_pal_crosschat.Config.{
  apply_inject_category, read_general, read_mysql, read_format, read_filter, pattern_entry,
  keep_pattern, get_or_else, read_patterns, read_words, read_filter_patterns, clamp, validate,
  ◌>>=◌, is_origin, has_mysql, has_array, read_root, load_config,
}

abbrev pub IsPattern : FilterPatternConfig → Type 0
IsPattern p = (p.pattern ≢ []) × (pos 0 ≤ℤ p.mute_minutes)

-- What the rest of the mod relies on.
pub record IsUsable (cfg : Config) : Type 0 where
  pub is_enabled : cfg.enabled ≡ true
  pub origin_known : (cfg.server_origin ≡ codes "pal-na") ⊎ (cfg.server_origin ≡ codes "pal-eu")
  pub host_given : cfg.mysql_host ≢ []
  pub user_given : cfg.mysql_user ≢ []
  pub database_given : cfg.mysql_database ≢ []
  pub poll_bounded : pos 100 ≤ℤ cfg.poll_interval_ms
  pub batch_bounded : pos 1 ≤ℤ cfg.max_batch
  pub broadcasts_bounded : pos 1 ≤ℤ cfg.max_broadcasts_per_tick
  pub backoff_bounded : pos 1 ≤ℤ cfg.reconnect_backoff_max_sec
  pub port_low : pos 1 ≤ℤ cfg.mysql_port
  pub port_high : cfg.mysql_port ≤ℤ pos 65535
  pub category_known :
      (cfg.inject_category ≡ chat_category_global) ⊎ (cfg.inject_category ≡ chat_category_discord)
  pub patterns_valid : All IsPattern cfg.filter_patterns

keep_pattern-valid :
    (p : FilterPatternConfig) (rest : List FilterPatternConfig)
    → pos 0 ≤ℤ p.mute_minutes
    → All IsPattern rest
    → All IsPattern (keep_pattern p rest)
unfolding keep_pattern
keep_pattern-valid p rest h k = elim (Bool-cases (is_empty p.pattern)) [
  | inl e ↦ rw e k
  | inr e ↦ rw e ((not_empty p.pattern e, h), k)
]
  where
    not_empty : (s : Bytes) → is_empty s ≡ false → s ≢ []
    not_empty [] e = λ _. cc
    not_empty (c ∷ s) e = λ x. cc

clamp-IsUsable :
    (cfg : Config)
    → is_origin cfg.server_origin ≡ true
    → has_mysql cfg ≡ true
    → (cfg.inject_category ≡ chat_category_global) ⊎ (cfg.inject_category ≡ chat_category_discord)
    → All IsPattern cfg.filter_patterns
    → IsUsable (clamp cfg)
unfolding clamp
clamp-IsUsable cfg o m c p = record {
  is_enabled = refl;
  origin_known = origin_cases o;
  host_given = host_is;
  user_given = user_is;
  database_given = database_is;
  poll_bounded = at_least-le (pos 100) cfg.poll_interval_ms;
  batch_bounded = at_least-le (pos 1) cfg.max_batch;
  broadcasts_bounded = at_least-le (pos 1) cfg.max_broadcasts_per_tick;
  backoff_bounded = at_least-le (pos 1) cfg.reconnect_backoff_max_sec;
  port_low = (port_range cfg.mysql_port).0;
  port_high = (port_range cfg.mysql_port).1;
  category_known = c;
  patterns_valid = p;
}
  where
    origin_cases :
        is_origin cfg.server_origin ≡ true
        → (cfg.server_origin ≡ codes "pal-na") ⊎ (cfg.server_origin ≡ codes "pal-eu")
    origin_cases h = elim (Bool-cases (str_eq cfg.server_origin (codes "pal-na"))) [
      | inl e ↦ inl ((str_eq_iff _ _).0 e)
      | inr e ↦ inr ((str_eq_iff _ _).0 (ground arith))
    ]

    given : (s : Bytes) → is_empty s ≡ false → s ≢ []
    given [] e = λ _. cc
    given (x ∷ s) e = λ e'. cc

    host_is : cfg.mysql_host ≢ []
    host_is = given cfg.mysql_host (ground arith)

    user_is : cfg.mysql_user ≢ []
    user_is = given cfg.mysql_user (ground arith)

    database_is : cfg.mysql_database ≢ []
    database_is = given cfg.mysql_database (ground arith)

    port_range :
        (x : ℤ)
        → let y : ℤ = if leb_ℤ x (pos 0) || ltb_ℤ (pos 65535) x then pos 3306 else x in
          (pos 1 ≤ℤ y) × (y ≤ℤ pos 65535)
    port_range x = ground arith

module _ (lib : JsonLib) where
  read_patterns-valid : (entries : List lib.Json) → All IsPattern (read_patterns lib entries)
  unfolding read_patterns pattern_entry
  read_patterns-valid [] = tt
  read_patterns-valid (entry ∷ entries) =
      if_both (All IsPattern) (not (lib.is_object entry)) _ _ (read_patterns-valid entries) (
        keep_pattern-valid (pattern_entry lib entry) _
          (at_least-le (pos 0) (get_or_else lib lib.get_int entry (codes "MuteMinutes") (pos 5)))
          (read_patterns-valid entries))

  read_words-valid :
      (minutes : ℤ) (entries : List lib.Json) → All IsPattern (read_words lib minutes entries)
  unfolding read_words
  read_words-valid minutes [] = tt
  read_words-valid minutes (entry ∷ entries) =
      if_both (All IsPattern) (not (lib.is_string entry)) _ _ (read_words-valid minutes entries)
        (keep_pattern-valid _ _ (at_least-le (pos 0) minutes) (read_words-valid minutes entries))

  read_filter_patterns-valid :
      (chat_filter : lib.Json) → All IsPattern (read_filter_patterns lib chat_filter)
  unfolding read_filter_patterns
  read_filter_patterns-valid chat_filter =
      if_both (All IsPattern) (has_array lib chat_filter (codes "FilteredPatterns")) _ _
        (read_patterns-valid _)
        (if_both (All IsPattern) (has_array lib chat_filter (codes "BlockedWords")) _ _
          (read_words-valid
            (get_or_else lib lib.get_int chat_filter (codes "AutoMuteMinutes") (pos 5)) _)
          tt)

  category-read_format :
      (format : lib.Json) (cfg : Config)
      → ((read_format lib format cfg).inject_category ≡ chat_category_global)
        ⊎ ((read_format lib format cfg).inject_category ≡ chat_category_discord)
  unfolding read_format apply_inject_category
  category-read_format format cfg =
      let text = get_or_else lib lib.get_string format (codes "InjectCategory") (codes "global") in
      elim (Bool-cases (str_eq (map to_lower text) (codes "discord"))) [
        | inl e ↦ inr (rw e)
        | inr e ↦ inl (rw e)
      ]

  -- The settings before the last checks, from the four sections.
  abbrev sections : (g m f c : lib.Json) → Config
  sections g m f c =
      read_filter lib c (read_format lib f (read_mysql lib m (read_general lib g default_config)))

  validate-cases :
      (g m f c : lib.Json)
      → (validate (sections g m f c) ≡ default_config) ⊎ IsUsable (validate (sections g m f c))
  unfolding validate read_filter read_format
  validate-cases g m f c = elim (Bool-cases (is_origin (sections g m f c).server_origin)) [
    | inr e ↦ inl (rw e)
    | inl e ↦ elim (Bool-cases (has_mysql (sections g m f c))) [
      | inr k ↦ inl (rw (e, k))
      | inl k ↦ inr (
          rw (e, k)
            (clamp-IsUsable (sections g m f c) e k
              (category-read_format f (read_mysql lib m (read_general lib g default_config)))
              (read_filter_patterns-valid c)))
    ]
  ]

  read_root-cases :
      (root : lib.Json) {cfg : Config}
      → read_root lib root ≡ some cfg
      → (cfg ≡ default_config) ⊎ IsUsable cfg
  unfolding read_root
  read_root-cases root {cfg} h =
      go (lib.value root (codes "General") lib.empty_object)
        (lib.value root (codes "MySQL") lib.empty_object)
        (lib.value root (codes "Format") lib.empty_object)
        (lib.value root
          (if lib.contains_key root (codes "ChatFilter")
            then codes "ChatFilter"
            else codes "WordBlacklist")
          lib.empty_object)
        h
    where
      go :
          (g m f c : Option lib.Json)
          → ◌≡◌ {A = Option Config}
              (do g' ← g; m' ← m; f' ← f; c' ← c; some (validate (sections g' m' f' c')))
              (some cfg)
          → (cfg ≡ default_config) ⊎ IsUsable cfg
      go none m f c e = cc
      go (some g) none f c e = cc
      go (some g) (some m) none c e = cc
      go (some g) (some m) (some f) none e = cc
      go (some g) (some m) (some f) (some c) e =
          subst (λ x. (x ≡ default_config) ⊎ IsUsable x) (some-injective _ _ e)
            (validate-cases g m f c)

  pub load_config-IsUsable :
      (file : ConfigFile lib) {cfg : Config}
      → load_config lib file ≡ some cfg
      → (cfg ≡ default_config) ⊎ IsUsable cfg
  unfolding load_config
  load_config-IsUsable (parsed root) h = read_root-cases root h
  load_config-IsUsable no_root h = inl (sym (some-injective _ _ h))
  load_config-IsUsable missing h = inl (sym (some-injective _ _ h))
  load_config-IsUsable unopened h = inl (sym (some-injective _ _ h))
  load_config-IsUsable unparsed h = inl (sym (some-injective _ _ h))

  -- The library's `value` throws exactly on a value that is no object. Then `LoadConfig` returns for
  -- a parsed file exactly when its root is an object, and lets the exception out otherwise.
  pub load_config-throws :
      ((j : lib.Json) (key : Bytes) → is_some (lib.value j key lib.empty_object) ≡ lib.is_object j)
      → (root : lib.Json) → is_some (load_config lib (parsed root)) ≡ lib.is_object root
  unfolding load_config read_root
  load_config-throws documented root =
      go (lib.value root (codes "General") lib.empty_object)
        (lib.value root (codes "MySQL") lib.empty_object)
        (lib.value root (codes "Format") lib.empty_object) (lib.value root last lib.empty_object)
        (lib.is_object root) (documented root (codes "General")) (documented root (codes "MySQL"))
        (documented root (codes "Format")) (documented root last)
    where
      last : Bytes
      last =
          if lib.contains_key root (codes "ChatFilter")
          then codes "ChatFilter"
          else codes "WordBlacklist"

      go :
          (g m f c : Option lib.Json) (b : Bool)
          → is_some g ≡ b
          → is_some m ≡ b
          → is_some f ≡ b
          → is_some c ≡ b
          → is_some {A = Config}
              (do g' ← g; m' ← m; f' ← f; c' ← c; some (validate (sections g' m' f' c')))
            ≡ b
      go none m f c b hg hm hf hc = hg
      go (some g) none f c b hg hm hf hc = hm
      go (some g) (some m) none c b hg hm hf hc = hf
      go (some g) (some m) (some f) none b hg hm hf hc = hc
      go (some g) (some m) (some f) (some c) b hg hm hf hc = hg
