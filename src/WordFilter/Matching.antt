-- ===== src/WordFilter/Matching.antt =====
-- Which pattern a message hits, and which patterns there are.
use palworld_pal_crosschat.Base.{
  ◌≡◌, refl, ◌≢◌, ◌⊎◌, inl, inr, Bool, true, false, not, ◌&&◌, none, some, List, [], ◌∷◌, map,
  arith, Bool-cases, Option-cases, is_some, All, is_empty, filter_by, Bytes, pos, ◌≤ℤ◌, at_least-le,
}
use palworld_pal_crosschat.Config.Types.{FilterPatternConfig, Config}
use palworld_pal_crosschat.WordFilter.{
  RegexLib, FilterHit, CompiledPattern, WordFilter, compile_patterns, new_filter, hits,
}

module _ (lib : RegexLib) where
  abbrev pub hit_of : CompiledPattern lib → FilterHit
  hit_of p = record {
    pattern_source = p.source;
    mute_minutes = p.mute_minutes;
    mute_message = p.mute_message;
  }

  -- `p` is the first pattern of the list that the text hits.
  pub data FirstHit (text : Bytes) (p : CompiledPattern lib)
      : List (CompiledPattern lib) → Type 0 where
    here : {ps : List (CompiledPattern lib)} → hits lib text p.re ≡ true → FirstHit text p (p ∷ ps)
    later :
        {q : CompiledPattern lib} {ps : List (CompiledPattern lib)}
        → hits lib text q.re ≡ false
        → FirstHit text p ps
        → FirstHit text p (q ∷ ps)

  abbrev pub NoHit : Bytes → List (CompiledPattern lib) → Type 0
  NoHit text = All (λ q. hits lib text q.re ≡ false)

  -- A pattern of the filter is a valid expression, and its minutes are not negative.
  abbrev pub IsCompiled : CompiledPattern lib → Type 0
  IsCompiled p = (lib.compile p.source ≡ some p.re) × (p.source ≢ []) × (pos 0 ≤ℤ p.mute_minutes)

  compile_patterns-All :
      (entries : List FilterPatternConfig) → All IsCompiled (compile_patterns lib entries)
  unfolding compile_patterns
  compile_patterns-All [] = tt
  compile_patterns-All (entry ∷ entries) =
      go (Bool-cases (is_empty entry.pattern)) (Option-cases (lib.compile entry.pattern))
        (compile_patterns-All entries)
    where
      not_nil : (t : Bytes) → is_empty t ≡ false → t ≢ []
      not_nil [] e = λ _. cc
      not_nil (c ∷ t) e = λ x. cc

      go :
          (is_empty entry.pattern ≡ true) ⊎ (is_empty entry.pattern ≡ false)
          → (lib.compile entry.pattern ≡ none)
            ⊎ ((re : lib.Regex) × (lib.compile entry.pattern ≡ some re))
          → All IsCompiled (compile_patterns lib entries)
          → All IsCompiled (compile_patterns lib (entry ∷ entries))
      go (inl e) _ ih = rw e ih
      go (inr e) (inl f) ih = rw (e, f) ih
      go (inr e) (inr (re, f)) ih =
          rw (e, f) ((f, not_nil entry.pattern e, at_least-le (pos 0) entry.mute_minutes), ih)

  abbrev pub is_pattern : Bytes → Bool
  is_pattern s = not (is_empty s) && is_some (lib.compile s)

  sources-compile_patterns :
      (entries : List FilterPatternConfig)
      → map (λ p. p.source) (compile_patterns lib entries)
        ≡ filter_by is_pattern (map (λ e. e.pattern) entries)
  unfolding compile_patterns
  sources-compile_patterns [] = refl
  sources-compile_patterns (entry ∷ entries) = ground (arith, sources-compile_patterns entries)

  -- The constructor keeps exactly the patterns that are not empty and that std::regex accepts, in the
  -- order of the settings; each has the expression compiled from its source, and no negative minutes.
  new_filter-patterns :
      (config : Config)
      → All IsCompiled (new_filter lib config).patterns
        × (map (λ p. p.source) (new_filter lib config).patterns
            ≡ filter_by is_pattern (map (λ e. e.pattern) config.filter_patterns))
  unfolding new_filter
  new_filter-patterns config =
      (compile_patterns-All config.filter_patterns, sources-compile_patterns config.filter_patterns)
