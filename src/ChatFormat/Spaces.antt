-- ===== src/ChatFormat/Spaces.antt =====
-- What `CollapseSpaces` returns.
use mathlib.Core.List.{append-nil}
use mathlib.Core.Path.{ap₂}
use palworld_pal_crosschat.Base.{
  ℕ, ◌≡◌, refl, sym, ap, ◌∙◌, subst, inl, inr, Bool, true, false, not, ◌&&◌, [], ◌∷◌, ◌++◌, reverse,
  arith, ◌==◌, if◌then◌else◌, Bool-cases, All, filter_by, Bytes, trim_by, HeadNot, Trims,
  trim_by-Trims,
}
use palworld_pal_crosschat.ChatFormat.{is_blank_byte, collapse, collapse_spaces}

-- No tab, and no space behind a space; the flag says whether a space stands before the text.
abbrev pub IsSpaced : Bool → Bytes → Type 0
IsSpaced prev [] = Unit
IsSpaced prev (c ∷ s) =
    ((c == b'\t') ≡ false) × ((prev && c == b' ') ≡ false) × IsSpaced (c == b' ') s

collapse-IsSpaced : (prev : Bool) (text : Bytes) → IsSpaced prev (collapse prev text)
unfolding collapse
collapse-IsSpaced prev [] = tt
collapse-IsSpaced prev (c ∷ text) = elim (Bool-cases (is_blank_byte c)) [
  | inl e ↦ rw e (blank prev (rw e at (collapse-IsSpaced (is_blank_byte c) text)))
  | inr e ↦
      let other : (c == b' ') ≡ false = ground arith in
      rw (e, other) (ground arith, ground arith, rw e at (collapse-IsSpaced (is_blank_byte c) text))
]
  where
    blank :
        (before : Bool)
        → IsSpaced true (collapse true text)
        → IsSpaced before (if before then collapse true text else b' ' ∷ collapse true text)
    blank true h = h
    blank false h = (refl, refl, h)

IsSpaced-weaken : (prev : Bool) (s : Bytes) → IsSpaced prev s → IsSpaced false s
IsSpaced-weaken prev [] h = tt
IsSpaced-weaken prev (c ∷ s) h = (h.0, refl, h.2)

IsSpaced-right : (prev : Bool) (a b : Bytes) → IsSpaced prev (a ++ b) → IsSpaced false b
IsSpaced-right prev [] b h = IsSpaced-weaken prev b h
IsSpaced-right prev (c ∷ a) b h = IsSpaced-right (c == b' ') a b h.2

IsSpaced-left : (prev : Bool) (a b : Bytes) → IsSpaced prev (a ++ b) → IsSpaced prev a
IsSpaced-left prev [] b h = tt
IsSpaced-left prev (c ∷ a) b h = (h.0, h.1, IsSpaced-left (c == b' ') a b h.2)

abbrev pub not_blank : ℕ → Bool
not_blank c = not (is_blank_byte c)

filter_by-collapse :
    (prev : Bool) (text : Bytes)
    → filter_by not_blank (collapse prev text) ≡ filter_by not_blank text
unfolding collapse
filter_by-collapse prev [] = refl
filter_by-collapse prev (c ∷ text) = ground (arith, filter_by-collapse (is_blank_byte c) text)

filter_by-append :
    (p : ℕ → Bool) (a b : Bytes) → filter_by p (a ++ b) ≡ filter_by p a ++ filter_by p b
filter_by-append p [] b = refl
filter_by-append p (c ∷ a) b = ground (arith, filter_by-append p a b)

filter_by-spaces : (s : Bytes) → All (λ c. (c == b' ') ≡ true) s → filter_by not_blank s ≡ []
filter_by-spaces [] h = refl
filter_by-spaces (c ∷ s) h = ground (arith, filter_by-spaces s h.1)

trimmed_keeps :
    (s r : Bytes) → Trims (λ c. c == b' ') s r → filter_by not_blank r ≡ filter_by not_blank s
trimmed_keeps s r t = sym (
    ap (filter_by not_blank) t.splits
    ∙ filter_by-append not_blank t.before (r ++ t.after)
    ∙ ap₂ ◌++◌ (filter_by-spaces t.before t.before_is) (
        filter_by-append not_blank r t.after
        ∙ ap (◌++◌ (filter_by not_blank r)) (filter_by-spaces t.after t.after_is)
        ∙ append-nil (filter_by not_blank r)))

-- `CollapseSpaces` leaves no tab, no two spaces in a row and no space at either end, and it keeps
-- every other byte, in order.
collapse_spaces_lem :
    (text : Bytes)
    → IsSpaced false (collapse_spaces text)
      × HeadNot (λ c. c == b' ') (collapse_spaces text)
      × HeadNot (λ c. c == b' ') (reverse (collapse_spaces text))
      × (filter_by not_blank (collapse_spaces text) ≡ filter_by not_blank text)
unfolding collapse_spaces
collapse_spaces_lem text =
    let t = trim_by-Trims (λ c. c == b' ') (collapse false text) in
    let r = trim_by (λ c. c == b' ') (collapse false text) in
    (
      IsSpaced-left false r t.after (
          IsSpaced-right false t.before (r ++ t.after)
            (subst (IsSpaced false) t.splits (collapse-IsSpaced false text))),
      t.first_is,
      t.last_is,
      trimmed_keeps (collapse false text) r t ∙ filter_by-collapse false text,
    )
