-- ===== src/Guid/RoundTrip.antt =====
-- `TryParseGuid` reads back what `FormatGuid` writes.
use mathlib.Core.List.{append_assoc, append-nil}
use native.Mathlib.Nat.{pow-suc}
use palworld_pal_crosschat.Guid.{
  Guid, guid_eq, is_nil, u32_mod, hex_digit, hex, high_half, low_half, format_guid, is_separator,
  hex_value, parse_digits, try_parse_guid,
}
use palworld_pal_crosschat.Base.{
  ℕ, zero, suc, ◌+◌, ◌*◌, ◌/◌, ◌%◌, ◌^◌, ◌≤◌, ◌<◌, ◌≡◌, refl, sym, ap, ◌∙◌, ◌↔◌, true, false,
  Option, none, some, List, [], ◌∷◌, ◌++◌, arith, leb, if◌then◌else◌, length, get_or, set, Bytes,
}

hex_value-hex_digit :
    (v : ℕ) → v < 16 → (is_separator (hex_digit v) ≡ false) × (hex_value (hex_digit v) ≡ some v)
unfolding hex_value
hex_value-hex_digit v h = ground arith

-- One digit of a word that still has room for it.
parse_digits-digit :
    (v : ℕ) (rest : Bytes) (words : List ℕ) (digits i x : ℕ)
    → v < 16
    → digits < 32
    → digits / 8 ≡ i
    → get_or words i 0 ≡ x
    → x * 16 < u32_mod
    → parse_digits (hex_digit v ∷ rest) words digits
      ≡ parse_digits rest (set words i (x * 16 + v)) (digits + 1)
unfolding parse_digits
parse_digits-digit v rest words digits i x hv hd hi hx room =
    let facts = hex_value-hex_digit v hv in
    let full : leb 32 digits ≡ false = ground arith in
    let fits : x * 16 % u32_mod ≡ x * 16 = omega arith in
    rw (facts.0, facts.1, full, hi, hx, fits) refl

set-set : (l : List ℕ) (i v w : ℕ) → set (set l i v) i w ≡ set l i w
set-set [] i v w = refl
set-set (x ∷ l) zero v w = refl
set-set (x ∷ l) (suc i) v w = ap (◌∷◌ x) (set-set l i v w)

get_or-set : (l : List ℕ) (i v : ℕ) → i < length l → get_or (set l i v) i 0 ≡ v
get_or-set [] i v h = elim h [ ]
get_or-set (x ∷ l) zero v h = refl
get_or-set (x ∷ l) (suc i) v h = get_or-set l i v (omega arith)

set-get_or : (l : List ℕ) (i : ℕ) → set l i (get_or l i 0) ≡ l
set-get_or [] i = refl
set-get_or (x ∷ l) zero = refl
set-get_or (x ∷ l) (suc i) = ap (◌∷◌ x) (set-get_or l i)

-- A run of `w` digits goes into word `i`, which has room for them.
parse_digits-hex :
    (w n : ℕ) (rest : Bytes) (words : List ℕ) (digits i x : ℕ)
    → n < 16 ^ w
    → i < length words
    → i < 4
    → 8 * i ≤ digits
    → digits + w ≤ 8 * i + 8
    → get_or words i 0 ≡ x
    → x * 16 ^ w + n < u32_mod
    → parse_digits (hex w n ++ rest) words digits
      ≡ parse_digits rest (set words i (x * 16 ^ w + n)) (digits + w)
unfolding hex
parse_digits-hex zero n rest words digits i x hn hl h4 lo hi hx room =
    let e : x * 16 ^ 0 + n ≡ get_or words i 0 = omega (arith, hx) in
    rw (e, set-get_or words i) (ap (parse_digits rest words) (omega arith))
parse_digits-hex (suc w) n rest words digits i x hn hl h4 lo hi hx room =
    let p = pow-suc 16 w in
    let y : ℕ = x * 16 ^ w + n / 16 in
    let whole : x * 16 ^ suc w + n ≡ y * 16 + n % 16 = omega (arith, ap (λ (t : ℕ). x * t) p) in
    rw (append_assoc (hex w (n / 16)) (hex_digit (n % 16) ∷ []) rest, whole)
      (parse_digits-hex w (n / 16) (hex_digit (n % 16) ∷ rest) words digits i x (omega (arith, p))
          hl h4 lo (omega arith) hx (omega (arith, whole))
        ∙ parse_digits-digit (n % 16) rest (set words i y) (digits + w) i y (omega arith)
            (omega arith) (omega arith) (get_or-set words i y hl) (omega (arith, whole))
        ∙ rw (set-set words i y (y * 16 + n % 16))
            (ap (parse_digits rest (set words i (y * 16 + n % 16))) (omega arith)))

pub record IsGuid (g : Guid) : Type 0 where
  pub a_fits : g.a < u32_mod
  pub b_fits : g.b < u32_mod
  pub c_fits : g.c < u32_mod
  pub d_fits : g.d < u32_mod

-- The same with the word's value given: the first digits of a word, which is still 0.
parse_digits-first :
    (w n : ℕ) (rest : Bytes) (words : List ℕ) (digits i : ℕ)
    → n < 16 ^ w
    → i < length words
    → i < 4
    → 8 * i ≤ digits
    → digits + w ≤ 8 * i + 8
    → get_or words i 0 ≡ 0
    → n < u32_mod
    → parse_digits (hex w n ++ rest) words digits ≡ parse_digits rest (set words i n) (digits + w)
parse_digits-first w n rest words digits i hn hl h4 lo hi hx room =
    parse_digits-hex w n rest words digits i 0 hn hl h4 lo hi hx (omega arith)
    ∙ ap (λ v. parse_digits rest (set words i v) (digits + w)) (omega arith)

parse_digits-dash :
    (rest : Bytes) (words : List ℕ) (digits : ℕ)
    → parse_digits (b'-' ∷ rest) words digits ≡ parse_digits rest words digits
unfolding parse_digits
parse_digits-dash rest words digits = refl

-- Both halves of a word, with a separator between them.
parse_digits-halves :
    (x : ℕ) (rest : Bytes) (words : List ℕ) (digits i : ℕ)
    → x < u32_mod
    → i < length words
    → i < 4
    → 8 * i ≡ digits
    → get_or words i 0 ≡ 0
    → parse_digits (hex 4 (high_half x) ++ (b'-' ∷ (hex 4 (low_half x) ++ rest))) words digits
      ≡ parse_digits rest (set words i x) (digits + 8)
parse_digits-halves x rest words digits i hx hl h4 lo zeroed =
    let hi = high_half x in
    let whole : hi * 16 ^ 4 + low_half x ≡ x = omega arith in
    parse_digits-first 4 hi _ words digits i (omega arith) hl h4 (omega arith) (omega arith) zeroed
      (omega arith)
    ∙ parse_digits-dash _ (set words i hi) (digits + 4)
    ∙ parse_digits-hex 4 (low_half x) rest (set words i hi) (digits + 4) i hi (omega arith)
        (rw (length-set words i hi) hl) h4 (omega arith) (omega arith) (get_or-set words i hi hl)
        (omega (arith, whole))
    ∙ rw (whole, set-set words i hi x) (ap (parse_digits rest (set words i x)) (omega arith))
  where
    length-set : (l : List ℕ) (j v : ℕ) → length (set l j v) ≡ length l
    length-set [] j v = refl
    length-set (y ∷ l) zero v = refl
    length-set (y ∷ l) (suc j) v = ap suc (length-set l j v)

parse_digits-format_guid :
    (g : Guid)
    → IsGuid g
    → parse_digits (format_guid g) (0 ∷ 0 ∷ 0 ∷ 0 ∷ []) 0 ≡ some (g.a ∷ g.b ∷ g.c ∷ g.d ∷ [], 32)
unfolding format_guid
parse_digits-format_guid g v =
    parse_digits-first 8 g.a _ (0 ∷ 0 ∷ 0 ∷ 0 ∷ []) 0 0 (omega (arith, v.a_fits)) (omega arith)
      (omega arith) (omega arith) (omega arith) refl v.a_fits
    ∙ parse_digits-dash _ (g.a ∷ 0 ∷ 0 ∷ 0 ∷ []) 8
    ∙ parse_digits-halves g.b _ (g.a ∷ 0 ∷ 0 ∷ 0 ∷ []) 8 1 v.b_fits (omega arith) (omega arith) refl
        refl
    ∙ parse_digits-dash _ (g.a ∷ g.b ∷ 0 ∷ 0 ∷ []) 16
    ∙ parse_digits-halves g.c (hex 8 g.d) (g.a ∷ g.b ∷ 0 ∷ 0 ∷ []) 16 2 v.c_fits (omega arith)
        (omega arith) refl refl
    ∙ ap (λ s. parse_digits s (g.a ∷ g.b ∷ g.c ∷ 0 ∷ []) 24) (sym (append-nil (hex 8 g.d)))
    ∙ parse_digits-first 8 g.d [] (g.a ∷ g.b ∷ g.c ∷ 0 ∷ []) 24 3 (omega (arith, v.d_fits))
        (omega arith) (omega arith) (omega arith) (omega arith) refl v.d_fits
    ∙ unfold parse_digits in refl

-- `TryParseGuid` reads back every id that `FormatGuid` writes, but refuses the nil id.
pub try_parse_guid-format_guid :
    (g : Guid) → IsGuid g → try_parse_guid (format_guid g) ≡ (if is_nil g then none else some g)
unfolding try_parse_guid
try_parse_guid-format_guid g v = rw (parse_digits-format_guid g v) refl

pub guid_eq_iff : (g h : Guid) → (guid_eq g h ≡ true) ↔ (g ≡ h)
unfolding guid_eq
guid_eq_iff g h = ground arith

-- The text is a key: two ids with the same text are the same id.
pub format_guid-injective :
    (g h : Guid) → IsGuid g → IsGuid h → format_guid g ≡ format_guid h → g ≡ h
format_guid-injective g h v w e = same (
    sym (parse_digits-format_guid g v)
    ∙ ap (λ s. parse_digits s (0 ∷ 0 ∷ 0 ∷ 0 ∷ []) 0) e
    ∙ parse_digits-format_guid h w)
  where
    same :
        ◌≡◌ {A = Option (List ℕ × ℕ)}
          (some (g.a ∷ g.b ∷ g.c ∷ g.d ∷ [], 32))
          (some (h.a ∷ h.b ∷ h.c ∷ h.d ∷ [], 32))
        → g ≡ h
    same p = ground arith
