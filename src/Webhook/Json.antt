-- ===== src/Webhook/Json.antt =====
-- `EscapeJsonString` against a reader of JSON strings.
use palworld_pal_crosschat.Base.{
  ℕ, ◌≡◌, refl, sym, ◌∙◌, subst, inl, inr, Bool, true, false, not, ◌&&◌, ◌||◌, Option, none, some,
  [], ◌∷◌, ◌++◌, ltb, ◌==◌, if◌then◌else◌, ==_iff, Bool-cases, Bytes,
}
use mathlib.Core.List.{append_assoc}
use palworld_pal_crosschat.Webhook.{escape_byte, escape_json_string}

-- The byte that the letter behind a backslash stands for, and none where JSON has no such escape. An
-- escape with `u`, which the escaped texts do not contain, is not read.
abbrev pub unescaped : ℕ → Option ℕ
unescaped c =
    if c == b'"' || c == b'\\' || c == b'/'
    then some c
    else if c == b'n'
    then some b'\n'
    else if c == b'r'
    then some b'\r'
    else if c == b't'
    then some b'\t'
    else if c == b'b'
    then some 8
    else if c == b'f'
    then some 12
    else none

-- A text that was read, behind one more byte of it.
abbrev pub with_byte : ℕ → Option (Bytes × Bytes) → Option (Bytes × Bytes)
with_byte c none = none
with_byte c (some (text, behind)) = some (c ∷ text, behind)

-- A reader of the body of a JSON string, up to its closing quote: the text, and what is behind the
-- quote. The flag says that a backslash was read. As JSON has it, a byte below 32 may not stand in the
-- string as it is. Bytes from 128 on are taken as they are: whether they are UTF-8 is not tested.
unfoldable pub read_string : Bool → Bytes → Option (Bytes × Bytes)
read_string escaped [] = none
read_string true (c ∷ s) =
    let rest = read_string false s in elim (unescaped c) [ none ↦ none | some b ↦ with_byte b rest ]
read_string false (c ∷ s) =
    let rest = read_string false s in
    let after = read_string true s in
    if c == b'"'
    then some ([], s)
    else if c == b'\\'
    then after
    else if ltb c 32
    then none
    else with_byte c rest

-- The bytes that `EscapeJsonString` turns into legal JSON: those from 32 on, and the three control bytes
-- that it escapes.
abbrev pub is_legal : ℕ → Bool
is_legal c = not (ltb c 32) || c == b'\n' || c == b'\r' || c == b'\t'

abbrev pub all_legal : Bytes → Bool
all_legal [] = true
all_legal (c ∷ s) = is_legal c && all_legal s

read_escape_byte :
    (c : ℕ) (s : Bytes)
    → read_string false (escape_byte c ++ s)
      ≡ (if is_legal c then with_byte c (read_string false s) else none)
unfolding read_string
read_escape_byte c s = special 92 refl (λ a. special 34 refl (λ b. special 10 refl (λ d.
    special 13 refl (λ e. special 9 refl (λ f. rw (a, b, d, e, f, b, a) (plain (ltb c 32)))))))
  where
    Reads : ℕ → Type 0
    Reads d =
        read_string false (escape_byte d ++ s)
        ≡ (if is_legal d then with_byte d (read_string false s) else none)

    special : (k : ℕ) → Reads k → (c == k ≡ false → Reads c) → Reads c
    special k met unmet = elim (Bool-cases (c == k)) [
      | inl e ↦ subst Reads (sym ((==_iff c k).0 e)) met
      | inr e ↦ unmet e
    ]

    plain :
        (low : Bool)
        → (if low then none else with_byte c (read_string false s))
          ≡ (if not low || false || false || false then with_byte c (read_string false s) else none)
    plain true = refl
    plain false = refl

-- A reader of JSON strings, which refuses raw bytes below 32 and escapes that JSON does not have, reads
-- back from the escaped text, its closing quote and any bytes behind it exactly the text that was escaped,
-- and stops at that quote, where every byte below 32 of the text is a newline, a carriage return or a
-- tab; a text with another byte below 32 is refused.
pub read_string-escape_json_string :
    (input behind : Bytes)
    → read_string false (escape_json_string input ++ b'"' ∷ behind)
      ≡ (if all_legal input then some (input, behind) else none)
unfolding escape_json_string
read_string-escape_json_string [] behind = unfold read_string in refl
read_string-escape_json_string (c ∷ input) behind =
    let tail = escape_json_string input ++ b'"' ∷ behind in
    rw (append_assoc (escape_byte c) (escape_json_string input) (b'"' ∷ behind)) (
      read_escape_byte c tail
      ∙ rw (read_string-escape_json_string input behind) (joined (is_legal c) (all_legal input)))
  where
    joined :
        (first rest : Bool)
        → (if first then with_byte c (if rest then some (input, behind) else none) else none)
          ≡ (if first && rest then some (c ∷ input, behind) else none)
    joined true true = refl
    joined true false = refl
    joined false true = refl
    joined false false = refl
