-- ===== src/Replace.antt =====
-- The loop that replaces every occurrence of a text: `ReplaceAll` of src/ChatFormat.cpp, and
-- `ReplacePlaceholder` of src/ChatCapture.cpp, which runs the same loop on the token `{key}`.
pub mod OnePass
use palworld_pal_crosschat.Base.{
  ℕ, zero, suc, ◌+◌, ◌-◌, ◌/◌, Option, none, some, [], ◌∷◌, ◌++◌, if◌then◌else◌, length, is_empty,
  take, drop, Bytes, starts_with,
}

-- `text.find(pattern)`: the first index at which the pattern stands.
unfoldable pub find_at : Bytes → Bytes → Option ℕ
find_at pattern [] = if is_empty pattern then some 0 else none
find_at pattern (c ∷ text) =
    let later : Option ℕ = elim (find_at pattern text) [ none ↦ none | some k ↦ some (suc k) ] in
    if starts_with pattern (c ∷ text) then some 0 else later

-- The loop, on fuel: `at` is where the search goes on. The fuel of the callers is enough, since each
-- round consumes at least one byte behind `at`; a loop out of fuel would be `none`.
unfoldable pub replace_loop : ℕ → Bytes → Bytes → Bytes → ℕ → Option Bytes
unfolding find_at
replace_loop zero from to text at = none
replace_loop (suc fuel) from to text at = elim (find_at from (drop at text)) [
  | none ↦ some text
  | some k ↦
      replace_loop fuel from to (take (at + k) text ++ (to ++ drop (at + k + length from) text))
        (at + k + length to)
]

abbrev pub text_or : Bytes → Option Bytes → Bytes
text_or text none = text
text_or text (some s) = s

unfoldable pub replace_all : Bytes → Bytes → Bytes → Bytes
unfolding replace_loop
replace_all text from to =
    if is_empty from then text else text_or text (replace_loop (suc (length text)) from to text 0)

-- The token is the key in braces.
unfoldable pub replace_placeholder : Bytes → Bytes → Bytes → Bytes
unfolding replace_loop
replace_placeholder text key value =
    let token = b'{' ∷ (key ++ b'}' ∷ []) in
    text_or text (replace_loop (suc (length text)) token value text 0)
