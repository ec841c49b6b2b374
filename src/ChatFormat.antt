-- ===== src/ChatFormat.antt =====
-- src/ChatFormat.cpp: the sender and the message field of a chat line, from the format's placeholders.
pub mod Fields
pub mod Spaces
use palworld_pal_crosschat.Base.{
  ℕ, ◌+◌, ◌-◌, ◌/◌, Bool, false, not, ◌&&◌, ◌||◌, none, some, [], ◌∷◌, ◌++◌, reverse, ◌==◌,
  if◌then◌else◌, length, is_empty, take, drop, Bytes, codes, starts_with, trim_by,
}
use palworld_pal_crosschat.Replace.{find_at, replace_all}

abbrev pub is_blank_byte : ℕ → Bool
is_blank_byte c = c == b' ' || c == b'\t'

-- The loop of `CollapseSpaces`, with its flag `prev_space`.
unfoldable pub collapse : Bool → Bytes → Bytes
collapse prev_space [] = []
collapse prev_space (c ∷ text) =
    let rest = collapse (is_blank_byte c) text in
    if is_blank_byte c then (if prev_space then rest else b' ' ∷ rest) else c ∷ rest

unfoldable pub collapse_spaces : Bytes → Bytes
collapse_spaces text = trim_by (λ c. c == b' ') (collapse false text)

unfoldable pub cleanup_empty_guild_brackets : Bytes → Bytes
cleanup_empty_guild_brackets text =
    let a = replace_all text (codes " []") (codes " ") in
    let b = replace_all a (codes "[] ") (codes " ") in
    let c = replace_all b (codes "[]") [] in
    let d = replace_all c (codes "[ ]") [] in collapse_spaces d

abbrev pub unknown : Bytes
unknown = codes "Unknown"

unfoldable pub or_unknown : Bytes → Bytes
or_unknown name = if is_empty name then unknown else name

abbrev pub message_placeholder : Bytes
message_placeholder = codes "{message}"

abbrev pub ends_with : Bytes → Bytes → Bool
ends_with suffix s = starts_with (reverse suffix) (reverse s)

-- `resize(size() - n)`
abbrev pub drop_last : ℕ → Bytes → Bytes
drop_last n s = take (length s - n) s

-- `!empty() && front() == c`
abbrev pub front_is : ℕ → Bytes → Bool
front_is c [] = false
front_is c (d ∷ _) = d == c

abbrev pub padded : Bytes → Bytes
padded [] = []
padded (c ∷ s) = if c == b' ' then c ∷ s else b' ' ∷ (c ∷ s)

-- The part of the format in front of the placeholder, with the colon moved: the fields before the
-- other placeholders are filled in.
unfoldable pub split_format : Bytes → Bytes → Bytes × Bytes
split_format before message =
    if ends_with (codes ": ") before
    then (drop_last 2 before, padded message)
    else if ends_with (codes ":") before
    then (drop_last 1 before, message)
    else (before, message)

abbrev pub format_parts : Bytes → Bytes → Bytes × Bytes
format_parts format message = elim (find_at message_placeholder format) [
  | none ↦ (format, message)
  | some i ↦ split_format (take i format) message
]

unfoldable pub named : Bytes → Bytes → Bytes
unfolding or_unknown
named player sender = if is_empty sender then or_unknown player else sender

-- The sender field: placeholders, empty brackets, one leading '[', and a name where nothing is left.
unfoldable pub fill_sender : Bytes → Bytes → Bytes → Bytes → Bytes
fill_sender part prefix guild player =
    let a = replace_all part (codes "{prefix}") prefix in
    let b = replace_all a (codes "{guild}") guild in
    let c = replace_all b (codes "{player}") player in
    let d = cleanup_empty_guild_brackets c in
    let e = if front_is b'[' d then drop 1 d else d in named player e

-- The sender without a format: the prefix, a space between, and the player.
unfoldable pub plain_sender : Bytes → Bytes → Bytes
plain_sender prefix player =
    let head =
      if not (is_empty prefix)
      then (if not (is_empty player) then prefix ++ codes " " else prefix)
      else [] in
    or_unknown (head ++ player)

unfoldable pub apply_chat_format : Bytes → Bytes → Bytes → Bytes → Bytes → Bytes × Bytes
apply_chat_format format prefix guild player message =
    if is_empty format
    then (plain_sender prefix player, message)
    else (let (part, msg_part) = format_parts format message in
        (fill_sender part prefix guild player, if is_empty msg_part then message else msg_part))

unfoldable pub apply_chat_format_attributed : Bytes → Bytes → Bytes → Bytes → Bytes → Bytes × Bytes
apply_chat_format_attributed format prefix guild player message = (or_unknown player, message)
