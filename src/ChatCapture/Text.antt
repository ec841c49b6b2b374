-- ===== src/ChatCapture/Text.antt =====
-- The texts of src/ChatCapture.cpp: the !setdiscord command, the parts of a platform id, durations,
-- and what is cut for a log.
use palworld_pal_crosschat.Base.{
  ℕ, zero, suc, ◌+◌, ◌/◌, ◌%◌, Bool, true, false, not, ◌&&◌, ◌||◌, Option, none, some, [], ◌∷◌,
  ◌++◌, ltb, leb, ◌==◌, if◌then◌else◌, length, is_empty, take, drop, drop_while, Bytes, codes,
  is_space, to_lower, ℤ, pos_part,
}

abbrev pub setdiscord_command : Bytes
setdiscord_command = codes "!setdiscord"

-- The loop that compares the start of the message with the command, ignoring case.
unfoldable pub matches_command : Bytes → Bytes → Bool
matches_command [] message = true
matches_command (k ∷ command) [] = false
matches_command (k ∷ command) (c ∷ message) =
    let rest = matches_command command message in if not (to_lower c == k) then false else rest

-- The bytes up to the first whitespace.
unfoldable pub take_word : Bytes → Bytes
take_word [] = []
take_word (c ∷ s) = let rest = take_word s in if is_space c then [] else c ∷ rest

unfoldable pub try_parse_set_discord : Bytes → Option Bytes
unfolding matches_command take_word
try_parse_set_discord message =
    if not (matches_command setdiscord_command message)
    then none
    else (let word = drop_while is_space (drop (length setdiscord_command) message) in
        if is_empty word then none else some (take_word word))

-- `find('_')`, as the bytes before the first underscore and those behind it.
unfoldable pub split_underscore : Bytes → Option (Bytes × Bytes)
split_underscore [] = none
split_underscore (c ∷ s) =
    let later : Option (Bytes × Bytes) = elim (split_underscore s) [
      | none ↦ none
      | some (a, b) ↦ some (c ∷ a, b)
    ] in
    if c == b'_' then some ([], s) else later

unfoldable pub split_platform_user_id : Bytes → Option (Bytes × Bytes)
unfolding split_underscore
split_platform_user_id platform_user_id = elim (split_underscore platform_user_id) [
  | none ↦ none
  | some (platform, user_id) ↦
      if is_empty platform || is_empty user_id then none else some (platform, user_id)
]

-- `std::to_string` of a number that is not negative, on fuel: one digit a round, and a number has
-- fewer digits than the fuel of the caller.
unfoldable pub digits_of : ℕ → ℕ → Bytes
digits_of zero n = []
digits_of (suc fuel) n =
    let rest = digits_of fuel (n / 10) in
    if ltb n 10 then (b'0' + n) ∷ [] else rest ++ (b'0' + n % 10) ∷ []

unfoldable pub to_string : ℕ → Bytes
unfolding digits_of
to_string n = digits_of (suc n) n

unfoldable pub format_duration : ℤ → Bytes
unfolding to_string
format_duration total_seconds =
    let total = pos_part total_seconds in
    let minutes = total / 60 in
    let seconds = total % 60 in
    if minutes == 0
    then to_string seconds ++ codes "s"
    else if seconds == 0
    then to_string minutes ++ codes "m"
    else to_string minutes ++ (codes "m " ++ (to_string seconds ++ codes "s"))

unfoldable pub build_notice_banner : Bytes → Bytes → Bool → Bytes
build_notice_banner notification_line mute_message include_mute_message =
    if include_mute_message && not (is_empty mute_message)
    then notification_line ++ b'\n' ∷ mute_message
    else notification_line

unfoldable pub truncate_for_log : Bytes → ℕ → Bytes
truncate_for_log input max_chars =
    if leb (length input) max_chars then input else take max_chars input ++ codes "..."
