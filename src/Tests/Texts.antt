-- ===== src/Tests/Texts.antt =====
-- Texts: cleaning, ids, formats and replacements.
use palworld_pal_crosschat.Base.{
  suc, ◌≤◌, ◌≡◌, refl, true, false, none, some, List, [], ◌∷◌, ◌++◌, arith, if◌then◌else◌, All,
  length, is_empty, Bytes, codes, is_space, HeadNot,
}
use palworld_pal_crosschat.Sanitize.{is_continuation, is_control, sanitize_message, truncate_utf8}
use palworld_pal_crosschat.Sanitize.Truncate.{Char, encode, fitting, truncate_utf8-encode}
use palworld_pal_crosschat.Sanitize.Clean.{sanitize_message_lem}
use palworld_pal_crosschat.Guid.{Guid, is_nil, format_guid, try_parse_guid}
use palworld_pal_crosschat.Guid.RoundTrip.{IsGuid, try_parse_guid-format_guid}
use palworld_pal_crosschat.Replace.{replace_loop}
use palworld_pal_crosschat.Replace.OnePass.{substitute, replace_all-substitute}
use palworld_pal_crosschat.Webhook.{escape_json_string}
use palworld_pal_crosschat.Webhook.Json.{all_legal, read_string, read_string-escape_json_string}
use palworld_pal_crosschat.ChatCapture.Text.{try_parse_set_discord}
use palworld_pal_crosschat.ChatCapture.Commands.{try_parse_set_discord_lem}

a-is_continuation : is_continuation b'a' ≡ false
unfolding is_continuation
a-is_continuation = refl

c3-is_continuation : is_continuation 0xc3 ≡ false
unfolding is_continuation
c3-is_continuation = refl

a9-is_continuation : is_continuation 0xa9 ≡ true
unfolding is_continuation
a9-is_continuation = refl

abbrev letter_a : Char
letter_a = record { lead = b'a'; tail = []; lead_is = a-is_continuation; tail_is = tt }

abbrev e_acute : Char
e_acute = record {
  lead = 0xc3;
  tail = 0xa9 ∷ [];
  lead_is = c3-is_continuation;
  tail_is = (a9-is_continuation, tt);
}

abbrev word : List Char
word = letter_a ∷ e_acute ∷ e_acute ∷ []

truncate_utf8-encode_example : truncate_utf8 (encode word) 4 ≡ encode (fitting 4 word)
truncate_utf8-encode_example = truncate_utf8-encode word 4

abbrev line : Bytes
line = codes " \tHello  [] world "

sanitize_message_lem_example :
    (length (sanitize_message line 8) ≤ 8)
    × All (λ c. is_control c ≡ false) (sanitize_message line 8)
    × HeadNot is_space (sanitize_message line 8)
sanitize_message_lem_example = sanitize_message_lem line 8

abbrev tags : List Bytes
tags = codes "NA" ∷ codes "[EU]" ∷ []

abbrev player : Guid
player = record { a = 0xdeadbeef; b = 1; c = 0x80000000; d = 77 }

player-IsGuid : IsGuid player
player-IsGuid = record {
  a_fits = omega arith;
  b_fits = omega arith;
  c_fits = omega arith;
  d_fits = omega arith;
}

try_parse_guid-format_guid_example :
    try_parse_guid (format_guid player) ≡ (if is_nil player then none else some player)
try_parse_guid-format_guid_example = try_parse_guid-format_guid player player-IsGuid

abbrev template : Bytes
template = codes "{k} and {k}"

replace_all-substitute_example :
    (if is_empty (codes "{k}")
      then some template
      else replace_loop (suc (length template)) (codes "{k}") (codes "{k}{k}") template 0)
    ≡ some (
        if is_empty (codes "{k}")
        then template
        else substitute (codes "{k}") (codes "{k}{k}") 0 template)
replace_all-substitute_example = replace_all-substitute template (codes "{k}") (codes "{k}{k}")

abbrev format : Bytes
format = codes "[{prefix}] [{guild}] {player}: {message}"

read_string-escape_json_string_example :
    read_string false (escape_json_string (codes "say \"hi\"\n") ++ b'"' ∷ codes "}")
    ≡ (if all_legal (codes "say \"hi\"\n") then some (codes "say \"hi\"\n", codes "}") else none)
read_string-escape_json_string_example =
    read_string-escape_json_string (codes "say \"hi\"\n") (codes "}")

try_parse_set_discord_lem_example :
    try_parse_set_discord (codes "!SetDiscord" ++ (codes " " ++ (codes "A1B2" ++ codes " please")))
    ≡ some (codes "A1B2")
try_parse_set_discord_lem_example =
    try_parse_set_discord_lem (codes "!SetDiscord") (codes " ") (codes "A1B2") (codes " please")
      refl (refl, tt) (λ e. cc) (refl, (refl, (refl, (refl, tt)))) refl
