-- ===== src/Sanitize.antt =====
-- src/Sanitize.cpp: cleaning of chat text, and the prefix test of the loop guard. A text is a list of
-- bytes; `out[start]` and `out[end - 1]` are the ends that `trim_by` moves.
pub mod Clean
pub mod Prefix
pub mod Truncate
use Prim.Native.Nat.{bit_and}
use palworld_pal_crosschat.Base.{
  ℕ, zero, suc, ◌-◌, ◌/◌, Bool, true, false, not, ◌&&◌, ◌||◌, List, [], ◌∷◌, ltb, leb, ◌==◌,
  if◌then◌else◌, length, is_empty, get_or, take, filter_by, Bytes, is_space, starts_with, trim_by,
}

-- A byte that `StripControlAndTrim` drops.
abbrev pub is_control : ℕ → Bool
is_control c = ltb c 0x20 || c == 0x7f

unfoldable pub strip_control_and_trim : Bytes → Bytes
strip_control_and_trim input = trim_by is_space (filter_by (λ c. not (is_control c)) input)

-- `(input[cut] & 0xC0) == 0x80`
unfoldable pub is_continuation : ℕ → Bool
is_continuation c = bit_and c 0xc0 == 0x80

-- The loop that walks `cut` back over continuation bytes.
unfoldable pub walk_back : Bytes → ℕ → ℕ
walk_back input zero = 0
walk_back input (suc cut) =
    let rest = walk_back input cut in
    if is_continuation (get_or input (suc cut) 0) then rest else suc cut

unfoldable pub truncate_utf8 : Bytes → ℕ → Bytes
unfolding walk_back is_continuation
truncate_utf8 input max_bytes =
    if leb (length input) max_bytes then input else take (walk_back input max_bytes) input

unfoldable pub sanitize_message : Bytes → ℕ → Bytes
unfolding strip_control_and_trim truncate_utf8
sanitize_message input max_bytes =
    let cleaned = strip_control_and_trim input in
    if is_empty cleaned then [] else truncate_utf8 cleaned max_bytes

-- A byte that `SanitizeNotice` keeps.
abbrev pub is_notice_byte : ℕ → Bool
is_notice_byte c = c == b'\n' || (leb 0x20 c && not (c == 0x7f))

abbrev pub is_blank : ℕ → Bool
is_blank c = c == b' ' || c == b'\t' || c == b'\r'

unfoldable pub sanitize_notice : Bytes → ℕ → Bytes
unfolding truncate_utf8
sanitize_notice input max_bytes =
    let out = trim_by is_blank (filter_by is_notice_byte input) in
    if is_empty out then [] else truncate_utf8 out max_bytes

unfoldable pub starts_with_any_prefix : Bytes → List Bytes → Bool
starts_with_any_prefix message [] = false
starts_with_any_prefix message (prefix ∷ prefixes) =
    let rest = starts_with_any_prefix message prefixes in
    if is_empty prefix then rest else if starts_with prefix message then true else rest
