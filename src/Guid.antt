-- ===== src/Guid.antt =====
-- Player ids: the `FormatGuid` of src/ChatCapture.cpp, which src/Audience.cpp repeats as `FormatGuidKey`,
-- and its inverse, the `TryParseGuid` of src/ChatInject.cpp. Each word is a uint32_t.
pub mod RoundTrip
use palworld_pal_crosschat.Base.{
  ℕ, zero, suc, ◌+◌, ◌-◌, ◌*◌, ◌/◌, ◌%◌, ◌^◌, ◌<◌, Bool, not, ◌&&◌, ◌||◌, Option, none, some, List,
  [], ◌∷◌, ◌++◌, ltb, leb, ◌==◌, if◌then◌else◌, get_or, set, all, Bytes,
}

pub record Guid : Type 0 where
  pub a : ℕ
  pub b : ℕ
  pub c : ℕ
  pub d : ℕ

abbrev pub nil_guid : Guid
nil_guid = record { a = 0; b = 0; c = 0; d = 0 }

unfoldable pub guid_eq : Guid → Guid → Bool
guid_eq g h = g.a == h.a && g.b == h.b && g.c == h.c && g.d == h.d

abbrev pub is_nil : Guid → Bool
is_nil g = guid_eq g nil_guid

abbrev pub u32_mod : ℕ
u32_mod = 2 ^ 32

-- One digit of `%X`.
abbrev pub hex_digit : ℕ → ℕ
hex_digit v = if ltb v 10 then b'0' + v else b'A' + (v - 10)

-- `%0wX` of a number of at most `w` hexadecimal digits.
unfoldable pub hex : ℕ → ℕ → Bytes
hex zero n = []
hex (suc w) n = hex w (n / 16) ++ hex_digit (n % 16) ∷ []

-- `(x >> 16) & 0xFFFF` and `x & 0xFFFF`
abbrev pub high_half : ℕ → ℕ
high_half x = x / 2 ^ 16 % 2 ^ 16

abbrev pub low_half : ℕ → ℕ
low_half x = x % 2 ^ 16

-- "%08X-%04X-%04X-%04X-%04X%08X"
unfoldable pub format_guid : Guid → Bytes
format_guid g =
    hex 8 g.a
    ++ (b'-'
        ∷ (hex 4 (high_half g.b)
            ++ (b'-'
                ∷ (hex 4 (low_half g.b)
                    ++ (b'-'
                        ∷ (hex 4 (high_half g.c)
                            ++ (b'-' ∷ (hex 4 (low_half g.c) ++ hex 8 g.d))))))))

abbrev pub is_separator : ℕ → Bool
is_separator c = c == b'-' || c == b'{' || c == b'}'

-- The value of a hexadecimal digit.
unfoldable pub hex_value : ℕ → Option ℕ
hex_value c =
    if leb b'0' c && leb c b'9'
    then some (c - b'0')
    else if leb b'a' c && leb c b'f'
    then some (c - b'a' + 10)
    else if leb b'A' c && leb c b'F'
    then some (c - b'A' + 10)
    else none

-- `(w << 4) | value`: the low four bits of the shifted word are 0, so the `|` adds.
abbrev pub shift_in : ℕ → ℕ → ℕ
shift_in w value = w * 16 % u32_mod + value

-- The loop of `TryParseGuid` over the text, with the words so far and the count of digits.
unfoldable pub parse_digits : Bytes → List ℕ → ℕ → Option (List ℕ × ℕ)
unfolding hex_value
parse_digits [] words digits = some (words, digits)
parse_digits (c ∷ text) words digits =
    let skipped = parse_digits text words digits in
    if is_separator c then skipped else elim (hex_value c) [
      | none ↦ none
      | some value ↦
          let i = digits / 8 in
          let rest =
            parse_digits text (set words i (shift_in (get_or words i 0) value)) (digits + 1) in
          if leb 32 digits then none else rest
    ]

-- The words are those of `out` when the digits are 32 and not all of them 0.
unfoldable pub finish_guid : Option (List ℕ × ℕ) → Option Guid
unfolding guid_eq
finish_guid none = none
finish_guid (some (words, digits)) =
    let out : Guid = record {
      a = get_or words 0 0;
      b = get_or words 1 0;
      c = get_or words 2 0;
      d = get_or words 3 0;
    } in
    if not (digits == 32) then none else if is_nil out then none else some out

unfoldable pub try_parse_guid : Bytes → Option Guid
unfolding parse_digits finish_guid
try_parse_guid text = finish_guid (parse_digits text (0 ∷ 0 ∷ 0 ∷ 0 ∷ []) 0)
