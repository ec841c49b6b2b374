-- ===== src/ChatCapture/Clear.antt =====
-- The truncation of the game's message in place, and what the hook reads behind it.
use palworld_pal_crosschat.Base.{
  ◌≡◌, refl, ap, subst, inl, inr, Bool, true, false, ◌&&◌, Option, none, some, List, [], ◌∷◌, arith,
  if◌then◌else◌, Bool-cases, Option-cases, is_some, Bytes, ℤ, pos, ltb_ℤ,
}
use palworld_pal_crosschat.ChatCapture.Hook.{
  RawFstring, MessageParam, by_reference, by_value, OutParm, HookContext, fstring_to_utf8,
  message_of, find_message_via_out_parms, write_out_parm, read_message_utf8, is_sane,
  truncate_message_in_place, param_text, clear_param, try_clear_message,
}

-- What a string is behind the truncation, with its result.
abbrev IsTruncated : RawFstring → Bool × RawFstring → Type 0
IsTruncated s out =
    let has_room = is_sane s && ltb_ℤ (pos 0) s.max in
    (out.0 ≡ is_sane s)
    × (is_sane out.1 ≡ is_sane s)
    × (out.1.max ≡ s.max)
    × (is_some out.1.text ≡ is_some s.text)
    × (out.1.num
        ≡ (if is_sane s then if is_some s.text && has_room then pos 1 else pos 0 else s.num))
    × (fstring_to_utf8 out.1 ≡ (if has_room then [] else fstring_to_utf8 s))

of_fields :
    (text : Option Bytes) (n m : ℤ)
    → let s : RawFstring = record { text = text; num = n; max = m } in
      IsTruncated s (truncate_message_in_place s)
unfolding truncate_message_in_place is_sane
of_fields none n m =
    (ground arith, ground arith, ground arith, ground arith, ground arith, ground arith)
of_fields (some t) n m =
    (ground arith, ground arith, ground arith, ground arith, ground arith, ground arith)

-- The truncation succeeds exactly on a string with 0 ≤ num ≤ max ≤ 0x100000. Behind it these bounds
-- hold or fail as before, the size of the buffer and whether it is null are as before, the number of
-- characters is 1 in a buffer with room and 0 in one without, and a string whose buffer has room reads
-- as the empty text; a string out of bounds keeps its number and its text.
truncate_message_in_place_lem : (s : RawFstring) → IsTruncated s (truncate_message_in_place s)
truncate_message_in_place_lem s = of_fields s.text s.num s.max

-- The message that the hook finds: through the out-parameters, or else in the locals.
abbrev pub held : Option MessageParam → Option RawFstring
held none = none
held (some (by_reference s)) = s
held (some (by_value s)) = s

abbrev pub found_message : HookContext → Option RawFstring
found_message c = elim (find_message_via_out_parms c.out_parms) [
  | some s ↦ some s
  | none ↦ if c.has_locals then held c.message_param else none
]

abbrev pub sane_message : Option RawFstring → Bool
sane_message none = false
sane_message (some s) = is_sane s

abbrev pub has_room : Option RawFstring → Bool
has_room none = false
has_room (some s) = is_sane s && ltb_ℤ (pos 0) s.max

message_of-write :
    (rec : OutParm) (s s' : RawFstring)
    → message_of rec ≡ some s
    → message_of (record rec { prop_addr = some s' }) ≡ some s'
message_of-write rec s s' e = ground arith

find-write :
    (recs : List OutParm) (s s' : RawFstring)
    → find_message_via_out_parms recs ≡ some s
    → find_message_via_out_parms (write_out_parm s' recs) ≡ some s'
unfolding find_message_via_out_parms write_out_parm
find-write [] s s' e = cc
find-write (rec ∷ recs) s s' e = elim (Option-cases (message_of rec)) [
  | inl n ↦
      rw (n, find_message_via_out_parms)
        (rw n (
          find-write recs s s' (
            subst
              (λ o. (elim o [ some m ↦ some m | none ↦ find_message_via_out_parms recs ]) ≡ some s)
              n e)))
  | inr (m, n) ↦
      rw (n, find_message_via_out_parms)
        (rw (message_of-write rec m s' n, find_message_via_out_parms) refl)
]

-- What a clearing returns, and what is read behind it.
abbrev pub IsCleared : HookContext → Bool × HookContext → Type 0
IsCleared c out =
    (out.0 ≡ sane_message (found_message c))
    × (read_message_utf8 out.1
        ≡ (if has_room (found_message c) then some [] else read_message_utf8 c))
    × (out.1.category_param ≡ c.category_param)

some_if :
    {A : Type 0} (b : Bool) (x y z : A)
    → x ≡ (if b then y else z)
    → some x ≡ (if b then some y else some z)
some_if true x y z e = ap some e
some_if false x y z e = ap some e

cleared_string :
    (s : RawFstring)
    → ((truncate_message_in_place s).0 ≡ is_sane s)
      × (some (fstring_to_utf8 (truncate_message_in_place s).1)
          ≡ (if has_room (some s) then some [] else some (fstring_to_utf8 s)))
cleared_string s =
    let (done, _, _, _, _, text) = truncate_message_in_place_lem s in
    (done, some_if (has_room (some s)) _ [] (fstring_to_utf8 s) text)

cleared_param :
    (param : Option MessageParam)
    → ((clear_param param).0 ≡ sane_message (held param))
      × (param_text (clear_param param).1
          ≡ (if has_room (held param) then some [] else param_text param))
cleared_param none = (refl, refl)
cleared_param (some (by_reference none)) = (refl, refl)
cleared_param (some (by_value none)) = (refl, refl)
cleared_param (some (by_reference (some s))) = cleared_string s
cleared_param (some (by_value (some s))) = cleared_string s

-- A clearing succeeds exactly where the hook finds a message with 0 ≤ num ≤ max ≤ 0x100000. Behind it
-- the message reads as the empty text if its buffer has room, and else as before; the category is kept.
pub try_clear_message_lem : (c : HookContext) → IsCleared c (try_clear_message c)
unfolding try_clear_message read_message_utf8
try_clear_message_lem c = elim (Option-cases (find_message_via_out_parms c.out_parms)) [
  | inr (s, e) ↦
      let (done, text) = cleared_string s in
      let written = find-write c.out_parms s (truncate_message_in_place s).1 e in
      rw (e, try_clear_message, read_message_utf8, found_message)
        (rw (written, read_message_utf8) (done, text, refl))
  | inl e ↦
      let (done, text) = cleared_param c.message_param in
      rw (e, try_clear_message, read_message_utf8, found_message)
        (elim (Bool-cases c.has_locals) [
          | inl l ↦
              rw (l, try_clear_message, read_message_utf8)
                (rw (e, try_clear_message) (rw l (done, rw (e, try_clear_message) text, refl)))
          | inr l ↦
              rw (l, try_clear_message, read_message_utf8)
                (rw (e, try_clear_message) (rw l (refl, rw (e, try_clear_message) refl, refl)))
        ])
]
