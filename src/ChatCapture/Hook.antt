-- ===== src/ChatCapture/Hook.antt =====
-- The parameters of EnterChat_Receive, as the hook finds them.
use palworld_pal_crosschat.Base.{
  ℕ, Bool, true, false, not, ◌||◌, Option, none, some, List, [], ◌∷◌, if◌then◌else◌, is_some,
  is_empty, Bytes, codes, str_eq, ℤ, pos, ltb_ℤ, leb_ℤ,
}
use palworld_pal_crosschat.Engine.{Controller}

-- An FString in memory. `text` is what `to_utf8_string` makes of the buffer, and `none` for a null one.
pub record RawFstring : Type 0 where
  pub text : Option Bytes
  pub num : ℤ
  pub max : ℤ

-- The Message property in the locals, by reference or by value; a null pointer on the way is `none`.
pub data MessageParam : Type 0 where
  by_reference by_value : Option RawFstring → MessageParam

-- A record of the frame's list of out-parameters: the name of its property, and the FString at its
-- address, where a null pointer is `none`.
pub record OutParm : Type 0 where
  pub property : Option Bytes
  pub prop_addr : Option RawFstring

-- `has_locals` says that the function and its locals are there, and a property that is not found is
-- `none`.
pub record HookContext : Type 0 where
  pub controller : Option Controller
  pub out_parms : List OutParm
  pub has_locals : Bool
  pub message_param : Option MessageParam
  pub category_param : Option ℕ

abbrev pub fstring_to_utf8 : RawFstring → Bytes
fstring_to_utf8 s = elim s.text [ none ↦ [] | some t ↦ t ]

-- The FString of a record that is the parameter Message.
abbrev pub message_of : OutParm → Option RawFstring
message_of rec = elim rec.property [
  | none ↦ none
  | some name ↦ if str_eq name (codes "Message") then rec.prop_addr else none
]

unfoldable pub find_message_via_out_parms : List OutParm → Option RawFstring
find_message_via_out_parms [] = none
find_message_via_out_parms (rec ∷ recs) =
    let rest = find_message_via_out_parms recs in
    elim (message_of rec) [ some s ↦ some s | none ↦ rest ]

-- A write through the pointer that the search gives.
unfoldable pub write_out_parm : RawFstring → List OutParm → List OutParm
write_out_parm s [] = []
write_out_parm s (rec ∷ recs) =
    let rest = write_out_parm s recs in
    elim (message_of rec) [ some _ ↦ record rec { prop_addr = some s } ∷ recs | none ↦ rec ∷ rest ]

abbrev pub pointed_text : Option RawFstring → Option Bytes
pointed_text none = none
pointed_text (some s) = some (fstring_to_utf8 s)

abbrev pub param_text : Option MessageParam → Option Bytes
param_text none = none
param_text (some (by_reference s)) = pointed_text s
param_text (some (by_value s)) = pointed_text s

unfoldable pub read_message_utf8 : HookContext → Option Bytes
unfolding find_message_via_out_parms
read_message_utf8 context = elim (find_message_via_out_parms context.out_parms) [
  | some s ↦ some (fstring_to_utf8 s)
  | none ↦ if not context.has_locals then none else param_text context.message_param
]

-- `ReadHookParams` with the conversion back that `HandleHook` starts with. `reencode` is what
-- `ensure_str` and then `to_utf8_string` make of a text.
unfoldable pub read_hook_params : (Bytes → Bytes) → HookContext → Bytes × ℕ
unfolding read_message_utf8
read_hook_params reencode context = (
  elim (read_message_utf8 context) [
    | none ↦ []
    | some utf8 ↦ if not (is_empty utf8) then reencode utf8 else []
  ],
  if context.has_locals
      then elim context.category_param [ none ↦ 0 | some category ↦ category ]
      else 0,
)

unfoldable pub is_sane : RawFstring → Bool
is_sane s =
    not (
      ltb_ℤ s.num (pos 0) || ltb_ℤ s.max (pos 0) || ltb_ℤ s.max s.num || ltb_ℤ (pos 0x100000) s.max)

-- A sane `max` is not negative, so it is 0 when it is at most 0.
unfoldable pub truncate_message_in_place : RawFstring → Bool × RawFstring
unfolding is_sane
truncate_message_in_place s =
    if not (is_sane s)
    then (false, s)
    else if not (is_some s.text) || leb_ℤ s.max (pos 0)
    then (true, record s { num = pos 0 })
    else (true, record s { text = some []; num = pos 1 })

abbrev pub clear_pointed : Option RawFstring → Bool × Option RawFstring
clear_pointed none = (false, none)
clear_pointed (some s) = let (done, s') = truncate_message_in_place s in (done, some s')

abbrev pub clear_param : Option MessageParam → Bool × Option MessageParam
clear_param none = (false, none)
clear_param (some (by_reference s)) =
    let (done, s') = clear_pointed s in (done, some (by_reference s'))
clear_param (some (by_value s)) = let (done, s') = clear_pointed s in (done, some (by_value s'))

unfoldable pub try_clear_message : HookContext → Bool × HookContext
unfolding truncate_message_in_place find_message_via_out_parms write_out_parm
try_clear_message context = elim (find_message_via_out_parms context.out_parms) [
  | some s ↦
      let (done, s') = truncate_message_in_place s in
      (done, record context { out_parms = write_out_parm s' context.out_parms })
  | none ↦
      if not context.has_locals
      then (false, context)
      else (let (done, param) = clear_param context.message_param in
          (done, record context { message_param = param }))
]

unfoldable pub try_set_category : HookContext → ℕ → Bool × HookContext
try_set_category context new_category =
    if not context.has_locals then (false, context) else elim context.category_param [
      | none ↦ (false, context)
      | some _ ↦ (true, record context { category_param = some new_category })
    ]
