-- ===== src/ChatFormat/Fields.antt =====
-- What `ApplyChatFormat` returns for any format and any values.
use palworld_pal_crosschat.Base.{
  ◌≡◌, refl, ap, ◌≢◌, ◌⊎◌, inl, inr, [], ◌∷◌, arith, ◌==◌, Option-cases, if_both, is_empty, take,
  Bytes, codes,
}
use palworld_pal_crosschat.Replace.{find_at}
use palworld_pal_crosschat.ChatFormat.{
  or_unknown, message_placeholder, ends_with, padded, split_format, format_parts, named,
  fill_sender, plain_sender, apply_chat_format,
}

or_unknown-ne_nil : (name : Bytes) → or_unknown name ≢ []
unfolding or_unknown
or_unknown-ne_nil [] = λ e. cc
or_unknown-ne_nil (c ∷ name) = λ e. cc

named-ne_nil : (player sender : Bytes) → named player sender ≢ []
unfolding named
named-ne_nil player [] = or_unknown-ne_nil player
named-ne_nil player (c ∷ s) = λ z. cc

fill_sender-ne_nil : (part prefix guild player : Bytes) → fill_sender part prefix guild player ≢ []
unfolding fill_sender
fill_sender-ne_nil part prefix guild player = named-ne_nil player _

plain_sender-ne_nil : (prefix player : Bytes) → plain_sender prefix player ≢ []
unfolding plain_sender
plain_sender-ne_nil prefix player = or_unknown-ne_nil _

abbrev pub IsBody : Bytes → Bytes → Type 0
IsBody message field = (field ≡ message) ⊎ (field ≡ b' ' ∷ message)

padded-IsBody : (message : Bytes) → IsBody message (padded message)
padded-IsBody [] = inl refl
padded-IsBody (c ∷ s) = if_both (IsBody (c ∷ s)) (c == b' ') _ _ (inl refl) (inr refl)

split_format-IsBody : (before message : Bytes) → IsBody message (split_format before message).1
unfolding split_format
split_format-IsBody before message =
    if_both (λ (r : Bytes × Bytes). IsBody message r.1) (ends_with (codes ": ") before) _ _
      (padded-IsBody message)
      (if_both (λ (r : Bytes × Bytes). IsBody message r.1) (ends_with (codes ":") before) _ _
        (inl refl) (inl refl))

format_parts-IsBody : (format message : Bytes) → IsBody message (format_parts format message).1
format_parts-IsBody format message = elim (Option-cases (find_at message_placeholder format)) [
  | inl e ↦ rw (e, format_parts) (inl refl)
  | inr (i, e) ↦ rw (e, format_parts) (split_format-IsBody (take i format) message)
]

-- Whatever the format and the values, the message field is the message itself, or the message behind
-- one space, and the sender field is not empty.
apply_chat_format_fields :
    (format prefix guild player message : Bytes)
    → IsBody message (apply_chat_format format prefix guild player message).1
      × ((apply_chat_format format prefix guild player message).0 ≢ [])
unfolding apply_chat_format
apply_chat_format_fields [] prefix guild player message =
    (inl refl, plain_sender-ne_nil prefix player)
apply_chat_format_fields (c ∷ format) prefix guild player message = (
  if_both (IsBody message) (is_empty (format_parts (c ∷ format) message).1) _ _ (inl refl)
      (format_parts-IsBody (c ∷ format) message),
  fill_sender-ne_nil _ prefix guild player,
)

split_format-sender : (before m n : Bytes) → (split_format before m).0 ≡ (split_format before n).0
unfolding split_format
split_format-sender before m n = ground arith

format_parts-sender : (format m n : Bytes) → (format_parts format m).0 ≡ (format_parts format n).0
format_parts-sender format m n = elim (Option-cases (find_at message_placeholder format)) [
  | inl e ↦ rw (e, format_parts) refl
  | inr (i, e) ↦ rw (e, format_parts) (split_format-sender (take i format) m n)
]

-- No part of the chat text gets into the sender field: it is the same for every message.
apply_chat_format-sender :
    (format prefix guild player m n : Bytes)
    → (apply_chat_format format prefix guild player m).0
      ≡ (apply_chat_format format prefix guild player n).0
unfolding apply_chat_format
apply_chat_format-sender [] prefix guild player m n = refl
apply_chat_format-sender (c ∷ format) prefix guild player m n =
    ap (λ part. fill_sender part prefix guild player) (format_parts-sender (c ∷ format) m n)
