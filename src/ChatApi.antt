-- ===== src/ChatApi.antt =====
-- src/PalChatApi.h: the chat categories, and which of them are relayed.
use palworld_pal_crosschat.Base.{ℕ, Bool, true, false, List, [], ◌∷◌, ◌==◌, if◌then◌else◌}

abbrev pub chat_category_none : ℕ
chat_category_none = 0

abbrev pub chat_category_global : ℕ
chat_category_global = 1

abbrev pub chat_category_discord : ℕ
chat_category_discord = 4

abbrev pub relayed_categories : List ℕ
relayed_categories = chat_category_global ∷ []

-- The loop over `RELAYED_CATEGORIES`.
abbrev pub in_categories : List ℕ → ℕ → Bool
in_categories [] category = false
in_categories (c ∷ cs) category = if c == category then true else in_categories cs category

unfoldable pub is_relayed_category : ℕ → Bool
is_relayed_category category = in_categories relayed_categories category
