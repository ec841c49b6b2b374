-- ===== src/ChatCapture/Commands.antt =====
-- The !setdiscord command and the parts of a platform id.
use palworld_pal_crosschat.Base.{
  ◌≡◌, refl, ap, ◌≢◌, ◌↔◌, inl, inr, true, false, ◌||◌, Option, none, some, [], ◌∷◌, ◌++◌, map,
  ◌==◌, ==_iff, ==_refl, Bool-cases, Option-cases, All, length, is_empty, drop, drop_while, Bytes,
  is_space, to_lower,
}
use palworld_pal_crosschat.ChatCapture.Text.{
  setdiscord_command, matches_command, take_word, try_parse_set_discord, split_underscore,
  split_platform_user_id,
}

matches_command-append :
    (command word s : Bytes)
    → map to_lower word ≡ command
    → matches_command command (word ++ s) ≡ true
unfolding matches_command
matches_command-append [] [] s h = refl
matches_command-append [] (c ∷ word) s h = refl
matches_command-append (k ∷ command) [] s h = cc
matches_command-append (k ∷ command) (c ∷ word) s h =
    let first : to_lower c ≡ k = cons_head h in
    rw (first, ==_refl k) (matches_command-append command word s (cons_tail h))
  where
    cons_head : to_lower c ∷ map to_lower word ≡ k ∷ command → to_lower c ≡ k
    cons_head e = cc

    cons_tail : to_lower c ∷ map to_lower word ≡ k ∷ command → map to_lower word ≡ command
    cons_tail e = cc

drop-map :
    (command word s : Bytes) → map to_lower word ≡ command → drop (length command) (word ++ s) ≡ s
drop-map [] [] s h = refl
drop-map [] (c ∷ word) s h = cc
drop-map (k ∷ command) [] s h = cc
drop-map (k ∷ command) (c ∷ word) s h = drop-map command word s (cons_tail h)
  where
    cons_tail : to_lower c ∷ map to_lower word ≡ k ∷ command → map to_lower word ≡ command
    cons_tail e = cc

drop_while-append :
    (gap s : Bytes)
    → All (λ c. is_space c ≡ true) gap
    → drop_while is_space (gap ++ s) ≡ drop_while is_space s
drop_while-append [] s h = refl
drop_while-append (c ∷ gap) s h = rw h.0 (drop_while-append gap s h.1)

-- The text starts with whitespace, or is empty.
abbrev pub EndsWord : Bytes → Type 0
EndsWord [] = Unit
EndsWord (c ∷ _) = is_space c ≡ true

take_word-append :
    (word s : Bytes)
    → All (λ c. is_space c ≡ false) word
    → EndsWord s
    → take_word (word ++ s) ≡ word
unfolding take_word
take_word-append [] [] h k = refl
take_word-append [] (c ∷ s) h k = rw k refl
take_word-append (c ∷ word) s h k = rw h.0 (ap (◌∷◌ c) (take_word-append word s h.1 k))

-- A message that starts with the command in any case, then any whitespace, then a code without
-- whitespace and not empty, and then nothing or whitespace and any text, gives exactly that code.
pub try_parse_set_discord_lem :
    (command gap code behind : Bytes)
    → map to_lower command ≡ setdiscord_command
    → All (λ c. is_space c ≡ true) gap
    → code ≢ []
    → All (λ c. is_space c ≡ false) code
    → EndsWord behind
    → try_parse_set_discord (command ++ (gap ++ (code ++ behind))) ≡ some code
unfolding try_parse_set_discord
try_parse_set_discord_lem command gap [] behind h g n v k = absurd (n refl)
try_parse_set_discord_lem command gap (c ∷ code) behind h g n v k =
    rw
      (
        matches_command-append setdiscord_command command (gap ++ (c ∷ code ++ behind)) h,
        drop-map setdiscord_command command (gap ++ (c ∷ code ++ behind)) h,
        drop_while-append gap (c ∷ code ++ behind) g,
        v.0,
      )
      (ap some (take_word-append (c ∷ code) behind v k))

split_underscore-append :
    (a b : Bytes)
    → All (λ c. (c == b'_') ≡ false) a
    → split_underscore (a ++ b'_' ∷ b) ≡ some (a, b)
unfolding split_underscore
split_underscore-append [] b h = refl
split_underscore-append (c ∷ a) b h = rw (split_underscore-append a b h.1, h.0) refl

some-pair :
    (a a' b b' : Bytes)
    → ◌≡◌ {A = Option (Bytes × Bytes)} (some (a, b)) (some (a', b'))
    → (a ≡ a') × (b ≡ b')
some-pair a a' b b' e = (cc, cc)

none-some : (p : Bytes × Bytes) → none ≡ some p → ⊥
none-some p e = cc

split_underscore-splits :
    (s a b : Bytes)
    → split_underscore s ≡ some (a, b)
    → (s ≡ a ++ b'_' ∷ b) × All (λ c. (c == b'_') ≡ false) a
unfolding split_underscore
split_underscore-splits [] a b h = cc
split_underscore-splits (c ∷ s) a b h = elim (Bool-cases (c == b'_')) [
  | inl e ↦
      let same = some-pair [] a s b (rw e at h) in
      rw (← same.0, ← same.1, (==_iff c b'_').0 e) (refl, tt)
  | inr e ↦ elim (Option-cases (split_underscore s)) [
    | inl n ↦ absurd (none-some _ (rw (e, n) at h))
    | inr ((a', b'), found) ↦
        let same = some-pair (c ∷ a') a b' b (rw (e, found) at h) in
        let (f, v) = split_underscore-splits s a' b' found in
        rw (← same.0, ← same.1) (ap (◌∷◌ c) f, (e, v))
  ]
]

-- `SplitPlatformUserId` gives two parts exactly when the id is the first, an underscore and the second,
-- neither part is empty, and the first has no underscore: the split is at the first one.
split_platform_user_id_iff :
    (s platform user_id : Bytes)
    → (split_platform_user_id s ≡ some (platform, user_id)) ↔ (
        (s ≡ platform ++ b'_' ∷ user_id)
        × (platform ≢ [])
        × (user_id ≢ [])
        × All (λ c. (c == b'_') ≡ false) platform)
unfolding split_platform_user_id
split_platform_user_id_iff s platform user_id = (
  (λ h. elim (Option-cases (split_underscore s)) [
    | inl n ↦ absurd (none-some _ (rw (split_platform_user_id, n) at h))
    | inr ((a, b), found) ↦ elim (Bool-cases (is_empty a || is_empty b)) [
      | inl e ↦ absurd (none-some _ (rw (split_platform_user_id, found, e) at h))
      | inr e ↦
          let same = some-pair a platform b user_id (rw (split_platform_user_id, found, e) at h) in
          let (f, v) = split_underscore-splits s a b found in
          rw (← same.0, ← same.1) (f, left_full a b e, right_full a b e, v)
    ]
  ]),
  λ (f, p, u, v).
      rw
        (
          f,
          split_platform_user_id,
          split_underscore-append platform user_id v,
          full platform user_id p u,
        )
        refl,
)
  where
    left_full : (a b : Bytes) → is_empty a || is_empty b ≡ false → a ≢ []
    left_full [] b e = cc
    left_full (c ∷ a) b e = λ f. cc

    right_full : (a b : Bytes) → is_empty a || is_empty b ≡ false → b ≢ []
    right_full [] b e = cc
    right_full (c ∷ a) [] e = cc
    right_full (c ∷ a) (d ∷ b) e = λ f. cc

    full : (a b : Bytes) → a ≢ [] → b ≢ [] → is_empty a || is_empty b ≡ false
    full [] b p u = absurd (p refl)
    full (c ∷ a) [] p u = absurd (u refl)
    full (c ∷ a) (d ∷ b) p u = refl
