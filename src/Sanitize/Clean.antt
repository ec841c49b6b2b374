-- ===== src/Sanitize/Clean.antt =====
-- What the sanitizers return for any input, and the loop guard's prefix test.
use palworld_pal_crosschat.Sanitize.{
  is_control, strip_control_and_trim, walk_back, truncate_utf8, sanitize_message, is_notice_byte,
  is_blank, sanitize_notice,
}
use palworld_pal_crosschat.Base.{
  ℕ, zero, suc, ◌≤◌, ◌≡◌, inl, inr, Bool, true, false, not, [], ◌∷◌, arith, leb, Bool-cases, All,
  length, is_empty, take, filter_by, length-take, All-filter_by, All-take, Bytes, is_space, trim_by,
  HeadNot, Trims, trim_by-Trims, All-trim_by,
}

walk_back-le : (input : Bytes) (cut : ℕ) → walk_back input cut ≤ cut
unfolding walk_back
walk_back-le input zero = omega arith
walk_back-le input (suc cut) = ground (arith, walk_back-le input cut)

length-truncate_utf8-le : (input : Bytes) (n : ℕ) → length (truncate_utf8 input n) ≤ n
unfolding truncate_utf8
length-truncate_utf8-le input n =
    ground (arith, walk_back-le input n, length-take (walk_back input n) input)

module _ {κ} (P : ℕ → Type κ) where
  All-truncate_utf8 : (input : Bytes) (n : ℕ) → All P input → All P (truncate_utf8 input n)
  unfolding truncate_utf8
  All-truncate_utf8 input n h = elim (Bool-cases (leb (length input) n)) [
    | inl e ↦ rw e h
    | inr e ↦ rw e (All-take P (walk_back input n) input h)
  ]

HeadNot-take : (p : ℕ → Bool) (n : ℕ) (s : Bytes) → HeadNot p s → HeadNot p (take n s)
HeadNot-take p zero s h = tt
HeadNot-take p (suc n) [] h = tt
HeadNot-take p (suc n) (c ∷ s) h = h

HeadNot-truncate_utf8 :
    (p : ℕ → Bool) (input : Bytes) (n : ℕ) → HeadNot p input → HeadNot p (truncate_utf8 input n)
unfolding truncate_utf8
HeadNot-truncate_utf8 p input n h = elim (Bool-cases (leb (length input) n)) [
  | inl e ↦ rw e h
  | inr e ↦ rw e (HeadNot-take p (walk_back input n) input h)
]

All-not_control :
    (s : Bytes) → All (λ c. not (is_control c) ≡ true) s → All (λ c. is_control c ≡ false) s
All-not_control [] h = tt
All-not_control (c ∷ s) h = (ground arith, All-not_control s h.1)

-- `StripControlAndTrim` drops the control bytes and then the whitespace at both ends, and nothing else.
pub strip_control_and_trim-Trims :
    (input : Bytes)
    → Trims is_space (filter_by (λ c. not (is_control c)) input) (strip_control_and_trim input)
unfolding strip_control_and_trim
strip_control_and_trim-Trims input = trim_by-Trims is_space _

pub strip_control_and_trim-not_control :
    (input : Bytes) → All (λ c. is_control c ≡ false) (strip_control_and_trim input)
unfolding strip_control_and_trim
strip_control_and_trim-not_control input = All-not_control _ (
    All-trim_by is_space (λ c. not (is_control c) ≡ true) _
      (All-filter_by (λ c. not (is_control c)) input))

-- Whatever the input and the limit, `SanitizeMessage` returns at most `max_bytes` bytes, none of them
-- a control byte, and the first of them is not whitespace.
pub sanitize_message_lem :
    (input : Bytes) (max_bytes : ℕ)
    → (length (sanitize_message input max_bytes) ≤ max_bytes)
      × All (λ c. is_control c ≡ false) (sanitize_message input max_bytes)
      × HeadNot is_space (sanitize_message input max_bytes)
unfolding sanitize_message
sanitize_message_lem input n = elim (Bool-cases (is_empty (strip_control_and_trim input))) [
  | inl e ↦ rw e (omega arith, tt, tt)
  | inr e ↦ rw e (
    length-truncate_utf8-le _ n,
    All-truncate_utf8 _ _ n (strip_control_and_trim-not_control input),
    HeadNot-truncate_utf8 is_space _ n (strip_control_and_trim-Trims input).first_is,
  )
]

-- `SanitizeNotice` returns at most `max_bytes` bytes, each a line feed or no control byte, and the
-- first of them is no blank.
sanitize_notice_lem :
    (input : Bytes) (max_bytes : ℕ)
    → (length (sanitize_notice input max_bytes) ≤ max_bytes)
      × All (λ c. is_notice_byte c ≡ true) (sanitize_notice input max_bytes)
      × HeadNot is_blank (sanitize_notice input max_bytes)
unfolding sanitize_notice
sanitize_notice_lem input n =
    let kept = filter_by is_notice_byte input in
    elim (Bool-cases (is_empty (trim_by is_blank kept))) [
      | inl e ↦ rw e (omega arith, tt, tt)
      | inr e ↦ rw e (
        length-truncate_utf8-le _ n,
        All-truncate_utf8 _ _ n (All-trim_by is_blank _ kept (All-filter_by is_notice_byte input)),
        HeadNot-truncate_utf8 is_blank _ n (trim_by-Trims is_blank kept).first_is,
      )
    ]
