-- ===== src/Replace/OnePass.antt =====
-- The replacing loop against a substitution in one pass from left to right.
use mathlib.Core.List.{append_assoc}
use palworld_pal_crosschat.Base.{
  ℕ, zero, suc, ◌+◌, ◌-◌, ◌≤◌, ◌<◌, ◌≡◌, refl, sym, ap, ◌∙◌, ◌≢◌, ◌⊎◌, inl, inr, true, false,
  Option, none, some, [], ◌∷◌, ◌++◌, arith, if◌then◌else◌, Bool-cases, Option-cases, length,
  is_empty, take, drop, length-append, length-take, length-drop, take-append, drop-append, Bytes,
  starts_with,
}
use palworld_pal_crosschat.Replace.{find_at, replace_loop, replace_all, replace_placeholder}

-- The text with each occurrence of `from`, leftmost first and without overlap, replaced by `to`; what
-- is put in is not searched. `skip` counts the bytes of an occurrence that are still to be passed.
pub substitute : Bytes → Bytes → ℕ → Bytes → Bytes
substitute from to skip [] = []
substitute from to (suc skip) (c ∷ text) = substitute from to skip text
substitute from to zero (c ∷ text) =
    let inside = substitute from to (length from - 1) text in
    let outside = substitute from to 0 text in
    if starts_with from (c ∷ text) then to ++ inside else c ∷ outside

substitute_skip :
    (from to : Bytes) (skip : ℕ) (text : Bytes)
    → substitute from to skip text ≡ substitute from to 0 (drop skip text)
unfolding substitute
substitute_skip from to zero text = refl
substitute_skip from to (suc skip) [] = refl
substitute_skip from to (suc skip) (c ∷ text) = substitute_skip from to skip text

starts_with-le : (p s : Bytes) → starts_with p s ≡ true → length p ≤ length s
starts_with-le [] s h = omega arith
starts_with-le (c ∷ p) [] h = cc
starts_with-le (c ∷ p) (d ∷ s) h = omega (arith, starts_with-le p s (ground arith))

length-ne_nil : (s : Bytes) → s ≢ [] → 0 < length s
length-ne_nil [] h = absurd (h refl)
length-ne_nil (c ∷ s) h = omega arith

module _ (from to : Bytes) (given : from ≢ []) where
  find_at-nil : find_at from [] ≡ none
  unfolding find_at
  find_at-nil = go from given
    where
      go : (p : Bytes) → p ≢ [] → find_at p [] ≡ none
      go [] h = absurd (h refl)
      go (c ∷ p) h = refl

  not_found : (text : Bytes) → find_at from text ≡ none → substitute from to 0 text ≡ text
  unfolding find_at substitute
  not_found [] e = refl
  not_found (c ∷ text) e = ground (arith, not_found text)

  found_at :
      (text : Bytes) (k : ℕ)
      → find_at from text ≡ some k
      → (substitute from to 0 text
          ≡ take k text ++ (to ++ substitute from to 0 (drop (k + length from) text)))
        × (k + length from ≤ length text)
  unfolding find_at substitute
  found_at [] k e = cc find_at-nil
  found_at (c ∷ text) k e = elim (Bool-cases (starts_with from (c ∷ text))) [
    | inl h ↦ first k h (rw h at e)
    | inr h ↦ rest h (Option-cases (find_at from text)) (found_at text)
  ]
    where
      first :
          (j : ℕ)
          → starts_with from (c ∷ text) ≡ true
          → ◌≡◌ {A = Option ℕ} (some 0) (some j)
          → (substitute from to 0 (c ∷ text)
              ≡ take j (c ∷ text)
                ++ (to ++ substitute from to 0 (drop (j + length from) (c ∷ text))))
            × (j + length from ≤ suc (length text))
      first (suc j) h z = cc
      first zero h z =
          let n : 0 + length from ≡ suc (length from - 1) =
            omega (arith, length-ne_nil from given) in
          (
            rw (h, n) (ap (◌++◌ to) (substitute_skip from to (length from - 1) text)),
            omega (arith, starts_with-le from (c ∷ text) h),
          )

      Found : Bytes → ℕ → Type 0
      Found s j =
          (substitute from to 0 s
            ≡ take j s ++ (to ++ substitute from to 0 (drop (j + length from) s)))
          × (j + length from ≤ length s)

      rest :
          starts_with from (c ∷ text) ≡ false
          → (find_at from text ≡ none) ⊎ ((i : ℕ) × (find_at from text ≡ some i))
          → ((i : ℕ) → find_at from text ≡ some i → Found text i)
          → Found (c ∷ text) k
      rest h (inl z) ih = cc (rw (h, z) at e)
      rest h (inr (i, z)) ih =
          let at_k : k ≡ suc i = ground arith in
          let n : suc i + length from ≡ suc (i + length from) = omega arith in
          let (same, fits) = ih i z in rw (at_k, h, n) (ap (◌∷◌ c) same, omega arith)

  -- The loop, from a text whose first part is done, and with enough fuel for the rest.
  replace_loop-substitute :
      (fuel : ℕ) (done rest : Bytes)
      → length rest < fuel
      → replace_loop fuel from to (done ++ rest) (length done)
        ≡ some (done ++ substitute from to 0 rest)
  unfolding replace_loop
  replace_loop-substitute zero done rest h = elim h [ ]
  replace_loop-substitute (suc fuel) done rest h = elim (Option-cases (find_at from rest)) [
    | inl z ↦ rw (behind, z, replace_loop) (ap (λ s. some (done ++ s)) (sym (not_found rest z)))
    | inr (k, z) ↦
        rw (behind, z, replace_loop)
          (round k (found_at rest k z) (λ (d r : Bytes). replace_loop-substitute fuel d r))
  ]
    where
      zero_more : length done ≡ length done + 0
      zero_more = omega arith

      behind : drop (length done) (done ++ rest) ≡ rest
      behind = rw zero_more (drop-append done rest 0)

      round :
          (k : ℕ)
          → (substitute from to 0 rest
              ≡ take k rest ++ (to ++ substitute from to 0 (drop (k + length from) rest)))
            × (k + length from ≤ length rest)
          → ((d r : Bytes)
              → length r < fuel
              → replace_loop fuel from to (d ++ r) (length d) ≡ some (d ++ substitute from to 0 r))
          → replace_loop fuel from to
              (take (length done + k) (done ++ rest)
                ++ (to ++ drop (length done + k + length from) (done ++ rest)))
              (length done + k + length to)
            ≡ some (done ++ substitute from to 0 rest)
      round k (same, fits) ih =
          let done' : Bytes = done ++ (take k rest ++ to) in
          let rest' : Bytes = drop (k + length from) rest in
          let sum : length done + k + length from ≡ length done + (k + length from) = omega arith in
          let size : length done + k + length to ≡ length done' = omega (
            arith,
            length-append done (take k rest ++ to),
            length-append (take k rest) to,
            length-take k rest,
          ) in
          rw (take-append done rest k, sum, drop-append done rest (k + length from), size)
            (ap (λ s. replace_loop fuel from to s (length done'))
                (regroup done (take k rest) to rest')
              ∙ ih done' rest'
                  (omega (arith, length-drop (k + length from) rest, length-ne_nil from given))
              ∙ ap some (sym (regroup done (take k rest) to (substitute from to 0 rest')))
              ∙ ap some (append_assoc done (take k rest) _ ∙ ap (◌++◌ done) (sym same)))
        where
          regroup : (a b c d : Bytes) → (a ++ b) ++ (c ++ d) ≡ (a ++ (b ++ c)) ++ d
          regroup a b c d = simp append_assoc

-- `ReplaceAll` ends on every text, with each occurrence of `from`, from the left and without overlap,
-- replaced by `to`, and what is put in is not searched again; an empty `from` changes nothing.
pub replace_all-substitute :
    (text from to : Bytes)
    → (if is_empty from then some text else replace_loop (suc (length text)) from to text 0)
      ≡ some (if is_empty from then text else substitute from to 0 text)
replace_all-substitute text [] to = refl
replace_all-substitute text (c ∷ from) to =
    replace_loop-substitute (c ∷ from) to (λ e. cc) (suc (length text)) [] text (omega arith)

pub replace_all_lem :
    (text from to : Bytes)
    → replace_all text from to ≡ (if is_empty from then text else substitute from to 0 text)
unfolding replace_all
replace_all_lem text [] to = refl
replace_all_lem text (c ∷ from) to = rw (replace_all-substitute text (c ∷ from) to)

-- `ReplacePlaceholder` replaces each occurrence of the key in braces, from the left, by the value, and
-- what is put in is not searched again.
replace_placeholder_lem :
    (text key value : Bytes)
    → replace_placeholder text key value ≡ substitute (b'{' ∷ (key ++ b'}' ∷ [])) value 0 text
unfolding replace_placeholder
replace_placeholder_lem text key value =
    rw (replace_all-substitute text (b'{' ∷ (key ++ b'}' ∷ [])) value)
