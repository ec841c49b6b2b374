-- ===== src/Base/Trim.antt =====
-- What trimming returns: the text between a longest run of dropped bytes at either end.
use mathlib.Core.List.{reverse-append, reverse-reverse}
use mathlib.Core.Path.{◌≡◌, refl, sym, ap, ◌∙◌, subst}
use mathlib.Core.Bool.{Bool, true, false}
use mathlib.Core.Logic.{inl, inr}
use mathlib.Core.List.{[], ◌∷◌, ◌++◌, reverse}
use Prim.Native.Nat.{ℕ}
use palworld_pal_crosschat.Base.Tests.{Bool-cases}
use palworld_pal_crosschat.Base.Lists.{All, All-reverse, All-drop_while, drop_while}
use palworld_pal_crosschat.Base.Text.{Bytes, trim_by}

-- The first byte, if there is one, does not pass the test.
abbrev pub HeadNot : (ℕ → Bool) → Bytes → Type 0
HeadNot p [] = Unit
HeadNot p (c ∷ _) = p c ≡ false

pub record Trims (p : ℕ → Bool) (s r : Bytes) : Type 0 where
  pub before : Bytes
  pub after : Bytes
  pub before_is : All (λ c. p c ≡ true) before
  pub after_is : All (λ c. p c ≡ true) after
  pub splits : s ≡ before ++ (r ++ after)
  pub first_is : HeadNot p r
  pub last_is : HeadNot p (reverse r)

module _ (p : ℕ → Bool) where
  drop_while-splits :
      (s : Bytes)
      → (pre : Bytes) × All (λ c. p c ≡ true) pre
        × (s ≡ pre ++ drop_while p s)
        × HeadNot p (drop_while p s)
  drop_while-splits [] = ([], tt, refl, tt)
  drop_while-splits (c ∷ s) = elim (Bool-cases (p c)) [
    | inl e ↦
        let (pre, h, split, head) = drop_while-splits s in
        (c ∷ pre, (e, h), rw e (ap (◌∷◌ c) split), rw e head)
    | inr e ↦ ([], tt, rw e, rw e e)
  ]

  HeadNot-prefix : (r t : Bytes) → HeadNot p (r ++ t) → HeadNot p r
  HeadNot-prefix [] t h = tt
  HeadNot-prefix (c ∷ r) t h = h

  pub trim_by-Trims : (s : Bytes) → Trims p s (trim_by p s)
  trim_by-Trims s =
      let xs = drop_while p s in
      let (pre, hp, split, head) = drop_while-splits s in
      let (post, hq, split', head') = drop_while-splits (reverse xs) in
      let back : xs ≡ trim_by p s ++ reverse post =
        sym (reverse-reverse xs) ∙ ap reverse split' ∙ reverse-append post _ in
      record {
        before = pre;
        after = reverse post;
        before_is = hp;
        after_is = All-reverse _ post hq;
        splits = split ∙ ap (◌++◌ pre) back;
        first_is = HeadNot-prefix (trim_by p s) (reverse post) (subst (HeadNot p) back head);
        last_is = subst (HeadNot p) (sym (reverse-reverse (drop_while p (reverse xs)))) head';
      }

  -- Trimming keeps what holds of every byte.
  pub All-trim_by {κ} : (P : ℕ → Type κ) (s : Bytes) → All P s → All P (trim_by p s)
  All-trim_by P s h =
      All-reverse P _ (All-drop_while P p _ (All-reverse P _ (All-drop_while P p s h)))
