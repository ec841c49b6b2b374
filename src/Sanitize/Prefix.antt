-- ===== src/Sanitize/Prefix.antt =====
-- The loop guard's prefix test.
use mathlib.Core.List.{Mem, mem-cons, not-mem-nil}
use mathlib.Core.Logic.{∥∥₁_elim}
use mathlib.Core.Logic.Or
use palworld_pal_crosschat.Sanitize.{starts_with_any_prefix}
use palworld_pal_crosschat.Base.{
  ◌≡◌, refl, ◌≢◌, ◌↔◌, inl, inr, true, List, [], ◌∷◌, ◌++◌, arith, Bool-cases, Bytes, starts_with,
  starts_with-append,
}

starts_with-splits : (p s : Bytes) → starts_with p s ≡ true → (rest : Bytes) × (s ≡ p ++ rest)
starts_with-splits [] s h = (s, refl)
starts_with-splits (c ∷ p) [] h = cc
starts_with-splits (c ∷ p) (d ∷ s) h =
    let both : (c ≡ d) × (starts_with p s ≡ true) = (ground arith, ground arith) in
    let (rest, e) = starts_with-splits p s both.1 in (rest, ground arith)

pub starts_with_any_prefix-splits :
    (message : Bytes) (prefixes : List Bytes)
    → starts_with_any_prefix message prefixes ≡ true
    → (p : Bytes) × (rest : Bytes) × Mem p prefixes × (p ≢ []) × (message ≡ p ++ rest)
unfolding starts_with_any_prefix
starts_with_any_prefix-splits m [] h = cc
starts_with_any_prefix-splits m ([] ∷ ps) h =
    let (p, rest, i, n, e) = starts_with_any_prefix-splits m ps h in
    (p, rest, mem-cons.1 (Or.inr i), n, e)
starts_with_any_prefix-splits m ((c ∷ q) ∷ ps) h = elim (Bool-cases (starts_with (c ∷ q) m)) [
  | inl yes_it ↦
      let (rest, e) = starts_with-splits (c ∷ q) m yes_it in
      (c ∷ q, rest, mem-cons.1 (Or.inl refl), (λ e. cc), e)
  | inr not_it ↦
      let (p, rest, i, n, e) = starts_with_any_prefix-splits m ps (rw not_it at h) in
      (p, rest, mem-cons.1 (Or.inr i), n, e)
]

pub starts_with_any_prefix_of :
    (p rest : Bytes) (prefixes : List Bytes)
    → Mem p prefixes
    → p ≢ []
    → starts_with_any_prefix (p ++ rest) prefixes ≡ true
unfolding starts_with_any_prefix
starts_with_any_prefix_of p rest [] i n = absurd (not-mem-nil i)
starts_with_any_prefix_of p rest (q ∷ ps) i n =
    Or.elim (hlevel) (mem-cons.0 i) (λ e. rw (← e) (here_it p n))
      (λ j. later q (starts_with_any_prefix_of p rest ps j n))
  where
    here_it : (p' : Bytes) → p' ≢ [] → starts_with_any_prefix (p' ++ rest) (p' ∷ ps) ≡ true
    here_it [] n' = absurd (n' refl)
    here_it (c ∷ p') n' = rw (starts_with-append (c ∷ p') rest)

    later :
        (q' : Bytes)
        → starts_with_any_prefix (p ++ rest) ps ≡ true
        → starts_with_any_prefix (p ++ rest) (q' ∷ ps) ≡ true
    later [] h = h
    later (c ∷ q') h = ground arith

-- The test passes exactly when the message is a non-empty prefix of the list followed by any text.
starts_with_any_prefix_iff :
    (message : Bytes) (prefixes : List Bytes)
    → (starts_with_any_prefix message prefixes ≡ true)
      ↔ ∥ ((p : Bytes) × (rest : Bytes) × Mem p prefixes × (p ≢ []) × (message ≡ p ++ rest)) ∥₁
starts_with_any_prefix_iff m ps = (
  (λ h. ∣ starts_with_any_prefix-splits m ps h ∣₁),
  (λ t.
      ∥∥₁_elim t (hlevel)
        (λ s. let (p, rest, i, n, e) = s in rw e (starts_with_any_prefix_of p rest ps i n))),
)
