-- ===== src/Base/Dict.antt =====
-- std::unordered_map with string keys, as an association list. Iteration follows the list, and no
-- law below depends on where an entry stands.
use mathlib.Core.Path.{◌≡◌, refl}
use mathlib.Core.Bool.{Bool, true, false}
use mathlib.Core.List.{List, [], ◌∷◌}
use mathlib.Core.Option.{Option, none, some}
use native.Mathlib.Omega.{arith}
use palworld_pal_crosschat.Base.Tests.{if◌then◌else◌, if_both, Bool-cases}
use palworld_pal_crosschat.Base.Lists.{All}
use mathlib.Core.Logic.{inl, inr}
use mathlib.Core.Path.{◌∙◌}
use palworld_pal_crosschat.Base.Text.{Bytes, str_eq, str_eq_iff}

module _ {ℓ} {V : Type ℓ} where
  unfoldable pub lookup : Bytes → List (Bytes × V) → Option V
  lookup k [] = none
  lookup k ((j, v) ∷ m) = if str_eq j k then some v else lookup k m

  -- `m[k] = v`
  unfoldable pub insert : Bytes → V → List (Bytes × V) → List (Bytes × V)
  insert k v [] = (k, v) ∷ []
  insert k v ((j, w) ∷ m) = if str_eq j k then (k, v) ∷ m else (j, w) ∷ insert k v m

  -- `m.erase(k)`
  unfoldable pub erase : Bytes → List (Bytes × V) → List (Bytes × V)
  erase k [] = []
  erase k ((j, w) ∷ m) = if str_eq j k then erase k m else (j, w) ∷ erase k m

  -- `m.contains(k)`
  unfoldable pub contains : Bytes → List (Bytes × V) → Bool
  contains k [] = false
  contains k ((j, _) ∷ m) = if str_eq j k then true else contains k m

  pub lookup-insert :
      (k j : Bytes) (v : V) (m : List (Bytes × V))
      → lookup j (insert k v m) ≡ (if str_eq k j then some v else lookup j m)
  unfolding lookup insert
  lookup-insert k j v [] = refl
  lookup-insert k j v ((i, w) ∷ m) =
      ground (arith, str_eq_iff k j, str_eq_iff i k, str_eq_iff i j, lookup-insert k j v m)

  pub lookup-erase :
      (k j : Bytes) (m : List (Bytes × V))
      → lookup j (erase k m) ≡ (if str_eq k j then none else lookup j m)
  unfolding lookup erase
  lookup-erase k j [] = ground arith
  lookup-erase k j ((i, w) ∷ m) =
      ground (arith, str_eq_iff k j, str_eq_iff i k, str_eq_iff i j, lookup-erase k j m)

  pub contains-lookup :
      (k : Bytes) (m : List (Bytes × V))
      → contains k m ≡ elim (lookup k m) [ none ↦ false | some _ ↦ true ]
  unfolding lookup contains
  contains-lookup k [] = refl
  contains-lookup k ((j, w) ∷ m) = ground (arith, contains-lookup k m)

  pub contains-insert :
      (k j : Bytes) (v : V) (m : List (Bytes × V))
      → contains j (insert k v m) ≡ (if str_eq k j then true else contains j m)
  unfolding contains insert
  contains-insert k j v [] = refl
  contains-insert k j v ((i, w) ∷ m) =
      ground (arith, str_eq_iff k j, str_eq_iff i k, str_eq_iff i j, contains-insert k j v m)

  pub contains-erase :
      (k j : Bytes) (m : List (Bytes × V))
      → contains j (erase k m) ≡ (if str_eq k j then false else contains j m)
  unfolding contains erase
  contains-erase k j [] = ground arith
  contains-erase k j ((i, w) ∷ m) =
      ground (arith, str_eq_iff k j, str_eq_iff i k, str_eq_iff i j, contains-erase k j m)

  pub erase_absent : (k : Bytes) (m : List (Bytes × V)) → contains k m ≡ false → erase k m ≡ m
  unfolding contains erase
  erase_absent k [] h = refl
  erase_absent k ((j, w) ∷ m) h = ground (arith, erase_absent k m)

  -- Each key stands once.
  abbrev pub IsDistinct : List (Bytes × V) → Type 0
  IsDistinct [] = Unit
  IsDistinct ((k, _) ∷ m) = (contains k m ≡ false) × IsDistinct m

  pub insert-IsDistinct :
      (k : Bytes) (v : V) (m : List (Bytes × V)) → IsDistinct m → IsDistinct (insert k v m)
  unfolding insert contains
  insert-IsDistinct k v [] h = (refl, tt)
  insert-IsDistinct k v ((j, w) ∷ m) h = elim (Bool-cases (str_eq j k)) [
    | inl e ↦ rw e (let same = (str_eq_iff j k).0 e in rw same at h.0, h.1)
    | inr e ↦ rw e (
      contains-insert k j v m ∙ rw h.0 (ground (arith, str_eq_iff k j, str_eq_iff j k)),
      insert-IsDistinct k v m h.1,
    )
  ]

  pub erase-IsDistinct : (k : Bytes) (m : List (Bytes × V)) → IsDistinct m → IsDistinct (erase k m)
  unfolding erase contains
  erase-IsDistinct k [] h = tt
  erase-IsDistinct k ((j, w) ∷ m) h = elim (Bool-cases (str_eq j k)) [
    | inl e ↦ rw e (erase-IsDistinct k m h.1)
    | inr e ↦ rw e (contains-erase k j m ∙ rw h.0 (ground arith), erase-IsDistinct k m h.1)
  ]

  module _ {κ} (P : Bytes × V → Type κ) where
    pub All-insert :
        (k : Bytes) (v : V) (m : List (Bytes × V)) → P (k, v) → All P m → All P (insert k v m)
    unfolding insert
    All-insert k v [] p h = (p, tt)
    All-insert k v ((j, w) ∷ m) p h =
        if_both (All P) (str_eq j k) ((k, v) ∷ m) ((j, w) ∷ insert k v m) (p, h.1)
          (h.0, All-insert k v m p h.1)

    pub All-erase : (k : Bytes) (m : List (Bytes × V)) → All P m → All P (erase k m)
    unfolding erase
    All-erase k [] h = tt
    All-erase k ((j, w) ∷ m) h =
        if_both (All P) (str_eq j k) (erase k m) ((j, w) ∷ erase k m) (All-erase k m h.1)
          (h.0, All-erase k m h.1)
