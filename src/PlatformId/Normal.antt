-- ===== src/PlatformId/Normal.antt =====
-- Which texts `NormalizePlatformUserId` returns.
use palworld_pal_crosschat.Base.{
  ℕ, ◌≡◌, refl, sym, ◌⊎◌, inl, inr, Bool, true, false, not, ◌&&◌, ◌||◌, Option, none, some, [], ◌∷◌,
  ◌++◌, reverse, arith, leb, if◌then◌else◌, Bool-cases, if_both, All, All-reverse, length, is_empty,
  drop, drop_while, all, Bytes, codes, is_space, is_digit, starts_with-append, trim_by, HeadNot,
  trim_by-Trims,
}
use mathlib.Core.List.{reverse-reverse, reverse-append}
use palworld_pal_crosschat.Engine.{PlayerState, UniqueNetId, read_account_name}
use palworld_pal_crosschat.PlatformId.{
  is_digits, steam, is_platform_id, is_steam_url, classify, normalize_platform_user_id,
  resolve_via_unique_net_id, guarded_unique_net_id, resolve_platform_user_id,
}

-- An id in normal form: empty for an unknown one, or a platform's prefix on a text with no
-- whitespace at its ends.
pub record IsNormal (s : Bytes) : Type 0 where
  pub known : (s ≡ []) ⊎ (is_platform_id s ≡ true)
  pub first_is : HeadNot is_space s
  pub last_is : HeadNot is_space (reverse s)

drop_while-HeadNot : (p : ℕ → Bool) (s : Bytes) → HeadNot p s → drop_while p s ≡ s
drop_while-HeadNot p [] h = refl
drop_while-HeadNot p (c ∷ s) h = rw h

trim_by-HeadNot : (p : ℕ → Bool) (s : Bytes) → HeadNot p s → HeadNot p (reverse s) → trim_by p s ≡ s
trim_by-HeadNot p s h k =
    rw (drop_while-HeadNot p s h, drop_while-HeadNot p (reverse s) k) (reverse-reverse s)

All-of-all : (p : ℕ → Bool) (s : Bytes) → all p s ≡ true → All (λ c. p c ≡ true) s
All-of-all p [] h = tt
All-of-all p (c ∷ s) h = (ground arith, All-of-all p s (ground arith))

digits-HeadNot :
    (s t : Bytes) → All (λ c. is_digit c ≡ true) s → HeadNot is_space t → HeadNot is_space (s ++ t)
digits-HeadNot [] t h k = k
digits-HeadNot (c ∷ s) t h k = ground arith

steam-IsNormal : (s : Bytes) → is_digits s ≡ true → IsNormal (steam ++ s)
unfolding is_digits
steam-IsNormal s h = record {
  known = inr (rw (starts_with-append steam s));
  first_is = refl;
  last_is = rw (reverse-append steam s) (
      digits-HeadNot (reverse s) (reverse steam)
        (All-reverse _ s (All-of-all is_digit s (ground arith))) refl);
}

pub empty-IsNormal : IsNormal []
empty-IsNormal = record { known = inl refl; first_is = tt; last_is = tt }

classify-IsNormal :
    (s : Bytes) → HeadNot is_space s → HeadNot is_space (reverse s) → IsNormal (classify s)
unfolding classify
classify-IsNormal s h k = elim (Bool-cases (is_empty s)) [
  | inl e ↦ rw e empty-IsNormal
  | inr e ↦ elim (Bool-cases (is_platform_id s)) [
    | inl f ↦ rw (e, f) (record { known = inr f; first_is = h; last_is = k })
    | inr f ↦ elim (Bool-cases (is_steam_url s && is_digits (drop 6 s))) [
      | inl g ↦ rw (e, f, g) (steam-IsNormal (drop 6 s) (ground arith))
      | inr g ↦ elim (Bool-cases (is_digits s && leb 15 (length s))) [
        | inl d ↦ rw (e, f, g, d) (steam-IsNormal s (ground arith))
        | inr d ↦ rw (e, f, g, d) empty-IsNormal
      ]
    ]
  ]
]

pub normalize_platform_user_id-IsNormal : (raw : Bytes) → IsNormal (normalize_platform_user_id raw)
unfolding normalize_platform_user_id
normalize_platform_user_id-IsNormal raw =
    let t = trim_by-Trims is_space raw in classify-IsNormal _ t.first_is t.last_is

IsNormal-normalize : (s : Bytes) → IsNormal s → normalize_platform_user_id s ≡ s
unfolding normalize_platform_user_id classify
IsNormal-normalize s v = rw (trim_by-HeadNot is_space s v.first_is v.last_is) (elim v.known [
  | inl e ↦ rw e refl
  | inr f ↦ elim (Bool-cases (is_empty s)) [
    | inl e ↦ rw e (sym (is_empty-eq s e))
    | inr e ↦ rw (e, f) refl
  ]
])
  where
    is_empty-eq : (t : Bytes) → is_empty t ≡ true → t ≡ []
    is_empty-eq [] e = refl
    is_empty-eq (c ∷ t) e = cc

-- What `NormalizePlatformUserId` returns is in normal form, and normalising it again changes nothing.
pub normalize_platform_user_id_lem :
    (raw : Bytes)
    → IsNormal (normalize_platform_user_id raw)
      × (normalize_platform_user_id (normalize_platform_user_id raw)
          ≡ normalize_platform_user_id raw)
normalize_platform_user_id_lem raw =
    let v = normalize_platform_user_id-IsNormal raw in (v, IsNormal-normalize _ v)

digits_last :
    (id t : Bytes)
    → is_digits id ≡ true
    → HeadNot is_space (reverse t)
    → HeadNot is_space (reverse (t ++ id))
unfolding is_digits
digits_last id t h k = rw (reverse-append t id) (
    digits-HeadNot (reverse id) (reverse t)
      (All-reverse _ id (All-of-all is_digit id (ground arith))) k)

digits_first : (id : Bytes) → is_digits id ≡ true → HeadNot is_space id
unfolding is_digits
digits_first [] h = tt
digits_first (c ∷ id) h = ground arith

digits-not_id : (id : Bytes) → is_digits id ≡ true → is_platform_id id || is_steam_url id ≡ false
unfolding is_digits
digits-not_id [] h = refl
digits-not_id (c ∷ id) h = ground arith

-- The three ways to write a Steam id: a run of digits behind "Steam:" or "steam:" gets the prefix
-- "steam_" instead, and so does a bare run of at least 15 digits; a shorter bare run is no id.
normalize_steam_forms :
    (id : Bytes)
    → is_digits id ≡ true
    → (normalize_platform_user_id (codes "Steam:" ++ id) ≡ steam ++ id)
      × (normalize_platform_user_id (codes "steam:" ++ id) ≡ steam ++ id)
      × (normalize_platform_user_id id ≡ (if leb 15 (length id) then steam ++ id else []))
unfolding normalize_platform_user_id classify
normalize_steam_forms id h = (
  rw
      (
        trim_by-HeadNot is_space (codes "Steam:" ++ id) refl
            (digits_last id (codes "Steam:") h refl),
        h,
      )
      refl,
  rw
      (
        trim_by-HeadNot is_space (codes "steam:" ++ id) refl
            (digits_last id (codes "steam:") h refl),
        h,
      )
      refl,
  rw (trim_by-HeadNot is_space id (digits_first id h) (digits_last id [] h tt)) (bare id h),
)
  where
    bare :
        (s : Bytes)
        → is_digits s ≡ true
        → classify s ≡ (if leb 15 (length s) then steam ++ s else [])
    bare [] k = unfold is_digits in cc
    bare (c ∷ s) k = ground (arith, digits-not_id (c ∷ s) k)

resolve_via-IsNormal : (u : UniqueNetId) → IsNormal (resolve_via_unique_net_id u)
unfolding resolve_via_unique_net_id
resolve_via-IsNormal u =
    let zero_id = empty-IsNormal in
    if_both IsNormal (not (u.has_bp_get_unique_id || u.has_get_unique_id)) _ _ zero_id (
      if_both IsNormal (not u.has_return_property) _ _ zero_id (
        if_both IsNormal (not u.has_value) _ _ zero_id (
          if_both IsNormal (not u.has_utility) _ _ zero_id (
            if_both IsNormal (not u.has_to_string) _ _ zero_id (
              if_both IsNormal (not (u.has_user_id_property && u.has_string_property)) _ _ zero_id
                (elim u.text
                  as (λ t.
                    IsNormal (elim t [ none ↦ [] | some s ↦ normalize_platform_user_id s ])) [
                      | none ↦ empty-IsNormal
                      | some s ↦ normalize_platform_user_id-IsNormal s
                    ]))))))

guarded_unique_net_id-IsNormal : (s : Option PlayerState) → IsNormal (guarded_unique_net_id s)
unfolding guarded_unique_net_id
guarded_unique_net_id-IsNormal none = empty-IsNormal
guarded_unique_net_id-IsNormal (some p) =
    if_both IsNormal p.unique_net_id.faults _ _ empty-IsNormal
      (resolve_via-IsNormal p.unique_net_id)

-- `ResolvePlatformUserId` returns a text in normal form, whatever the game answers or where it faults.
resolve_platform_user_id-IsNormal :
    (player_state : Option PlayerState) → IsNormal (resolve_platform_user_id player_state)
unfolding resolve_platform_user_id
resolve_platform_user_id-IsNormal state =
    elim (Bool-cases (is_empty (normalize_platform_user_id (read_account_name state)))) [
      | inl e ↦ rw e (guarded_unique_net_id-IsNormal state)
      | inr e ↦ rw e (normalize_platform_user_id-IsNormal _)
    ]
