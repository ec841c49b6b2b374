-- ===== src/Sanitize/Truncate.antt =====
-- `TruncateUtf8` against a text given as whole characters.
use palworld_pal_crosschat.Sanitize.{is_continuation, walk_back, truncate_utf8}
use palworld_pal_crosschat.Base.{
  ℕ, zero, suc, ◌+◌, ◌-◌, ◌≤◌, ◌<◌, ◌≡◌, refl, sym, ap, ◌∙◌, subst, inl, inr, true, false, List, [],
  ◌∷◌, ◌++◌, arith, leb, if◌then◌else◌, leb→le, le→leb, Bool-cases, All, length, get_or, take,
  length-append, take-append, Bytes,
}

-- One encoded character: its lead byte, and the continuation bytes behind it.
pub record Char : Type 0 where
  pub lead : ℕ
  pub tail : Bytes
  pub lead_is : is_continuation lead ≡ false
  pub tail_is : All (λ c. is_continuation c ≡ true) tail

abbrev pub bytes_of : Char → Bytes
bytes_of c = c.lead ∷ c.tail

abbrev pub encode : List Char → Bytes
encode [] = []
encode (c ∷ cs) = bytes_of c ++ encode cs

-- The whole characters that fit into `n` bytes, from the front.
abbrev pub fitting : ℕ → List Char → List Char
fitting n [] = []
fitting n (c ∷ cs) =
    if leb (length (bytes_of c)) n then c ∷ fitting (n - length (bytes_of c)) cs else []

get_or-tail :
    (t rest : Bytes) (i : ℕ)
    → All (λ c. is_continuation c ≡ true) t
    → i < length t
    → is_continuation (get_or (t ++ rest) i 0) ≡ true
get_or-tail [] rest i h lt = elim lt [ ]
get_or-tail (c ∷ t) rest zero h lt = h.0
get_or-tail (c ∷ t) rest (suc i) h lt = get_or-tail t rest i h.1 (omega arith)

get_or-append : (p s : Bytes) (i : ℕ) → get_or (p ++ s) (length p + i) 0 ≡ get_or s i 0
get_or-append [] s i = let e : 0 + i ≡ i = omega arith in rw e refl
get_or-append (c ∷ p) s i =
    let e : suc (length p) + i ≡ suc (length p + i) = omega arith in rw e (get_or-append p s i)

-- Inside the first character every position walks back to 0.
walk_back-first :
    (c : Char) (rest : Bytes) (cut : ℕ)
    → cut < length (bytes_of c)
    → walk_back (bytes_of c ++ rest) cut ≡ 0
unfolding walk_back
walk_back-first c rest zero h = refl
walk_back-first c rest (suc cut) h =
    rw (get_or-tail c.tail rest cut c.tail_is (omega arith))
      (walk_back-first c rest cut (omega arith))

-- Behind a prefix the walk is the same, if a lead byte follows the prefix.
walk_back-append :
    (p : Bytes) (d : Char) (rest : Bytes) (cut : ℕ)
    → 0 < length p
    → walk_back (p ++ (bytes_of d ++ rest)) (length p + cut)
      ≡ length p + walk_back (bytes_of d ++ rest) cut
unfolding walk_back
walk_back-append [] d rest cut h = elim h [ ]
walk_back-append (b ∷ p) d rest zero h =
    let e : suc (length p) + 0 ≡ suc (length p) = omega arith in
    let f : length p + 0 ≡ length p = omega arith in
    rw (e, rw f at (get_or-append p (bytes_of d ++ rest) 0), d.lead_is) refl
walk_back-append (b ∷ p) d rest (suc cut) h =
    let e : suc (length p) + suc cut ≡ suc (length p + suc cut) = omega arith in
    let f : length p + suc cut ≡ suc (length p) + cut = omega arith in
    ground
      (arith, get_or-append p (bytes_of d ++ rest) (suc cut), walk_back-append (b ∷ p) d rest cut h)

fitting_all : (cs : List Char) (n : ℕ) → length (encode cs) ≤ n → fitting n cs ≡ cs
fitting_all [] n h = refl
fitting_all (c ∷ cs) n h =
    let whole = length-append (bytes_of c) (encode cs) in
    let fits : length (bytes_of c) ≤ n = omega (arith, whole) in
    let rest : length (encode cs) ≤ n - length (bytes_of c) = omega (arith, whole) in
    rw (le→leb _ _ fits) (ap (◌∷◌ c) (fitting_all cs _ rest))

take-walk_back :
    (cs : List Char) (n : ℕ)
    → n < length (encode cs)
    → take (walk_back (encode cs) n) (encode cs) ≡ encode (fitting n cs)
take-walk_back [] n h = elim h [ ]
take-walk_back (c ∷ cs) n h = elim (Bool-cases (leb (length (bytes_of c)) n)) [
  | inl fits ↦ rw fits (later cs (leb→le _ _ fits) h (take-walk_back cs (n - length (bytes_of c))))
  | inr over ↦
      let inside : n < length (bytes_of c) = ground arith in
      rw (over, walk_back-first c (encode cs) n inside) refl
]
  where
    later :
        (ds : List Char)
        → length (bytes_of c) ≤ n
        → n < length (bytes_of c ++ encode ds)
        → (n - length (bytes_of c) < length (encode ds)
            → take (walk_back (encode ds) (n - length (bytes_of c))) (encode ds)
              ≡ encode (fitting (n - length (bytes_of c)) ds))
        → take (walk_back (bytes_of c ++ encode ds) n) (bytes_of c ++ encode ds)
          ≡ bytes_of c ++ encode (fitting (n - length (bytes_of c)) ds)
    later [] le lt ih = absurd (omega (arith, length-append (bytes_of c) []))
    later (d ∷ ds) le lt ih =
        let k : ℕ = n - length (bytes_of c) in
        let e : n ≡ length (bytes_of c) + k = omega arith in
        let whole = length-append (bytes_of c) (encode (d ∷ ds)) in
        subst
          (λ m.
            take (walk_back (bytes_of c ++ encode (d ∷ ds)) m) (bytes_of c ++ encode (d ∷ ds))
            ≡ bytes_of c ++ encode (fitting k (d ∷ ds)))
          (sym e)
          (rw (walk_back-append (bytes_of c) d (encode ds) k (omega arith)) (
            take-append (bytes_of c) (encode (d ∷ ds)) (walk_back (encode (d ∷ ds)) k)
            ∙ ap (◌++◌ (bytes_of c)) (ih (omega (arith, whole)))))

-- On a text of whole characters `TruncateUtf8` keeps exactly the longest run of whole characters,
-- from the front, that fits into the limit: no character is split, and none that fits is dropped.
pub truncate_utf8-encode :
    (cs : List Char) (n : ℕ) → truncate_utf8 (encode cs) n ≡ encode (fitting n cs)
unfolding truncate_utf8
truncate_utf8-encode cs n = elim (Bool-cases (leb (length (encode cs)) n)) [
  | inl fits ↦ rw (fits, fitting_all cs n (leb→le _ _ fits)) refl
  | inr over ↦ rw over (take-walk_back cs n (ground arith))
]
