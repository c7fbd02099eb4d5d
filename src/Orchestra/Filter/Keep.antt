-- ===== src/Orchestra/Filter/Keep.antt =====
-- Filters by a test: what they keep, and `Intersect` of such filters.
use atomyx.Prelude.{
  ◌≡◌, refl, ap, ◌∙◌, sym, List, [], ◌∷◌, map, Bool, true, false, ◌&&◌, Bool-cases, inl, inr, All,
  arith,
}
use atomyx.Orchestra.Cursor.Walk.{Cursor}
use atomyx.Orchestra.Filter.{keep, intersect}

pub keep-true :
    (p : Cursor → Bool) (c : Cursor) (cs : List Cursor)
    → p c ≡ true
    → keep p (c ∷ cs) ≡ c ∷ keep p cs
unfolding keep
keep-true p c cs h = rw (h, keep) refl

pub keep-false :
    (p : Cursor → Bool) (c : Cursor) (cs : List Cursor) → p c ≡ false → keep p (c ∷ cs) ≡ keep p cs
unfolding keep
keep-false p c cs h = rw (h, keep) refl

pub keep-All :
    (P : Cursor → Type 0) (p : Cursor → Bool) (cs : List Cursor)
    → All P cs
    → All (λ c. P c × (p c ≡ true)) (keep p cs)
unfolding keep
keep-All P p [] hs = tt
keep-All P p (c ∷ cs) (h, hs) = elim (Bool-cases (p c)) [
  | inl e ↦ rw (keep-true p c cs e) ((h, e), keep-All P p cs hs)
  | inr e ↦ rw (keep-false p c cs e) (keep-All P p cs hs)
]

pub keep-none : (p : Cursor → Bool) (cs : List Cursor) → keep p cs ≡ [] → All (λ c. p c ≡ false) cs
keep-none p [] h = tt
keep-none p (c ∷ cs) h = elim (Bool-cases (p c)) [
  | inl e ↦ grind (arith, keep-true p c cs e, h)
  | inr e ↦ (e, keep-none p cs (sym (keep-false p c cs e) ∙ h))
]

pub keep-keep :
    (p q : Cursor → Bool) (cs : List Cursor) → keep q (keep p cs) ≡ keep (λ c. p c && q c) cs
unfolding keep
keep-keep p q [] = refl
keep-keep p q (c ∷ cs) =
    let rec = keep-keep p q cs in
    elim (Bool-cases (p c)) [
      | inl e ↦ rw e (elim (Bool-cases (q c)) [
        | inl f ↦ rw (f, keep) (ap (λ l. c ∷ l) rec)
        | inr f ↦ rw (f, keep) rec
      ])
      | inr e ↦ rw e rec
    ]

-- Every test holds.
unfoldable pub all_of : List (Cursor → Bool) → Cursor → Bool
all_of [] c = true
all_of (p ∷ ps) c = p c && all_of ps c

intersect-nil : (ps : List (Cursor → Bool)) → intersect (map keep ps) [] ≡ []
unfolding intersect keep
intersect-nil [] = refl
intersect-nil (p ∷ ps) = refl

-- To go on with an empty list would give the same.
intersect-cut :
    (ps : List (Cursor → Bool)) (cs : List Cursor)
    → (elim cs as (λ r. List Cursor) [ [] ↦ [] | c ∷ rest ↦ intersect (map keep ps) (c ∷ rest) ])
      ≡ intersect (map keep ps) cs
intersect-cut ps [] = sym (intersect-nil ps)
intersect-cut ps (c ∷ cs) = refl

pub keep-all : (cs : List Cursor) → keep (λ c. true) cs ≡ cs
unfolding keep
keep-all [] = refl
keep-all (c ∷ cs) = ap (λ l. c ∷ l) (keep-all cs)

-- `Intersect` keeps what every one of its filters keeps; cutting an empty result short, it loses
-- nothing.
pub intersect-keep :
    (ps : List (Cursor → Bool)) (cs : List Cursor)
    → intersect (map keep ps) cs ≡ keep (all_of ps) cs
unfolding intersect keep all_of
intersect-keep [] cs = sym (keep-all cs)
intersect-keep (p ∷ ps) cs =
    intersect-cut ps (keep p cs) ∙ intersect-keep ps (keep p cs) ∙ keep-keep p (all_of ps) cs
