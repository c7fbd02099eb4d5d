-- ===== src/Orchestra/Selector/Rank.antt =====
-- The order that `rankCandidates` leaves the cursors in.
use atomyx.Prelude.{
  ◌+◌, if◌then◌else◌, lt→ltb, le→ltb, ℕ, ◌≤◌, ◌<◌, ◌≡◌, refl, ap, ◌∙◌, List, [], ◌∷◌, ◌++◌, ◌⊎◌,
  inl, inr, Bool, true, false, ◌==◌, Bool-cases, All, All-append, All-imp, arith, ==_iff,
}
use atomyx.Orchestra.Cursor.Walk.{Cursor}
use atomyx.Orchestra.Filter.{keep, is_true, states_at}
use atomyx.Orchestra.Filter.Keep.{keep-true, keep-false}
use atomyx.Orchestra.Selector.Compile.{score_cursor, insert, rank_candidates}

insert-past :
    (c : Cursor) (ds es : List Cursor)
    → All (λ d. score_cursor c < score_cursor d) ds
    → insert c (ds ++ es) ≡ ds ++ insert c es
unfolding insert
insert-past c [] es h = refl
insert-past c (d ∷ ds) es (h, hs) =
    rw (lt→ltb (score_cursor c) (score_cursor d) h) (ap (λ l. d ∷ l) (insert-past c ds es hs))

insert-here :
    (c : Cursor) (ds : List Cursor)
    → All (λ d. score_cursor d ≤ score_cursor c) ds
    → insert c ds ≡ c ∷ ds
unfolding insert
insert-here c [] h = refl
insert-here c (d ∷ ds) (h, hs) = rw (le→ltb (score_cursor d) (score_cursor c) h) refl

-- The cursors with a score, in the order given.
unfoldable pub with_score : ℕ → List Cursor → List Cursor
unfolding keep
with_score k = keep (λ c. score_cursor c == k)

marks-cases :
    (a b : Bool)
    → let score : ℕ = (if a then 1 else 0) + (if b then 1 else 0) in
      (score ≡ 2) ⊎ ((score ≡ 1) ⊎ (score ≡ 0))
marks-cases true true = inl refl
marks-cases true false = inr (inl refl)
marks-cases false true = inr (inl refl)
marks-cases false false = inr (inr refl)

score_cursor-cases :
    (c : Cursor) → (score_cursor c ≡ 2) ⊎ ((score_cursor c ≡ 1) ⊎ (score_cursor c ≡ 0))
unfolding score_cursor
score_cursor-cases c =
    marks-cases (is_true ((states_at c).clickable)) (is_true ((states_at c).focused))

with_score-here :
    (k : ℕ) (c : Cursor) (cs : List Cursor)
    → score_cursor c ≡ k
    → with_score k (c ∷ cs) ≡ c ∷ with_score k cs
unfolding with_score
with_score-here k c cs h =
    keep-true (λ d. score_cursor d == k) c cs ((==_iff (score_cursor c) k).1 h)

with_score-past :
    (k : ℕ) (c : Cursor) (cs : List Cursor)
    → (score_cursor c == k) ≡ false
    → with_score k (c ∷ cs) ≡ with_score k cs
unfolding with_score
with_score-past k c cs h = keep-false (λ d. score_cursor d == k) c cs h

with_score-All : (k : ℕ) (cs : List Cursor) → All (λ c. score_cursor c ≡ k) (with_score k cs)
unfolding with_score keep
with_score-All k [] = tt
with_score-All k (c ∷ cs) =
    let rec = with_score-All k cs in
    elim (Bool-cases (score_cursor c == k)) [
      | inl e ↦
          rw (with_score-here k c cs ((==_iff (score_cursor c) k).0 e))
            ((==_iff (score_cursor c) k).0 e, rec)
      | inr e ↦ rw (with_score-past k c cs e) rec
    ]

with_score-below :
    (k j : ℕ) (c : Cursor) (cs : List Cursor)
    → score_cursor c ≡ k
    → j ≤ k
    → All (λ d. score_cursor d ≤ score_cursor c) (with_score j cs)
with_score-below k j c cs h g =
    All-imp (λ d. score_cursor d ≡ j) (λ d. score_cursor d ≤ score_cursor c) (with_score j cs)
      (λ d e. omega (arith, e, h, g)) (with_score-All j cs)

with_score-above :
    (k j : ℕ) (c : Cursor) (cs : List Cursor)
    → score_cursor c ≡ k
    → k < j
    → All (λ d. score_cursor c < score_cursor d) (with_score j cs)
with_score-above k j c cs h g =
    All-imp (λ d. score_cursor d ≡ j) (λ d. score_cursor c < score_cursor d) (with_score j cs)
      (λ d e. omega (arith, e, h, g)) (with_score-All j cs)

with_score-other :
    (k j : ℕ) (c : Cursor) (cs : List Cursor)
    → score_cursor c ≡ k
    → (k == j) ≡ false
    → with_score j (c ∷ cs) ≡ with_score j cs
with_score-other k j c cs h g = with_score-past j c cs (rw h g)

-- The three groups, in the order that they come to stand in.
unfoldable pub groups : List Cursor → List Cursor
unfolding with_score
groups cs = with_score 2 cs ++ (with_score 1 cs ++ with_score 0 cs)

insert-both :
    (c : Cursor) (cs : List Cursor) → score_cursor c ≡ 2 → insert c (groups cs) ≡ groups (c ∷ cs)
unfolding groups
insert-both c cs h =
    rw
      (with_score-here 2 c cs h, with_score-other 2 1 c cs h refl, with_score-other 2 0 c cs h refl)
      (insert-here c (groups cs) (
        All-append (λ d. score_cursor d ≤ score_cursor c) (with_score 2 cs)
          (with_score 1 cs ++ with_score 0 cs) (with_score-below 2 2 c cs h (omega arith))
          (All-append (λ d. score_cursor d ≤ score_cursor c) (with_score 1 cs) (with_score 0 cs)
            (with_score-below 2 1 c cs h (omega arith))
            (with_score-below 2 0 c cs h (omega arith)))))

insert-one :
    (c : Cursor) (cs : List Cursor) → score_cursor c ≡ 1 → insert c (groups cs) ≡ groups (c ∷ cs)
unfolding groups
insert-one c cs h =
    rw
      (with_score-here 1 c cs h, with_score-other 1 2 c cs h refl, with_score-other 1 0 c cs h refl)
      (insert-past c (with_score 2 cs) (with_score 1 cs ++ with_score 0 cs)
          (with_score-above 1 2 c cs h (omega arith))
        ∙ ap (λ l. with_score 2 cs ++ l)
            (insert-here c (with_score 1 cs ++ with_score 0 cs) (
              All-append (λ d. score_cursor d ≤ score_cursor c) (with_score 1 cs) (with_score 0 cs)
                (with_score-below 1 1 c cs h (omega arith))
                (with_score-below 1 0 c cs h (omega arith)))))

insert-neither :
    (c : Cursor) (cs : List Cursor) → score_cursor c ≡ 0 → insert c (groups cs) ≡ groups (c ∷ cs)
unfolding groups
insert-neither c cs h =
    rw
      (with_score-here 0 c cs h, with_score-other 0 2 c cs h refl, with_score-other 0 1 c cs h refl)
      (insert-past c (with_score 2 cs) (with_score 1 cs ++ with_score 0 cs)
          (with_score-above 0 2 c cs h (omega arith))
        ∙ ap (λ l. with_score 2 cs ++ l)
            (insert-past c (with_score 1 cs) (with_score 0 cs)
                (with_score-above 0 1 c cs h (omega arith))
              ∙ ap (λ l. with_score 1 cs ++ l)
                  (insert-here c (with_score 0 cs) (with_score-below 0 0 c cs h (omega arith)))))

-- `rankCandidates` puts the cursors with both marks first, then those with one, then those with
-- none, and each group keeps the order it had.
pub rank_candidates-groups : (cs : List Cursor) → rank_candidates cs ≡ groups cs
unfolding rank_candidates groups with_score keep
rank_candidates-groups [] = refl
rank_candidates-groups (c ∷ cs) =
    ap (insert c) (rank_candidates-groups cs) ∙ elim (score_cursor-cases c) [
      | inl e ↦ insert-both c cs e
      | inr (inl e) ↦ insert-one c cs e
      | inr (inr e) ↦ insert-neither c cs e
    ]
