-- ===== src/Orchestra/Selector/Selects.antt =====
-- Which cursors a compiled selector returns, and when it returns none.
use atomyx.Prelude.{
  ◌≡◌, refl, ◌∙◌, sym, subst, List, [], ◌∷◌, Option, none, some, Option-cases, Bool, true, false,
  ◌&&◌, ◌||◌, ℤ, pos, negsuc, get_elem?, inl, inr, All, All-imp, All-any, All-both, All-get_elem,
  arith, ltb, Bool-cases,
}
use atomyx.Orchestra.Cursor.Walk.{Cursor}
use atomyx.Orchestra.Filter.{keep}
use atomyx.Orchestra.Filter.Keep.{all_of, keep-All, keep-none}
use atomyx.Orchestra.Selector.Compile.{
  Selector, compile_selector, insert, rank_candidates, score_cursor,
}
use atomyx.Orchestra.Selector.Rank.{rank_candidates-groups}
use atomyx.Orchestra.Selector.Broaden.{
  constraint_tests, content_tests, first_match, candidates, element_at, answer,
  compile_selector-answer,
}

-- Some test holds.
unfoldable pub any_of : List (Cursor → Bool) → Cursor → Bool
any_of [] c = false
any_of (p ∷ ps) c = p c || any_of ps c

-- A selector without a content field asks for none.
unfoldable pub content_matches : List (Cursor → Bool) → Cursor → Bool
unfolding any_of
content_matches [] c = true
content_matches (p ∷ ps) c = any_of (p ∷ ps) c

-- What satisfies the constraints and, if there are content fields, one of them.
unfoldable pub is_selected : Selector → Cursor → Bool
unfolding all_of constraint_tests content_tests content_matches
is_selected s c = all_of (constraint_tests s) c && content_matches (content_tests s) c

and-first : (a b x : Bool) → (a && b) ≡ true → (b && (a || x)) ≡ true
and-first true true x h = refl
and-first true false x h = h
and-first false b x h = grind arith

and-later : (a b x : Bool) → (b && x) ≡ true → (b && (a || x)) ≡ true
and-later true true x h = refl
and-later true false x h = h
and-later false b x h = h

and-neither : (a b x : Bool) → (a && b) ≡ false → (b && x) ≡ false → (b && (a || x)) ≡ false
and-neither true b x h g = ground (arith, h)
and-neither false b x h g = g

and-true : (a : Bool) → a ≡ true → (a && true) ≡ true
and-true true h = refl
and-true false h = h

and-false : (a : Bool) → (a && false) ≡ false
and-false true = refl
and-false false = refl

found-All :
    (Q : Cursor → Type 0) (found rest : List Cursor)
    → All Q found
    → All Q rest
    → All Q (elim found as (λ x. List Cursor) [ [] ↦ rest | c ∷ cs ↦ c ∷ cs ])
found-All Q [] rest h k = k
found-All Q (c ∷ cs) rest h k = h

first_match-All :
    (P : Cursor → Type 0) (gs ps : List (Cursor → Bool)) (cs : List Cursor)
    → All P cs
    → All (λ c. P c × ((all_of gs c && any_of ps c) ≡ true)) (first_match gs ps cs)
unfolding first_match any_of
first_match-All P gs [] cs h = tt
first_match-All P gs (p ∷ ps) cs h =
    let Q : Cursor → Type 0 = λ c. P c × ((all_of gs c && (p c || any_of ps c)) ≡ true) in
    found-All Q (keep (λ c. p c && all_of gs c) cs) (first_match gs ps cs)
      (All-imp (λ c. P c × ((p c && all_of gs c) ≡ true)) Q (keep (λ c. p c && all_of gs c) cs)
        (λ c t. (t.0, and-first (p c) (all_of gs c) (any_of ps c) t.1))
        (keep-All P (λ c. p c && all_of gs c) cs h))
      (All-imp (λ c. P c × ((all_of gs c && any_of ps c) ≡ true)) Q (first_match gs ps cs)
        (λ c t. (t.0, and-later (p c) (all_of gs c) (any_of ps c) t.1))
        (first_match-All P gs ps cs h))

found-nil :
    (found rest : List Cursor)
    → (elim found as (λ x. List Cursor) [ [] ↦ rest | c ∷ cs ↦ c ∷ cs ]) ≡ []
    → (found ≡ []) × (rest ≡ [])
found-nil [] rest h = (refl, h)
found-nil (c ∷ cs) rest h = grind arith

first_match-none :
    (gs ps : List (Cursor → Bool)) (cs : List Cursor)
    → first_match gs ps cs ≡ []
    → All (λ c. (all_of gs c && any_of ps c) ≡ false) cs
unfolding first_match any_of
first_match-none gs [] cs h =
    All-any (λ c. (all_of gs c && false) ≡ false) cs (λ c. and-false (all_of gs c))
first_match-none gs (p ∷ ps) cs h =
    let none_here = found-nil (keep (λ c. p c && all_of gs c) cs) (first_match gs ps cs) h in
    All-imp (λ c. ((p c && all_of gs c) ≡ false) × ((all_of gs c && any_of ps c) ≡ false))
      (λ c. (all_of gs c && (p c || any_of ps c)) ≡ false) cs
      (λ c t. and-neither (p c) (all_of gs c) (any_of ps c) t.0 t.1)
      (All-both (λ c. (p c && all_of gs c) ≡ false) (λ c. (all_of gs c && any_of ps c) ≡ false) cs
        (keep-none (λ c. p c && all_of gs c) cs none_here.0)
        (first_match-none gs ps cs none_here.1))

candidates-All :
    (P : Cursor → Type 0) (gs ps : List (Cursor → Bool)) (cs : List Cursor)
    → All P cs
    → All (λ c. P c × ((all_of gs c && content_matches ps c) ≡ true)) (candidates gs ps cs)
unfolding candidates content_matches
candidates-All P gs [] cs h =
    All-imp (λ c. P c × (all_of gs c ≡ true)) (λ c. P c × ((all_of gs c && true) ≡ true))
      (keep (all_of gs) cs) (λ c t. (t.0, and-true (all_of gs c) t.1)) (keep-All P (all_of gs) cs h)
candidates-All P gs (p ∷ ps) cs h = first_match-All P gs (p ∷ ps) cs h

candidates-none :
    (gs ps : List (Cursor → Bool)) (cs : List Cursor)
    → candidates gs ps cs ≡ []
    → All (λ c. (all_of gs c && content_matches ps c) ≡ false) cs
unfolding candidates content_matches
candidates-none gs [] cs h =
    All-imp (λ c. all_of gs c ≡ false) (λ c. (all_of gs c && true) ≡ false) cs (λ c e. rw e refl)
      (keep-none (all_of gs) cs h)
candidates-none gs (p ∷ ps) cs h = first_match-none gs (p ∷ ps) cs h

insert-All :
    (P : Cursor → Type 0) (c : Cursor) (cs : List Cursor) → P c → All P cs → All P (insert c cs)
unfolding insert
insert-All P c [] p h = (p, h)
insert-All P c (d ∷ ds) p (q, h) = elim (Bool-cases (ltb (score_cursor c) (score_cursor d))) [
  | inl e ↦ rw (e, insert) (q, insert-All P c ds p h)
  | inr e ↦ rw (e, insert) (p, (q, h))
]

rank_candidates-All :
    (P : Cursor → Type 0) (cs : List Cursor) → All P cs → All P (rank_candidates cs)
unfolding rank_candidates
rank_candidates-All P [] h = tt
rank_candidates-All P (c ∷ cs) (p, h) =
    insert-All P c (rank_candidates cs) p (rank_candidates-All P cs h)

insert-cons :
    (c : Cursor) (cs : List Cursor) → (d : Cursor) × (ds : List Cursor) × (insert c cs ≡ d ∷ ds)
unfolding insert
insert-cons c [] = (c, [], refl)
insert-cons c (d ∷ ds) = elim (Bool-cases (ltb (score_cursor c) (score_cursor d))) [
  | inl e ↦ (d, insert c ds, rw (e, insert) refl)
  | inr e ↦ (c, d ∷ ds, rw (e, insert) refl)
]

rank_candidates-none : (cs : List Cursor) → rank_candidates cs ≡ [] → cs ≡ []
unfolding rank_candidates
rank_candidates-none [] h = refl
rank_candidates-none (c ∷ cs) h =
    let first = insert-cons c (rank_candidates cs) in grind (arith, first.2, h)

element_at-All :
    (P : Cursor → Type 0) (i : ℤ) (cs : List Cursor) → All P cs → All P (element_at i cs)
unfolding element_at
element_at-All P (negsuc i) cs h = tt
element_at-All P (pos i) cs h =
    let Q : Option Cursor → Type 0 =
      λ o. All P (elim o as (λ x. List Cursor) [ none ↦ [] | some c ↦ c ∷ [] ]) in
    elim (Option-cases (get_elem? cs i)) [
      | inl e ↦ subst Q (sym e) tt
      | inr (c, e) ↦ subst Q (sym e) (All-get_elem P cs i c h e, tt)
    ]

answer-All :
    (P : Cursor → Type 0) (o : Option ℤ) (ps : List (Cursor → Bool)) (cs : List Cursor)
    → All P cs
    → All P (answer o ps cs)
unfolding answer
answer-All P none [] cs h = h
answer-All P none (p ∷ ps) cs h =
    subst (All P) (rank_candidates-groups cs) (rank_candidates-All P cs h)
answer-All P (some i) ps cs h = element_at-All P i cs h

answer-none : (ps : List (Cursor → Bool)) (cs : List Cursor) → answer none ps cs ≡ [] → cs ≡ []
unfolding answer
answer-none [] cs h = h
answer-none (p ∷ ps) cs h = rank_candidates-none cs (rank_candidates-groups cs ∙ h)

-- Every cursor that a compiled selector returns is one of those given (it has any property that
-- they all have), satisfies every constraint and, if the selector has a content field, one of them.
pub compile_selector-selected :
    (P : Cursor → Type 0) (s : Selector) (cs : List Cursor)
    → All P cs
    → All (λ c. P c × (is_selected s c ≡ true)) (compile_selector s cs)
unfolding is_selected
compile_selector-selected P s cs h =
    subst
      (All (λ c.
        P c × ((all_of (constraint_tests s) c && content_matches (content_tests s) c) ≡ true)))
      (sym (compile_selector-answer s cs))
      (answer-All
        (λ c. P c × ((all_of (constraint_tests s) c && content_matches (content_tests s) c) ≡ true))
        s.nth (content_tests s) (candidates (constraint_tests s) (content_tests s) cs)
        (candidates-All P (constraint_tests s) (content_tests s) cs h))

-- A selector without an index returns nothing only when no cursor is selected: the broadening
-- stops early, but never before a match.
pub compile_selector-none :
    (s : Selector) (cs : List Cursor)
    → s.nth ≡ none
    → compile_selector s cs ≡ []
    → All (λ c. is_selected s c ≡ false) cs
unfolding is_selected
compile_selector-none s cs h g =
    let gs = constraint_tests s in
    let ps = content_tests s in
    let e : answer none ps (candidates gs ps cs) ≡ [] =
      subst (λ o. answer o ps (candidates gs ps cs) ≡ []) h
        (sym (compile_selector-answer s cs) ∙ g) in
    candidates-none gs ps cs (answer-none ps (candidates gs ps cs) e)
