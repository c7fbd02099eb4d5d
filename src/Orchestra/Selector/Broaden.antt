-- ===== src/Orchestra/Selector/Broaden.antt =====
-- What a compiled selector returns, against a description by tests on single cursors.
use atomyx.Prelude.{
  ◌≡◌, refl, ap, ap₂, ◌∙◌, sym, List, [], ◌∷◌, ◌++◌, map, Option, none, some, Bool, true, false,
  ◌&&◌, codes, if◌then◌else◌, ℤ, pos, negsuc, get_elem?, map-append,
}
use atomyx.Orchestra.Cursor.Walk.{Cursor}
use atomyx.Orchestra.Pattern.{Pattern}
use atomyx.Orchestra.Filter.{
  ElementFilter, keep, has_attr, has_role, is_true, states_at, nth_filter, id_matches, text_matches,
  label_matches, hint_matches, value_matches, by_attr, role_is, is_enabled, is_clickable,
  is_focused,
}
use atomyx.Orchestra.Filter.Keep.{all_of, intersect-keep, keep-keep, keep-all}
use atomyx.Orchestra.Selector.Compile.{
  Selector, given, on, constraints, text_filters, priority_filters, rank_candidates, combined,
  broadened, constraint_only, unplaced_selector, compile_selector, identity_filter,
}
use atomyx.Orchestra.Selector.Rank.{groups, rank_candidates-groups}

-- What the constraints ask of a cursor.
unfoldable pub constraint_tests : Selector → List (Cursor → Bool)
unfolding on has_role is_true states_at
constraint_tests s =
    on s.role has_role
    ++ (if is_true s.enabled then (λ c. is_true ((states_at c).enabled)) ∷ [] else [])
    ++ (if is_true s.clickable then (λ c. is_true ((states_at c).clickable)) ∷ [] else [])
    ++ (if is_true s.focused then (λ c. is_true ((states_at c).focused)) ∷ [] else [])

unfoldable pub text_tests : Option Pattern → Option Pattern → List (Cursor → Bool)
unfolding has_attr
text_tests none label = []
text_tests (some p) none = has_attr (codes "text") p ∷ has_attr (codes "label") p ∷ []
text_tests (some p) (some q) = has_attr (codes "text") p ∷ []

-- What the content fields ask, in the order of their priority.
unfoldable pub content_tests : Selector → List (Cursor → Bool)
unfolding on has_attr text_tests
content_tests s =
    on s.id (has_attr (codes "id"))
    ++ on s.label (has_attr (codes "label"))
    ++ text_tests s.text s.label
    ++ on s.value (has_attr (codes "value"))
    ++ on s.hint (has_attr (codes "hint"))

map-join :
    (ps qs : List (Cursor → Bool)) {fs gs : List ElementFilter}
    → map keep ps ≡ fs
    → map keep qs ≡ gs
    → map keep (ps ++ qs) ≡ fs ++ gs
map-join ps qs h k = map-append keep ps qs ∙ ap₂ (λ l m. l ++ m) h k

map-on {ℓ} :
    {A : Type ℓ} (o : Option A) (f : A → Cursor → Bool) → map keep (on o f) ≡ on o (λ a. keep (f a))
unfolding on
map-on none f = refl
map-on (some a) f = refl

map-if :
    (b : Bool) (p : Cursor → Bool)
    → map keep (if b then p ∷ [] else []) ≡ (if b then keep p ∷ [] else [])
map-if true p = refl
map-if false p = refl

map-text : (p q : Option Pattern) → map keep (text_tests p q) ≡ text_filters p q
unfolding text_tests text_filters text_matches label_matches by_attr
map-text none q = refl
map-text (some p) none = refl
map-text (some p) (some q) = refl

constraints-tests : (s : Selector) → constraints s ≡ map keep (constraint_tests s)
unfolding constraints constraint_tests role_is is_enabled is_clickable is_focused
constraints-tests s = sym (
    map-join _ _
      (map-join _ _
        (map-join _ _ (map-on s.role has_role)
          (map-if (is_true s.enabled) (λ c. is_true ((states_at c).enabled))))
        (map-if (is_true s.clickable) (λ c. is_true ((states_at c).clickable))))
      (map-if (is_true s.focused) (λ c. is_true ((states_at c).focused))))

priority_filters-tests : (s : Selector) → priority_filters s ≡ map keep (content_tests s)
unfolding priority_filters content_tests id_matches label_matches value_matches hint_matches by_attr
priority_filters-tests s = sym (
    map-join _ _
      (map-join _ _
        (map-join _ _
          (map-join _ _ (map-on s.id (has_attr (codes "id")))
            (map-on s.label (has_attr (codes "label"))))
          (map-text s.text s.label))
        (map-on s.value (has_attr (codes "value"))))
      (map-on s.hint (has_attr (codes "hint"))))

combined-keep :
    (gs : List (Cursor → Bool)) (p : Cursor → Bool) (cs : List Cursor)
    → combined (map keep gs) (keep p) cs ≡ keep (λ c. p c && all_of gs c) cs
unfolding combined all_of
combined-keep [] p cs = sym (keep-all (keep p cs)) ∙ keep-keep p (λ c. true) cs
combined-keep (g ∷ gs) p cs = intersect-keep (p ∷ g ∷ gs) cs

-- The cursors of the first content field that any cursor satisfies together with the constraints.
unfoldable pub first_match : List (Cursor → Bool) → List (Cursor → Bool) → ElementFilter
unfolding keep all_of
first_match gs [] cs = []
first_match gs (p ∷ ps) cs = elim (keep (λ c. p c && all_of gs c) cs) [
  | [] ↦ first_match gs ps cs
  | c ∷ rest ↦ c ∷ rest
]

-- One round of the loop, on what the round's filter keeps.
round :
    (positional : Bool) (found rest rest' : List Cursor)
    → rest ≡ (if positional then rest' else rank_candidates rest')
    → (elim found as (λ l. List Cursor) [
      | [] ↦ rest
      | c ∷ cs ↦ if positional then c ∷ cs else rank_candidates (c ∷ cs)
    ])
      ≡ (let out : List Cursor = elim found as (λ l. List Cursor) [
        | [] ↦ rest'
        | c ∷ cs ↦ c ∷ cs
      ] in
          if positional then out else rank_candidates out)
round positional [] rest rest' h = h
round positional (c ∷ cs) rest rest' h = refl

broadened-first_match :
    (positional : Bool) (gs ps : List (Cursor → Bool)) (cs : List Cursor)
    → broadened positional (map keep gs) (map keep ps) cs
      ≡ (if positional then first_match gs ps cs else rank_candidates (first_match gs ps cs))
unfolding broadened first_match rank_candidates
broadened-first_match true gs [] cs = refl
broadened-first_match false gs [] cs = refl
broadened-first_match positional gs (p ∷ ps) cs =
    rw (combined-keep gs p cs, broadened)
      (round positional (keep (λ c. p c && all_of gs c) cs)
        (broadened positional (map keep gs) (map keep ps) cs) (first_match gs ps cs)
        (broadened-first_match positional gs ps cs))

-- Which cursors are in question before `Nth` or the ranking.
unfoldable pub candidates : List (Cursor → Bool) → List (Cursor → Bool) → ElementFilter
unfolding keep all_of first_match
candidates gs [] cs = keep (all_of gs) cs
candidates gs (p ∷ ps) cs = first_match gs (p ∷ ps) cs

unfoldable pub element_at : ℤ → List Cursor → List Cursor
element_at (pos i) cs = elim (get_elem? cs i) [ none ↦ [] | some c ↦ c ∷ [] ]
element_at (negsuc i) cs = []

-- An index picks one candidate; without one, the candidates of a content field come in groups.
unfoldable pub answer : Option ℤ → List (Cursor → Bool) → List Cursor → List Cursor
unfolding element_at groups
answer none [] cs = cs
answer none (p ∷ ps) cs = groups cs
answer (some i) ps cs = element_at i cs

constraint_only-keep :
    (gs : List (Cursor → Bool)) (cs : List Cursor)
    → constraint_only (map keep gs) cs ≡ keep (all_of gs) cs
unfolding constraint_only identity_filter all_of
constraint_only-keep [] cs = sym (keep-all cs)
constraint_only-keep (g ∷ gs) cs = intersect-keep (g ∷ gs) cs

unplaced_selector-positional :
    (gs ps : List (Cursor → Bool)) (cs : List Cursor)
    → unplaced_selector true (map keep gs) (map keep ps) cs ≡ candidates gs ps cs
unfolding unplaced_selector candidates
unplaced_selector-positional gs [] cs = constraint_only-keep gs cs
unplaced_selector-positional gs (p ∷ ps) cs = broadened-first_match true gs (p ∷ ps) cs

nth_filter-element_at :
    (f : ElementFilter) (i : ℤ) (cs : List Cursor) → nth_filter f i cs ≡ element_at i (f cs)
unfolding nth_filter element_at
nth_filter-element_at f (pos i) cs = refl
nth_filter-element_at f (negsuc i) cs = refl

placed-answer :
    (o : Option ℤ) (gs ps : List (Cursor → Bool)) (cs : List Cursor)
    → (let all : ElementFilter = unplaced_selector (given o) (map keep gs) (map keep ps) in
          elim o as (λ x. ElementFilter) [ none ↦ all | some i ↦ nth_filter all i ])
        cs
      ≡ answer o ps (candidates gs ps cs)
unfolding answer given candidates unplaced_selector
placed-answer none gs [] cs = constraint_only-keep gs cs
placed-answer none gs (p ∷ ps) cs =
    broadened-first_match false gs (p ∷ ps) cs ∙ rank_candidates-groups (first_match gs (p ∷ ps) cs)
placed-answer (some i) gs ps cs =
    nth_filter-element_at (unplaced_selector true (map keep gs) (map keep ps)) i cs
    ∙ ap (element_at i) (unplaced_selector-positional gs ps cs)

-- A compiled selector takes the cursors of its first content field, in priority order, that some
-- cursor satisfies together with the constraints (without a content field: all that satisfy the
-- constraints), and returns the one at its index or, without an index, the more marked ones first.
pub compile_selector-answer :
    (s : Selector) (cs : List Cursor)
    → compile_selector s cs
      ≡ answer s.nth (content_tests s) (candidates (constraint_tests s) (content_tests s) cs)
unfolding compile_selector
compile_selector-answer s cs =
    ap₂
      (λ gs fs.
        (let all : ElementFilter = unplaced_selector (given s.nth) gs fs in
            elim s.nth as (λ x. ElementFilter) [ none ↦ all | some i ↦ nth_filter all i ])
          cs)
      (constraints-tests s) (priority_filters-tests s)
    ∙ placed-answer s.nth (constraint_tests s) (content_tests s) cs
