-- ===== src/Orchestra/Selector/Compile.antt =====
-- `Selector`, `CompileSelector` and its helpers. `sort.SliceStable` is insertion sort.
use atomyx.Prelude.{
  ℕ, ◌+◌, List, [], ◌∷◌, ◌++◌, Option, none, some, Bool, true, false, ◌||◌, Text, ltb,
  if◌then◌else◌, ℤ,
}
use atomyx.Orchestra.Cursor.Walk.{Cursor}
use atomyx.Orchestra.Pattern.{Pattern}
use atomyx.Orchestra.Filter.{
  ElementFilter, id_matches, text_matches, label_matches, hint_matches, value_matches, role_is,
  is_true, states_at, is_enabled, is_clickable, is_focused, intersect, nth_filter,
}

pub record Selector : Type 0 where
  pub id : Option Pattern
  pub text : Option Pattern
  pub label : Option Pattern
  pub hint : Option Pattern
  pub value : Option Pattern
  pub role : Option Text
  pub enabled : Option Bool
  pub clickable : Option Bool
  pub focused : Option Bool
  pub nth : Option ℤ

unfoldable pub given {ℓ} : {A : Type ℓ} → Option A → Bool
given none = false
given (some a) = true

unfoldable pub has_content : Selector → Bool
unfolding given
has_content s = given s.id || given s.text || given s.label || given s.hint || given s.value

-- What the code appends for a pointer that is not nil.
unfoldable pub on {ℓ κ} : {A : Type ℓ} → {B : Type κ} → Option A → (A → B) → List B
on none f = []
on (some a) f = f a ∷ []

unfoldable pub constraints : Selector → List ElementFilter
unfolding on role_is is_true is_enabled is_clickable is_focused
constraints s =
    on s.role role_is
    ++ (if is_true s.enabled then is_enabled ∷ [] else [])
    ++ (if is_true s.clickable then is_clickable ∷ [] else [])
    ++ (if is_true s.focused then is_focused ∷ [] else [])

-- The text pattern, tried on labels too when the selector has no label of its own.
unfoldable pub text_filters : Option Pattern → Option Pattern → List ElementFilter
unfolding text_matches label_matches
text_filters none label = []
text_filters (some p) none = text_matches p ∷ label_matches p ∷ []
text_filters (some p) (some q) = text_matches p ∷ []

unfoldable pub priority_filters : Selector → List ElementFilter
unfolding on id_matches label_matches text_filters value_matches hint_matches
priority_filters s =
    on s.id id_matches
    ++ on s.label label_matches
    ++ text_filters s.text s.label
    ++ on s.value value_matches
    ++ on s.hint hint_matches

unfoldable pub score_cursor : Cursor → ℕ
unfolding is_true states_at
score_cursor c =
    (if is_true ((states_at c).clickable) then 1 else 0)
    + (if is_true ((states_at c).focused) then 1 else 0)

unfoldable pub insert : Cursor → List Cursor → List Cursor
unfolding score_cursor
insert c [] = c ∷ []
insert c (d ∷ ds) =
    let rest = insert c ds in if ltb (score_cursor c) (score_cursor d) then d ∷ rest else c ∷ d ∷ ds

unfoldable pub rank_candidates : ElementFilter
unfolding insert
rank_candidates [] = []
rank_candidates (c ∷ cs) = insert c (rank_candidates cs)

unfoldable pub identity_filter : ElementFilter
identity_filter cs = cs

-- One content field with the constraints, if there are any.
unfoldable pub combined : List ElementFilter → ElementFilter → ElementFilter
unfolding intersect
combined [] content = content
combined (g ∷ gs) content = intersect (content ∷ g ∷ gs)

-- The loop over the content fields; the flag is whether the selector has an `Nth`.
unfoldable pub broadened : Bool → List ElementFilter → List ElementFilter → ElementFilter
unfolding combined rank_candidates
broadened positional gs [] cs = []
broadened positional gs (f ∷ fs) cs = elim (combined gs f cs) [
  | [] ↦ broadened positional gs fs cs
  | c ∷ rest ↦ if positional then c ∷ rest else rank_candidates (c ∷ rest)
]

unfoldable pub constraint_only : List ElementFilter → ElementFilter
unfolding identity_filter intersect
constraint_only [] = identity_filter
constraint_only (g ∷ gs) = intersect (g ∷ gs)

unfoldable pub unplaced_selector : Bool → List ElementFilter → List ElementFilter → ElementFilter
unfolding constraint_only broadened
unplaced_selector positional gs [] = constraint_only gs
unplaced_selector positional gs (f ∷ fs) = broadened positional gs (f ∷ fs)

unfoldable pub compile_selector : Selector → ElementFilter
unfolding constraints priority_filters unplaced_selector nth_filter given
compile_selector s =
    let all = unplaced_selector (given s.nth) (constraints s) (priority_filters s) in
    elim s.nth [ none ↦ all | some i ↦ nth_filter all i ]
