-- ===== src/Orchestra/Wait/Input.antt =====
-- core/internal/orchestra/wait.go: what the waits read off a screen: the keyboard, the focus, inputs.
use atomyx.Prelude.{
  List, [], ◌∷◌, Option, none, some, Bool, true, false, not, ◌&&◌, ◌||◌, Text, codes, text_eq, ◌==◌,
  if◌then◌else◌, length,
}
use atomyx.Wire.{TreeNode}
use atomyx.Orchestra.Cursor.Walk.{Cursor, walk}
use atomyx.Orchestra.Filter.{ElementFilter, keep, is_true, states_at}
use atomyx.Orchestra.Bounds.{Bounds, Coordinates, parse_bounds, bounds_intersect}
use atomyx.Orchestra.Obscurement.{attribute}

-- The first of the cursors that passes a test.
unfoldable pub first_that : (Cursor → Bool) → List Cursor → Option Cursor
first_that test [] = none
first_that test (c ∷ cs) = let rest = first_that test cs in if test c then some c else rest

unfoldable pub is_keyboard_node : Cursor → Bool
unfolding attribute text_eq
is_keyboard_node c =
    text_eq (attribute (codes "role") c) (codes "keyboard")
    || text_eq (attribute (codes "ext:isIme") c) (codes "true")

unfoldable pub find_keyboard_node : TreeNode → Option Cursor
unfolding first_that is_keyboard_node walk
find_keyboard_node tree = first_that is_keyboard_node (walk tree)

unfoldable pub reports_focus : Cursor → Bool
unfolding is_true states_at
reports_focus c = is_true ((states_at c).focused)

unfoldable pub find_focused_node : TreeNode → Option Cursor
unfolding first_that reports_focus walk
find_focused_node tree = first_that reports_focus (walk tree)

unfoldable pub is_input_role : Text → Bool
unfolding text_eq
is_input_role role =
    text_eq role (codes "text-field")
    || text_eq role (codes "secure-text-field")
    || text_eq role (codes "search-field")

unfoldable pub has_typed_change : (actual label : Text) → Bool
unfolding text_eq
has_typed_change [] label = false
has_typed_change (c ∷ s) label = not (text_eq (c ∷ s) label)

unfoldable pub matches_input_expectation : (expected : Text) → Cursor → Bool
unfolding attribute text_eq has_typed_change
matches_input_expectation expected c =
    let actual = attribute (codes "text") c in
    let label = attribute (codes "label") c in
    if text_eq (attribute (codes "role") c) (codes "secure-text-field")
    then length actual == length expected || has_typed_change actual label
    else text_eq actual expected || has_typed_change actual label

unfoldable pub on_text : (Text → Bool) → Cursor → Bool
unfolding attribute
on_text matches c = matches (attribute (codes "text") c)

unfoldable pub match_text : Text → Text → Bool
unfolding text_eq
match_text expected actual = text_eq actual expected

pub record KeyboardState (A : Type 0) : Type 0 where
  pub visible : Bool
  pub bounds : Option (Bounds A)

-- Of float64, what `areaOf` uses beyond the comparisons; `max_safe_integer` is its constant.
pub record Products (A : Type 0) : Type 0 where
  pub sub : A → A → A
  pub mul : A → A → A
  pub max_safe_integer : A

module _ {A : Type 0} (ops : Coordinates A) where
  unfoldable pub bounds_attr : Cursor → Option (Bounds A)
  unfolding attribute parse_bounds
  bounds_attr c = parse_bounds ops (attribute (codes "bounds") c)

  unfoldable pub read_keyboard_state : TreeNode → KeyboardState A
  unfolding find_keyboard_node bounds_attr
  read_keyboard_state tree = elim (find_keyboard_node tree) [
    | none ↦ record { visible = false; bounds = none }
    | some kb ↦ record { visible = true; bounds = bounds_attr kb }
  ]

  -- `==` on the bounds: two numbers are equal where each is at most the other.
  unfoldable pub same_bounds : Bounds A → Bounds A → Bool
  same_bounds a b =
      ops.le a.left b.left
      && ops.le b.left a.left
      && ops.le a.top b.top
      && ops.le b.top a.top
      && ops.le a.right b.right
      && ops.le b.right a.right
      && ops.le a.bottom b.bottom
      && ops.le b.bottom a.bottom

  unfoldable pub meets : Bounds A → Cursor → Bool
  unfolding bounds_attr bounds_intersect
  meets b c = elim (bounds_attr c) [ none ↦ false | some cb ↦ bounds_intersect ops cb b ]

  unfoldable pub holds_focus : Bounds A → Cursor → Bool
  unfolding bounds_attr same_bounds bounds_intersect
  holds_focus b c = elim (bounds_attr c) [
    | none ↦ false
    | some cb ↦ same_bounds cb b || bounds_intersect ops cb b
  ]

  unfoldable pub focused_target : ElementFilter → TreeNode → Option Cursor
  unfolding find_focused_node bounds_attr first_that holds_focus walk
  focused_target filter tree = elim (find_focused_node tree) [
    | none ↦ none
    | some focused ↦ elim (bounds_attr focused) [
      | none ↦ none
      | some b ↦ first_that (holds_focus b) (filter (walk tree))
    ]
  ]

  unfoldable pub any_that : (Cursor → Bool) → List Cursor → Bool
  any_that test [] = false
  any_that test (c ∷ cs) = test c || any_that test cs

  unfoldable pub is_input_ready : ElementFilter → TreeNode → Bool
  unfolding find_focused_node bounds_attr any_that meets walk read_keyboard_state
  is_input_ready filter tree = elim (find_focused_node tree) [
    | none ↦ (read_keyboard_state tree).visible
    | some focused ↦ elim (bounds_attr focused) [
      | none ↦ false
      | some b ↦ any_that (meets b) (filter (walk tree))
    ]
  ]

  unfoldable pub is_anchored_input : Bounds A → Cursor → Bool
  unfolding is_input_role attribute meets
  is_anchored_input anchor c = is_input_role (attribute (codes "role") c) && meets anchor c

  module _ (products : Products A) where
    unfoldable pub area_of : Cursor → A
    unfolding bounds_attr
    area_of c = elim (bounds_attr c) [
      | none ↦ products.max_safe_integer
      | some b ↦ products.mul (products.sub b.right b.left) (products.sub b.bottom b.top)
    ]

    -- `sort.SliceStable` by area, as insertion.
    unfoldable pub insert_by_area : Cursor → List Cursor → List Cursor
    unfolding area_of
    insert_by_area c [] = c ∷ []
    insert_by_area c (d ∷ ds) =
        let rest = insert_by_area c ds in
        if ops.lt (area_of d) (area_of c) then d ∷ rest else c ∷ d ∷ ds

    unfoldable pub sort_by_area : List Cursor → List Cursor
    unfolding insert_by_area
    sort_by_area [] = []
    sort_by_area (c ∷ cs) = insert_by_area c (sort_by_area cs)

    unfoldable pub find_anchored_input_with_value :
        (anchor : Bounds A) → (expected : Text) → TreeNode → Option Cursor
    unfolding first_that matches_input_expectation sort_by_area keep is_anchored_input walk
    find_anchored_input_with_value anchor expected tree =
        first_that (matches_input_expectation expected)
          (sort_by_area (keep (is_anchored_input anchor) (walk tree)))
