-- ===== src/Orchestra/Samples.antt =====
-- A screen, selectors on it, and the theorems on element resolution at concrete inputs.
use atomyx.Prelude.{◌≡◌, refl, List, [], ◌∷◌, map, none, some, true, false, codes, pos, All}
use atomyx.Wire.{States, TreeNode, node, nil, cons}
use atomyx.Orchestra.Fixtures.{inert}
use atomyx.Orchestra.Cursor.Walk.{Cursor, root, walk, path}
use atomyx.Orchestra.Cursor.Preorder.{preorder, walk-preorder}
use atomyx.Orchestra.Cursor.Placed.{IsPlaced, walk-IsPlaced}
use atomyx.Orchestra.Pattern.{literal}
use atomyx.Orchestra.Selector.Compile.{Selector, rank_candidates, compile_selector}
use atomyx.Orchestra.Selector.Rank.{groups, rank_candidates-groups}
use atomyx.Orchestra.Selector.Broaden.{
  constraint_tests, content_tests, candidates, answer, compile_selector-answer,
}
use atomyx.Orchestra.Selector.Selects.{
  is_selected, compile_selector-selected, compile_selector-none,
}
use atomyx.Orchestra.Overlay.{IsClear, filter_system_overlays, filter_system_overlays-IsClear}

abbrev tappable : States
tappable = record inert { clickable = some true; enabled = some true }

abbrev screen : TreeNode
screen = node [] inert (
    cons (node ((codes "text", codes "Login") ∷ []) inert nil) (
      cons
        (node ((codes "role", codes "group") ∷ []) inert (
          cons
            (node ((codes "label", codes "Login") ∷ (codes "role", codes "button") ∷ []) tappable
              nil)
            nil))
        (cons (node ((codes "text", codes "Login") ∷ []) tappable nil) nil)))

abbrev cursors : List Cursor
unfolding walk
cursors = walk screen

abbrev login : Selector
login = record {
  id = none;
  text = some (literal (codes "Login"));
  label = none;
  hint = none;
  value = none;
  role = none;
  enabled = none;
  clickable = none;
  focused = none;
  nth = none;
}

login_button : Selector
login_button = record login { role = some (codes "button"); nth = some (pos 0) }

visits : map path (walk screen) ≡ [] ∷ (0 ∷ []) ∷ (1 ∷ []) ∷ (1 ∷ 0 ∷ []) ∷ (2 ∷ []) ∷ []
unfolding walk path
visits = refl

-- The text field wins, and the element that can be tapped comes first.
tappable_first : map path (compile_selector login cursors) ≡ (2 ∷ []) ∷ (0 ∷ []) ∷ []
unfolding compile_selector cursors path
tappable_first = refl

-- No text on a button: the text pattern is tried on the labels.
falls_back : map path (compile_selector login_button cursors) ≡ (1 ∷ 0 ∷ []) ∷ []
unfolding compile_selector cursors path login_button
falls_back = refl

abbrev absent : Selector
absent = record login { text = some (literal (codes "Logout")) }

walk-preorder_example : walk screen ≡ preorder screen (root screen)
walk-preorder_example = walk-preorder screen

walk-IsPlaced_example : All (IsPlaced screen) (walk screen)
walk-IsPlaced_example = walk-IsPlaced screen

rank_candidates-groups_example : rank_candidates (walk screen) ≡ groups (walk screen)
rank_candidates-groups_example = rank_candidates-groups (walk screen)

compile_selector-answer_example :
    compile_selector login cursors
    ≡ answer none
        (content_tests login)
        (candidates (constraint_tests login) (content_tests login) cursors)
compile_selector-answer_example = compile_selector-answer login cursors

compile_selector-selected_example :
    All
      (λ c. IsPlaced screen c × (is_selected login c ≡ true))
      (compile_selector login (walk screen))
compile_selector-selected_example =
    compile_selector-selected (IsPlaced screen) login (walk screen) (walk-IsPlaced screen)

-- Nothing on the screen says "Logout".
compile_selector-none_example : All (λ c. is_selected absent c ≡ false) cursors
unfolding compile_selector cursors
compile_selector-none_example = compile_selector-none absent cursors refl refl

abbrev handle : TreeNode
handle =
    node ((codes "id", codes "com.samsung.android.app.cocktailbarservice:id/handle") ∷ []) inert nil

-- The screen under a frame with the handle of an edge panel.
abbrev framed : TreeNode
framed = node [] inert (cons handle (cons screen nil))

abbrev unframed : TreeNode
unframed = node [] inert (cons screen nil)

filter_system_overlays-IsClear_example :
    IsClear unframed × (filter_system_overlays unframed ≡ some unframed)
unfolding filter_system_overlays
filter_system_overlays-IsClear_example = filter_system_overlays-IsClear framed unframed refl
