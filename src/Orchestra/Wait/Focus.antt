-- ===== src/Orchestra/Wait/Focus.antt =====
-- core/internal/orchestra/wait.go: which element `WaitForFocus` picks.
use atomyx.Prelude.{◌≡◌, refl, Option, none, some, true, IsOneOf, All-IsOneOf, arith}
use atomyx.Wire.{TreeNode}
use atomyx.Orchestra.Cursor.Walk.{Cursor, walk}
use atomyx.Orchestra.Bounds.{Bounds, Coordinates}
use atomyx.Orchestra.Selector.Compile.{Selector, compile_selector}
use atomyx.Orchestra.Selector.Selects.{is_selected, compile_selector-selected}
use atomyx.Orchestra.Wait.Input.{
  focused_target, find_focused_node, bounds_attr, holds_focus, reports_focus, first_that,
}
use atomyx.Orchestra.Wait.Smallest.{first_that-All}

-- A cursor of a tree is selected, and its bounds are those of an element that has the focus, or meet
-- them.
pub record HoldsFocus {A : Type 0} (ops : Coordinates A) (selector : Selector) (tree : TreeNode)
    (c : Cursor) : Type 0 where
  pub in_tree : IsOneOf (walk tree) c
  pub selected : is_selected selector c ≡ true
  pub focused : Cursor
  pub focused_in_tree : IsOneOf (walk tree) focused
  pub focused_reports : reports_focus focused ≡ true
  pub bounds : Bounds A
  pub focused_bounds : bounds_attr ops focused ≡ some bounds
  pub at_focus : holds_focus ops bounds c ≡ true

module _ {A : Type 0} (ops : Coordinates A) (selector : Selector) (tree : TreeNode)
    (c : Cursor) where
  target-HoldsFocus :
      (focused : Option Cursor) (bounds : Option (Bounds A))
      → find_focused_node tree ≡ focused
      → elim focused [ none ↦ none | some f ↦ bounds_attr ops f ] ≡ bounds
      → elim bounds [
        | none ↦ none
        | some b ↦ first_that (holds_focus ops b) (compile_selector selector (walk tree))
      ]
        ≡ some c
      → HoldsFocus ops selector tree c
  unfolding find_focused_node
  target-HoldsFocus none none f b e = grind arith
  target-HoldsFocus none (some b) f h e = grind (arith, h)
  target-HoldsFocus (some f) none g b e = grind arith
  target-HoldsFocus (some f) (some b) found at e =
      let of_tree = All-IsOneOf (walk tree) in
      let focus = first_that-All (IsOneOf (walk tree)) reports_focus (walk tree) f of_tree found in
      let target =
        first_that-All _ (holds_focus ops b) (compile_selector selector (walk tree)) c
          (compile_selector-selected (IsOneOf (walk tree)) selector (walk tree) of_tree) e in
      record {
        in_tree = target.0.0;
        selected = target.0.1;
        focused = f;
        focused_in_tree = focus.0;
        focused_reports = focus.1;
        bounds = b;
        focused_bounds = at;
        at_focus = target.1;
      }

  pub focused_target-HoldsFocus :
      focused_target ops (compile_selector selector) tree ≡ some c → HoldsFocus ops selector tree c
  unfolding focused_target
  focused_target-HoldsFocus e = split (find_focused_node tree) refl e
    where
      split :
          (focused : Option Cursor)
          → find_focused_node tree ≡ focused
          → elim focused [
            | none ↦ none
            | some f ↦ elim (bounds_attr ops f) [
              | none ↦ none
              | some b ↦ first_that (holds_focus ops b) (compile_selector selector (walk tree))
            ]
          ]
            ≡ some c
          → HoldsFocus ops selector tree c
      split none found e = grind arith
      split (some f) found e = target-HoldsFocus (some f) (bounds_attr ops f) found refl e
