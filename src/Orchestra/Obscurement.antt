-- ===== src/Orchestra/Obscurement.antt =====
-- core/internal/orchestra/obscurement.go: whether another element covers the middle of a target.
pub mod Topmost
mod Samples
use atomyx.Prelude.{
  ℕ, List, [], ◌∷◌, Option, none, some, Bool, true, false, not, ◌&&◌, ◌||◌, Text, codes, text_eq,
  ◌==◌, if◌then◌else◌,
}
use atomyx.Wire.{TreeNode, attributes_of, lookup}
use atomyx.Orchestra.Cursor.Walk.{Cursor, walk, path, node_at}
use atomyx.Orchestra.Bounds.{Coordinates, Point, parse_bounds, bounds_center, bounds_contain}

pub record ObscurerInfo : Type 0 where
  pub role : Text
  pub id : Text
  pub label : Text

-- An attribute of a Go map, empty where it is missing.
unfoldable pub attribute : Text → Cursor → Text
unfolding lookup attributes_of node_at
attribute key c = elim (lookup key (attributes_of (node_at c))) [ none ↦ [] | some v ↦ v ]

unfoldable pub is_ancestor_or_self_path : (ancestor descendant : List ℕ) → Bool
is_ancestor_or_self_path [] ds = true
is_ancestor_or_self_path (a ∷ as') [] = false
is_ancestor_or_self_path (a ∷ as') (d ∷ ds) = d == a && is_ancestor_or_self_path as' ds

-- The last of the cursors that passes a test.
unfoldable pub topmost : (Cursor → Bool) → List Cursor → Option Cursor
topmost test [] = none
topmost test (c ∷ cs) = elim (topmost test cs) [
  | some d ↦ some d
  | none ↦ if test c then some c else none
]

unfoldable pub is_layout_wrapper : Cursor → Bool
unfolding attribute text_eq
is_layout_wrapper c =
    (text_eq (attribute (codes "role") c) (codes "container")
      || text_eq (attribute (codes "role") c) (codes "other"))
    && text_eq (attribute (codes "id") c) []
    && text_eq (attribute (codes "label") c) []

unfoldable pub info_of : Cursor → ObscurerInfo
unfolding attribute
info_of c = record {
  role = attribute (codes "role") c;
  id = attribute (codes "id") c;
  label = attribute (codes "label") c;
}

-- The obscurer, unless the topmost element is the target, holds it, or is a wrapper.
unfoldable pub obscurer_of : Cursor → Option Cursor → Option ObscurerInfo
unfolding is_ancestor_or_self_path path is_layout_wrapper info_of
obscurer_of target none = none
obscurer_of target (some c) =
    if is_ancestor_or_self_path (path c) (path target)
    then none
    else if is_layout_wrapper c
    then none
    else some (info_of c)

module _ {A : Type 0} (ops : Coordinates A) where
  unfoldable pub covers : Point A → Cursor → Bool
  unfolding attribute parse_bounds bounds_contain
  covers p c = elim (parse_bounds ops (attribute (codes "bounds") c)) [
    | none ↦ false
    | some b ↦ bounds_contain ops b p.x p.y
  ]

  unfoldable pub detect_obscurement : TreeNode → Cursor → Option ObscurerInfo
  unfolding attribute parse_bounds bounds_center covers topmost walk obscurer_of
  detect_obscurement root target = elim (parse_bounds ops (attribute (codes "bounds") target)) [
    | none ↦ none
    | some b ↦ obscurer_of target (topmost (covers (bounds_center ops b)) (walk root))
  ]
