-- ===== src/Orchestra/Finder.antt =====
-- core/internal/orchestra/finder.go, and `Find` and `FindOne` of polling_finder.go.
use atomyx.Prelude.{[], ◌∷◌, List, Option, none, some, ◌⊎◌, inl, inr, Text, codes}
use atomyx.Wire.{TreeNode, lookup, attributes_of}
use atomyx.Orchestra.Bounds.{Bounds, Point, Coordinates, parse_bounds, bounds_center}
use atomyx.Orchestra.Cursor.Walk.{Cursor, walk, node_at}
use atomyx.Orchestra.Filter.{ElementFilter}
use atomyx.Orchestra.Selector.Compile.{Selector, compile_selector}

unfoldable pub find : ElementFilter → TreeNode → List Cursor
unfolding walk
find filter root = filter (walk root)

unfoldable pub first : List Cursor → Option Cursor
first [] = none
first (c ∷ cs) = some c

unfoldable pub find_one : ElementFilter → TreeNode → Option Cursor
unfolding find first
find_one filter root = first (find filter root)

-- `Orchestra.FindOne` on a snapshot of the screen, or the driver's error.
unfoldable pub find_on_screen :
    {W : Type 0} → (W → (Text ⊎ TreeNode) × W) → Selector → W → (Text ⊎ Option Cursor) × W
unfolding find_one compile_selector
find_on_screen hierarchy selector w =
    let seen = hierarchy w in
    (
      elim seen.0 [ inl e ↦ inl e | inr root ↦ inr (find_one (compile_selector selector) root) ],
      seen.1,
    )

-- A cursor with its bounds and their middle, where it has bounds that can be read.
pub record ResolvedPoint (A : Type 0) : Type 0 where
  pub cursor : Cursor
  pub bounds : Option (Bounds A)
  pub point : Option (Point A)

module _ {A : Type 0} (ops : Coordinates A) where
  unfoldable pub bounds_at : Cursor → Option (Bounds A)
  unfolding lookup attributes_of node_at parse_bounds
  bounds_at c = elim (lookup (codes "bounds") (attributes_of (node_at c))) [
    | none ↦ none
    | some raw ↦ parse_bounds ops raw
  ]

  unfoldable pub resolve_point : Cursor → ResolvedPoint A
  unfolding bounds_at bounds_center
  resolve_point c = record {
    cursor = c;
    bounds = bounds_at c;
    point = elim (bounds_at c) [ none ↦ none | some b ↦ some (bounds_center ops b) ];
  }

  unfoldable pub resolve_first : ElementFilter → TreeNode → Option (ResolvedPoint A)
  unfolding find_one resolve_point
  resolve_first filter root = elim (find_one filter root) [
    | none ↦ none
    | some c ↦ some (resolve_point c)
  ]
