-- ===== src/Wire.antt =====
-- core/internal/wire: the normalized UI tree that the drivers produce.
use atomyx.Prelude.{
  ℕ, suc, ◌+◌, List, [], ◌∷◌, Option, none, some, Bool, Text, text_eq, if◌then◌else◌,
}

-- A Go map from strings to strings, as the list of its entries.
abbrev pub Attributes : Type 0
Attributes = List (Text × Text)

-- The tri-state fields: `none` is a nil pointer.
pub record States : Type 0 where
  pub clickable : Option Bool
  pub enabled : Option Bool
  pub focused : Option Bool
  pub selected : Option Bool
  pub checked : Option Bool
  pub visible : Option Bool

-- `TreeNodeWire`, with its children as a list of its own.
mutual
  pub data TreeNode : Type 0 where
    node : Attributes → States → Forest → TreeNode

  pub data Forest : Type 0 where
    nil : Forest
    cons : TreeNode → Forest → Forest

unfoldable pub attributes_of : TreeNode → Attributes
attributes_of (node a s ts) = a

unfoldable pub states_of : TreeNode → States
states_of (node a s ts) = s

unfoldable pub children_of : TreeNode → Forest
children_of (node a s ts) = ts

-- `m[key]` with its presence
unfoldable pub lookup : Text → Attributes → Option Text
unfolding text_eq
lookup k [] = none
lookup k ((j, v) ∷ m) = if text_eq j k then some v else lookup k m

unfoldable mutual
  pub size : TreeNode → ℕ
  size (node a s ts) = suc (size_forest ts)

  pub size_forest : Forest → ℕ
  size_forest nil = 0
  size_forest (cons t ts) = size t + size_forest ts
