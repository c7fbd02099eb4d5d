-- ===== src/Orchestra/Cursor/Walk.antt =====
-- `TreeCursor`, `Walk`, `RootOf` and `Path`. The walk's stack is a list with its top first.
use atomyx.Prelude.{ℕ, zero, suc, ◌+◌, List, [], ◌∷◌, ◌++◌}
use atomyx.Wire.{TreeNode, Forest, nil, cons, children_of, size}

-- A cursor is the root's, or has a parent, a depth and an index among the parent's children.
pub data Cursor : Type 0 where
  root : TreeNode → Cursor
  below : TreeNode → Cursor → ℕ → ℕ → Cursor

unfoldable pub node_at : Cursor → TreeNode
node_at (root t) = t
node_at (below t parent d i) = t

unfoldable pub depth_of : Cursor → ℕ
depth_of (root t) = 0
depth_of (below t parent d i) = d

-- The children's cursors above the stack; the loop pushes the last child first.
unfoldable pub push_children : Cursor → ℕ → Forest → List Cursor → List Cursor
unfolding depth_of
push_children parent i nil stack = stack
push_children parent i (cons t ts) stack =
    below t parent (depth_of parent + 1) i ∷ push_children parent (suc i) ts stack

-- The loop, on fuel: each round takes one node.
unfoldable pub walk_loop : ℕ → List Cursor → List Cursor
unfolding push_children node_at children_of
walk_loop fuel [] = []
walk_loop zero (c ∷ stack) = []
walk_loop (suc fuel) (c ∷ stack) =
    c ∷ walk_loop fuel (push_children c 0 (children_of (node_at c)) stack)

unfoldable pub walk : TreeNode → List Cursor
unfolding walk_loop size
walk t = walk_loop (size t) (root t ∷ [])

unfoldable pub root_of : Cursor → TreeNode
root_of (root t) = t
root_of (below t parent d i) = root_of parent

unfoldable pub path : Cursor → List ℕ
path (root t) = []
path (below t parent d i) = path parent ++ i ∷ []
