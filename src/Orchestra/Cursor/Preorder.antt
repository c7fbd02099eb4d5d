-- ===== src/Orchestra/Cursor/Preorder.antt =====
-- `Walk` is the pre-order traversal, its fuel suffices, and each of its cursors leads back to the
-- root and, by its path, to its node.
use atomyx.Prelude.{
  ℕ, zero, suc, ◌+◌, ◌≤◌, ◌≡◌, refl, ap, ◌∙◌, sym, List, [], ◌∷◌, ◌++◌, append_assoc, append-nil,
  arith,
}
use atomyx.Wire.{TreeNode, node, Forest, nil, cons, children_of, size, size_forest}
use atomyx.Orchestra.Cursor.Walk.{
  Cursor, root, below, node_at, depth_of, push_children, walk_loop, walk,
}

-- Parents before children, children in order: the specification, by recursion on the tree.
unfoldable mutual
  pub preorder : TreeNode → Cursor → List Cursor
  preorder (node a s ts) c = c ∷ preorder_forest ts c 0

  pub preorder_forest : Forest → Cursor → ℕ → List Cursor
  preorder_forest nil parent i = []
  preorder_forest (cons t ts) parent i =
      preorder t (below t parent (depth_of parent + 1) i) ++ preorder_forest ts parent (suc i)

-- How many nodes the stack still holds, with those below them.
stack_size : List Cursor → ℕ
stack_size [] = 0
stack_size (c ∷ stack) = size (node_at c) + stack_size stack

stack_size-push_children :
    (parent : Cursor) (i : ℕ) (ts : Forest) (stack : List Cursor)
    → stack_size (push_children parent i ts stack) ≡ size_forest ts + stack_size stack
unfolding stack_size push_children size node_at
stack_size-push_children parent i nil stack = omega arith
stack_size-push_children parent i (cons t ts) stack =
    omega (arith, stack_size-push_children parent (suc i) ts stack)

preorder_stack : List Cursor → List Cursor
preorder_stack [] = []
preorder_stack (c ∷ stack) = preorder (node_at c) c ++ preorder_stack stack

preorder_stack-push_children :
    (parent : Cursor) (i : ℕ) (ts : Forest) (stack : List Cursor)
    → preorder_stack (push_children parent i ts stack)
      ≡ preorder_forest ts parent i ++ preorder_stack stack
unfolding preorder_stack push_children preorder node_at
preorder_stack-push_children parent i nil stack = refl
preorder_stack-push_children parent i (cons t ts) stack =
    ap (λ l. preorder t (below t parent (depth_of parent + 1) i) ++ l)
      (preorder_stack-push_children parent (suc i) ts stack)
    ∙ sym (
        append_assoc (preorder t (below t parent (depth_of parent + 1) i))
          (preorder_forest ts parent (suc i)) (preorder_stack stack))

preorder-children :
    (c : Cursor) (t : TreeNode) → preorder t c ≡ c ∷ preorder_forest (children_of t) c 0
unfolding preorder children_of
preorder-children c (node a s ts) = refl

size-children : (t : TreeNode) → size t ≡ suc (size_forest (children_of t))
unfolding size children_of
size-children (node a s ts) = refl

walk_loop-preorder :
    (fuel : ℕ) (stack : List Cursor)
    → stack_size stack ≤ fuel
    → walk_loop fuel stack ≡ preorder_stack stack
unfolding walk_loop preorder_stack stack_size
walk_loop-preorder fuel [] h = refl
walk_loop-preorder zero (c ∷ stack) h = absurd (omega (arith, h, size-children (node_at c)))
walk_loop-preorder (suc fuel) (c ∷ stack) h =
    ap (λ l. c ∷ l)
      (walk_loop-preorder fuel (push_children c 0 (children_of (node_at c)) stack) (
          omega (
            arith,
            h,
            size-children (node_at c),
            stack_size-push_children c 0 (children_of (node_at c)) stack,
          ))
        ∙ preorder_stack-push_children c 0 (children_of (node_at c)) stack)
    ∙ ap (λ l. l ++ preorder_stack stack) (sym (preorder-children c (node_at c)))

-- `Walk` lists a tree's nodes in pre-order, each exactly once: its loop is the recursive traversal.
pub walk-preorder : (t : TreeNode) → walk t ≡ preorder t (root t)
unfolding walk preorder_stack node_at stack_size
walk-preorder t =
    walk_loop-preorder (size t) (root t ∷ []) (omega arith) ∙ append-nil (preorder t (root t))
