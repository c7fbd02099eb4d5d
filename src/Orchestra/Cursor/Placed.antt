-- ===== src/Orchestra/Cursor/Placed.antt =====
-- What a cursor of a walk says of itself: `RootOf`, `Path` and `Depth` against the tree.
use atomyx.Prelude.{
  ℕ, zero, suc, ◌+◌, ◌≡◌, refl, ◌∙◌, sym, List, [], ◌∷◌, ◌++◌, Option, none, some, arith, length,
  length-append, Option-cases, inl, inr, All, All-append, subst,
}
use atomyx.Wire.{TreeNode, node, Forest, nil, cons, children_of}
use atomyx.Orchestra.Cursor.Walk.{Cursor, root, below, node_at, depth_of, walk, root_of, path}
use atomyx.Orchestra.Cursor.Preorder.{preorder, preorder_forest, walk-preorder}

unfoldable pub child_at : Forest → ℕ → Option TreeNode
child_at nil i = none
child_at (cons t ts) zero = some t
child_at (cons t ts) (suc i) = child_at ts i

-- The node that a path of child indices leads to.
unfoldable pub subtree : TreeNode → List ℕ → Option TreeNode
unfolding child_at children_of
subtree t [] = some t
subtree t (i ∷ is) = elim (child_at (children_of t) i) [ none ↦ none | some u ↦ subtree u is ]

-- A cursor that tells the truth about its place in `t`.
pub record IsPlaced (t : TreeNode) (c : Cursor) : Type 0 where
  pub rooted : root_of c ≡ t
  pub reached : subtree t (path c) ≡ some (node_at c)
  pub deep : depth_of c ≡ length (path c)

subtree-child :
    (t u : TreeNode) (is : List ℕ) (i : ℕ)
    → child_at (children_of t) i ≡ some u
    → subtree t (i ∷ is) ≡ subtree u is
unfolding subtree
subtree-child t u is i h = rw (h, subtree) refl

subtree-append :
    (t u v : TreeNode) (is : List ℕ) (i : ℕ)
    → subtree t is ≡ some u
    → child_at (children_of u) i ≡ some v
    → subtree t (is ++ i ∷ []) ≡ some v
unfolding subtree
subtree-append t u v [] i h g = grind arith
subtree-append t u v (j ∷ is) i h g =
    elim (Option-cases (child_at (children_of t) j))
      as (λ x. subtree t (j ∷ is ++ i ∷ []) ≡ some v) [
        | inl e ↦ grind (arith, e)
        | inr (w, e) ↦
            subtree-child t w (is ++ i ∷ []) j e
            ∙ subtree-append w u v is i (sym (subtree-child t w is j e) ∙ h) g
      ]

below-IsPlaced :
    (t u : TreeNode) (parent : Cursor) (i : ℕ)
    → IsPlaced t parent
    → child_at (children_of (node_at parent)) i ≡ some u
    → IsPlaced t (below u parent (depth_of parent + 1) i)
unfolding root_of path node_at depth_of
below-IsPlaced t u parent i p h = record {
  rooted = p.rooted;
  reached = subtree-append t (node_at parent) u (path parent) i p.reached h;
  deep = omega (arith, p.deep, length-append (path parent) (i ∷ []));
}

child_at-suc :
    (ts us : Forest) (t : TreeNode) (i : ℕ)
    → ((j : ℕ) (u : TreeNode) → child_at (cons t ts) j ≡ some u → child_at us (i + j) ≡ some u)
    → (j : ℕ) (u : TreeNode) → child_at ts j ≡ some u
    → child_at us (suc i + j) ≡ some u
unfolding child_at
child_at-suc ts us t i f j u h =
    let e : i + suc j ≡ suc i + j = omega arith in
    subst (λ k. child_at us k ≡ some u) e (f (suc j) u h)

child_at-zero :
    (ts : Forest) (u : TreeNode) (i : ℕ) → child_at ts (i + 0) ≡ some u → child_at ts i ≡ some u
child_at-zero ts u i h = let e : i + 0 ≡ i = omega arith in subst (λ k. child_at ts k ≡ some u) e h

child_at-from_zero :
    (ts : Forest) (u : TreeNode) (i : ℕ) → child_at ts i ≡ some u → child_at ts (0 + i) ≡ some u
child_at-from_zero ts u i h =
    let e : i ≡ 0 + i = omega arith in subst (λ k. child_at ts k ≡ some u) e h

mutual
  unfolding preorder children_of child_at node_at

  preorder-IsPlaced :
      (t u : TreeNode) (c : Cursor) → IsPlaced t c → node_at c ≡ u → All (IsPlaced t) (preorder u c)
  preorder-IsPlaced t (node a s ts) c p h =
      (p, preorder_forest-IsPlaced t ts c 0 p (λ j v e. rw h (child_at-from_zero ts v j e)))

  preorder_forest-IsPlaced :
      (t : TreeNode) (ts : Forest) (parent : Cursor) (i : ℕ)
      → IsPlaced t parent
      → ((j : ℕ) (u : TreeNode)
          → child_at ts j ≡ some u
          → child_at (children_of (node_at parent)) (i + j) ≡ some u)
      → All (IsPlaced t) (preorder_forest ts parent i)
  preorder_forest-IsPlaced t nil parent i p f = tt
  preorder_forest-IsPlaced t (cons u ts) parent i p f =
      All-append (IsPlaced t) (preorder u (below u parent (depth_of parent + 1) i))
        (preorder_forest ts parent (suc i))
        (preorder-IsPlaced t u (below u parent (depth_of parent + 1) i)
          (below-IsPlaced t u parent i p
            (child_at-zero (children_of (node_at parent)) u i (f 0 u refl)))
          refl)
        (preorder_forest-IsPlaced t ts parent (suc i) p
          (child_at-suc ts (children_of (node_at parent)) u i f))

-- Every cursor of a walk leads back to the tree walked, its path leads from the root to its node,
-- and its depth is the length of that path.
pub walk-IsPlaced : (t : TreeNode) → All (IsPlaced t) (walk t)
unfolding root_of path node_at depth_of subtree
walk-IsPlaced t =
    subst (All (IsPlaced t)) (sym (walk-preorder t))
      (preorder-IsPlaced t t (root t) (record { rooted = refl; reached = refl; deep = refl }) refl)
