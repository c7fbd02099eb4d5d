-- ===== src/Orchestra/Scroll/Reaches.antt =====
-- core/internal/orchestra/scroll_controller.go: what `EnsureVisible` returns, after how many swipes.
use atomyx.Prelude.{
  ℕ, suc, ◌≤◌, ◌≡◌, refl, List, [], ◌∷◌, none, some, true, Text, text_eq, ◌⊎◌, inl, inr, on_option,
  on_bool, arith,
}
use atomyx.Wire.{TreeNode}
use atomyx.Orchestra.Cursor.Walk.{Cursor, walk}
use atomyx.Orchestra.Filter.{ElementFilter}
use atomyx.Orchestra.Bounds.{Point, Coordinates}
use atomyx.Orchestra.Wait.Input.{bounds_attr}
use atomyx.Orchestra.Signature.{Buckets, hash_visible_leaves}
use atomyx.Orchestra.Scroll.Types.{
  Size, Distances, ScrollDriver, ScrollControllerOptions, Scrolled, visible, Searched, search_error,
  matched, unmatched,
}
use atomyx.Orchestra.Scroll.{is_inside_inset_viewport, swipe_and_look, after_filter, after_look}

-- A count of the swipes, to which each adds one at most, and nothing else adds.
pub record CountsSwipes {W A : Type 0} (driver : ScrollDriver W A) : Type 0 where
  pub swipes : W → ℕ
  pub swipe_adds :
      (p q : Point A) (ms : _) (w : W) → swipes (driver.swipe p q ms w).1 ≤ suc (swipes w)
  pub hierarchy_keeps : (w : W) → swipes (driver.hierarchy w).1 ≤ swipes w
  pub size_keeps : (w : W) → swipes (driver.screen_size w).1 ≤ swipes w
  pub sleep_keeps : (ms : _) (w : W) → swipes (driver.sleep ms w).1 ≤ swipes w

module _ {A W : Type 0} (ops : Coordinates A) (distances : Distances A) (driver : ScrollDriver W A)
    (count : CountsSwipes driver) (opts : ScrollControllerOptions A) (filter : ElementFilter) where
  -- A cursor is the first that the filter gives of a screen that was shown.
  pub record IsFirst (c : Cursor) : Type 0 where
    pub before : W
    pub tree : TreeNode
    pub shown : (driver.hierarchy before).0 ≡ inr tree
    pub others : List Cursor
    pub given : filter (walk tree) ≡ c ∷ others

  -- Its bounds cannot be read, or their middle is in the viewport of a screen of that size.
  unfoldable pub IsInView : Size A → Cursor → Type 0
  IsInView screen c = elim (bounds_attr ops c) [
    | none ↦ Unit
    | some b ↦ is_inside_inset_viewport ops distances opts.viewport_insets b screen ≡ true
  ]

  unfoldable pub Reaches : Size A → (bound : ℕ) → Scrolled A × W → Type 0
  Reaches screen bound (visible c, w) = count.swipes w ≤ bound × IsFirst c × IsInView screen c
  Reaches screen bound (end, w) = count.swipes w ≤ bound

  unfoldable pub IsShown : TreeNode → Type 0
  IsShown tree = (before : W) × ((driver.hierarchy before).0 ≡ inr tree)

  unfoldable pub Looks : (bound : ℕ) → (Text ⊎ TreeNode) × W → Type 0
  unfolding IsShown
  Looks bound (inl e, w) = count.swipes w ≤ bound
  Looks bound (inr tree, w) = count.swipes w ≤ bound × IsShown tree

  pub hierarchy-Looks :
      (bound : ℕ) (before w : W) (x : Text ⊎ TreeNode)
      → (driver.hierarchy before).0 ≡ x
      → count.swipes w ≤ bound
      → Looks bound (x, w)
  unfolding Looks
  hierarchy-Looks bound before w (inl e) same few = few
  hierarchy-Looks bound before w (inr tree) same few = (few, (before, same))

  unfoldable pub Finds : (bound : ℕ) → Searched × W → Type 0
  Finds bound (search_error e, w) = count.swipes w ≤ bound
  Finds bound (matched c, w) = count.swipes w ≤ bound × IsFirst c
  Finds bound (unmatched tree, w) = count.swipes w ≤ bound

  module _ (screen : Size A) (bound : ℕ) where
    pub swipe_and_look-Looks :
        (path : Point A × Point A) (w : W)
        → suc (count.swipes w) ≤ bound
        → Looks bound (swipe_and_look ops distances driver opts filter screen path w)
    unfolding swipe_and_look Looks
    swipe_and_look-Looks (from, to) w few =
        let swiped = driver.swipe from to opts.swipe_duration_ms w in
        let slept = driver.sleep opts.settle_wait_ms swiped.1 in
        let added = count.swipe_adds from to opts.swipe_duration_ms w in
        let kept = count.sleep_keeps opts.settle_wait_ms swiped.1 in
        on_option (Looks bound) swiped.0 {s = λ e. (inl e, swiped.1)}
          (on_option (Looks bound) slept.0 {s = λ e. (inl e, slept.1)}
            (hierarchy-Looks bound slept.1 (driver.hierarchy slept.1).1 _ refl
              (omega (arith, few, added, kept, count.hierarchy_keeps slept.1)))
            (λ e. omega (arith, few, added, kept)))
          (λ e. omega (arith, few, added))

    module _ (buckets : Buckets A) where
      after_filter-Finds :
          (rest : TreeNode → W → Searched × W) (previous tree : TreeNode) (cs : List Cursor) (w : W)
          → ((tree : TreeNode) → Finds bound (rest tree w))
          → IsShown tree
          → filter (walk tree) ≡ cs
          → count.swipes w ≤ bound
          → Finds bound
              (after_filter ops distances driver opts filter screen buckets rest previous tree cs w)
      unfolding after_filter Finds IsShown
      after_filter-Finds rest previous tree (c ∷ cs) w next shown same few = (
        few,
        record { before = shown.0; tree = tree; shown = shown.1; others = cs; given = same },
      )
      after_filter-Finds rest previous tree [] w next shown same few =
          on_bool (Finds bound)
            (text_eq (hash_visible_leaves ops buckets tree)
              (hash_visible_leaves ops buckets previous))
            few (next tree)

      pub after_look-Finds :
          (rest : TreeNode → W → Searched × W) (previous : TreeNode) (n : ℕ)
          (x : (Text ⊎ TreeNode) × W)
          → ((tree : TreeNode) (w : W) → count.swipes w ≤ n → Finds bound (rest tree w))
          → n ≤ bound
          → Looks n x
          → Finds bound (after_look ops distances driver opts filter screen buckets rest previous x)
      unfolding after_look Looks Finds
      after_look-Finds rest previous n (inl e, w) next few h = omega (arith, few, h)
      after_look-Finds rest previous n (inr tree, w) next few (h, shown) =
          after_filter-Finds rest previous tree (filter (walk tree)) w (λ t. next t w h) shown refl
            (omega (arith, few, h))
