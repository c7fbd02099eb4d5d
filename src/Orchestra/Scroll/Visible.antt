-- ===== src/Orchestra/Scroll/Visible.antt =====
-- core/internal/orchestra/scroll_controller.go: the search, the positional scroll, and `EnsureVisible`.
use atomyx.Prelude.{
  ℕ, zero, suc, ◌+◌, ◌≤◌, ◌≡◌, refl, List, [], ◌∷◌, Option, none, some, true, Text, codes, ◌⊎◌, inl,
  inr, ltb, ◌&&◌, on_bool, on_bool_at, arith,
}
use atomyx.Wire.{TreeNode}
use atomyx.Orchestra.Cursor.Walk.{Cursor, walk}
use atomyx.Orchestra.Filter.{ElementFilter}
use atomyx.Orchestra.Bounds.{Bounds, Coordinates}
use atomyx.Orchestra.Wait.Input.{bounds_attr}
use atomyx.Orchestra.Signature.{Buckets, count_leaves, max_leaf_bounds_bottom}
use atomyx.Orchestra.Scroll.Types.{
  Size, Distances, ScrollDriver, ScrollControllerOptions, Scrolled, Searched, search_error, matched,
  unmatched,
}
use atomyx.Orchestra.Scroll.{
  is_inside_inset_viewport, probe, effective_budget, after_up, search_from, after_scroll, found_in,
  has_stopped, scroll_round, scroll_loop, after_search,
}
use atomyx.Orchestra.Scroll.Reaches.{
  CountsSwipes, IsFirst, IsInView, Reaches, Looks, Finds, swipe_and_look-Looks, after_look-Finds,
}

module _ {A W : Type 0} (ops : Coordinates A) (distances : Distances A) (driver : ScrollDriver W A)
    (count : CountsSwipes driver) (opts : ScrollControllerOptions A) (filter : ElementFilter) where
  abbrev Found : (bound : ℕ) → Searched × W → Type 0
  Found = Finds ops distances driver count opts filter

  abbrev Looked : (bound : ℕ) → (Text ⊎ TreeNode) × W → Type 0
  Looked = Looks ops distances driver count opts filter

  abbrev Shown : Cursor → Type 0
  Shown = IsFirst ops distances driver count opts filter

  module _ (screen : Size A) (bound : ℕ) where
    abbrev Ends : Scrolled A × W → Type 0
    Ends = Reaches ops distances driver count opts filter screen bound

    module _ (buckets : Buckets A) where
      probe-Found :
          (left : ℕ) (direction : Text) (tree : TreeNode) (w : W)
          → count.swipes w + left ≤ bound
          → Found bound
              (probe ops distances driver opts filter screen buckets left direction tree w)
      unfolding probe Finds
      probe-Found zero direction tree w few = omega (arith, few)
      probe-Found (suc left) direction tree w few =
          after_look-Finds ops distances driver count opts filter screen bound buckets
            (probe ops distances driver opts filter screen buckets left direction) tree
            (suc (count.swipes w)) _
            (λ t v h. probe-Found left direction t v (omega (arith, few, h))) (omega (arith, few))
            (swipe_and_look-Looks ops distances driver count opts filter screen
              (suc (count.swipes w)) _ w (omega arith))

      after_up-Found :
          (budget n : ℕ) (x : Searched × W)
          → n + budget ≤ bound
          → Found n x
          → Found bound (after_up ops distances driver opts filter screen buckets budget x)
      unfolding after_up Finds
      after_up-Found budget n (search_error e, w) few h = omega (arith, few, h)
      after_up-Found budget n (matched c, w) few (h, first) = (omega (arith, few, h), first)
      after_up-Found budget n (unmatched tree, w) few h =
          probe-Found budget (codes "down") tree w (omega (arith, few, h))

module _ {A W : Type 0} (ops : Coordinates A) (distances : Distances A) (driver : ScrollDriver W A)
    (count : CountsSwipes driver) (opts : ScrollControllerOptions A) (filter : ElementFilter) where
  effective_budget-bound :
      (screen : Size A) (buckets : Buckets A) (tree : TreeNode) (b : ℕ)
      → opts.scroll_search_budget ≤ b
      → 2 ≤ b
      → effective_budget ops distances driver opts filter screen buckets tree ≤ b
  unfolding effective_budget
  effective_budget-bound screen buckets tree b few two =
      on_bool (λ n. n ≤ b)
        (ltb (count_leaves tree) 5
          && ops.lt (max_leaf_bounds_bottom ops tree) (distances.mul screen.height distances.thin))
        two few

  module _ (screen : Size A) (bound : ℕ) where
    module _ (buckets : Buckets A) (b : ℕ) (few : opts.scroll_search_budget ≤ b) (two : 2 ≤ b) where
      pub search_from-Finds :
          (n : ℕ) (x : (Text ⊎ TreeNode) × W)
          → count.swipes x.1 ≤ n
          → n + b + b ≤ bound
          → Finds ops distances driver count opts filter bound
              (search_from ops distances driver opts filter screen buckets x)
      unfolding search_from Finds
      search_from-Finds n (inl e, w) here h = omega (arith, here, h)
      search_from-Finds n (inr tree, w) here h =
          let budget = effective_budget ops distances driver opts filter screen buckets tree in
          let fits = effective_budget-bound screen buckets tree b few two in
          after_up-Found ops distances driver count opts filter screen bound buckets budget (n + b)
            (probe ops distances driver opts filter screen buckets budget (codes "up") tree w)
            (omega (arith, fits, h))
            (probe-Found ops distances driver count opts filter screen (n + b) buckets budget
              (codes "up") tree w (omega (arith, fits, here)))

    after_scroll-Reaches :
        (rest : Cursor → Option (Bounds A) → W → Scrolled A × W) (iteration n : ℕ)
        (bounds : Bounds A) (x : (Text ⊎ TreeNode) × W)
        → ((c : Cursor) (w : W)
            → count.swipes w ≤ n
            → IsFirst ops distances driver count opts filter c
            → Reaches ops distances driver count opts filter screen bound (rest c (some bounds) w))
        → n ≤ bound
        → Looks ops distances driver count opts filter n x
        → Reaches ops distances driver count opts filter screen bound (
            after_scroll ops distances driver opts filter screen rest iteration bounds
              (found_in ops distances driver opts filter screen x))
    unfolding found_in Looks Reaches after_scroll
    after_scroll-Reaches rest iteration n bounds (inl e, w) next few h = omega (arith, few, h)
    after_scroll-Reaches rest iteration n bounds (inr tree, w) next few (h, shown) =
        of_given (filter (walk tree)) refl
      where
        of_given :
            (cs : List Cursor)
            → filter (walk tree) ≡ cs
            → Reaches ops distances driver count opts filter screen bound (
                after_scroll ops distances driver opts filter screen rest iteration bounds
                  (inr cs, w))
        of_given [] same = omega (arith, few, h)
        of_given (c ∷ cs) same =
            next c w h
              (record { before = shown.0; tree = tree; shown = shown.1; others = cs; given = same })

    unread-IsInView :
        (c : Cursor)
        → bounds_attr ops c ≡ none
        → IsInView ops distances driver count opts filter screen c
    unfolding IsInView
    unread-IsInView c e = rw (e, IsInView) tt

    inside-IsInView :
        (c : Cursor) (b : Bounds A)
        → bounds_attr ops c ≡ some b
        → is_inside_inset_viewport ops distances opts.viewport_insets b screen ≡ true
        → IsInView ops distances driver count opts filter screen c
    unfolding IsInView
    inside-IsInView c b e h = rw (e, IsInView) h

    scroll_round-Reaches :
        (rest : Cursor → Option (Bounds A) → W → Scrolled A × W) (iteration : ℕ) (c : Cursor)
        (previous read : Option (Bounds A)) (w : W)
        → ((c : Cursor) (p : Option (Bounds A)) (v : W)
            → count.swipes v ≤ suc (count.swipes w)
            → IsFirst ops distances driver count opts filter c
            → Reaches ops distances driver count opts filter screen bound (rest c p v))
        → suc (count.swipes w) ≤ bound
        → IsFirst ops distances driver count opts filter c
        → bounds_attr ops c ≡ read
        → Reaches ops distances driver count opts filter screen bound
            (scroll_round ops distances driver opts filter screen rest iteration c previous read w)
    unfolding scroll_round Reaches
    scroll_round-Reaches rest iteration c previous none w next few first same =
        (omega (arith, few), first, unread-IsInView c same)
    scroll_round-Reaches rest iteration c previous (some b) w next few first same =
        let P : Scrolled A × W → Type 0 =
          Reaches ops distances driver count opts filter screen bound in
        let here : count.swipes w ≤ bound = omega (arith, few) in
        on_bool_at P (is_inside_inset_viewport ops distances opts.viewport_insets b screen)
          (λ inside. (here, first, inside-IsInView c b same inside))
          (λ outside.
            on_bool P (has_stopped ops distances driver opts filter screen previous b) here (
              after_scroll-Reaches rest iteration (suc (count.swipes w)) b _
                (λ d v h f. next d (some b) v h f) few
                (swipe_and_look-Looks ops distances driver count opts filter screen
                  (suc (count.swipes w)) _ w (omega arith))))

    scroll_loop-Reaches :
        (left iteration : ℕ) (c : Cursor) (previous : Option (Bounds A)) (w : W)
        → count.swipes w + left ≤ bound
        → IsFirst ops distances driver count opts filter c
        → Reaches ops distances driver count opts filter screen bound
            (scroll_loop ops distances driver opts filter screen left iteration c previous w)
    unfolding scroll_loop Reaches
    scroll_loop-Reaches zero iteration c previous w few first = omega (arith, few)
    scroll_loop-Reaches (suc left) iteration c previous w few first =
        scroll_round-Reaches
          (scroll_loop ops distances driver opts filter screen left (suc iteration)) iteration c
          previous (bounds_attr ops c) w
          (λ d p v h f. scroll_loop-Reaches left (suc iteration) d p v (omega (arith, few, h)) f)
          (omega (arith, few)) first refl

    pub after_search-Reaches :
        (n : ℕ) (x : Searched × W)
        → n + opts.max_iterations ≤ bound
        → Finds ops distances driver count opts filter n x
        → Reaches ops distances driver count opts filter screen bound
            (after_search ops distances driver opts filter screen x)
    unfolding after_search Finds Reaches
    after_search-Reaches n (search_error e, w) few h = omega (arith, few, h)
    after_search-Reaches n (unmatched tree, w) few h = omega (arith, few, h)
    after_search-Reaches n (matched c, w) few (h, first) =
        scroll_loop-Reaches opts.max_iterations 0 c none w (omega (arith, few, h)) first
