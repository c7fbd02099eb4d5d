-- ===== src/Orchestra/Scroll.antt =====
-- core/internal/orchestra/scroll_controller.go: `ScrollController`, over a driver and a clock. Its
-- loops are bounded by its options.
pub mod Types
mod Reaches
mod Visible
mod Ensure
mod Samples
use atomyx.Prelude.{
  ℕ, zero, suc, List, [], ◌∷◌, Option, none, some, Bool, true, false, not, ◌&&◌, Text, codes,
  text_eq, ltb, if◌then◌else◌, ◌⊎◌, inl, inr, ℤ,
}
use atomyx.Wire.{TreeNode}
use atomyx.Orchestra.Cursor.Walk.{Cursor, walk}
use atomyx.Orchestra.Filter.{ElementFilter}
use atomyx.Orchestra.Bounds.{Bounds, Point, Coordinates, bounds_center}
use atomyx.Orchestra.Wait.Input.{bounds_attr, same_bounds}
use atomyx.Orchestra.Scroll.Types.{
  Size, ViewportInsets, ScrollControllerOptions, Distances, ScrollDriver, Scrolled, visible,
  driver_error, not_found, did_not_move, lost, off_screen, Searched, search_error, matched,
  unmatched,
}
use atomyx.Orchestra.Signature.{Buckets, count_leaves, max_leaf_bounds_bottom, hash_visible_leaves}

module _ {A : Type 0} (ops : Coordinates A) (distances : Distances A) where
  unfoldable pub clamp_f : (v min max : A) → A
  clamp_f v min max =
      if ops.lt max min then min else if ops.lt v min then min else if ops.lt max v then max else v

  -- `from` and `to`, of a finger that goes by `amount` about the middle, up the screen or down.
  unfoldable pub endpoints : (x middle amount : A) → (upwards : Bool) → Point A × Point A
  endpoints x middle amount true = (
    record { x = x; y = ops.add middle amount },
    record { x = x; y = distances.sub middle amount },
  )
  endpoints x middle amount false = (
    record { x = x; y = distances.sub middle amount },
    record { x = x; y = ops.add middle amount },
  )

  unfoldable pub compute_scroll_toward_element_endpoints : Bounds A → Size A → A → Point A × Point A
  unfolding clamp_f endpoints
  compute_scroll_toward_element_endpoints bounds screen max_scroll_fraction =
      let middle = ops.halve screen.height in
      let delta_y = distances.sub (ops.halve (ops.add bounds.top bounds.bottom)) middle in
      let amount =
        distances.min (distances.abs delta_y) (distances.mul screen.height max_scroll_fraction) in
      endpoints
        (clamp_f (ops.halve (ops.add bounds.left bounds.right)) distances.edge
          (distances.sub screen.width distances.edge))
        middle (ops.halve amount) (ops.lt ops.zero_value delta_y)

  unfoldable pub compute_swipe_center_endpoints : Size A → Text → A → Point A × Point A
  unfolding endpoints text_eq
  compute_swipe_center_endpoints screen direction max_scroll_fraction =
      endpoints (ops.halve screen.width) (ops.halve screen.height)
        (ops.halve (distances.mul screen.height max_scroll_fraction))
        (not (text_eq direction (codes "up")))

  unfoldable pub is_inside_inset_viewport : ViewportInsets A → Bounds A → Size A → Bool
  unfolding bounds_center
  is_inside_inset_viewport insets b screen =
      let center = bounds_center ops b in
      ops.le insets.left center.x
      && ops.lt center.x (distances.sub screen.width insets.right)
      && ops.le insets.top center.y
      && ops.lt center.y (distances.sub screen.height insets.bottom)

  module _ {W : Type 0} (driver : ScrollDriver W A) (opts : ScrollControllerOptions A)
      (filter : ElementFilter) (screen : Size A) where
    -- A swipe, the settling, and a look at the screen.
    unfoldable pub swipe_and_look : Point A × Point A → W → (Text ⊎ TreeNode) × W
    swipe_and_look (from, to) w =
        let swiped = driver.swipe from to opts.swipe_duration_ms w in
        elim swiped.0 [
          | some e ↦ (inl e, swiped.1)
          | none ↦
              let slept = driver.sleep opts.settle_wait_ms swiped.1 in
              elim slept.0 [ some e ↦ (inl e, slept.1) | none ↦ driver.hierarchy slept.1 ]
        ]

    module _ (buckets : Buckets A) where
      unfoldable pub after_filter :
          (rest : TreeNode → W → Searched × W)
          → TreeNode
          → TreeNode
          → List Cursor
          → W
          → Searched × W
      unfolding text_eq hash_visible_leaves
      after_filter rest previous tree (c ∷ cs) w = (matched c, w)
      after_filter rest previous tree [] w =
          let next = rest tree w in
          if text_eq (hash_visible_leaves ops buckets tree)
            (hash_visible_leaves ops buckets previous)
          then (unmatched tree, w)
          else next

      unfoldable pub after_look :
          (rest : TreeNode → W → Searched × W) → TreeNode → (Text ⊎ TreeNode) × W → Searched × W
      unfolding after_filter walk
      after_look rest previous (inl e, w) = (search_error e, w)
      after_look rest previous (inr tree, w) =
          after_filter rest previous tree (filter (walk tree)) w

      -- The swipes that are left in one direction, after the tree that was seen last.
      unfoldable pub probe : (left : ℕ) → (direction : Text) → TreeNode → W → Searched × W
      unfolding compute_swipe_center_endpoints swipe_and_look after_look
      probe zero direction tree w = (unmatched tree, w)
      probe (suc left) direction tree w = after_look (probe left direction) tree (
          swipe_and_look (compute_swipe_center_endpoints screen direction opts.max_scroll_fraction)
            w)

      unfoldable pub effective_budget : TreeNode → ℕ
      unfolding count_leaves max_leaf_bounds_bottom
      effective_budget tree =
          if ltb (count_leaves tree) 5
            && ops.lt (max_leaf_bounds_bottom ops tree) (distances.mul screen.height distances.thin)
          then 2
          else opts.scroll_search_budget

      unfoldable pub after_up : ℕ → Searched × W → Searched × W
      unfolding probe
      after_up budget (search_error e, w) = (search_error e, w)
      after_up budget (matched c, w) = (matched c, w)
      after_up budget (unmatched tree, w) = probe budget (codes "down") tree w

      unfoldable pub search_from : (Text ⊎ TreeNode) × W → Searched × W
      unfolding after_up effective_budget
      search_from (inl e, w) = (search_error e, w)
      search_from (inr tree, w) =
          after_up (effective_budget tree) (probe (effective_budget tree) (codes "up") tree w)

      unfoldable pub scroll_search : W → Searched × W
      unfolding search_from
      scroll_search w = search_from (driver.hierarchy w)

    unfoldable pub after_scroll :
        (rest : Cursor → Option (Bounds A) → W → Scrolled A × W)
        → (iteration : ℕ) → Bounds A
        → (Text ⊎ List Cursor) × W
        → Scrolled A × W
    after_scroll rest iteration bounds (inl e, w) = (driver_error e, w)
    after_scroll rest iteration bounds (inr [], w) = (lost (suc iteration) bounds, w)
    after_scroll rest iteration bounds (inr (c ∷ cs), w) = rest c (some bounds) w

    unfoldable pub found_in : (Text ⊎ TreeNode) × W → (Text ⊎ List Cursor) × W
    unfolding walk
    found_in (inl e, w) = (inl e, w)
    found_in (inr tree, w) = (inr (filter (walk tree)), w)

    unfoldable pub has_stopped : Option (Bounds A) → Bounds A → Bool
    unfolding same_bounds
    has_stopped none bounds = false
    has_stopped (some previous) bounds = same_bounds ops previous bounds

    -- A round of the positional scroll, for an element with bounds.
    unfoldable pub scroll_round :
        (rest : Cursor → Option (Bounds A) → W → Scrolled A × W)
        → (iteration : ℕ) → Cursor
        → Option (Bounds A)
        → Option (Bounds A)
        → W
        → Scrolled A × W
    unfolding is_inside_inset_viewport has_stopped after_scroll found_in swipe_and_look
        compute_scroll_toward_element_endpoints
    scroll_round rest iteration c previous none w = (visible c, w)
    scroll_round rest iteration c previous (some bounds) w =
        if is_inside_inset_viewport opts.viewport_insets bounds screen
        then (visible c, w)
        else if has_stopped previous bounds
        then (did_not_move bounds iteration, w)
        else after_scroll rest iteration bounds (
            found_in (
              swipe_and_look
                (compute_scroll_toward_element_endpoints bounds screen opts.max_scroll_fraction) w))

    unfoldable pub scroll_loop :
        (left iteration : ℕ) → Cursor → Option (Bounds A) → W → Scrolled A × W
    unfolding scroll_round bounds_attr
    scroll_loop zero iteration c previous w =
        (off_screen opts.max_iterations (bounds_attr ops c), w)
    scroll_loop (suc left) iteration c previous w =
        scroll_round (scroll_loop left (suc iteration)) iteration c previous (bounds_attr ops c) w

    unfoldable pub after_search : Searched × W → Scrolled A × W
    unfolding scroll_loop
    after_search (search_error e, w) = (driver_error e, w)
    after_search (unmatched tree, w) = (not_found, w)
    after_search (matched c, w) = scroll_loop opts.max_iterations 0 c none w

    unfoldable pub after_find : Buckets A → (Text ⊎ List Cursor) × W → Scrolled A × W
    unfolding after_search scroll_search
    after_find buckets (inl e, w) = (driver_error e, w)
    after_find buckets (inr [], w) = after_search (scroll_search buckets w)
    after_find buckets (inr (c ∷ cs), w) = after_search (matched c, w)

  module _ {W : Type 0} (driver : ScrollDriver W A) (opts : ScrollControllerOptions A)
      (buckets : Buckets A) (filter : ElementFilter) where
    unfoldable pub on_size : (Text ⊎ Size A) × W → Scrolled A × W
    unfolding after_find found_in
    on_size (inl e, w) = (driver_error e, w)
    on_size (inr screen, w) =
        after_find driver opts filter screen buckets
          (found_in driver opts filter screen (driver.hierarchy w))

    unfoldable pub ensure_visible : W → Scrolled A × W
    unfolding on_size
    ensure_visible w = on_size (driver.screen_size w)
