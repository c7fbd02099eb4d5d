-- ===== src/Orchestra/Scroll/Ensure.antt =====
-- core/internal/orchestra/scroll_controller.go: what `EnsureVisible` returns.
use atomyx.Prelude.{ℕ, ◌+◌, ◌≤◌, ◌≡◌, refl, List, [], ◌∷◌, Text, ◌⊎◌, inl, inr, arith}
use atomyx.Wire.{TreeNode}
use atomyx.Orchestra.Cursor.Walk.{Cursor, walk}
use atomyx.Orchestra.Filter.{ElementFilter}
use atomyx.Orchestra.Bounds.{Coordinates}
use atomyx.Orchestra.Signature.{Buckets}
use atomyx.Orchestra.Scroll.Types.{
  Size, Distances, ScrollDriver, ScrollControllerOptions, Scrolled, visible, driver_error,
  not_found, did_not_move, lost, off_screen, matched,
}
use atomyx.Orchestra.Scroll.{after_find, found_in, scroll_search, on_size, ensure_visible}
use atomyx.Orchestra.Scroll.Reaches.{
  CountsSwipes, IsFirst, IsInView, Reaches, IsShown, Looks, Finds, hierarchy-Looks,
}
use atomyx.Orchestra.Scroll.Visible.{search_from-Finds, after_search-Reaches}

module _ {A W : Type 0} (ops : Coordinates A) (distances : Distances A) (driver : ScrollDriver W A)
    (count : CountsSwipes driver) (opts : ScrollControllerOptions A) (buckets : Buckets A)
    (filter : ElementFilter) where
  module _ (screen : Size A) (b : ℕ) (few : opts.scroll_search_budget ≤ b) (two : 2 ≤ b) where
    after_find-Reaches :
        (n : ℕ) (x : (Text ⊎ TreeNode) × W)
        → Looks ops distances driver count opts filter n x
        → Reaches ops distances driver count opts filter screen (n + b + b + opts.max_iterations) (
            after_find ops distances driver opts filter screen buckets
              (found_in ops distances driver opts filter screen x))
    unfolding found_in after_find scroll_search IsShown Finds Looks Reaches
    after_find-Reaches n (inl e, w) h = omega (arith, h)
    after_find-Reaches n (inr tree, w) (h, shown) = of_given (filter (walk tree)) refl
      where
        of_given :
            (cs : List Cursor)
            → filter (walk tree) ≡ cs
            → Reaches ops distances driver count opts filter screen
                (n + b + b + opts.max_iterations)
                (after_find ops distances driver opts filter screen buckets (inr cs, w))
        of_given [] same =
            after_search-Reaches ops distances driver count opts filter screen _ (n + b + b) _
              (omega arith)
              (search_from-Finds ops distances driver count opts filter screen (n + b + b) buckets b
                few two n (driver.hierarchy w) (omega (arith, h, count.hierarchy_keeps w))
                (omega arith))
        of_given (c ∷ cs) same =
            after_search-Reaches ops distances driver count opts filter screen _ n (matched c, w)
              (omega arith)
              (
                h,
                record {
                  before = shown.0;
                  tree = tree;
                  shown = shown.1;
                  others = cs;
                  given = same;
                },
              )

  -- A scroll that ended after at most so many swipes: by an error, or with a cursor, the first that
  -- the filter gave of a screen that was shown, which is in view of a screen of the size that the
  -- driver told, or whose bounds cannot be read.
  unfoldable pub Settles : (bound : ℕ) → Scrolled A × W → Type 0
  Settles bound (visible c, w) =
      (count.swipes w ≤ bound)
      × IsFirst ops distances driver count opts filter c
      × ((screen : Size A) × (sized : W) × ((driver.screen_size sized).0 ≡ inr screen)
          × IsInView ops distances driver count opts filter screen c)
  Settles bound (end, w) = count.swipes w ≤ bound

  Reaches-Settles :
      (screen : Size A) (sized : W) (bound : ℕ) (x : Scrolled A × W)
      → (driver.screen_size sized).0 ≡ inr screen
      → Reaches ops distances driver count opts filter screen bound x
      → Settles bound x
  unfolding Reaches Settles
  Reaches-Settles screen sized bound (visible c, w) same (few, first, inside) =
      (few, first, (screen, sized, same, inside))
  Reaches-Settles screen sized bound (driver_error e, w) same few = few
  Reaches-Settles screen sized bound (not_found, w) same few = few
  Reaches-Settles screen sized bound (did_not_move b i, w) same few = few
  Reaches-Settles screen sized bound (lost i b, w) same few = few
  Reaches-Settles screen sized bound (off_screen i b, w) same few = few

  on_size-Settles :
      (b n : ℕ) (sized w : W) (x : Text ⊎ Size A)
      → opts.scroll_search_budget ≤ b
      → 2 ≤ b
      → (driver.screen_size sized).0 ≡ x
      → count.swipes w ≤ n
      → Settles
          (n + b + b + opts.max_iterations)
          (on_size ops distances driver opts buckets filter (x, w))
  unfolding on_size Settles
  on_size-Settles b n sized w (inl e) few two same h = omega (arith, h)
  on_size-Settles b n sized w (inr screen) few two same h =
      Reaches-Settles screen sized (n + b + b + opts.max_iterations) _ same (
        after_find-Reaches screen b few two n (driver.hierarchy w) (
          hierarchy-Looks ops distances driver count opts filter n w (driver.hierarchy w).1 _ refl
            (omega (arith, h, count.hierarchy_keeps w))))

  -- `EnsureVisible` ends after at most `2 * b` swipes and one for each iteration, where `b` is two or
  -- more and no less than the search budget: by an error, or with the first cursor that the filter
  -- gave of a screen that was shown. The middle of its bounds is in the inset viewport of a screen of
  -- the size that the driver told, or its bounds cannot be read.
  pub ensure_visible-Settles :
      (b : ℕ)
      → opts.scroll_search_budget ≤ b
      → 2 ≤ b
      → (w : W)
      → Settles
          (count.swipes w + b + b + opts.max_iterations)
          (ensure_visible ops distances driver opts buckets filter w)
  unfolding ensure_visible
  ensure_visible-Settles b few two w =
      on_size-Settles b (count.swipes w) w (driver.screen_size w).1 _ few two refl
        (count.size_keeps w)
