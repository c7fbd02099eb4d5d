-- ===== src/Orchestra/Scroll/Types.antt =====
-- The data of core/internal/orchestra/scroll_controller.go, and what the controller reaches outside.
use atomyx.Prelude.{ℕ, Option, Text, ◌⊎◌, ℤ}
use atomyx.Wire.{TreeNode}
use atomyx.Orchestra.Cursor.Walk.{Cursor}
use atomyx.Orchestra.Bounds.{Bounds, Point}

pub record Size (A : Type 0) : Type 0 where
  pub width : A
  pub height : A

pub record ViewportInsets (A : Type 0) : Type 0 where
  pub top : A
  pub bottom : A
  pub left : A
  pub right : A

pub record ScrollControllerOptions (A : Type 0) : Type 0 where
  pub max_iterations : ℕ
  pub max_scroll_fraction : A
  pub swipe_duration_ms : ℤ
  pub settle_wait_ms : ℤ
  pub scroll_search_budget : ℕ
  pub viewport_insets : ViewportInsets A

-- Of float64, what the controller uses beyond the coordinates: `edge` is 40 and `thin` is 0.9.
pub record Distances (A : Type 0) : Type 0 where
  pub sub : A → A → A
  pub mul : A → A → A
  pub abs : A → A
  pub min : A → A → A
  pub edge : A
  pub thin : A

-- A context that ended is an error of a sleep or of a call of the driver.
pub record ScrollDriver (W A : Type 0) : Type 0 where
  pub hierarchy : W → (Text ⊎ TreeNode) × W
  pub swipe : Point A → Point A → ℤ → W → Option Text × W
  pub screen_size : W → (Text ⊎ Size A) × W
  pub sleep : ℤ → W → Option Text × W

-- The cursor, an error of the driver, or a ScrollUnreachableError, a constructor for each message.
pub data Scrolled (A : Type 0) : Type 0 where
  visible : Cursor → Scrolled A
  driver_error : Text → Scrolled A
  not_found : Scrolled A
  did_not_move : Bounds A → (iteration : ℕ) → Scrolled A
  lost : (attempt : ℕ) → Bounds A → Scrolled A
  off_screen : (iterations : ℕ) → Option (Bounds A) → Scrolled A

-- How swipes in one direction end: with the tree that was seen last where nothing matched.
pub data Searched : Type 0 where
  search_error : Text → Searched
  matched : Cursor → Searched
  unmatched : TreeNode → Searched
