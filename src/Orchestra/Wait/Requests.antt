-- ===== src/Orchestra/Wait/Requests.antt =====
-- core/internal/orchestra/wait.go: the waits for the keyboard, for focus, and for the text of an input.
use atomyx.Prelude.{
  ℕ, Option, none, some, Bool, true, false, not, Text, codes, ◌⊎◌, inl, inr, if◌then◌else◌, ℤ, pos,
}
use atomyx.Wire.{TreeNode}
use atomyx.Orchestra.Cursor.Walk.{Cursor, walk}
use atomyx.Orchestra.Bounds.{Bounds, Coordinates}
use atomyx.Orchestra.Selector.Compile.{Selector, compile_selector}
use atomyx.Orchestra.WaitFor.{Screen}
use atomyx.Orchestra.Wait.{Awaited, Polled, wait_until, or_default, on_screen}
use atomyx.Orchestra.Wait.Input.{
  first_that, on_text, KeyboardState, Products, read_keyboard_state, focused_target, is_input_ready,
  find_anchored_input_with_value,
}

module _ {A : Type 0} (ops : Coordinates A) where
  module _ {W : Type 0} (screen : Screen W) where
    -- A value read off the screen, or the driver's error.
    unfoldable pub fetch_by : {T : Type 0} → (TreeNode → T) → W → (Text ⊎ T) × W
    fetch_by read w =
        let seen = screen.hierarchy w in
        (elim seen.0 [ inl e ↦ inl e | inr tree ↦ inr (read tree) ], seen.1)

    unfoldable pub is_found : Option Cursor → Bool
    is_found none = false
    is_found (some c) = true

    -- A wait for an element that is read off the screen.
    abbrev pub polled_for : (TreeNode → Option Cursor) → Polled W (Option Cursor)
    polled_for read = on_screen screen (fetch_by read) is_found

    unfoldable pub same_bool : Bool → Bool → Bool
    same_bool true b = b
    same_bool false b = not b

    unfoldable pub wait_for_keyboard :
        (fuel : ℕ)
        → (expect_visible : Bool) → (timeout_ms interval_ms : ℤ) → W
        → Option (Awaited (KeyboardState A) × W)
    unfolding wait_until fetch_by read_keyboard_state same_bool
    wait_for_keyboard fuel expect_visible timeout_ms interval_ms w =
        wait_until
          (on_screen screen (fetch_by (read_keyboard_state ops))
            (λ s. same_bool s.visible expect_visible))
          timeout_ms interval_ms
          (if expect_visible
            then codes "waitForKeyboard(visible=true)"
            else codes "waitForKeyboard(visible=false)")
          fuel w

    unfoldable pub wait_for_focus :
        (fuel : ℕ)
        → Selector
        → (timeout_ms interval_ms : ℤ) → W
        → Option (Awaited (Option Cursor) × W)
    unfolding wait_until fetch_by is_found focused_target compile_selector or_default
    wait_for_focus fuel selector timeout_ms interval_ms w =
        wait_until (polled_for (focused_target ops (compile_selector selector)))
          (or_default (pos 1500) timeout_ms) (or_default (pos 50) interval_ms)
          (codes "waitForFocus") fuel w

    unfoldable pub wait_for_input_ready :
        (fuel : ℕ) → Selector → (timeout_ms interval_ms : ℤ) → W → Option (Awaited Bool × W)
    unfolding wait_until fetch_by is_input_ready compile_selector or_default
    wait_for_input_ready fuel selector timeout_ms interval_ms w =
        wait_until
          (on_screen screen (fetch_by (is_input_ready ops (compile_selector selector))) (λ b. b))
          (or_default (pos 1500) timeout_ms) (or_default (pos 50) interval_ms)
          (codes "waitForInputReady") fuel w

    unfoldable pub wait_for_text :
        (fuel : ℕ)
        → Selector
        → (matches : Text → Bool) → (timeout_ms interval_ms : ℤ) → W
        → Option (Awaited (Option Cursor) × W)
    unfolding wait_until fetch_by is_found first_that on_text compile_selector or_default walk
    wait_for_text fuel selector matches timeout_ms interval_ms w =
        wait_until
          (polled_for
            (λ tree. first_that (on_text matches) (compile_selector selector (walk tree))))
          (or_default (pos 1000) timeout_ms) (or_default (pos 50) interval_ms) (codes "waitForText")
          fuel w

    unfoldable pub wait_for_input_committed :
        (fuel : ℕ)
        → Products A
        → (anchor : Bounds A) → (expected : Text) → (timeout_ms interval_ms : ℤ) → W
        → Option (Awaited (Option Cursor) × W)
    unfolding wait_until fetch_by is_found find_anchored_input_with_value or_default
    wait_for_input_committed fuel products anchor expected timeout_ms interval_ms w =
        wait_until (polled_for (find_anchored_input_with_value ops products anchor expected))
          (or_default (pos 1000) timeout_ms) (or_default (pos 50) interval_ms)
          (codes "waitForInputCommitted") fuel w
