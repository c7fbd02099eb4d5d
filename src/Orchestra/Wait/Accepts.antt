-- ===== src/Orchestra/Wait/Accepts.antt =====
-- core/internal/orchestra/wait.go: what the waits for an element return.
use atomyx.Prelude.{
  All, ℕ, suc, ◌+◌, ◌*◌, ◌≤◌, ◌≡◌, refl, sym, ap, subst, Option, none, some, true, false, Text,
  codes, ◌⊎◌, inl, inr, ℤ, pos, arith,
}
use mathlib.Core.Sum.{inr-injective}
use atomyx.Wire.{TreeNode}
use atomyx.Orchestra.Cursor.Walk.{Cursor, walk}
use atomyx.Orchestra.Bounds.{Bounds, Coordinates}
use atomyx.Orchestra.Selector.Compile.{Selector, compile_selector}
use atomyx.Orchestra.WaitFor.{Screen}
use atomyx.Orchestra.Wait.{Awaited, accepted, wait_error, wait_timeout, wait_until, or_default}
use atomyx.Orchestra.Wait.Deadline.{max_time}
use atomyx.Orchestra.Wait.Ends.{KeepsTime, EndsAfter, wait_until-EndsAfter}
use atomyx.Orchestra.Wait.Input.{Products, find_anchored_input_with_value, focused_target}
use atomyx.Orchestra.Wait.Requests.{
  fetch_by, is_found, polled_for, wait_for_input_committed, wait_for_focus,
}
use atomyx.Orchestra.Wait.Smallest.{
  IsOrder, HasArea, Committed, find_anchored_input_with_value-Committed,
}
use atomyx.Orchestra.WaitFor.Bound
use atomyx.Orchestra.Wait.Focus.{HoldsFocus, focused_target-HoldsFocus}

module _ {A W : Type 0} (ops : Coordinates A) (screen : Screen W)
    (clock : atomyx.Orchestra.WaitFor.Bound.KeepsTime screen) where
  on_screen-KeepsTime : (read : TreeNode → Option Cursor) → KeepsTime (polled_for ops screen read)
  unfolding fetch_by
  on_screen-KeepsTime read = record {
    time = clock.time;
    in_range = clock.in_range;
    now_reads = clock.now_reads;
    now_later = clock.now_later;
    fetch_later = clock.hierarchy_later;
    predicate_later = λ v s. omega arith;
    sleep_lasts = clock.sleep_lasts;
  }

  -- A cursor was read off a screen that the driver showed.
  pub record IsSeen (P : TreeNode → Cursor → Type 0) (c : Cursor) : Type 0 where
    pub before : W
    pub tree : TreeNode
    pub shown : (screen.hierarchy before).0 ≡ inr tree
    pub holds : P tree c

  -- A wait for an element that ended: with one of a screen, by an error, or when its time was over.
  unfoldable pub Finds :
      (TreeNode → Cursor → Type 0) → (deadline : ℕ) → Option (Awaited (Option Cursor) × W) → Type 0
  Finds P deadline none = ⊥
  Finds P deadline (some (accepted none, w)) = ⊥
  Finds P deadline (some (accepted (some c), w)) = IsSeen P c
  Finds P deadline (some (wait_error e, w)) = Unit
  Finds P deadline (some (wait_timeout k ms, w)) = deadline ≤ clock.time w

  -- Whatever is read off a screen that is shown is as claimed.
  abbrev Sound : (TreeNode → Cursor → Type 0) → (TreeNode → Option Cursor) → Type 0
  Sound P read =
      (before : W) (tree : TreeNode) (c : Cursor)
      → (screen.hierarchy before).0 ≡ inr tree
      → read tree ≡ some c
      → P tree c

  read-IsSeen :
      (P : TreeNode → Cursor → Type 0) (read : TreeNode → Option Cursor) (before : W) (c : Cursor)
      (seen : Text ⊎ TreeNode)
      → Sound P read
      → (screen.hierarchy before).0 ≡ seen
      → elim seen [ inl e ↦ inl e | inr tree ↦ inr (read tree) ] ≡ inr (some c)
      → IsSeen P c
  read-IsSeen P read before c (inl e) sound shown h = grind arith
  read-IsSeen P read before c (inr tree) sound shown h = record {
    before = before;
    tree = tree;
    shown = shown;
    holds = sound before tree c shown (inr-injective _ _ h);
  }

  EndsAfter-Finds :
      (P : TreeNode → Cursor → Type 0) (read : TreeNode → Option Cursor) (deadline : ℕ)
      (end : Option (Awaited (Option Cursor) × W))
      → Sound P read
      → EndsAfter (polled_for ops screen read) (on_screen-KeepsTime read) deadline end
      → Finds P deadline end
  unfolding EndsAfter Finds fetch_by is_found on_screen-KeepsTime
  EndsAfter-Finds P read deadline none sound h = elim h [ ]
  EndsAfter-Finds P read deadline (some (accepted none, w)) sound h =
      let no : false ≡ true = ap (λ x. x.0) h.passes in grind (arith, no)
  EndsAfter-Finds P read deadline (some (accepted (some c), w)) sound h =
      read-IsSeen P read h.before c (screen.hierarchy h.before).0 sound refl h.fetched
  EndsAfter-Finds P read deadline (some (wait_error e, w)) sound h = tt
  EndsAfter-Finds P read deadline (some (wait_timeout k ms, w)) sound h = h

  wait_until-Finds :
      (P : TreeNode → Cursor → Type 0) (read : TreeNode → Option Cursor) (kind : Text)
      (timeout interval n : ℕ) (timeout_ms interval_ms : ℤ)
      → Sound P read
      → timeout_ms ≡ pos timeout
      → interval_ms ≡ pos interval
      → timeout ≤ n * interval
      → (w : W) → clock.time w + timeout ≤ max_time
      → Finds P
          (clock.time w + timeout)
          (wait_until (polled_for ops screen read) timeout_ms interval_ms kind (suc n) w)
  unfolding on_screen-KeepsTime wait_until
  wait_until-Finds P read kind timeout interval n timeout_ms interval_ms sound t i enough w fits =
      subst
        (λ t.
          Finds P (clock.time w + timeout)
            (wait_until (polled_for ops screen read) t interval_ms kind (suc n) w))
        (sym t)
        (subst
          (λ i.
            Finds P (clock.time w + timeout)
              (wait_until (polled_for ops screen read) (pos timeout) i kind (suc n) w))
          (sym i)
          (EndsAfter-Finds P read (clock.time w + timeout) _ sound (
            wait_until-EndsAfter (polled_for ops screen read) (on_screen-KeepsTime read) timeout
              interval n kind enough w fits)))

  -- On a screen that keeps time, whose elements' areas are numbers, which `<` orders as in IEEE
  -- 754, `WaitForInputCommitted` with a timeout that is no longer than `n` intervals, and that ends at
  -- a time which an int64 holds, returns within `n + 1` polls: an error, or, no earlier than after the
  -- timeout, that the time is over, or an element of a screen that was shown. That is an input that
  -- meets the anchor; it shows the text expected, or as many characters where it hides them, or a text
  -- that is neither empty nor its label; and no other such input of that screen has a smaller area.
  pub wait_for_input_committed-Finds :
      IsOrder ops
      → (products : Products A)
      → ((before : W) (tree : TreeNode)
          → (screen.hierarchy before).0 ≡ inr tree
          → All (HasArea ops products) (walk tree))
      → (anchor : Bounds A) (expected : Text) (timeout interval n : ℕ) (timeout_ms interval_ms : ℤ)
      → or_default (pos 1000) timeout_ms ≡ pos timeout
      → or_default (pos 50) interval_ms ≡ pos interval
      → timeout ≤ n * interval
      → (w : W) → clock.time w + timeout ≤ max_time
      → Finds (Committed ops products anchor expected) (clock.time w + timeout) (
          wait_for_input_committed ops screen
            (suc n)
            products
            anchor
            expected
            timeout_ms
            interval_ms
            w)
  unfolding wait_for_input_committed
  wait_for_input_committed-Finds order products areas anchor expected timeout interval n tms ims t i
        enough w fits =
      wait_until-Finds (Committed ops products anchor expected)
        (find_anchored_input_with_value ops products anchor expected)
        (codes "waitForInputCommitted") timeout interval n _ _
        (λ before tree c shown e.
          find_anchored_input_with_value-Committed ops order products anchor expected tree c
            (areas before tree shown) e)
        t i enough w fits

  -- On a screen that keeps time, `WaitForFocus` with a timeout that is no longer than `n` intervals,
  -- and that ends at a time which an int64 holds, returns within `n + 1` polls: an error, or, no earlier than after the timeout, that the time is
  -- over, or an element of a screen that was shown. The selector selects that, and its bounds are
  -- those of an element of the screen that reports the focus, or meet them.
  pub wait_for_focus-Finds :
      (selector : Selector) (timeout interval n : ℕ) (timeout_ms interval_ms : ℤ)
      → or_default (pos 1500) timeout_ms ≡ pos timeout
      → or_default (pos 50) interval_ms ≡ pos interval
      → timeout ≤ n * interval
      → (w : W) → clock.time w + timeout ≤ max_time
      → Finds
          (HoldsFocus ops selector)
          (clock.time w + timeout)
          (wait_for_focus ops screen (suc n) selector timeout_ms interval_ms w)
  unfolding wait_for_focus
  wait_for_focus-Finds selector timeout interval n tms ims t i enough w fits =
      wait_until-Finds (HoldsFocus ops selector) (focused_target ops (compile_selector selector))
        (codes "waitForFocus") timeout interval n _ _
        (λ before tree c shown e. focused_target-HoldsFocus ops selector tree c e) t i enough w fits
