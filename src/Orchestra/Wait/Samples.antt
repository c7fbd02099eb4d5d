-- ===== src/Orchestra/Wait/Samples.antt =====
-- Waits on a form whose field is there after a while, and the theorems on them.
use atomyx.Orchestra.Wait.Deadline.{max_time}
use atomyx.Prelude.{
  min, All-any, ℕ, ◌+◌, ◌-◌, ◌*◌, ltb, Bool, true, false, ◌≡◌, refl, [], ◌∷◌, Option, none, some,
  codes, inr, pos, pos_part, ◌+ℤ◌, ◌-ℤ◌, if◌then◌else◌, arith,
}
use atomyx.Wire.{States, TreeNode, node, nil, cons}
use atomyx.Orchestra.Fixtures.{pixels}
use atomyx.Orchestra.Cursor.Walk.{Cursor, root, below, walk}
use atomyx.Orchestra.Bounds.{Bounds}
use atomyx.Orchestra.Selector.Compile.{Selector, compile_selector}
use atomyx.Orchestra.WaitFor.{Screen}
use atomyx.Orchestra.WaitFor.Bound
use atomyx.Orchestra.Wait.{accepted, wait_timeout, wait_until, on_screen, or_default, Polled}
use atomyx.Orchestra.Wait.Ends.{KeepsTime, EndsAfter, wait_until-EndsAfter}
use atomyx.Orchestra.Wait.Input.{Products, match_text}
use atomyx.Orchestra.Wait.Requests.{
  wait_for_input_committed, wait_for_focus, wait_for_text, wait_for_input_ready, wait_for_keyboard,
}
use atomyx.Orchestra.Wait.Smallest.{IsOrder, HasArea, Committed}
use atomyx.Orchestra.Wait.Focus.{HoldsFocus}
use atomyx.Orchestra.Wait.Accepts.{Finds, wait_for_input_committed-Finds, wait_for_focus-Finds}
use atomyx.Orchestra.Wait.Stable.{wait_for_tree_stable, hash_tree_signature, Watch}
use atomyx.Orchestra.Wait.Quiet.{IsStable, wait_for_tree_stable-IsStable}

abbrev areas : Products ℕ
areas = record { sub = λ a b. a - b; mul = λ a b. a * b; max_safe_integer = 9007199254740991 }

abbrev states : (focused : Option Bool) → States
states focused = record {
  clickable = none;
  enabled = none;
  focused = focused;
  selected = none;
  checked = none;
  visible = none;
}

abbrev field : TreeNode
field =
    node
      ((codes "bounds", codes "10,10,30,30")
        ∷ (codes "role", codes "text-field")
        ∷ (codes "text", codes "hello")
        ∷ [])
      (states (some true)) nil

-- The form's own bounds hold the field's.
abbrev form : TreeNode
form =
    node
      ((codes "bounds", codes "0,0,99,99")
        ∷ (codes "role", codes "search-field")
        ∷ (codes "text", codes "hello")
        ∷ [])
      (states none) (cons field nil)

abbrev blank : TreeNode
blank = node [] (states none) nil

abbrev shown_at : ℕ → TreeNode
shown_at w = if ltb w 120 then blank else form

-- A clock that moves only while the wait sleeps, up to the last time.
abbrev slow : Screen ℕ
slow = record {
  now = λ w. (pos (min w max_time), w);
  sleep = λ ms w. (none, w + pos_part ms);
  ctx_err = λ w. none;
  hierarchy = λ w. (inr (shown_at w), w);
}

slow-KeepsTime : atomyx.Orchestra.WaitFor.Bound.KeepsTime slow
slow-KeepsTime = record {
  time = λ w. min w max_time;
  in_range = λ w. omega arith;
  now_reads = λ w. refl;
  now_later = λ w. omega arith;
  hierarchy_later = λ w. omega arith;
  sleep_lasts = λ ms w whole. omega arith;
}

pixels-IsOrder : IsOrder pixels
unfolding pixels
pixels-IsOrder = record {
  asymmetric = λ a b h. ground (arith, h);
  not_less = λ a b c n h k. ground (arith, h, k);
}

counts_pixels : (c : Cursor) → HasArea pixels areas c
unfolding HasArea pixels
counts_pixels c = refl

default_1000 : or_default (pos 1000) (pos 0) ≡ pos 1000
unfolding or_default
default_1000 = refl

default_1500 : or_default (pos 1500) (pos 0) ≡ pos 1500
unfolding or_default
default_1500 = refl

default_50 : or_default (pos 50) (pos 0) ≡ pos 50
unfolding or_default
default_50 = refl

abbrev anchor : Bounds ℕ
anchor = record { left = 12; top = 12; right = 28; bottom = 28 }

commits_field :
    wait_for_input_committed pixels slow 5 areas anchor (codes "hello") (pos 0) (pos 0) 0
    ≡ some (accepted (some (below field (root form) 1 0)), 150)
unfolding wait_for_input_committed pixels walk ◌+ℤ◌ ◌-ℤ◌
commits_field = refl

times_out :
    wait_for_input_committed pixels slow 5 areas anchor (codes "hello") (pos 80) (pos 0) 0
    ≡ some (wait_timeout (codes "waitForInputCommitted") (pos 80), 80)
unfolding wait_for_input_committed pixels walk ◌+ℤ◌ ◌-ℤ◌
times_out = refl

wait_for_input_committed-Finds_example :
    Finds pixels slow slow-KeepsTime
      (Committed pixels areas anchor (codes "hello"))
      1000
      (wait_for_input_committed pixels slow 21 areas anchor (codes "hello") (pos 0) (pos 0) 0)
unfolding slow-KeepsTime
wait_for_input_committed-Finds_example =
    wait_for_input_committed-Finds pixels slow slow-KeepsTime pixels-IsOrder areas
      (λ before tree shown. All-any (HasArea pixels areas) (walk tree) counts_pixels) anchor
      (codes "hello") 1000 50 20 (pos 0) (pos 0) default_1000 default_50 (omega arith) 0
      (omega arith)

abbrev text_field : Selector
text_field = record {
  id = none;
  text = none;
  label = none;
  hint = none;
  value = none;
  role = some (codes "text-field");
  enabled = none;
  clickable = none;
  focused = none;
  nth = none;
}

focuses_field :
    wait_for_focus pixels slow 5 text_field (pos 0) (pos 0) 0
    ≡ some (accepted (some (below field (root form) 1 0)), 150)
unfolding wait_for_focus pixels walk compile_selector ◌+ℤ◌ ◌-ℤ◌
focuses_field = refl

wait_for_focus-Finds_example :
    Finds pixels slow slow-KeepsTime
      (HoldsFocus pixels text_field)
      1500
      (wait_for_focus pixels slow 31 text_field (pos 0) (pos 0) 0)
unfolding slow-KeepsTime
wait_for_focus-Finds_example =
    wait_for_focus-Finds pixels slow slow-KeepsTime text_field 1500 50 30 (pos 0) (pos 0)
      default_1500 default_50 (omega arith) 0 (omega arith)

reads_text :
    wait_for_text pixels slow 5 text_field (match_text (codes "hello")) (pos 0) (pos 0) 0
    ≡ some (accepted (some (below field (root form) 1 0)), 150)
unfolding wait_for_text walk compile_selector match_text ◌+ℤ◌ ◌-ℤ◌
reads_text = refl

is_ready :
    wait_for_input_ready pixels slow 5 text_field (pos 0) (pos 0) 0 ≡ some (accepted true, 150)
unfolding wait_for_input_ready pixels walk compile_selector ◌+ℤ◌ ◌-ℤ◌
is_ready = refl

no_keyboard :
    wait_for_keyboard pixels slow 1 false (pos 0) (pos 50) 0
    ≡ some (accepted (record { visible = false; bounds = none }), 0)
unfolding wait_for_keyboard walk ◌+ℤ◌ ◌-ℤ◌
no_keyboard = refl

abbrev never : Polled ℕ TreeNode
never = on_screen slow slow.hierarchy (λ tree. false)

never-KeepsTime : KeepsTime never
never-KeepsTime = record {
  time = λ w. min w max_time;
  in_range = λ w. omega arith;
  now_reads = λ w. refl;
  now_later = λ w. omega arith;
  fetch_later = λ w. omega arith;
  predicate_later = λ v w. omega arith;
  sleep_lasts = λ ms w whole. omega arith;
}

wait_until-EndsAfter_example :
    EndsAfter never never-KeepsTime
      (never-KeepsTime.time 7 + 120)
      (wait_until never (pos 120) (pos 50) (codes "never") 4 7)
unfolding never-KeepsTime
wait_until-EndsAfter_example =
    wait_until-EndsAfter never never-KeepsTime 120 50 3 (codes "never") (omega arith) 7
      (omega arith)

abbrev settled : Watch ℕ
settled = record { world = 400; last_hash = hash_tree_signature form; stable_since = pos 200 }

settles : wait_for_tree_stable slow (pos 150) 9 (pos 0) (pos 0) 0 ≡ some (accepted form, settled)
unfolding wait_for_tree_stable hash_tree_signature ◌+ℤ◌ ◌-ℤ◌
settles = refl

wait_for_tree_stable-IsStable_example : IsStable slow (pos 150) form
wait_for_tree_stable-IsStable_example =
    wait_for_tree_stable-IsStable slow (pos 150) 9 (pos 0) (pos 0) 0 form settled settles
