-- ===== src/Orchestra/WaitFor/Samples.antt =====
-- Waits on a screen whose clock moves only while the wait sleeps, and the theorem on them.
use atomyx.Orchestra.Wait.Deadline.{max_time}
use atomyx.Prelude.{min, ℕ, ◌+◌, ◌≡◌, ◌+ℤ◌, ◌-ℤ◌, refl, [], none, some, inr, pos, pos_part, arith}
use atomyx.Wire.{TreeNode, node, nil}
use atomyx.Orchestra.Cursor.Walk.{walk}
use atomyx.Orchestra.Filter.{ElementFilter}
use atomyx.Orchestra.WaitFor.{Screen, WaitOptions, found, find_timeout, poll_interval, wait_for}
use atomyx.Orchestra.WaitFor.Bound.{KeepsTime, EndsWithin, wait_for-EndsWithin}

abbrev blank : TreeNode
blank =
    node []
      (record {
        clickable = none;
        enabled = none;
        focused = none;
        selected = none;
        checked = none;
        visible = none;
      })
      nil

abbrev still : Screen ℕ
still = record {
  now = λ w. (pos (min w max_time), w);
  sleep = λ ms w. (none, w + pos_part ms);
  ctx_err = λ w. none;
  hierarchy = λ w. (inr blank, w);
}

abbrev nothing : ElementFilter
nothing cs = []

abbrev half_a_second : WaitOptions
half_a_second = record { timeout_ms = pos 500; poll_interval_ms = pos 0 }

times_out : wait_for still 3 nothing half_a_second 7 ≡ some (find_timeout (pos 500) 3, 507)
unfolding wait_for ◌+ℤ◌ ◌-ℤ◌
times_out = refl

finds_at_once :
    wait_for still 1 (λ cs. cs) (record { timeout_ms = pos 0; poll_interval_ms = pos 100 }) 7
    ≡ some (found (walk blank), 7)
unfolding wait_for walk
finds_at_once = refl

-- A deadline that no int64 holds wraps, and is over at once.
overflows :
    wait_for still 1 nothing (record half_a_second { timeout_ms = pos max_time }) 7
    ≡ some (find_timeout (pos 0) 1, 7)
unfolding wait_for ◌+ℤ◌ ◌-ℤ◌
overflows = refl

still-KeepsTime : KeepsTime still
still-KeepsTime = record {
  time = λ w. min w max_time;
  in_range = λ w. omega arith;
  now_reads = λ w. refl;
  now_later = λ w. omega arith;
  hierarchy_later = λ w. omega arith;
  sleep_lasts = λ ms w whole. omega arith;
}

default_interval : poll_interval (pos 0) ≡ pos 250
unfolding poll_interval
default_interval = refl

wait_for-EndsWithin_example : EndsWithin 500 3 (wait_for still 3 nothing half_a_second 7)
unfolding still-KeepsTime
wait_for-EndsWithin_example =
    wait_for-EndsWithin still still-KeepsTime nothing 500 250 2 (pos 0) default_interval
      (omega arith) 7 (omega arith)
