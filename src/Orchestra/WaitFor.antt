-- ===== src/Orchestra/WaitFor.antt =====
-- core/internal/orchestra/polling_finder.go: `WaitFor`, over a clock, a context and a screen whose
-- state goes along. The rounds of the loop take fuel, and `none` means that it ran out. Sums and
-- differences of times wrap, as int64's.
pub mod Bound
mod Samples
use atomyx.Prelude.{
  wrap_int, ℕ, zero, suc, ◌+◌, List, [], ◌∷◌, Option, none, some, Bool, true, false, Text, ◌⊎◌, inl,
  inr, if◌then◌else◌, ℤ, pos, ◌+ℤ◌, ◌-ℤ◌, ltb_ℤ, leb_ℤ,
}
use atomyx.Wire.{TreeNode}
use atomyx.Orchestra.Cursor.Walk.{Cursor}
use atomyx.Orchestra.Filter.{ElementFilter}
use atomyx.Orchestra.Finder.{find}

pub record WaitOptions : Type 0 where
  pub timeout_ms : ℤ
  pub poll_interval_ms : ℤ

pub data Waited : Type 0 where
  found : List Cursor → Waited
  wait_error : Text → Waited
  find_timeout : (elapsed_ms : ℤ) → (poll_count : ℕ) → Waited

-- The clock, the context and the driver. `sleep` gives the error of a context that ended.
pub record Screen (W : Type 0) : Type 0 where
  pub now : W → ℤ × W
  pub sleep : ℤ → W → Option Text × W
  pub ctx_err : W → Option Text
  pub hierarchy : W → (Text ⊎ TreeNode) × W

-- Zero selects the default.
unfoldable pub poll_interval : ℤ → ℤ
poll_interval ms = if leb_ℤ ms (pos 0) then pos 250 else ms

unfoldable pub sleep_ms : (interval remaining : ℤ) → ℤ
sleep_ms interval remaining = if ltb_ℤ remaining interval then remaining else interval

unfoldable pub find_all : ElementFilter → Text ⊎ TreeNode → Text ⊎ List Cursor
unfolding find
find_all filter (inl e) = inl e
find_all filter (inr root) = inr (find filter root)

module _ {W : Type 0} (screen : Screen W) where
  abbrev pub Waiting : Type 0
  Waiting = Option (Waited × W)

  -- At a reading of the clock: the deadline, or a sleep before the next round.
  unfoldable pub stop_or_sleep :
      (interval started deadline : ℤ) → (polls : ℕ) → (W → Waiting) → (reading : ℤ) → W → Waiting
  unfolding sleep_ms wrap_int
  stop_or_sleep interval started deadline polls next reading w =
      if leb_ℤ deadline reading
      then some (find_timeout (wrap_int (reading -ℤ started)) polls, w)
      else (let slept = screen.sleep (sleep_ms interval (wrap_int (deadline -ℤ reading))) w in
          elim slept.0 [ some e ↦ some (wait_error e, slept.1) | none ↦ next slept.1 ])

  unfoldable pub after_poll :
      (interval started deadline : ℤ)
      → (polls : ℕ) → (W → Waiting)
      → Text ⊎ List Cursor
      → W
      → Waiting
  unfolding stop_or_sleep
  after_poll interval started deadline polls next (inl e) w = some (wait_error e, w)
  after_poll interval started deadline polls next (inr []) w =
      let read = screen.now w in stop_or_sleep interval started deadline polls next read.0 read.1
  after_poll interval started deadline polls next (inr (c ∷ cs)) w = some (found (c ∷ cs), w)

  unfoldable pub wait_loop :
      (fuel : ℕ) → ElementFilter → (interval started deadline : ℤ) → (polls : ℕ) → W → Waiting
  unfolding find_all after_poll
  wait_loop zero filter interval started deadline polls w = none
  wait_loop (suc fuel) filter interval started deadline polls w =
      let next : W → Waiting = wait_loop fuel filter interval started deadline (suc polls) in
      elim (screen.ctx_err w) [
        | some e ↦ some (wait_error e, w)
        | none ↦
            let seen = screen.hierarchy w in
            after_poll interval started deadline (suc polls) next (find_all filter seen.0) seen.1
      ]

  unfoldable pub wait_for : (fuel : ℕ) → ElementFilter → WaitOptions → W → Waiting
  unfolding poll_interval wait_loop wrap_int
  wait_for fuel filter opts w =
      let read = screen.now w in
      wait_loop fuel filter (poll_interval opts.poll_interval_ms) read.0
        (wrap_int (read.0 +ℤ opts.timeout_ms)) 0 read.1
