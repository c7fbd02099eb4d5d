-- ===== src/Orchestra/Wait.antt =====
-- core/internal/orchestra/wait.go: `WaitUntil`, and the waits that specialize it. The rounds of the
-- loop take fuel, and `none` means that it ran out. Sums and differences of times wrap, as int64's.
pub mod Deadline
pub mod Ends
pub mod Input
pub mod Requests
pub mod Stable
mod Expected
mod Smallest
mod Claims
mod Quiet
mod Focus
mod Accepts
mod Samples
use atomyx.Prelude.{
  wrap_int, ℕ, zero, suc, Option, none, some, Bool, true, false, Text, ◌⊎◌, inl, inr, if◌then◌else◌,
  ℤ, pos, ◌+ℤ◌, ◌-ℤ◌, leb_ℤ,
}
use atomyx.Orchestra.WaitFor.{Screen, sleep_ms}

pub data Awaited (T : Type 0) : Type 0 where
  accepted : T → Awaited T
  wait_error : Text → Awaited T
  wait_timeout : (kind : Text) → (timeout_ms : ℤ) → Awaited T

-- What a wait polls, over the state outside and that of its own variables: the clock and the context,
-- the value and the test on it.
pub record Polled (S T : Type 0) : Type 0 where
  pub now : S → ℤ × S
  pub sleep : ℤ → S → Option Text × S
  pub ctx_err : S → Option Text
  pub fetch : S → (Text ⊎ T) × S
  pub predicate : T → S → Bool × S

module _ {S T : Type 0} (polled : Polled S T) (timeout_ms interval_ms : ℤ) (kind : Text) where
  abbrev pub Waiting : Type 0
  Waiting = Option (Awaited T × S)

  -- At a reading of the clock: the deadline, or a sleep before the next round.
  unfoldable pub time_out_or_sleep :
      (deadline : ℤ) → (next : S → Waiting) → (reading : ℤ) → S → Waiting
  unfolding sleep_ms wrap_int
  time_out_or_sleep deadline next reading s =
      let remaining = wrap_int (deadline -ℤ reading) in
      if leb_ℤ remaining (pos 0)
      then some (wait_timeout kind timeout_ms, s)
      else (let slept = polled.sleep (sleep_ms interval_ms remaining) s in
          elim slept.0 [ some e ↦ some (wait_error e, slept.1) | none ↦ next slept.1 ])

  unfoldable pub after_predicate : (deadline : ℤ) → (next : S → Waiting) → T → Bool → S → Waiting
  unfolding time_out_or_sleep
  after_predicate deadline next value true s = some (accepted value, s)
  after_predicate deadline next value false s =
      let read = polled.now s in time_out_or_sleep deadline next read.0 read.1

  unfoldable pub after_fetch : (deadline : ℤ) → (next : S → Waiting) → Text ⊎ T → S → Waiting
  unfolding after_predicate
  after_fetch deadline next (inl e) s = some (wait_error e, s)
  after_fetch deadline next (inr value) s =
      let judged = polled.predicate value s in after_predicate deadline next value judged.0 judged.1

  unfoldable pub until_loop : (fuel : ℕ) → (deadline : ℤ) → S → Waiting
  unfolding after_fetch
  until_loop zero deadline s = none
  until_loop (suc fuel) deadline s =
      let next : S → Waiting = until_loop fuel deadline in
      elim (polled.ctx_err s) [
        | some e ↦ some (wait_error e, s)
        | none ↦ let fetched = polled.fetch s in after_fetch deadline next fetched.0 fetched.1
      ]

  unfoldable pub wait_until : (fuel : ℕ) → S → Waiting
  unfolding until_loop wrap_int
  wait_until fuel s =
      let read = polled.now s in until_loop fuel (wrap_int (read.0 +ℤ timeout_ms)) read.1

-- Zero selects the default.
unfoldable pub or_default : ℤ → ℤ → ℤ
or_default default (pos zero) = default
or_default default ms = ms

-- A wait on a screen whose value and test read nothing else.
abbrev pub on_screen :
    {W T : Type 0} → Screen W → (fetch : W → (Text ⊎ T) × W) → (T → Bool) → Polled W T
on_screen screen fetch test = record {
  now = screen.now;
  sleep = screen.sleep;
  ctx_err = screen.ctx_err;
  fetch = fetch;
  predicate = λ v w. (test v, w);
}
