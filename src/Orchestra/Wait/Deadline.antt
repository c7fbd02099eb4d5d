-- ===== src/Orchestra/Wait/Deadline.antt =====
-- core/internal/orchestra: rounds of at most an interval each, up to a deadline.
use atomyx.Prelude.{
  ℕ, zero, suc, ◌+◌, ◌-◌, ◌*◌, ◌^◌, min, ◌≤◌, ◌<◌, ◌≡◌, refl, ◌∙◌, ap, true, if◌then◌else◌, pos,
  ◌-ℤ◌, leb_ℤ, ltb, arith,
}
use atomyx.Orchestra.WaitFor.{sleep_ms}

-- The last time that an int64 holds.
abbrev pub max_time : ℕ
max_time = 2 ^ 63 - 1

-- What `n` rounds last.
unfoldable pub rounds : (interval : ℕ) → ℕ → ℕ
rounds interval zero = 0
rounds interval (suc n) = interval + rounds interval n

pub rounds-product : (interval n : ℕ) → n * interval ≡ rounds interval n
unfolding rounds
rounds-product interval zero = omega arith
rounds-product interval (suc n) = omega (arith, rounds-product interval n)

-- Times as the loops compare them.
pub late_enough :
    (started timeout t : ℕ)
    → started + timeout ≤ t
    → leb_ℤ (pos timeout) (pos t -ℤ pos started) ≡ true
unfolding ◌-ℤ◌
late_enough started timeout t late = ground (arith, late)

module _ (interval deadline : ℕ) where
  -- The sleep of a round, at a time before the deadline.
  unfoldable pub nap : ℕ → ℕ
  nap t = if ltb (deadline - t) interval then deadline - t else interval

  shorter_of : (r i : ℕ) → sleep_ms (pos i) (pos r) ≡ pos (if ltb r i then r else i)
  unfolding sleep_ms
  shorter_of r i = ground arith

  time_left : (t : ℕ) → t < deadline → pos deadline -ℤ pos t ≡ pos (deadline - t)
  unfolding ◌-ℤ◌
  time_left t early = ground (arith, early)

  pub sleep_ms-nap :
      (t : ℕ) → t < deadline → sleep_ms (pos interval) (pos deadline -ℤ pos t) ≡ pos (nap t)
  unfolding nap
  sleep_ms-nap t early =
      ap (sleep_ms (pos interval)) (time_left t early) ∙ shorter_of (deadline - t) interval

  -- What a round leaves to the next.
  nap_or_deadline :
      (t v m : ℕ)
      → t < deadline
      → deadline ≤ t + rounds interval (suc m)
      → deadline ≤ max_time
      → min (t + nap t) max_time ≤ v
      → deadline ≤ v + rounds interval m
  unfolding rounds nap
  nap_or_deadline t v m early near fits slept = ground (arith, early, near, fits, slept)

  -- Before the deadline there is a next round, which begins near enough to it.
  pub next_round :
      (n t read slept : ℕ) (P : Type 0)
      → t < deadline
      → deadline ≤ t + rounds interval n
      → t ≤ read
      → deadline ≤ max_time
      → min (read + nap t) max_time ≤ slept
      → ((m : ℕ) → n ≡ suc m → deadline ≤ slept + rounds interval m → P)
      → P
  unfolding rounds
  next_round zero t read slept P early near later fits sleeps next =
      let no : ⊥ = omega (arith, early, near) in elim no [ ]
  next_round (suc m) t read slept P early near later fits sleeps next =
      next m refl (nap_or_deadline t slept m early near fits (omega (arith, later, sleeps)))
