-- ===== src/Orchestra/Wait/Ends.antt =====
-- core/internal/orchestra/wait.go: `WaitUntil` ends, after a number of polls that its options bound,
-- and not before its time.
use atomyx.Orchestra.WaitFor.{sleep_ms}
use atomyx.Prelude.{
  ◌^◌, if◌then◌else◌, wrap_int, wrap_int-sum, wrap_int-difference, min, ℕ, zero, suc, ◌+◌, ◌*◌, ◌≤◌,
  ◌<◌, ◌≡◌, refl, sym, subst, ap, Option, none, some, Bool, true, false, Text, ◌⊎◌, inl, inr, ℤ,
  pos, ◌+ℤ◌, ◌-ℤ◌, leb_ℤ, on_option, on_none_at, on_bool_at, arith,
}
use atomyx.Orchestra.Wait.{
  Awaited, accepted, wait_error, wait_timeout, Polled, Waiting, time_out_or_sleep, after_predicate,
  after_fetch, until_loop, wait_until,
}
use atomyx.Orchestra.Wait.Deadline.{max_time, rounds, rounds-product, nap, sleep_ms-nap, next_round}

-- Time as the state has it: it is what the clock reads, in an int64, nothing sets it back, and a
-- sleep that is not interrupted takes as long as it was asked to, unless time ends before.
pub record KeepsTime {S T : Type 0} (polled : Polled S T) : Type 0 where
  pub time : S → ℕ
  pub in_range : (s : S) → time s ≤ max_time
  pub now_reads : (s : S) → (polled.now s).0 ≡ pos (time s)
  pub now_later : (s : S) → time s ≤ time (polled.now s).1
  pub fetch_later : (s : S) → time s ≤ time (polled.fetch s).1
  pub predicate_later : (v : T) (s : S) → time s ≤ time (polled.predicate v s).1
  pub sleep_lasts :
      (ms : ℕ) (s : S)
      → (polled.sleep (pos ms) s).0 ≡ none
      → min (time s + ms) max_time ≤ time (polled.sleep (pos ms) s).1

-- A value was fetched in some state, and the test on it, then, accepted it.
pub record IsAccepted {S T : Type 0} (polled : Polled S T) (value : T) (end : S) : Type 0 where
  pub before : S
  pub fetched : (polled.fetch before).0 ≡ inr value
  pub passes : polled.predicate value (polled.fetch before).1 ≡ (true, end)

module _ {S T : Type 0} (polled : Polled S T) (clock : KeepsTime polled) where
  -- A wait that ended: with a value that was accepted, by an error, or when its time was over.
  unfoldable pub EndsAfter : (deadline : ℕ) → Option (Awaited T × S) → Type 0
  EndsAfter deadline none = ⊥
  EndsAfter deadline (some (accepted v, s)) = IsAccepted polled v s
  EndsAfter deadline (some (wait_error e, s)) = Unit
  EndsAfter deadline (some (wait_timeout k ms, s)) = deadline ≤ clock.time s

  module _ (timeout_ms : ℤ) (kind : Text) (interval deadline : ℕ) where
    abbrev Ends : Waiting polled timeout_ms (pos interval) kind → Type 0
    Ends = EndsAfter deadline

    abbrev Next : Type 0
    Next = S → Waiting polled timeout_ms (pos interval) kind

    -- What the next of `n` rounds that are left does, if it begins near enough to the deadline.
    abbrev Later : (n : ℕ) → Next → Type 0
    Later n next =
        (s : S) (m : ℕ) → n ≡ suc m → deadline ≤ clock.time s + rounds interval m → Ends (next s)

    over : (t : ℕ) → leb_ℤ (pos deadline -ℤ pos t) (pos 0) ≡ true → deadline ≤ t
    unfolding ◌-ℤ◌
    over t h = ground (arith, h)

    not_over : (t : ℕ) → leb_ℤ (pos deadline -ℤ pos t) (pos 0) ≡ false → t < deadline
    unfolding ◌-ℤ◌
    not_over t h = ground (arith, h)

    time_out_or_sleep-Ends :
        (n : ℕ) (next : Next) (t : ℕ) (s : S)
        → deadline ≤ max_time
        → t ≤ clock.time s
        → deadline ≤ t + rounds interval n
        → Later n next
        → Ends
            (time_out_or_sleep polled timeout_ms (pos interval) kind (pos deadline) next (pos t) s)
    unfolding time_out_or_sleep EndsAfter
    time_out_or_sleep-Ends n next t s fits read near later =
        let in_time : t < 2 ^ 63 = omega (arith, read, clock.in_range s) in
        subst
          (λ left. Ends (
            if leb_ℤ left (pos 0)
            then some (wait_timeout kind timeout_ms, s)
            else (let slept = polled.sleep (sleep_ms (pos interval) left) s in
                elim slept.0 [ some e ↦ some (wait_error e, slept.1) | none ↦ next slept.1 ])))
          (sym (wrap_int-difference deadline t (omega (arith, fits)) in_time))
          (on_bool_at Ends (leb_ℤ (pos deadline -ℤ pos t) (pos 0))
            (λ late. omega (arith, over t late, read))
            (λ e.
              let early : t < deadline = not_over t e in
              let ms = nap interval deadline t in
              subst
                (λ ms. Ends (
                  let slept = polled.sleep ms s in
                  elim slept.0 [ some e ↦ some (wait_error e, slept.1) | none ↦ next slept.1 ]))
                (sym (sleep_ms-nap interval deadline t early))
                (on_none_at Ends (polled.sleep (pos ms) s).0
                  {s = λ e. some (wait_error e, (polled.sleep (pos ms) s).1)}
                  (λ whole.
                    next_round interval deadline n t (clock.time s)
                      (clock.time (polled.sleep (pos ms) s).1)
                      (Ends (next (polled.sleep (pos ms) s).1)) early near read fits
                      (clock.sleep_lasts ms s whole) (λ m e h. later _ m e h))
                  (λ e. tt))))

    after_predicate-Ends :
        (n : ℕ) (next : Next) (v : T) (b : Bool) (s : S)
        → deadline ≤ max_time
        → (b ≡ true → IsAccepted polled v s)
        → deadline ≤ clock.time s + rounds interval n
        → Later n next
        → Ends (after_predicate polled timeout_ms (pos interval) kind (pos deadline) next v b s)
    unfolding after_predicate EndsAfter
    after_predicate-Ends n next v true s fits is near later = is refl
    after_predicate-Ends n next v false s fits is near later =
        let read = polled.now s in
        subst
          (λ reading. Ends (
            time_out_or_sleep polled timeout_ms (pos interval) kind (pos deadline) next reading
              read.1))
          (sym (clock.now_reads s))
          (time_out_or_sleep-Ends n next (clock.time s) read.1 fits (clock.now_later s) near later)

    after_fetch-Ends :
        (n : ℕ) (next : Next) (x : Text ⊎ T) (before : S)
        → deadline ≤ max_time
        → (polled.fetch before).0 ≡ x
        → deadline ≤ clock.time (polled.fetch before).1 + rounds interval n
        → Later n next
        → Ends (
            after_fetch polled timeout_ms
              (pos interval)
              kind
              (pos deadline)
              next
              x
              (polled.fetch before).1)
    unfolding after_fetch EndsAfter
    after_fetch-Ends n next (inl e) before fits same near later = tt
    after_fetch-Ends n next (inr v) before fits same near later =
        let judged = polled.predicate v (polled.fetch before).1 in
        after_predicate-Ends n next v judged.0 judged.1 fits
          (λ yes_. record {
            before = before;
            fetched = same;
            passes = ap (λ b. (b, judged.1)) yes_;
          })
          (omega (arith, near, clock.predicate_later v (polled.fetch before).1)) later

    round-Ends :
        (n : ℕ) (s : S)
        → deadline ≤ max_time
        → deadline ≤ clock.time s + rounds interval n
        → Later n (until_loop polled timeout_ms (pos interval) kind n (pos deadline))
        → Ends (until_loop polled timeout_ms (pos interval) kind (suc n) (pos deadline) s)
    unfolding until_loop EndsAfter
    round-Ends n s fits near later =
        on_option Ends (polled.ctx_err s) {s = λ e. some (wait_error e, s)}
          (after_fetch-Ends n (until_loop polled timeout_ms (pos interval) kind n (pos deadline)) _
            s fits refl (omega (arith, near, clock.fetch_later s)) later)
          (λ e. tt)

    until_loop-Ends :
        (n : ℕ) (s : S)
        → deadline ≤ max_time
        → deadline ≤ clock.time s + rounds interval n
        → Ends (until_loop polled timeout_ms (pos interval) kind (suc n) (pos deadline) s)
    until_loop-Ends zero s fits near =
        round-Ends zero s fits near (λ v m e h. let no : ⊥ = omega (arith, e) in elim no [ ])
    until_loop-Ends (suc n) s fits near = round-Ends (suc n) s fits near (λ v m e h.
        until_loop-Ends n v fits
          (subst (λ i. deadline ≤ clock.time v + rounds interval i) (omega (arith, e)) h))

-- On a clock that keeps time, `WaitUntil` with a timeout that is no longer than `n` intervals, and
-- that ends at a time which an int64 holds, returns within `n + 1` polls: a value that it fetched and
-- that the predicate accepted, an error, or, no earlier than after the timeout, that the time is over.
pub wait_until-EndsAfter :
    {S T : Type 0} (polled : Polled S T) (clock : KeepsTime polled) (timeout interval n : ℕ)
    (kind : Text)
    → timeout ≤ n * interval
    → (s : S) → clock.time s + timeout ≤ max_time
    → EndsAfter polled clock
        (clock.time s + timeout)
        (wait_until polled (pos timeout) (pos interval) kind (suc n) s)
unfolding wait_until
wait_until-EndsAfter polled clock timeout interval n kind enough s fits =
    let read = polled.now s in
    let loop : ℤ → Waiting polled (pos timeout) (pos interval) kind =
      λ d. until_loop polled (pos timeout) (pos interval) kind (suc n) d read.1 in
    subst
      (λ r. EndsAfter polled clock (clock.time s + timeout) (loop (wrap_int (r +ℤ pos timeout))))
      (sym (clock.now_reads s))
      (subst (λ d. EndsAfter polled clock (clock.time s + timeout) (loop d))
        (sym (wrap_int-sum (clock.time s) timeout (omega (arith, fits))))
        (until_loop-Ends polled clock (pos timeout) kind interval (clock.time s + timeout) n read.1
          fits (omega (arith, enough, clock.now_later s, rounds-product interval n))))
