-- ===== src/Orchestra/WaitFor/Bound.antt =====
-- core/internal/orchestra/polling_finder.go: `WaitFor` ends, after a number of polls that its options
-- bound, and not before its time.
use atomyx.Prelude.{
  ◌^◌, ap, ◌∙◌, wrap_int, wrap_int-sum, wrap_int-difference, min, ℕ, zero, suc, ◌+◌, ◌*◌, ◌≤◌, ◌<◌,
  ◌≡◌, sym, subst, List, [], ◌∷◌, Option, none, some, true, Text, ◌⊎◌, inl, inr, ℤ, pos, ◌+ℤ◌,
  leb_ℤ, length, on_option, on_none_at, on_bool_at, arith,
}
use atomyx.Orchestra.Cursor.Walk.{Cursor}
use atomyx.Orchestra.Filter.{ElementFilter}
use atomyx.Orchestra.Wait.Deadline.{
  max_time, late_enough, rounds, rounds-product, nap, sleep_ms-nap, next_round,
}
use atomyx.Orchestra.WaitFor.{
  sleep_ms, Screen, Waited, found, wait_error, find_timeout, Waiting, stop_or_sleep, after_poll,
  wait_loop, wait_for, find_all, poll_interval,
}

-- Time as the state has it: it is what the clock reads, in an int64, nothing sets it back, and a
-- sleep that is not interrupted takes as long as it was asked to, unless time ends before.
pub record KeepsTime {W : Type 0} (screen : Screen W) : Type 0 where
  pub time : W → ℕ
  pub in_range : (w : W) → time w ≤ max_time
  pub now_reads : (w : W) → (screen.now w).0 ≡ pos (time w)
  pub now_later : (w : W) → time w ≤ time (screen.now w).1
  pub hierarchy_later : (w : W) → time w ≤ time (screen.hierarchy w).1
  pub sleep_lasts :
      (ms : ℕ) (w : W)
      → (screen.sleep (pos ms) w).0 ≡ none
      → min (time w + ms) max_time ≤ time (screen.sleep (pos ms) w).1

-- A wait that ended: what it found is not empty, or it went on for the time, in so many polls.
unfoldable pub EndsWithin : {W : Type 0} → (timeout polls : ℕ) → Option (Waited × W) → Type 0
EndsWithin timeout polls none = ⊥
EndsWithin timeout polls (some (found cs, w)) = 0 < length cs
EndsWithin timeout polls (some (wait_error e, w)) = Unit
EndsWithin timeout polls (some (find_timeout elapsed count, w)) =
    (leb_ℤ (pos timeout) elapsed ≡ true) × (count ≤ polls)

module _ {W : Type 0} (screen : Screen W) (clock : KeepsTime screen)
    (interval started timeout bound : ℕ) where
  abbrev deadline : ℕ
  deadline = started + timeout

  abbrev Ends : Waiting screen → Type 0
  Ends = EndsWithin timeout bound

  stop_or_sleep-Ends :
      (n polls : ℕ) (next : W → Waiting screen) (t : ℕ) (w : W)
      → deadline ≤ max_time
      → polls ≤ bound
      → t ≤ clock.time w
      → deadline ≤ t + rounds interval n
      → ((v : W) (m : ℕ) → n ≡ suc m → deadline ≤ clock.time v + rounds interval m → Ends (next v))
      → Ends (stop_or_sleep screen (pos interval) (pos started) (pos deadline) polls next (pos t) w)
  unfolding stop_or_sleep EndsWithin
  stop_or_sleep-Ends n polls next t w fits few read near later =
      let in_time : t < 2 ^ 63 = omega (arith, read, clock.in_range w) in
      on_bool_at Ends (leb_ℤ (pos deadline) (pos t))
        (λ late. (
          subst (λ ms. leb_ℤ (pos timeout) ms ≡ true)
              (sym (wrap_int-difference t started in_time (omega (arith, fits))))
              (late_enough started timeout t (ground (arith, late))),
          few,
        ))
        (λ e.
          let early : t < deadline = ground (arith, e) in
          subst
            (λ ms. Ends (
              let slept = screen.sleep ms w in
              elim slept.0 [ some e ↦ some (wait_error e, slept.1) | none ↦ next slept.1 ]))
            (sym (
              ap (sleep_ms (pos interval))
                (wrap_int-difference deadline t (omega (arith, fits)) in_time)
              ∙ sleep_ms-nap interval deadline t early))
            (on_none_at Ends (screen.sleep (pos (nap interval deadline t)) w).0
              {s = λ e. some (wait_error e, (screen.sleep (pos (nap interval deadline t)) w).1)}
              (λ whole.
                next_round interval deadline n t (clock.time w)
                  (clock.time (screen.sleep (pos (nap interval deadline t)) w).1)
                  (Ends (next (screen.sleep (pos (nap interval deadline t)) w).1)) early near read
                  fits (clock.sleep_lasts (nap interval deadline t) w whole)
                  (λ m e h. later _ m e h))
              (λ e. tt)))

  after_poll-Ends :
      (n polls : ℕ) (next : W → Waiting screen) (seen : Text ⊎ List Cursor) (w : W)
      → deadline ≤ max_time
      → polls ≤ bound
      → deadline ≤ clock.time w + rounds interval n
      → ((v : W) (m : ℕ) → n ≡ suc m → deadline ≤ clock.time v + rounds interval m → Ends (next v))
      → Ends (after_poll screen (pos interval) (pos started) (pos deadline) polls next seen w)
  unfolding after_poll EndsWithin
  after_poll-Ends n polls next (inl e) w fits few near later = tt
  after_poll-Ends n polls next (inr (c ∷ cs)) w fits few near later = omega arith
  after_poll-Ends n polls next (inr []) w fits few near later =
      let read = screen.now w in
      subst
        (λ reading. Ends (
          stop_or_sleep screen (pos interval) (pos started) (pos deadline) polls next reading
            read.1))
        (sym (clock.now_reads w))
        (stop_or_sleep-Ends n polls next (clock.time w) read.1 fits few (clock.now_later w) near
          later)

  round-Ends :
      (n polls : ℕ) (filter : ElementFilter) (w : W)
      → deadline ≤ max_time
      → polls + suc n ≤ bound
      → deadline ≤ clock.time w + rounds interval n
      → ((v : W) (m : ℕ)
          → n ≡ suc m
          → deadline ≤ clock.time v + rounds interval m
          → Ends
              (wait_loop screen n filter (pos interval) (pos started) (pos deadline) (suc polls) v))
      → Ends (wait_loop screen (suc n) filter (pos interval) (pos started) (pos deadline) polls w)
  unfolding wait_loop EndsWithin
  round-Ends n polls filter w fits few near later =
      on_option Ends (screen.ctx_err w) {s = λ e. some (wait_error e, w)}
        (let seen = screen.hierarchy w in
          after_poll-Ends n (suc polls)
            (wait_loop screen n filter (pos interval) (pos started) (pos deadline) (suc polls))
            (find_all filter seen.0) seen.1 fits (omega (arith, few))
            (omega (arith, near, clock.hierarchy_later w)) later)
        (λ e. tt)

  wait_loop-Ends :
      (n polls : ℕ) (filter : ElementFilter) (w : W)
      → deadline ≤ max_time
      → polls + suc n ≤ bound
      → deadline ≤ clock.time w + rounds interval n
      → Ends (wait_loop screen (suc n) filter (pos interval) (pos started) (pos deadline) polls w)
  wait_loop-Ends zero polls filter w fits few near =
      round-Ends zero polls filter w fits few near
        (λ v m e later. let no : ⊥ = omega (arith, e) in elim no [ ])
  wait_loop-Ends (suc n) polls filter w fits few near =
      round-Ends (suc n) polls filter w fits few near (λ v m e later.
        wait_loop-Ends n (suc polls) filter v fits (omega (arith, few))
          (subst (λ i. deadline ≤ clock.time v + rounds interval i) (omega (arith, e)) later))

-- On a screen that keeps time, `WaitFor` with a timeout that is no longer than `n` intervals, and
-- that ends at a time which an int64 holds, returns within `n + 1` polls: an error, matches, of which there is one at least, or, no earlier than after
-- the timeout, that there are none.
pub wait_for-EndsWithin :
    {W : Type 0} (screen : Screen W) (clock : KeepsTime screen) (filter : ElementFilter)
    (timeout interval n : ℕ) (interval_ms : ℤ)
    → poll_interval interval_ms ≡ pos interval
    → timeout ≤ n * interval
    → (w : W) → clock.time w + timeout ≤ max_time
    → EndsWithin timeout (suc n) (
        wait_for screen
          (suc n)
          filter
          (record { timeout_ms = pos timeout; poll_interval_ms = interval_ms })
          w)
unfolding wait_for ◌+ℤ◌
wait_for-EndsWithin screen clock filter timeout interval n interval_ms e enough w fits =
    let read = screen.now w in
    subst
      (λ i.
        EndsWithin timeout (suc n)
          (wait_loop screen (suc n) filter i read.0 (wrap_int (read.0 +ℤ pos timeout)) 0 read.1))
      (sym e)
      (subst
        (λ r.
          EndsWithin timeout (suc n) (
            wait_loop screen (suc n) filter (pos interval) r (wrap_int (r +ℤ pos timeout)) 0
              read.1))
        (sym (clock.now_reads w))
        (subst
          (λ d.
            EndsWithin timeout (suc n)
              (wait_loop screen (suc n) filter (pos interval) (pos (clock.time w)) d 0 read.1))
          (sym (wrap_int-sum (clock.time w) timeout (omega (arith, fits))))
          (wait_loop-Ends screen clock interval (clock.time w) timeout (suc n) n 0 filter read.1
            fits (omega arith)
            (omega (arith, enough, clock.now_later w, rounds-product interval n)))))
