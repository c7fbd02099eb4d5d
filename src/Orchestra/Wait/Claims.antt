-- ===== src/Orchestra/Wait/Claims.antt =====
-- core/internal/orchestra/wait.go: what a wait claims of the value it accepts, by an invariant.
use atomyx.Prelude.{
  wrap_int, ℕ, zero, suc, ◌≡◌, refl, Option, none, some, Bool, true, false, Text, ◌⊎◌, inl, inr, ℤ,
  ◌-ℤ◌, leb_ℤ, pos, on_option, on_bool,
}
use atomyx.Orchestra.WaitFor.{sleep_ms}
use atomyx.Orchestra.Wait.{
  Awaited, accepted, wait_error, wait_timeout, Polled, Waiting, time_out_or_sleep, after_predicate,
  after_fetch, until_loop, wait_until,
}

module _ {S T : Type 0} (polled : Polled S T) (I : S → Type 0) (Q : T → S → Type 0)
    (now_keeps : (s : S) → I s → I (polled.now s).1)
    (sleep_keeps : (ms : ℤ) (s : S) → I s → I (polled.sleep ms s).1) where
  -- What the test on a value leaves: what is claimed of an accepted one, or the invariant.
  unfoldable pub Judged : T → Bool × S → Type 0
  Judged v (true, s) = Q v s
  Judged v (false, s) = I s

  unfoldable pub Claims : Option (Awaited T × S) → Type 0
  Claims none = Unit
  Claims (some (accepted v, s)) = Q v s
  Claims (some (wait_error e, s)) = Unit
  Claims (some (wait_timeout k ms, s)) = Unit

  module _
      (judges : (s : S) (v : T)
        → I s
        → (polled.fetch s).0 ≡ inr v
        → Judged v (polled.predicate v (polled.fetch s).1))
      (timeout_ms interval_ms : ℤ) (kind : Text) (deadline : ℤ) where
    time_out_or_sleep-Claims :
        (next : S → Waiting polled timeout_ms interval_ms kind) (reading : ℤ) (s : S)
        → ((s : S) → I s → Claims (next s))
        → I s
        → Claims (time_out_or_sleep polled timeout_ms interval_ms kind deadline next reading s)
    unfolding time_out_or_sleep Claims
    time_out_or_sleep-Claims next reading s later i =
        let remaining = wrap_int (deadline -ℤ reading) in
        on_bool Claims (leb_ℤ remaining (pos 0)) tt (
          let slept = polled.sleep (sleep_ms interval_ms remaining) s in
          on_option Claims slept.0 {s = λ e. some (wait_error e, slept.1)}
            (later slept.1 (sleep_keeps _ s i)) (λ e. tt))

    after_predicate-Claims :
        (next : S → Waiting polled timeout_ms interval_ms kind) (v : T) (b : Bool) (s : S)
        → ((s : S) → I s → Claims (next s))
        → Judged v (b, s)
        → Claims (after_predicate polled timeout_ms interval_ms kind deadline next v b s)
    unfolding after_predicate Claims Judged
    after_predicate-Claims next v true s later j = j
    after_predicate-Claims next v false s later j =
        time_out_or_sleep-Claims next _ _ later (now_keeps s j)

    after_fetch-Claims :
        (next : S → Waiting polled timeout_ms interval_ms kind) (x : Text ⊎ T) (s : S)
        → ((s : S) → I s → Claims (next s))
        → I s
        → (polled.fetch s).0 ≡ x
        → Claims (after_fetch polled timeout_ms interval_ms kind deadline next x (polled.fetch s).1)
    unfolding after_fetch Claims
    after_fetch-Claims next (inl e) s later i same = tt
    after_fetch-Claims next (inr v) s later i same =
        after_predicate-Claims next v _ _ later (judges s v i same)

    until_loop-Claims :
        (fuel : ℕ) (s : S)
        → I s
        → Claims (until_loop polled timeout_ms interval_ms kind fuel deadline s)
    unfolding until_loop Claims
    until_loop-Claims zero s i = tt
    until_loop-Claims (suc fuel) s i =
        on_option Claims (polled.ctx_err s) {s = λ e. some (wait_error e, s)}
          (after_fetch-Claims (until_loop polled timeout_ms interval_ms kind fuel deadline) _ s
            (λ s j. until_loop-Claims fuel s j) i refl)
          (λ e. tt)

  -- What holds of every wait whose steps keep an invariant.
  pub wait_until-Claims :
      ((s : S) (v : T)
        → I s
        → (polled.fetch s).0 ≡ inr v
        → Judged v (polled.predicate v (polled.fetch s).1))
      → (timeout_ms interval_ms : ℤ) (kind : Text) (fuel : ℕ) (s : S) → I s
      → Claims (wait_until polled timeout_ms interval_ms kind fuel s)
  unfolding wait_until
  wait_until-Claims judges timeout_ms interval_ms kind fuel s i =
      until_loop-Claims judges timeout_ms interval_ms kind _ fuel _ (now_keeps s i)

  pub Judged-by :
      (v : T) (b : Bool) (s : S) → (b ≡ true → Q v s) → (b ≡ false → I s) → Judged v (b, s)
  unfolding Judged
  Judged-by v true s p q = p refl
  Judged-by v false s p q = q refl
