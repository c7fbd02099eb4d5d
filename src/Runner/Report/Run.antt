-- ===== src/Runner/Report/Run.antt =====
-- core/internal/runner/runner.go: the result of a whole run.
use atomyx.Prelude.{
  count_if-Counts, on_bool_at, arith, ℕ, ◌≡◌, subst, none, some, true, ◌&&◌, ℤ, All, length,
}
use atomyx.Runner.Types.{CommandResult, ScriptDefinition, ScriptResult}
use atomyx.Runner.Host.{Host, RunState}
use atomyx.Runner.Outcome.{
  run_error, finished, LoopEnd, interrupted, ended, Required, satisfied, failed, load_error,
  count_ok,
}
use atomyx.Runner.Gate.{gate, execute, nested}
use atomyx.Runner.Loop.{script_loop}
use atomyx.Runner.Requires.{run_required_flows}
use atomyx.Runner.Run.{
  Reported, fresh, run, run_gated, after_required, conclude, report, requires_proxy,
}
use atomyx.Runner.Returns.{Upholds, Upholds-bind, Upholds-self}
use atomyx.Runner.Report.{
  Reports, proxy_refused, requires_refused, preconditions_refused, ran, IsOk, Reports-ok, Satisfied,
  Gated,
}
use atomyx.Runner.Report.Loop.{IsEnd, script_loop-IsEnd}

module _ {W Step : Type 0} (host : Host W Step) (fuel : ℕ) (def : ScriptDefinition Step) where
  unfoldable pub IsReported : (start : RunState W Step) → Reported host → Type 0
  IsReported start x = elim x.0 [ run_error e ↦ Unit | finished r ↦ Reports host fuel def start r ]

  module _ (start : RunState W Step) where
    conclude-IsReported :
        (started : ℤ) (ready : RunState W Step) (gated : CommandResult) (after : RunState W Step)
        (end : LoopEnd) (st : RunState W Step)
        → Satisfied host fuel def start ready
        → Gated host fuel def start ready gated after
        → gated.ok ≡ true
        → IsEnd host (execute host (nested host fuel def)) def 0 def.steps after (end, st)
        → IsReported start (conclude host def started end st)
    unfolding conclude report IsReported IsEnd count_ok
    conclude-IsReported started ready gated after (interrupted e) st s g ok h = tt
    conclude-IsReported started ready gated after (ended ss at abort) st s g ok h =
        ran ready gated after s g ok h (count_if-Counts IsOk (λ s. s.ok) (λ s. (λ e. e, λ e. e)) ss)
          _

    run_gated-IsReported :
        (started : ℤ) (ready : RunState W Step)
        → Satisfied host fuel def start ready
        → Upholds (IsReported start) (run_gated host fuel def started ready)
    unfolding run_gated report IsReported Upholds
    run_gated-IsReported started ready s =
        let exec = execute host (nested host fuel def) in
        Upholds-bind (λ x. gate host (nested host fuel def) def.preconditions ready ≡ some x)
          (IsReported start) (gate host (nested host fuel def) def.preconditions ready) _
          (Upholds-self _)
          (λ (gated, after) g.
            on_bool_at (Upholds (IsReported start)) gated.ok
              (λ ok.
                Upholds-bind (IsEnd host exec def 0 def.steps after) (IsReported start)
                  (script_loop host exec def 0 def.steps after) _
                  (script_loop-IsEnd host exec def 0 def.steps after)
                  (λ (end, st) h. conclude-IsReported started ready gated after end st s g ok h))
              (λ bad. preconditions_refused ready gated after s g bad _))

    after_required-IsReported :
        (started : ℤ) (r : Required) (st : RunState W Step)
        → run_required_flows host fuel def def.requires
            (fresh host def (host.now start.world).1 start)
          ≡ some (r, st)
        → Upholds (IsReported start) (after_required host fuel def started r st)
    unfolding after_required report IsReported Upholds
    after_required-IsReported started satisfied st s = run_gated-IsReported started st s
    after_required-IsReported started (failed d) st s = requires_refused d st s _
    after_required-IsReported started (load_error e) st s = tt

    pub run-IsReported : Upholds (IsReported start) (run host fuel def start)
    unfolding run report IsReported Upholds
    run-IsReported =
        on_bool_at (Upholds (IsReported start)) (requires_proxy def && host.no_capture_configured)
          (λ no_proxy. proxy_refused (ground (arith, no_proxy)) (ground (arith, no_proxy)) _)
          (λ proxied.
            Upholds-bind
              (λ x.
                run_required_flows host fuel def def.requires
                  (fresh host def (host.now start.world).1 start)
                ≡ some x)
              (IsReported start) (run_required_flows host fuel def def.requires _) _
              (Upholds-self _) (λ (r, st) s. after_required-IsReported _ r st s))

  -- If a run returns a result, that is the refusal for want of a proxy; the refusal with the one
  -- result that tells why its required flows failed, or its preconditions after them; or, those being
  -- satisfied, it tells of the script's steps: the results are in the order of the steps, at their
  -- indices and with their commands, each with what the step's handler gave in the state that the
  -- steps before it left. A step has no result if it was to be skipped in its state, or stands behind
  -- one that failed. A failed step is the last and is named, and the passed ones are counted.
  pub run-Reports :
      (st : RunState W Step) (r : ScriptResult) (st' : RunState W Step)
      → run host fuel def st ≡ some (finished r, st')
      → Reports host fuel def st r
  unfolding Upholds IsReported
  run-Reports st r st' e = subst (Upholds (IsReported st)) e (run-IsReported st)

  -- If a run returns a result that is ok, no step is named as failed and nothing aborted it, and all
  -- of its results passed and are counted.
  pub run-passes :
      (st : RunState W Step) (r : ScriptResult) (st' : RunState W Step)
      → run host fuel def st ≡ some (finished r, st')
      → r.ok ≡ true
      → (r.failed_at_step ≡ none)
        × All IsOk r.steps
        × (r.passed_steps ≡ length r.steps)
        × (r.abort ≡ none)
  run-passes st r st' e ok = Reports-ok (run-Reports st r st' e) ok
