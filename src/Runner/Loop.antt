-- ===== src/Runner/Loop.antt =====
-- core/internal/runner/runner.go: the loop of `Run` over a script's steps.
use atomyx.Prelude.{ℕ, suc, List, [], ◌∷◌, Option, none, some, false, Text, if◌then◌else◌, pos}
use atomyx.Runner.Types.{Detail, unknown_command, ScriptDefinition, RunAbort, StepResult}
use atomyx.Runner.Outcome.{
  canceled, sleep_failed, LoopEnd, interrupted, ended, line_for_step, prepend, neutral_detail,
  paces,
}
use atomyx.Runner.Host.{Host, RunState}
use atomyx.Runner.Steps.{◌>>=◌, Exec, with_world, Observed, observe}

module _ {W Step : Type 0} (host : Host W Step) where
  -- `none` for an ordinary failure; a cancellation is one.
  unfoldable pub classify_step_failure : RunState W Step → Option RunAbort × RunState W Step
  classify_step_failure st = elim (host.ctx_err st.world) [
    | some e ↦ (none, st)
    | none ↦ let health = host.check_health st.world in (health.0, with_world st health.1)
  ]

  unfoldable pub pause : ScriptDefinition Step → ℕ → Text → W → Option Text × W
  unfolding paces
  pause def i command w =
      if paces def i command
      then host.sleep (elim def.step_delay [ none ↦ pos 0 | some delay ↦ delay.truncated ]) w
      else (none, w)

  abbrev pub Looped : Type 0
  Looped = Option (LoopEnd × RunState W Step)

  -- The step's result, and the loop's end if the step failed.
  unfoldable pub record_step : (RunState W Step → Looped) → ℕ → Text → Observed W Step → Looped
  unfolding prepend classify_step_failure neutral_detail
  record_step rest i command o =
      let result : Option Detail → StepResult = λ d. record {
        step_index = pos i;
        command = command;
        ok = o.result.ok;
        detail = d;
        duration_ms = o.duration_ms;
      } in
      let classified = classify_step_failure o.state in
      if o.result.ok
      then (rest o.state >>= λ (end, st). some (prepend (result o.result.detail) end, st))
      else some (
        ended (result (neutral_detail classified.0 o.result.detail) ∷ []) (some i) classified.0,
        classified.1,
      )

  unfoldable pub unknown_step : ℕ → Text → StepResult
  unknown_step i command = record {
    step_index = pos i;
    command = command;
    ok = false;
    detail = some (unknown_command command);
    duration_ms = pos 0;
  }

  unfoldable pub script_loop :
      Exec host → ScriptDefinition Step → ℕ → List Step → RunState W Step → Looped
  unfolding unknown_step pause record_step line_for_step
  script_loop exec def i [] st = some (ended [] none none, st)
  script_loop exec def i (step ∷ steps) st =
      let rest : RunState W Step → Looped = script_loop exec def (suc i) steps in
      let command = host.command_of step in
      elim (host.ctx_err st.world) [
        | some e ↦ some (interrupted (canceled e), st)
        | none ↦ elim (host.registry command) [
          | none ↦ some (ended (unknown_step i command ∷ []) (some i) none, st)
          | some cmd ↦
              let paused = pause def i command st.world in
              let awake : RunState W Step = with_world st paused.1 in
              if cmd.should_skip def st.world then rest st else elim paused.0 [
                | some e ↦ some (interrupted (sleep_failed e), awake)
                | none ↦
                    observe host exec (λ _. 0) (line_for_step def i) step (cmd.execute def i step)
                      awake
                    >>= record_step rest i command
              ]
        ]
      ]
