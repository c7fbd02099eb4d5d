-- ===== src/Runner/Report/Loop.antt =====
-- core/internal/runner/runner.go: the results of the loop over a script's steps.
use atomyx.Prelude.{
  ℕ, suc, ◌≡◌, refl, List, [], ◌∷◌, Option, none, some, Bool, true, false, pos, on_bool_at,
  on_option, on_either_at, if◌then◌else◌,
}
use atomyx.Runner.Types.{ScriptDefinition, StepResult, Detail}
use atomyx.Runner.Host.{Host, Command, RunState}
use atomyx.Runner.Outcome.{
  LoopEnd, interrupted, ended, prepend, canceled, sleep_failed, line_for_step, neutral_detail,
}
use atomyx.Runner.Steps.{◌>>=◌, Exec, Observed, observe, with_world}
use atomyx.Runner.Loop.{Looped, script_loop, pause, record_step, classify_step_failure}
use atomyx.Runner.Returns.{Upholds, Upholds-bind, Upholds-self}
use atomyx.Runner.Report.{Ended, over, skipped, passed, stopped, unknown}

module _ {W Step : Type 0} (host : Host W Step) (exec : Exec host)
    (def : ScriptDefinition Step) where
  unfoldable pub IsEnd : ℕ → List Step → RunState W Step → LoopEnd × RunState W Step → Type 0
  IsEnd i steps st x = elim x.0 [
    | interrupted e ↦ Unit
    | ended ss at abort ↦ Ended host exec def i steps st ss at abort
  ]

  skip-IsEnd :
      (i : ℕ) (step : Step) (steps : List Step) (st : RunState W Step) (cmd : Command W Step)
      (m : Looped host)
      → host.registry (host.command_of step) ≡ some cmd
      → cmd.should_skip def st.world ≡ true
      → Upholds (IsEnd (suc i) steps st) m
      → Upholds (IsEnd i (step ∷ steps) st) m
  unfolding Upholds IsEnd
  skip-IsEnd i step steps st cmd none known skips h = tt
  skip-IsEnd i step steps st cmd (some (interrupted e, st')) known skips h = tt
  skip-IsEnd i step steps st cmd (some (ended ss at abort, st')) known skips h =
      skipped st step cmd known skips h

  module _ (i : ℕ) (step : Step) (steps : List Step) (st : RunState W Step) (cmd : Command W Step)
      (known : host.registry (host.command_of step) ≡ some cmd)
      (runs : cmd.should_skip def st.world ≡ false) where
    -- What the runner sees of the step's handler.
    abbrev Gives : Observed W Step → Type 0
    Gives o =
        observe host exec (λ _. 0) (line_for_step def i) step (cmd.execute def i step)
          (with_world st (pause host def i (host.command_of step) st.world).1)
        ≡ some o

    prepend-IsEnd :
        (o : Observed W Step) (end : LoopEnd) (st' : RunState W Step)
        → Gives o
        → o.result.ok ≡ true
        → IsEnd (suc i) steps o.state (end, st')
        → IsEnd i (step ∷ steps) st (
          prepend
              (record {
                step_index = pos i;
                command = host.command_of step;
                ok = true;
                detail = o.result.detail;
                duration_ms = o.duration_ms;
              })
              end,
          st',
        )
    unfolding prepend IsEnd
    prepend-IsEnd o (interrupted e) st' gave good h = tt
    prepend-IsEnd o (ended ss at abort) st' gave good h =
        passed st step cmd o known runs gave good h

    -- The step's own result.
    abbrev result_of : Observed W Step → Bool → Option Detail → StepResult
    result_of o ok d = record {
      step_index = pos i;
      command = host.command_of step;
      ok = ok;
      detail = d;
      duration_ms = o.duration_ms;
    }

    recorded-IsEnd :
        (rest : RunState W Step → Looped host) (o : Observed W Step) (ok : Bool)
        → Gives o
        → o.result.ok ≡ ok
        → Upholds (IsEnd (suc i) steps o.state) (rest o.state)
        → Upholds (IsEnd i (step ∷ steps) st) (
            let classified = classify_step_failure host o.state in
            if ok
            then (rest o.state >>= λ (end, st').
                some (prepend (result_of o ok o.result.detail) end, st'))
            else some (
              ended
                  (result_of o ok (neutral_detail classified.0 o.result.detail) ∷ [])
                  (some i)
                  classified.0,
              classified.1,
            ))
    unfolding Upholds IsEnd
    recorded-IsEnd rest o true gave good h =
        Upholds-bind (IsEnd (suc i) steps o.state) (IsEnd i (step ∷ steps) st) (rest o.state) _ h
          (λ (end, st') e. prepend-IsEnd o end st' gave good e)
    recorded-IsEnd rest o false gave bad h = stopped st step cmd o known runs gave bad

    record_step-IsEnd :
        (rest : RunState W Step → Looped host) (o : Observed W Step)
        → Gives o
        → Upholds (IsEnd (suc i) steps o.state) (rest o.state)
        → Upholds (IsEnd i (step ∷ steps) st) (record_step host rest i (host.command_of step) o)
    unfolding record_step
    record_step-IsEnd rest o gave h = recorded-IsEnd rest o o.result.ok gave refl h

  pub script_loop-IsEnd :
      (i : ℕ) (steps : List Step) (st : RunState W Step)
      → Upholds (IsEnd i steps st) (script_loop host exec def i steps st)
  unfolding script_loop Upholds IsEnd
  script_loop-IsEnd i [] st = over i st
  script_loop-IsEnd i (step ∷ steps) st =
      let P : Looped host → Type 0 = Upholds (IsEnd i (step ∷ steps) st) in
      let command = host.command_of step in
      let later : (s : RunState W Step)
          → Upholds (IsEnd (suc i) steps s) (script_loop host exec def (suc i) steps s) =
        script_loop-IsEnd (suc i) steps in
      on_option P (host.ctx_err st.world) {s = λ e. some (interrupted (canceled e), st)}
        (on_either_at P (host.registry command) (λ lacks. unknown st step lacks)
          (λ cmd known.
            on_bool_at P (cmd.should_skip def st.world)
              (λ skips. skip-IsEnd i step steps st cmd _ known skips (later st))
              (λ runs.
                let paused = pause host def i command st.world in
                on_option P paused.0
                  {s = λ e. some (interrupted (sleep_failed e), with_world st paused.1)}
                  (Upholds-bind
                    (λ o.
                      observe host exec (λ _. 0) (line_for_step def i) step (cmd.execute def i step)
                        (with_world st paused.1)
                      ≡ some o)
                    (IsEnd i (step ∷ steps) st)
                    (observe host exec (λ _. 0) (line_for_step def i) step (cmd.execute def i step)
                      (with_world st paused.1))
                    (record_step host (script_loop host exec def (suc i) steps) i command)
                    (Upholds-self _)
                    (λ o gave.
                      record_step-IsEnd i step steps st cmd known runs
                        (script_loop host exec def (suc i) steps) o gave (later o.state)))
                  (λ e. tt))))
        (λ e. tt)
