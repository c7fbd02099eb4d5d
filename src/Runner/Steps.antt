-- ===== src/Runner/Steps.antt =====
-- core/internal/runner/runner.go: `execute`, `runNestedSteps` and the preconditions. A handler may
-- have steps run whose handlers have steps run, without an end: the depth of nesting takes fuel, and
-- `none` means that it ran out.
use atomyx.Prelude.{ℕ, suc, ◌-◌, List, [], ◌∷◌, ◌++◌, Option, none, some, if◌then◌else◌, ℤ, ◌-ℤ◌}
use atomyx.Runner.Types.{
  CommandResult, success, failure, text, exception, completed, unknown_command, Precondition,
  ScriptDefinition, StepEvent, step_started, step_completed,
}
use atomyx.Runner.Host.{Host, Action, finish, panic, run_steps, run_preconditions, RunState}

abbrev pub Ran : Type 0 → Type 0 → Type 0
Ran W Step = Option (CommandResult × RunState W Step)

infixl 5 ◌>>=◌
abbrev pub ◌>>=◌ {ℓ κ} : {A : Type ℓ} {B : Type κ} → Option A → (A → Option B) → Option B
none >>= f = none
some a >>= f = f a

-- What a step that was carried out leaves: its result, its duration, and the state.
pub record Observed (W Step : Type 0) : Type 0 where
  pub result : CommandResult
  pub duration_ms : ℤ
  pub state : RunState W Step

module _ {W Step : Type 0} where
  abbrev pub with_world : RunState W Step → W → RunState W Step
  with_world st w = record st { world = w }

  abbrev pub emit : RunState W Step → StepEvent Step → RunState W Step
  emit st e = record st { events = st.events ++ e ∷ [] }

  -- A handler, with what the runner does for it; a panic becomes a failure.
  unfoldable pub perform :
      (List Step → RunState W Step → Ran W Step)
      → (List (Precondition Step) → RunState W Step → Ran W Step)
      → Action W Step
      → RunState W Step
      → Ran W Step
  perform nested gate (finish r w) st = some (r, with_world st w)
  perform nested gate (panic t w) st = some (failure (exception t), with_world st w)
  perform nested gate (run_steps steps w k) st =
      nested steps (with_world st w) >>= λ (r, st'). perform nested gate (k r st'.world) st'
  perform nested gate (run_preconditions ps w k) st =
      gate ps (with_world st w) >>= λ (r, st'). perform nested gate (k r st'.world) st'

module _ {W Step : Type 0} (host : Host W Step) where
  abbrev pub Exec : Type 0
  Exec = Action W Step → RunState W Step → Ran W Step

  -- A step between its two events, at the next index of the run; `depth` is read for each event.
  unfoldable pub observe :
      Exec
      → (depth : RunState W Step → ℕ) → (line : Option ℕ) → Step
      → (W → Action W Step)
      → RunState W Step
      → Option (Observed W Step)
  observe exec depth line step action st =
      let index = st.global_step_index in
      let begun = host.now st.world in
      let started : RunState W Step = record (emit st (step_started index step (depth st) line)) {
        global_step_index = suc index;
        world = begun.1;
      } in
      exec (action begun.1) started >>= λ (result, after).
      let over = host.now after.world in
      let duration = over.0 -ℤ begun.0 in
      some (record {
        result = result;
        duration_ms = duration;
        state = record (emit after (step_completed index step (depth after) line result duration)) {
          world = over.1;
        };
      })

  unfoldable pub step_loop :
      Exec → ScriptDefinition Step → (i : ℕ) → List Step → RunState W Step → Ran W Step
  unfolding observe
  step_loop exec def i [] st = some (success completed, st)
  step_loop exec def i (step ∷ steps) st =
      let rest : RunState W Step → Ran W Step = step_loop exec def (suc i) steps in
      elim (host.ctx_err st.world) [
        | some e ↦ some (failure (text e), st)
        | none ↦ elim (host.registry (host.command_of step)) [
          | none ↦ some (failure (unknown_command (host.command_of step)), st)
          | some cmd ↦
              if cmd.should_skip def st.world
              then rest st
              else (observe exec (λ s. s.depth) none step (cmd.execute def i step) st >>= λ o.
                  if o.result.ok then rest o.state else some (o.result, o.state))
        ]
      ]

  -- `runNestedSteps`, one level deeper than its caller.
  unfoldable pub run_nested_steps :
      Exec → ScriptDefinition Step → List Step → RunState W Step → Ran W Step
  unfolding step_loop
  run_nested_steps exec def steps st =
      step_loop exec def 0 steps (record st { depth = suc st.depth }) >>= λ (r, st').
      some (r, record st' { depth = st'.depth - 1 })
