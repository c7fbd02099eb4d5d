-- ===== src/Runner/Gate.antt =====
-- core/internal/runner/runner.go: `runPreconditions` with its setups, and the knot that ties it to
-- the nested steps.
use atomyx.Prelude.{
  ℕ, zero, suc, List, [], ◌∷◌, Option, none, some, Text, codes, text_eq, has_text, ◌⊎◌, inl, inr,
  if◌then◌else◌,
}
use atomyx.Runner.Types.{
  CommandResult, success, failure, text, no_preconditions, preconditions_satisfied,
  not_met_after_setup, setup_already_completed, no_flow_loader, setup_file, Precondition,
  PreconditionCheck, ScriptDefinition, StepsOrFile,
}
use atomyx.Runner.Host.{Host, RunState}
use atomyx.Runner.Check.{evaluate_check, resolve_effective_policy}
use atomyx.Runner.Steps.{Ran, ◌>>=◌, Exec, with_world, perform, run_nested_steps}

-- `FlowLoader`, or `none` for a nil one.
abbrev pub Loader : Type 0 → Type 0 → Type 0
Loader W Step = Option (Text → W → (Text ⊎ ScriptDefinition Step) × W)

unfoldable pub loaded_steps :
    {Step : Type 0} → Text → Text ⊎ ScriptDefinition Step → CommandResult ⊎ List Step
loaded_steps file (inl e) = inl (failure (setup_file file e))
loaded_steps file (inr flow) = inr flow.steps

-- The steps of a setup, or the failure to find them.
unfoldable pub resolve_steps :
    {W Step : Type 0}
    → Loader W Step
    → StepsOrFile Step
    → RunState W Step
    → (CommandResult ⊎ List Step) × RunState W Step
unfolding loaded_steps
resolve_steps loader sof st = elim sof.file [
  | none ↦ (inr sof.steps, st)
  | some file ↦ elim loader [
    | none ↦ (inl (failure (no_flow_loader file)), st)
    | some load ↦
        let loaded = load file st.world in (loaded_steps file loaded.0, with_world st loaded.1)
  ]
]

module _ {W Step : Type 0} (host : Host W Step) where
  -- `none` if the check holds, otherwise the failure that it makes of the run.
  unfoldable pub verify :
      PreconditionCheck → RunState W Step → Option CommandResult × RunState W Step
  unfolding evaluate_check
  verify check st =
      let held = evaluate_check host check st.world in
      (
        elim held.0 [
          | inl e ↦ some (failure (text e))
          | inr b ↦ if b then none else some (failure (not_met_after_setup check))
        ],
        with_world st held.1,
      )

  module _ (nested : List Step → RunState W Step → Ran W Step) where
    unfoldable pub run_setup : Precondition Step → RunState W Step → Ran W Step
    unfolding resolve_steps
    run_setup p st =
        let resolved = resolve_steps host.load_flow p.setup st in
        elim resolved.0 [ inl r ↦ some (r, resolved.1) | inr steps ↦ nested steps resolved.1 ]

    unfoldable pub run_setup_deduped : Precondition Step → RunState W Step → Ran W Step
    unfolding run_setup has_text
    run_setup_deduped p st =
        let key = host.setup_key p.setup in
        if has_text key st.completed_precondition_setups
        then some (success setup_already_completed, st)
        else (run_setup p st >>= λ (r, st'). some (
          r,
          if r.ok
              then record st' {
                completed_precondition_setups = key ∷ st'.completed_precondition_setups;
              }
              else st',
        ))

    -- After a setup: it failed, or the check decides whether to go on by `rest`.
    unfoldable pub after_setup :
        PreconditionCheck
        → (RunState W Step → Ran W Step)
        → CommandResult
        → RunState W Step
        → Ran W Step
    unfolding verify
    after_setup check rest r st =
        let verified = verify check st in
        if r.ok
        then (elim verified.0 [ none ↦ rest verified.1 | some fault ↦ some (fault, verified.1) ])
        else some (r, st)

    -- "ensure": the setup runs only where the check does not hold, whether or not it ran before.
    unfoldable pub ensure :
        Precondition Step → (RunState W Step → Ran W Step) → RunState W Step → Ran W Step
    unfolding evaluate_check run_setup after_setup
    ensure p rest st =
        let held = evaluate_check host p.check st.world in
        let checked : RunState W Step = with_world st held.1 in
        elim held.0 [
          | inl e ↦ some (failure (text e), checked)
          | inr b ↦
              if b
              then rest checked
              else (run_setup p checked >>= λ (r, st'). after_setup p.check rest r st')
        ]

    unfoldable pub precondition_loop : List (Precondition Step) → RunState W Step → Ran W Step
    unfolding resolve_effective_policy run_setup_deduped after_setup ensure
    precondition_loop [] st = some (success preconditions_satisfied, st)
    precondition_loop (p ∷ ps) st =
        let rest : RunState W Step → Ran W Step = precondition_loop ps in
        let policy = resolve_effective_policy host.preconditions_override p.policy in
        elim (host.ctx_err st.world) [
          | some e ↦ some (failure (text e), st)
          | none ↦
              if text_eq policy (codes "skip")
              then rest st
              else if text_eq policy (codes "always")
              then (run_setup_deduped p st >>= λ (r, st'). after_setup p.check rest r st')
              else ensure p rest st
        ]

    unfoldable pub gate : List (Precondition Step) → RunState W Step → Ran W Step
    unfolding precondition_loop
    gate [] st = some (success no_preconditions, st)
    gate (p ∷ ps) st = precondition_loop (p ∷ ps) st

  -- `execute` for handlers that nest: `nested` is how deep steps are run.
  unfoldable pub execute : (List Step → RunState W Step → Ran W Step) → Exec host
  unfolding perform gate
  execute nested = perform nested (gate nested)

  unfoldable pub nested : ℕ → ScriptDefinition Step → List Step → RunState W Step → Ran W Step
  unfolding execute run_nested_steps
  nested zero def steps st = none
  nested (suc fuel) def steps st = run_nested_steps host (execute (nested fuel def)) def steps st
