-- ===== src/Runner/Requires.antt =====
-- core/internal/runner/runner.go: the flows that a script requires, which run before it.
use atomyx.Prelude.{
  ℕ, List, [], ◌∷◌, Option, none, some, Text, has_text, delete_text, ◌⊎◌, inl, inr, if◌then◌else◌,
}
use atomyx.Runner.Types.{
  circular_dependency, no_loader_for_required, required_precondition_failed, required_flow_failed,
  ScriptDefinition,
}
use atomyx.Runner.Outcome.{required_flow, Required, satisfied, failed, load_error, detail_or_empty}
use atomyx.Runner.Host.{Host, RunState}
use atomyx.Runner.Steps.{◌>>=◌, with_world}
use atomyx.Runner.Gate.{gate, nested}

module _ {W Step : Type 0} (host : Host W Step) where
  abbrev pub Flowed : Type 0
  Flowed = Option (Required × RunState W Step)

  -- The flow that was loaded, or the error of loading it.
  unfoldable pub run_loaded :
      ℕ → ScriptDefinition Step → Text → Text ⊎ ScriptDefinition Step → RunState W Step → Flowed
  unfolding detail_or_empty
  run_loaded fuel def path (inl e) st = some (load_error (required_flow path e), st)
  run_loaded fuel def path (inr flow) st =
      gate host (nested host fuel def) flow.preconditions st >>= λ (gated, st').
      if gated.ok
      then (nested host fuel def flow.steps st' >>= λ (ran, st''). some (
        if ran.ok
            then satisfied
            else failed (required_flow_failed path (detail_or_empty ran.detail)),
        st'',
      ))
      else some (failed (required_precondition_failed path (detail_or_empty gated.detail)), st')

  unfoldable pub run_one_required_flow :
      ℕ → ScriptDefinition Step → (path absolute : Text) → RunState W Step → Flowed
  unfolding run_loaded
  run_one_required_flow fuel def path absolute st = elim host.load_flow [
    | none ↦ some (failed (no_loader_for_required path), st)
    | some load ↦
        let loaded = load absolute st.world in
        run_loaded fuel def path loaded.0 (with_world st loaded.1)
  ]

  -- Off the stack; completed only if it succeeded.
  unfoldable pub leave_required : Text → Required → RunState W Step → RunState W Step
  leave_required path satisfied st = record st {
    call_stack = delete_text path st.call_stack;
    completed_requires = path ∷ st.completed_requires;
  }
  leave_required path (failed d) st = record st { call_stack = delete_text path st.call_stack }
  leave_required path (load_error e) st = record st { call_stack = delete_text path st.call_stack }

  -- The flows that follow run only if this one succeeded.
  unfoldable pub go_on : (RunState W Step → Flowed) → Text → Required → RunState W Step → Flowed
  unfolding leave_required
  go_on rest path satisfied st = rest (leave_required path satisfied st)
  go_on rest path (failed d) st = some (failed d, leave_required path (failed d) st)
  go_on rest path (load_error e) st = some (load_error e, leave_required path (load_error e) st)

  unfoldable pub run_required_flows :
      ℕ → ScriptDefinition Step → List Text → RunState W Step → Flowed
  unfolding has_text run_one_required_flow go_on
  run_required_flows fuel def [] st = some (satisfied, st)
  run_required_flows fuel def (path ∷ paths) st =
      let rest : RunState W Step → Flowed = run_required_flows fuel def paths in
      let absolute = host.absolute path in
      if has_text absolute st.completed_requires
      then rest st
      else if has_text absolute st.call_stack
      then some (failed (circular_dependency path), st)
      else (run_one_required_flow fuel def path absolute
            (record st { call_stack = absolute ∷ st.call_stack })
          >>= λ (r, st'). go_on rest absolute r st')
