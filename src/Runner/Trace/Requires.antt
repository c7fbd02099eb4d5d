-- ===== src/Runner/Trace/Requires.antt =====
-- core/internal/runner/runner.go: the events of required flows.
use atomyx.Prelude.{ℕ, suc, List, [], ◌∷◌, Text, has_text, ◌⊎◌, inl, inr, on_bool, on_option}
use atomyx.Runner.Types.{ScriptDefinition}
use atomyx.Runner.Host.{Host, RunState}
use atomyx.Runner.Outcome.{Required, satisfied, failed, load_error}
use atomyx.Runner.Steps.{with_world}
use atomyx.Runner.Gate.{gate, nested}
use atomyx.Runner.Requires.{
  Flowed, run_loaded, run_required_flows, run_one_required_flow, leave_required, go_on,
}
use atomyx.Runner.Returns.{Upholds, Upholds-bind}
use atomyx.Runner.Trace.{mark, Grown-refl, Grown-trans}
use atomyx.Runner.Trace.Nested.{gate-Trace, nested-Trace}
use atomyx.Runner.Trace.Loop.{Grows, grow_past}

module _ {W Step : Type 0} (host : Host W Step) (fuel : ℕ) (def : ScriptDefinition Step) where
  unfoldable pub IsFlowTraced : RunState W Step → Flowed host → Type 0
  IsFlowTraced st = Upholds (Grows suc st)

  run_loaded-Trace :
      (path : Text) (x : Text ⊎ ScriptDefinition Step) (st : RunState W Step)
      → IsFlowTraced st (run_loaded host fuel def path x st)
  unfolding run_loaded Upholds IsFlowTraced
  run_loaded-Trace path (inl e) st = Grown-refl (mark st)
  run_loaded-Trace path (inr flow) st =
      Upholds-bind (Grows suc st) (Grows suc st)
        (gate host (nested host fuel def) flow.preconditions st) _
        (gate-Trace host (nested host fuel def) (nested-Trace host fuel def) flow.preconditions st)
        (λ (gated, st') g.
          on_bool (IsFlowTraced st) gated.ok
            (Upholds-bind (Grows suc st') (Grows suc st) (nested host fuel def flow.steps st') _
              (nested-Trace host fuel def flow.steps st') (λ (ran, st'') h. Grown-trans g h))
            g)

  run_one_required_flow-Trace :
      (path absolute : Text) (st : RunState W Step)
      → IsFlowTraced st (run_one_required_flow host fuel def path absolute st)
  unfolding run_one_required_flow Upholds IsFlowTraced
  run_one_required_flow-Trace path absolute st =
      on_option (IsFlowTraced st) host.load_flow (Grown-refl (mark st)) (λ load.
        run_loaded-Trace path (load absolute st.world).0 (with_world st (load absolute st.world).1))

  go_on-Trace :
      (rest : RunState W Step → Flowed host) (path : Text) (r : Required) (st : RunState W Step)
      → ((s : RunState W Step) → IsFlowTraced s (rest s))
      → IsFlowTraced st (go_on host rest path r st)
  unfolding go_on leave_required Upholds IsFlowTraced
  go_on-Trace rest path satisfied st later = later (leave_required host path satisfied st)
  go_on-Trace rest path (failed d) st later = Grown-refl (mark st)
  go_on-Trace rest path (load_error e) st later = Grown-refl (mark st)

  pub run_required_flows-Trace :
      (paths : List Text) (st : RunState W Step)
      → IsFlowTraced st (run_required_flows host fuel def paths st)
  unfolding run_required_flows Upholds IsFlowTraced
  run_required_flows-Trace [] st = Grown-refl (mark st)
  run_required_flows-Trace (path ∷ paths) st =
      let absolute = host.absolute path in
      on_bool (IsFlowTraced st) (has_text absolute st.completed_requires)
        (run_required_flows-Trace paths st)
        (on_bool (IsFlowTraced st) (has_text absolute st.call_stack) (Grown-refl (mark st)) (
          Upholds-bind (Grows suc st) (Grows suc st)
            (run_one_required_flow host fuel def path absolute
              (record st { call_stack = absolute ∷ st.call_stack }))
            _
            (run_one_required_flow-Trace path absolute
              (record st { call_stack = absolute ∷ st.call_stack }))
            (λ (r, st') g.
              grow_past st' g (go_on host (run_required_flows host fuel def paths) absolute r st') (
                go_on-Trace (run_required_flows host fuel def paths) absolute r st'
                  (run_required_flows-Trace paths)))))
