-- ===== src/Runner/Trace/Run.antt =====
-- core/internal/runner/runner.go: the events of a whole run.
use atomyx.Prelude.{ℕ, suc, ◌≡◌, ◌∙◌, ap, subst, List, ◌++◌, some, ◌&&◌, ℤ, on_bool}
use atomyx.Runner.Types.{ScriptDefinition, StepEvent}
use atomyx.Runner.Host.{Host, RunState}
use atomyx.Runner.Outcome.{
  LoopEnd, ended, Required, satisfied, failed, load_error, interrupted, RunOutcome,
}
use atomyx.Runner.Steps.{Ran}
use atomyx.Runner.Gate.{gate, execute, nested}
use atomyx.Runner.Loop.{script_loop}
use atomyx.Runner.Requires.{run_required_flows}
use atomyx.Runner.Run.{
  Reported, run, run_gated, after_required, conclude, report, fresh, requires_proxy,
}
use atomyx.Runner.Returns.{Upholds, Upholds-bind}
use atomyx.Runner.Trace.{Trace, Mark, mark, Grown, Grown-refl, Grown-trans}
use atomyx.Runner.Trace.Nested.{same, execute-Trace, gate-Trace, nested-Trace}
use atomyx.Runner.Trace.Loop.{Grows, script_loop-Trace}
use atomyx.Runner.Trace.Requires.{IsFlowTraced, run_required_flows-Trace}

-- The events of the flows and preconditions before a script, one level down, then those of its steps.
pub record RunTrace {Step : Type 0} (before after : List (StepEvent Step)) : Type 0 where
  pub nested_events : List (StepEvent Step)
  pub step_events : List (StepEvent Step)
  pub appended : after ≡ before ++ nested_events ++ step_events
  pub first : ℕ
  pub last : ℕ
  pub nested_traced : Trace 1 0 nested_events first
  pub steps_traced : Trace 0 first step_events last

nested_then_steps :
    {Step : Type 0} (events : List (StepEvent Step)) (b c : Mark Step)
    → Grown suc (record { depth = 0; index = 0; events = events }) b
    → Grown same b c
    → RunTrace events c.events
nested_then_steps events b c g h = record {
  nested_events = g.emitted;
  step_events = h.emitted;
  appended = h.appended ∙ ap (λ l. l ++ h.emitted) g.appended;
  first = b.index;
  last = c.index;
  nested_traced = g.traced;
  steps_traced = subst (λ d. Trace d b.index h.emitted c.index) g.same_depth h.traced;
}

only_nested :
    {Step : Type 0} (events : List (StepEvent Step)) (b : Mark Step)
    → Grown suc (record { depth = 0; index = 0; events = events }) b
    → RunTrace events b.events
only_nested events b g = nested_then_steps events b b g (Grown-refl b)

module _ {W Step : Type 0} (host : Host W Step) (fuel : ℕ) (def : ScriptDefinition Step)
    (events : List (StepEvent Step)) where
  IsRunTraced : Reported host → Type 0
  IsRunTraced x = RunTrace events (RunState.events x.1)

  Begun : RunState W Step → Type 0
  Begun st = Grown suc (record { depth = 0; index = 0; events = events }) (mark st)

  conclude-Trace :
      (started : ℤ) (end : LoopEnd) (st : RunState W Step)
      → RunTrace events st.events
      → IsRunTraced (conclude host def started end st)
  unfolding conclude report IsRunTraced
  conclude-Trace started (interrupted e) st t = t
  conclude-Trace started (ended ss at abort) st t = t

  run_gated-Trace :
      (started : ℤ) (st : RunState W Step)
      → Begun st
      → Upholds IsRunTraced (run_gated host fuel def started st)
  unfolding run_gated report IsRunTraced Begun Upholds
  run_gated-Trace started st begun =
      let deeper : List Step → RunState W Step → Ran W Step = nested host fuel def in
      Upholds-bind (Grows suc st) IsRunTraced (gate host deeper def.preconditions st) _
        (gate-Trace host deeper (nested-Trace host fuel def) def.preconditions st)
        (λ (gated, st') g.
          on_bool (Upholds IsRunTraced) gated.ok
            (Upholds-bind (Grows same st') IsRunTraced
              (script_loop host (execute host deeper) def 0 def.steps st') _
              (script_loop-Trace host (execute host deeper)
                (execute-Trace host deeper (nested-Trace host fuel def)) def 0 def.steps st'
                (g.same_depth ∙ begun.same_depth))
              (λ (end, st'') h.
                conclude-Trace started end st''
                  (nested_then_steps events (mark st') (mark st'') (Grown-trans begun g) h)))
            (only_nested events (mark st') (Grown-trans begun g)))

  after_required-Trace :
      (started : ℤ) (r : Required) (st : RunState W Step)
      → Begun st
      → Upholds IsRunTraced (after_required host fuel def started r st)
  unfolding after_required report IsRunTraced Begun Upholds
  after_required-Trace started satisfied st begun = run_gated-Trace started st begun
  after_required-Trace started (failed d) st begun = only_nested events (mark st) begun
  after_required-Trace started (load_error e) st begun = only_nested events (mark st) begun

module _ {W Step : Type 0} (host : Host W Step) (fuel : ℕ) (def : ScriptDefinition Step) where
  run-Upholds :
      (st : RunState W Step) → Upholds (IsRunTraced host fuel def st.events) (run host fuel def st)
  unfolding run report fresh IsRunTraced Begun IsFlowTraced Upholds
  run-Upholds st =
      on_bool (Upholds (IsRunTraced host fuel def st.events))
        (requires_proxy def && host.no_capture_configured) (only_nested st.events _ (Grown-refl _))
        (let begun : RunState W Step = fresh host def (host.now st.world).1 st in
          Upholds-bind (Grows suc begun) _ (run_required_flows host fuel def def.requires begun) _
            (run_required_flows-Trace host fuel def def.requires begun)
            (λ (r, st') g. after_required-Trace host fuel def st.events _ r st' g))

  -- If a run returns, its events since it began are those of steps at depth 1, whose indices start
  -- from 0, and then those of steps at depth 0, whose indices go on from there. A step has one event
  -- before and one after those of the steps nested in it, which are one level deeper, and both have
  -- its index and its depth.
  pub run-Traced :
      (st : RunState W Step) (outcome : RunOutcome) (st' : RunState W Step)
      → run host fuel def st ≡ some (outcome, st')
      → RunTrace st.events st'.events
  unfolding Upholds IsRunTraced
  run-Traced st outcome st' e =
      subst (Upholds (IsRunTraced host fuel def st.events)) e (run-Upholds st)
