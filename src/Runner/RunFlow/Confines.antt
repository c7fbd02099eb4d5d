-- ===== src/Runner/RunFlow/Confines.antt =====
-- core/internal/runner/run_flow_command.go: the steps that a runFlow step may have run are those of its flow.
use atomyx.Prelude.{◌≡◌, List, ◌++◌, some, Text, ◌⊎◌, inl, inr, All, on_bool, on_option_at}
use atomyx.Runner.Types.{CommandResult, ScriptDefinition}
use atomyx.Runner.Host.{Host}
use atomyx.Runner.Confined.{Confined, ConfinedScript}
use atomyx.Runner.RunFlow.{
  RunFlowStep, LoadError, parse_error, read_error, Flows, run_flow, loaded_sub_flow, gated_sub_flow,
  after_sub_flow,
}

unfoldable pub ConfinedSubFlow :
    {W Step : Type 0} → Host W Step → (Step → Type 0) → LoadError ⊎ ScriptDefinition Step → Type 0
ConfinedSubFlow host P (inl e) = Unit
ConfinedSubFlow host P (inr flow) = ConfinedScript host P flow

module _ {W Step : Type 0} (host : Host W Step) (P : Step → Type 0) where
  gated_sub_flow-Confined :
      (flow : ScriptDefinition Step) (r : CommandResult) (w : W)
      → All P flow.steps
      → Confined host P (gated_sub_flow flow r w)
  unfolding gated_sub_flow Confined after_sub_flow
  gated_sub_flow-Confined flow r w below = on_bool (Confined host P) r.ok (below, λ s v. tt) tt

  loaded_sub_flow-Confined :
      (path : Text) (x : LoadError ⊎ ScriptDefinition Step) (w : W)
      → ConfinedSubFlow host P x
      → Confined host P (loaded_sub_flow path x w)
  unfolding loaded_sub_flow Confined ConfinedSubFlow ConfinedScript
  loaded_sub_flow-Confined path (inl (parse_error e)) w c = tt
  loaded_sub_flow-Confined path (inl (read_error e)) w c = tt
  loaded_sub_flow-Confined path (inr flow) w (c, below) =
      (c, λ r v. gated_sub_flow-Confined flow r v below)

  -- If every flow that a step's file may load is made of steps and setups with a property, the
  -- handler of runFlow has only such steps run.
  pub run_flow-Confined :
      (flows : Flows W Step) (step : RunFlowStep) (w : W)
      → ((load : Text → List (Text × Text) → W → (LoadError ⊎ ScriptDefinition Step) × W)
          → flows.load_flow ≡ some load
          → (env : List (Text × Text)) (v : W)
          → ConfinedSubFlow host P (load (flows.absolute step.file) env v).0)
      → Confined host P (run_flow flows step w)
  unfolding run_flow Confined
  run_flow-Confined flows step w c = on_option_at (Confined host P) flows.load_flow tt (λ load e.
      loaded_sub_flow-Confined (flows.absolute step.file) _ _
        (c load e (step.env ++ flows.environment_from_variables w) w))
