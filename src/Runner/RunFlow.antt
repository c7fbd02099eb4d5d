-- ===== src/Runner/RunFlow.antt =====
-- core/internal/runner/run_flow_command.go: the handler of runFlow, as an action of the runner.
pub mod Confines
mod Samples
use atomyx.Prelude.{
  ℕ, List, ◌++◌, Option, none, some, Bool, Text, ◌⊎◌, inl, inr, if◌then◌else◌, length,
}
use atomyx.Runner.Types.{
  CommandResult, success, failure, Detail, sub_flow_not_found, sub_flow_precondition_failed,
  sub_flow_failed, sub_flow_completed, ScriptDefinition,
}
use atomyx.Runner.Host.{Action, finish, panic, run_steps, run_preconditions, Command}
use atomyx.Runner.Outcome.{detail_or_empty}

-- `RunFlowStep`.
pub record RunFlowStep : Type 0 where
  pub file : Text
  pub env : List (Text × Text)

-- A `*script.ParseError`, or another error of reading the file.
pub data LoadError : Type 0 where
  parse_error : Text → LoadError
  read_error : Text → LoadError

-- `FlowLoader` with its environment, and the variables of the run that the state has. Of two entries
-- of an environment with the same key, the first counts.
pub record Flows (W Step : Type 0) : Type 0 where
  pub absolute : Text → Text
  pub environment_from_variables : W → List (Text × Text)
  pub load_flow : Option (Text → List (Text × Text) → W → (LoadError ⊎ ScriptDefinition Step) × W)

module _ {W Step : Type 0} where
  unfoldable pub after_sub_flow : ScriptDefinition Step → CommandResult → W → Action W Step
  unfolding detail_or_empty
  after_sub_flow flow r w =
      finish
        (if r.ok
          then success (sub_flow_completed flow.name (length flow.steps))
          else failure (sub_flow_failed flow.name (detail_or_empty r.detail)))
        w

  unfoldable pub gated_sub_flow : ScriptDefinition Step → CommandResult → W → Action W Step
  unfolding after_sub_flow detail_or_empty
  gated_sub_flow flow r w =
      if r.ok
      then run_steps flow.steps w (after_sub_flow flow)
      else finish (failure (sub_flow_precondition_failed flow.name (detail_or_empty r.detail))) w

  -- The flow as it was loaded: a parse error panics, any other means that there is no such file.
  unfoldable pub loaded_sub_flow :
      (path : Text) → LoadError ⊎ ScriptDefinition Step → W → Action W Step
  unfolding gated_sub_flow
  loaded_sub_flow path (inl (parse_error e)) w = panic e w
  loaded_sub_flow path (inl (read_error e)) w = finish (failure (sub_flow_not_found path)) w
  loaded_sub_flow path (inr flow) w = run_preconditions flow.preconditions w (gated_sub_flow flow)

  unfoldable pub run_flow : Flows W Step → RunFlowStep → W → Action W Step
  unfolding loaded_sub_flow
  run_flow flows step w =
      let path = flows.absolute step.file in
      elim flows.load_flow [
        | none ↦ finish (failure (sub_flow_not_found path)) w
        | some load ↦
            let loaded = load path (step.env ++ flows.environment_from_variables w) w in
            loaded_sub_flow path loaded.0 loaded.1
      ]
