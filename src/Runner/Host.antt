-- ===== src/Runner/Host.antt =====
-- What a run reaches outside: the device, the clock, the context, the loader of flows, and the
-- handlers of commands. `W` is the state of all these, a run's variables and captures included.
use atomyx.Prelude.{ℕ, List, Option, Bool, Text, ℤ, ◌⊎◌}
use atomyx.Wire.{TreeNode}
use atomyx.Runner.Types.{
  CommandResult, Precondition, ScriptDefinition, StepsOrFile, RunAbort, StepEvent,
}

-- What a handler does: it ends with a result or by a panic, or has nested steps or preconditions
-- run and goes on with their result. The state goes along.
pub data Action (W Step : Type 0) : Type 0 where
  finish : CommandResult → W → Action W Step
  panic : Text → W → Action W Step
  run_steps : List Step → W → (CommandResult → W → Action W Step) → Action W Step
  run_preconditions :
      List (Precondition Step) → W → (CommandResult → W → Action W Step) → Action W Step

-- `CommandDefinition` with `conditionalCommand`; both see the definition that is being run.
pub record Command (W Step : Type 0) : Type 0 where
  pub should_skip : ScriptDefinition Step → W → Bool
  pub execute : ScriptDefinition Step → ℕ → Step → W → Action W Step

-- `ScriptRunnerDeps`. `load_flow` is `none` for a nil loader, and its left case is an error;
-- `check_health` gives the report of an agent that is not healthy; `setup_key` is the JSON of a setup.
pub record Host (W Step : Type 0) : Type 0 where
  pub now : W → ℤ × W
  pub sleep : ℤ → W → Option Text × W
  pub ctx_err : W → Option Text
  pub hierarchy : W → (Text ⊎ TreeNode) × W
  pub check_health : W → Option RunAbort × W
  pub load_flow : Option (Text → W → (Text ⊎ ScriptDefinition Step) × W)
  pub absolute : Text → Text
  pub command_of : Step → Text
  pub registry : Text → Option (Command W Step)
  pub no_capture_configured : Bool
  pub preconditions_override : Text
  pub setup_key : StepsOrFile Step → Text
  pub variables_from_env : List (Text × Text) → W → W

-- The runner's own state, with the events that it has emitted.
pub record RunState (W Step : Type 0) : Type 0 where
  pub world : W
  pub completed_requires : List Text
  pub call_stack : List Text
  pub completed_precondition_setups : List Text
  pub global_step_index : ℕ
  pub depth : ℕ
  pub events : List (StepEvent Step)
