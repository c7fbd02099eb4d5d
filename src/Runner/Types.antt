-- ===== src/Runner/Types.antt =====
-- The data of core/internal/script/types.go and schema.go that the runner reads, and its own of
-- command.go, step_event.go and runner.go. A step is a parameter; a detail that the runner writes is
-- a constructor for each message, and `text` one that comes from elsewhere.
use atomyx.Prelude.{ℕ, List, Option, some, Bool, true, false, Text, ℤ}

pub record ScriptSelector : Type 0 where
  pub text : Option Text
  pub id : Option Text
  pub label : Option Text
  pub hint : Option Text
  pub role : Option Text
  pub nth : Option ℤ

pub record StringOrSelector : Type 0 where
  pub str : Option Text
  pub selector : Option ScriptSelector

pub record PreconditionCheck : Type 0 where
  pub visible : Option StringOrSelector
  pub not_visible : Option StringOrSelector

pub record StepsOrFile (Step : Type 0) : Type 0 where
  pub steps : List Step
  pub file : Option Text

pub record Precondition (Step : Type 0) : Type 0 where
  pub check : PreconditionCheck
  pub setup : StepsOrFile Step
  pub policy : Option Text

-- A float64 number of milliseconds, as the loop reads it: whether it is positive, and `int64` of it.
pub record StepDelay : Type 0 where
  pub positive : Bool
  pub truncated : ℤ

-- A line number 0 stands for none.
pub record ScriptDefinition (Step : Type 0) : Type 0 where
  pub app_id : Text
  pub name : Text
  pub env : List (Text × Text)
  pub proxy : Option Text
  pub requires : List Text
  pub preconditions : List (Precondition Step)
  pub step_delay : Option StepDelay
  pub steps : List Step
  pub step_lines : List ℕ

pub data RunAbortReason : Type 0 where
  device_lost proxy_required : RunAbortReason

pub record RunAbort : Type 0 where
  pub reason : RunAbortReason
  pub code : Text
  pub message : Text
  pub remedy : Text

pub data Detail : Type 0 where
  text : Text → Detail
  unknown_command : Text → Detail
  exception : Text → Detail
  completed : Detail
  no_preconditions : Detail
  preconditions_satisfied : Detail
  not_met_after_setup : PreconditionCheck → Detail
  setup_already_completed : Detail
  no_flow_loader : Text → Detail
  setup_file : Text → Text → Detail
  circular_dependency : Text → Detail
  no_loader_for_required : Text → Detail
  required_precondition_failed : Text → Detail → Detail
  required_flow_failed : Text → Detail → Detail
  sub_flow_not_found : Text → Detail
  sub_flow_precondition_failed : Text → Detail → Detail
  sub_flow_failed : Text → Detail → Detail
  sub_flow_completed : Text → ℕ → Detail

pub record CommandResult : Type 0 where
  pub ok : Bool
  pub detail : Option Detail

abbrev pub success : Detail → CommandResult
success d = record { ok = true; detail = some d }

abbrev pub failure : Detail → CommandResult
failure d = record { ok = false; detail = some d }

pub record StepResult : Type 0 where
  pub step_index : ℤ
  pub command : Text
  pub ok : Bool
  pub detail : Option Detail
  pub duration_ms : ℤ

pub record ScriptResult : Type 0 where
  pub script_name : Text
  pub ok : Bool
  pub steps : List StepResult
  pub total_steps : ℕ
  pub passed_steps : ℕ
  pub failed_at_step : Option ℕ
  pub duration_ms : ℤ
  pub abort : Option RunAbort

-- The summary and the tokens of an event are computed from the step, which stands for them.
pub data StepEvent (Step : Type 0) : Type 0 where
  step_started : ℕ → Step → ℕ → Option ℕ → StepEvent Step
  step_completed : ℕ → Step → ℕ → Option ℕ → CommandResult → ℤ → StepEvent Step
