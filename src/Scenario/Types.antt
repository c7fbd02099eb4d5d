-- ===== src/Scenario/Types.antt =====
-- The data of core/internal/scenario/scenario.go, and the scenario that core/internal/script parses.
use atomyx.Prelude.{ℕ, List, [], ◌∷◌, Option, Bool, Text, ◌⊎◌, ℤ, text_eq, if◌then◌else◌}
use atomyx.Runner.Types.{ScriptDefinition, ScriptResult, StepEvent}
use atomyx.Runner.Outcome.{RunError}
use atomyx.Runner.Host.{Host}

pub record ScenarioDefinition : Type 0 where
  pub name : Text
  pub env : List (Text × Text)
  pub scripts : List Text
  pub on_failure : Option Text
  pub preconditions : Option Text

pub data ScriptRunStatus : Type 0 where
  status_passed status_failed status_skipped status_errored : ScriptRunStatus

-- Why a script gave no result: its text could not be loaded or parsed, or its run returned an error.
pub data ScriptError : Type 0 where
  unreadable : Text → ScriptError
  not_run : RunError → ScriptError

pub record ScenarioScriptResult : Type 0 where
  pub script_index : ℕ
  pub script_path : Text
  pub status : ScriptRunStatus
  pub result : Option ScriptResult
  pub error : Option ScriptError
  pub duration_ms : ℤ

pub record ScenarioResult : Type 0 where
  pub scenario_name : Text
  pub ok : Bool
  pub scripts : List ScenarioScriptResult
  pub total_scripts : ℕ
  pub passed_scripts : ℕ
  pub duration_ms : ℤ

-- Each with the fields that are meaningful for it.
pub data ScenarioEvent : Type 0 where
  scenario_started : (name : Text) → (total : ℕ) → ScenarioEvent
  script_started : (index : ℕ) → (path : Text) → ScenarioEvent
  script_completed :
      (index : ℕ) → (path : Text) → ScriptRunStatus → (duration_ms : ℤ) → Option ℕ → ScenarioEvent
  scenario_completed : Bool → (total passed : ℕ) → (duration_ms : ℤ) → ScenarioEvent

-- `ScenarioRunnerDeps`: what a child's runner gets, the loader, and the parser. The override of the
-- preconditions is a field of the host.
pub record ScenarioDeps (W Step : Type 0) : Type 0 where
  pub host : Host W Step
  pub load_script : Text → W → (Text ⊎ Text) × W
  pub parse_script : Text → List (Text × Text) → Text ⊎ ScriptDefinition Step
  pub external_env : List (Text × Text)

-- The state outside, with what was emitted to `OnScenarioEvent` and to `OnStep`.
pub record ScenarioState (W Step : Type 0) : Type 0 where
  pub world : W
  pub events : List ScenarioEvent
  pub step_events : List (StepEvent Step)

-- An assignment to a key of a map.
unfoldable pub put {ℓ} : {V : Type ℓ} → Text → V → List (Text × V) → List (Text × V)
unfolding text_eq
put k v [] = (k, v) ∷ []
put k v ((j, u) ∷ m) = let rest = put k v m in if text_eq k j then (k, v) ∷ m else (j, u) ∷ rest

unfoldable pub put_all {ℓ} : {V : Type ℓ} → List (Text × V) → List (Text × V) → List (Text × V)
unfolding put
put_all [] m = m
put_all ((k, v) ∷ kvs) m = put_all kvs (put k v m)
