-- ===== src/Scenario/SuiteTypes.antt =====
-- The data of core/internal/scenario/suite.go.
use atomyx.Prelude.{ℕ, List, Option, Bool, Text, ◌⊎◌, ℤ}
use atomyx.Orchestra.Launch.{Orchestra}
use atomyx.Runner.Types.{ScriptDefinition, ScriptResult}
use atomyx.Runner.Host.{Host}
use atomyx.Scenario.Types.{ScenarioDefinition, ScenarioResult, ScriptError}

pub data SuiteEntryKind : Type 0 where
  kind_script kind_scenario : SuiteEntryKind

pub data SuiteEntryStatus : Type 0 where
  entry_passed entry_failed : SuiteEntryStatus

pub record SuiteEntry : Type 0 where
  pub path : Text
  pub content : Text

pub data SuiteEntryOutcome : Type 0 where
  of_script : ScriptResult → SuiteEntryOutcome
  of_scenario : ScenarioResult → SuiteEntryOutcome

pub data SuiteEntryError : Type 0 where
  no_script_result : ScriptError → SuiteEntryError
  no_create_load_script : (path : Text) → SuiteEntryError
  unreadable_scenario : Text → SuiteEntryError
  scenario_canceled : Text → SuiteEntryError

pub record SuiteEntryResult : Type 0 where
  pub path : Text
  pub kind : SuiteEntryKind
  pub status : SuiteEntryStatus
  pub result : Option SuiteEntryOutcome
  pub error : Option SuiteEntryError
  pub duration_ms : ℤ

pub record SuiteResult : Type 0 where
  pub suite_name : Option Text
  pub ok : Bool
  pub entries : List SuiteEntryResult
  pub total : ℕ
  pub passed : ℕ
  pub failed : ℕ
  pub duration_ms : ℤ

pub record SuiteRunOptions : Type 0 where
  pub suite_name : Option Text
  pub resolve_preconditions : Option (Option Text → Text)

-- `SuiteRunnerDeps`, with the parsers of core/internal/script and `filepath.Dir`, and where in the
-- state outside the shared orchestra is. `reset_capture` is `none` for no capture session.
pub record SuiteDeps (W Step D : Type 0) : Type 0 where
  pub host : Host W Step
  pub orchestra : W → Orchestra D
  pub with_orchestra : Orchestra D → W → W
  pub reset_capture : Option (W → W)
  pub is_scenario_yaml : Text → Bool
  pub parse_script : Text → List (Text × Text) → Text ⊎ ScriptDefinition Step
  pub parse_scenario : Text → Text ⊎ ScenarioDefinition
  pub dir : Text → Text
  pub create_load_script : Option (Text → Text → W → (Text ⊎ Text) × W)
  pub external_env : List (Text × Text)

-- How an entry ends: by an error, or with its outcome.
pub data EntryEnd : Type 0 where
  entry_error : SuiteEntryError → EntryEnd
  entry_done : SuiteEntryOutcome → EntryEnd

pub data SuiteOutcome : Type 0 where
  suite_canceled : Text → SuiteOutcome
  suite_done : SuiteResult → SuiteOutcome

pub data EntriesEnd : Type 0 where
  canceled : Text → EntriesEnd
  results : List SuiteEntryResult → EntriesEnd
