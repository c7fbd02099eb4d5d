-- ===== src/Scenario/Report.antt =====
-- core/internal/scenario/scenario.go: what a scenario's result and its events tell of its scripts.
pub mod Loop
pub mod Events
pub mod Run
use atomyx.Prelude.{
  ℕ, suc, ◌≡◌, List, [], ◌∷◌, ◌++◌, Option, none, some, Bool, true, false, Text, codes, ℤ, pos, All,
  length, text_eq, ◌⊎◌,
}
use atomyx.Runner.Types.{ScriptResult}
use atomyx.Scenario.Types.{
  ScenarioDefinition, ScriptRunStatus, status_passed, status_failed, status_skipped, status_errored,
  ScriptError, ScenarioScriptResult, ScenarioResult, ScenarioEvent, script_started,
  script_completed, scenario_started, scenario_completed,
}
use atomyx.Scenario.Run.{failed_at}

-- What a status says of the rest of a result.
unfoldable pub Agrees : ScriptRunStatus → Option ScriptResult → Option ScriptError → Type 0
Agrees status_passed (some r) none = r.ok ≡ true
Agrees status_failed (some r) none = r.ok ≡ false
Agrees status_skipped none none = Unit
Agrees status_errored none (some e) = Unit
Agrees status r e = ⊥

abbrev pub IsPassed : ScenarioScriptResult → Type 0
IsPassed r = r.status ≡ status_passed

-- The result of the script at an index.
pub record IsResult (i : ℕ) (path : Text) (r : ScenarioScriptResult) : Type 0 where
  pub index : r.script_index ≡ i
  pub named : r.script_path ≡ path
  pub agrees : Agrees r.status r.result r.error

-- The results of scripts, the first of which is at an index. Every script runs up to the first that
-- does not pass under the policy to stop; those after it are skipped and take no time.
pub data Recorded (policy : Text) : ℕ → Bool → List Text → List ScenarioScriptResult → Type 0 where
  over : {i : ℕ} {stop : Bool} → Recorded policy i stop [] []
  skipped :
      {i : ℕ} {path : Text} {paths : List Text} {r : ScenarioScriptResult}
      {rs : List ScenarioScriptResult}
      → IsResult i path r
      → r.status ≡ status_skipped
      → r.duration_ms ≡ pos 0
      → Recorded policy (suc i) true paths rs
      → Recorded policy i true (path ∷ paths) (r ∷ rs)
  passed :
      {i : ℕ} {path : Text} {paths : List Text} {r : ScenarioScriptResult}
      {rs : List ScenarioScriptResult}
      → IsResult i path r
      → IsPassed r
      → Recorded policy (suc i) false paths rs
      → Recorded policy i false (path ∷ paths) (r ∷ rs)
  went_on :
      {i : ℕ} {path : Text} {paths : List Text} {r : ScenarioScriptResult}
      {rs : List ScenarioScriptResult}
      → IsResult i path r
      → (r.status ≡ status_failed) ⊎ (r.status ≡ status_errored)
      → text_eq policy (codes "stop") ≡ false
      → Recorded policy (suc i) false paths rs
      → Recorded policy i false (path ∷ paths) (r ∷ rs)
  halted :
      {i : ℕ} {path : Text} {paths : List Text} {r : ScenarioScriptResult}
      {rs : List ScenarioScriptResult}
      → IsResult i path r
      → (r.status ≡ status_failed) ⊎ (r.status ≡ status_errored)
      → text_eq policy (codes "stop") ≡ true
      → Recorded policy (suc i) true paths rs
      → Recorded policy i false (path ∷ paths) (r ∷ rs)

-- The events of a script, from its result: none where it was skipped.
unfoldable pub events_of : ScenarioScriptResult → List ScenarioEvent
unfolding failed_at
events_of r = elim r.status [
  | status_skipped ↦ []
  | status ↦
      script_started r.script_index r.script_path
      ∷ script_completed r.script_index r.script_path status r.duration_ms (failed_at r.result)
      ∷ []
]

unfoldable pub all_events_of : List ScenarioScriptResult → List ScenarioEvent
unfolding events_of
all_events_of [] = []
all_events_of (r ∷ rs) = events_of r ++ all_events_of rs

unfoldable pub scenario_events : ScenarioResult → List ScenarioEvent
unfolding all_events_of
scenario_events r =
    scenario_started r.scenario_name r.total_scripts ∷ all_events_of r.scripts
    ++ scenario_completed r.ok r.total_scripts r.passed_scripts r.duration_ms ∷ []
