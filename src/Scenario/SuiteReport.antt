-- ===== src/Scenario/SuiteReport.antt =====
-- core/internal/scenario/suite.go: what a suite's result tells of its entries.
pub mod Loop
pub mod Run
use atomyx.Prelude.{
  ℕ, suc, ◌+◌, ◌-◌, ◌≤◌, ◌==◌, ◌≡◌, refl, subst, ap, ◌↔◌, List, [], ◌∷◌, Option, none, some, Bool,
  true, false, Text, ◌⊎◌, inl, inr, ℤ, All, length, arith, on_option, if◌then◌else◌,
}
use atomyx.Runner.Types.{ScriptDefinition, ScriptResult}
use atomyx.Runner.Host.{RunState}
use atomyx.Runner.Outcome.{RunOutcome, run_error, finished}
use atomyx.Runner.Run.{run}
use atomyx.Runner.Report.{Reports}
use atomyx.Runner.Report.Run.{IsReported, run-IsReported}
use atomyx.Runner.Returns.{Upholds, Upholds-bind, Upholds-trivial}
use atomyx.Scenario.Types.{ScenarioDefinition, ScenarioState}
use atomyx.Scenario.Run.{
  ScenarioOutcome, scenario_error, scenario_done, run_scenario, new_script_runner,
}
use atomyx.Scenario.Report.Run.{ReportsOutcome, run_scenario-ReportsOutcome}
use atomyx.Scenario.SuiteTypes.{
  SuiteEntry, SuiteEntryKind, kind_script, kind_scenario, SuiteEntryStatus, entry_passed,
  entry_failed, SuiteEntryResult, SuiteEntryOutcome, of_script, of_scenario, SuiteResult,
  SuiteRunOptions, SuiteDeps, EntryEnd, entry_error, entry_done, SuiteOutcome, suite_canceled,
  suite_done, EntriesEnd, canceled, results, SuiteEntryError,
}
use atomyx.Scenario.Suite.{
  status_for, script_end, scenario_end, entry_result, outcome_ok, is_passed, count_passed, prepend,
  observed_by_none, Entry, host_for, run_parsed_script, run_script_entry, scenario_deps,
  run_parsed_scenario, run_scenario_entry, run_kind, kind_of, run_entry, capture_reset, relaunching,
  run_entries, suite_name_of, conclude, run_suite,
}

abbrev pub IsPassed : SuiteEntryResult → Type 0
IsPassed r = r.status ≡ entry_passed

module _ {W Step D : Type 0} (deps : SuiteDeps W Step D) (options : Option SuiteRunOptions) where
  -- What an entry's outcome tells of the script or the scenario that its text is.
  unfoldable pub Tells : SuiteEntryKind → Text → SuiteEntryOutcome → Type 0
  Tells kind_script content (of_script r) =
      (def : ScriptDefinition Step) × (deps.parse_script content deps.external_env ≡ inr def)
      × ((fuel : ℕ) × (w : W) × Reports (host_for deps 0 options none) fuel def
            (new_script_runner (observed_by_none w)) r)
  Tells kind_scenario content (of_scenario r) =
      (def : ScenarioDefinition) × (deps.parse_scenario content ≡ inr def)
      × atomyx.Scenario.Report.Run.Reports def r
  Tells kind content o = ⊥

  -- What a status says of the rest of a result.
  unfoldable pub Agrees :
      SuiteEntry → SuiteEntryStatus → Option SuiteEntryOutcome → Option SuiteEntryError → Type 0
  unfolding Tells kind_of outcome_ok
  Agrees entry entry_passed (some o) none =
      Tells (kind_of deps 0 options entry) entry.content o × (outcome_ok o ≡ true)
  Agrees entry entry_failed (some o) none =
      Tells (kind_of deps 0 options entry) entry.content o × (outcome_ok o ≡ false)
  Agrees entry entry_failed none (some e) = Unit
  Agrees entry status o e = ⊥

  pub record IsEntryResult (entry : SuiteEntry) (r : SuiteEntryResult) : Type 0 where
    pub named : r.path ≡ entry.path
    pub kind_read : r.kind ≡ kind_of deps 0 options entry
    pub agrees : Agrees entry r.status r.result r.error

  -- A result for each entry, in their order.
  unfoldable pub Recorded : List SuiteEntry → List SuiteEntryResult → Type 0
  Recorded [] [] = Unit
  Recorded (entry ∷ entries) (r ∷ rs) = IsEntryResult entry r × Recorded entries rs
  Recorded entries rs = ⊥
