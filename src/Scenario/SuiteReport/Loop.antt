-- ===== src/Scenario/SuiteReport/Loop.antt =====
-- core/internal/scenario/suite.go: the results of the loop over a suite's entries.
use atomyx.Prelude.{
  ℕ, ◌≡◌, refl, List, [], ◌∷◌, Option, none, some, Bool, true, false, Text, ◌⊎◌, inl, inr, ℤ,
  on_option,
}
use atomyx.Runner.Types.{ScriptDefinition}
use atomyx.Runner.Host.{RunState}
use atomyx.Runner.Outcome.{RunOutcome, run_error, finished}
use atomyx.Runner.Run.{run}
use atomyx.Runner.Report.Run.{IsReported, run-IsReported}
use atomyx.Runner.Returns.{Upholds, Upholds-bind}
use atomyx.Scenario.Types.{ScenarioDefinition, ScenarioState}
use atomyx.Scenario.Run.{
  ScenarioOutcome, scenario_error, scenario_done, run_scenario, new_script_runner,
}
use atomyx.Scenario.Report.Run.{ReportsOutcome, run_scenario-ReportsOutcome}
use atomyx.Scenario.SuiteTypes.{
  SuiteEntry, SuiteEntryKind, kind_script, kind_scenario, SuiteEntryResult, SuiteEntryOutcome,
  SuiteRunOptions, SuiteDeps, EntryEnd, entry_error, entry_done, EntriesEnd, canceled, results,
}
use atomyx.Scenario.Suite.{
  status_for, script_end, scenario_end, entry_result, outcome_ok, prepend, observed_by_none,
  host_for, run_parsed_script, run_script_entry, scenario_deps, run_parsed_scenario,
  run_scenario_entry, run_kind, kind_of, run_entry, run_entries,
}
use atomyx.Scenario.SuiteReport.{Tells, Agrees, IsEntryResult, Recorded}

module _ {W Step D : Type 0} (deps : SuiteDeps W Step D) (fuel : ℕ)
    (options : Option SuiteRunOptions) where
  IsEnd : SuiteEntryKind → Text → EntryEnd × W → Type 0
  IsEnd kind content x = elim x.0 [
    | entry_error e ↦ Unit
    | entry_done o ↦ Tells deps options kind content o
  ]

  run_parsed_script-IsEnd :
      (content : Text) (x : Text ⊎ ScriptDefinition Step) (w : W)
      → deps.parse_script content deps.external_env ≡ x
      → Upholds (IsEnd kind_script content) (run_parsed_script deps fuel options x w)
  unfolding run_parsed_script script_end IsEnd Tells Upholds IsReported
  run_parsed_script-IsEnd content (inl e) w same = tt
  run_parsed_script-IsEnd content (inr def) w same =
      let host = host_for deps fuel options none in
      Upholds-bind (IsReported host fuel def (new_script_runner (observed_by_none w)))
        (IsEnd kind_script content) (run host fuel def (new_script_runner (observed_by_none w))) _
        (run-IsReported host fuel def (new_script_runner (observed_by_none w)))
        (λ (o, st) h. script_end-IsEnd o st h)
    where
      script_end-IsEnd :
          (o : RunOutcome) (st : RunState W Step)
          → IsReported
              (host_for deps fuel options none)
              fuel
              def
              (new_script_runner (observed_by_none w))
              (o, st)
          → IsEnd kind_script content (script_end o, st.world)
      script_end-IsEnd (run_error e) st h = tt
      script_end-IsEnd (finished r) st h = (def, same, (fuel, w, h))

  run_parsed_scenario-IsEnd :
      (load : Text → W → (Text ⊎ Text) × W) (content : Text) (x : Text ⊎ ScenarioDefinition) (w : W)
      → deps.parse_scenario content ≡ x
      → Upholds (IsEnd kind_scenario content) (run_parsed_scenario deps fuel options load x w)
  unfolding run_parsed_scenario scenario_end IsEnd Tells Upholds ReportsOutcome
  run_parsed_scenario-IsEnd load content (inl e) w same = tt
  run_parsed_scenario-IsEnd load content (inr def) w same =
      let child = scenario_deps deps fuel options load def in
      Upholds-bind (ReportsOutcome child fuel def) (IsEnd kind_scenario content)
        (run_scenario child fuel def (observed_by_none w)) _
        (run_scenario-ReportsOutcome child fuel def (observed_by_none w))
        (λ (o, st) h. scenario_end-IsEnd o st h)
    where
      scenario_end-IsEnd :
          (o : ScenarioOutcome) (st : ScenarioState W Step)
          → ReportsOutcome (scenario_deps deps fuel options load def) fuel def (o, st)
          → IsEnd kind_scenario content (scenario_end o, st.world)
      scenario_end-IsEnd (scenario_error e) st h = tt
      scenario_end-IsEnd (scenario_done r) st h = (def, same, h)

  run_kind-IsEnd :
      (kind : SuiteEntryKind) (entry : SuiteEntry) (w : W)
      → Upholds (IsEnd kind entry.content) (run_kind deps fuel options kind entry w)
  unfolding run_kind run_script_entry run_scenario_entry Upholds IsEnd
  run_kind-IsEnd kind_script entry w = run_parsed_script-IsEnd entry.content _ w refl
  run_kind-IsEnd kind_scenario entry w =
      on_option (Upholds (IsEnd kind_scenario entry.content)) deps.create_load_script tt
        (λ create. run_parsed_scenario-IsEnd (create (deps.dir entry.path)) entry.content _ w refl)

  status_for-Agrees :
      (entry : SuiteEntry) (o : SuiteEntryOutcome) (b : Bool)
      → Tells deps options (kind_of deps 0 options entry) entry.content o
      → outcome_ok o ≡ b
      → Agrees deps options entry (status_for b) (some o) none
  unfolding Agrees status_for
  status_for-Agrees entry o true tells e = (tells, e)
  status_for-Agrees entry o false tells e = (tells, e)

  entry_result-IsEntryResult :
      (entry : SuiteEntry) (end : EntryEnd) (w : W) (ms : ℤ)
      → IsEnd (kind_of deps 0 options entry) entry.content (end, w)
      → IsEntryResult deps options entry
          (entry_result entry.path (kind_of deps 0 options entry) end ms)
  unfolding entry_result IsEnd Agrees
  entry_result-IsEntryResult entry (entry_error e) w ms h = record {
    named = refl;
    kind_read = refl;
    agrees = tt;
  }
  entry_result-IsEntryResult entry (entry_done o) w ms h = record {
    named = refl;
    kind_read = refl;
    agrees = status_for-Agrees entry o (outcome_ok o) h refl;
  }

  IsEntry : SuiteEntry → SuiteEntryResult × W → Type 0
  IsEntry entry x = IsEntryResult deps options entry x.0

  run_entry-IsEntry :
      (entry : SuiteEntry) (w : W) → Upholds (IsEntry entry) (run_entry deps fuel options entry w)
  unfolding run_entry kind_of IsEntry Upholds
  run_entry-IsEntry entry w =
      Upholds-bind (IsEnd (kind_of deps 0 options entry) entry.content) (IsEntry entry)
        (run_kind deps fuel options (kind_of deps 0 options entry) entry _) _
        (run_kind-IsEnd (kind_of deps 0 options entry) entry _)
        (λ (end, v) h. entry_result-IsEntryResult entry end v _ h)

  unfoldable pub AreEntries : List SuiteEntry → EntriesEnd × W → Type 0
  AreEntries entries x = elim x.0 [
    | canceled e ↦ Unit
    | results rs ↦ Recorded deps options entries rs
  ]

  prepend-AreEntries :
      (entry : SuiteEntry) (entries : List SuiteEntry) (r : SuiteEntryResult) (end : EntriesEnd)
      (w : W)
      → IsEntryResult deps options entry r
      → AreEntries entries (end, w)
      → AreEntries (entry ∷ entries) (prepend r end, w)
  unfolding AreEntries Recorded
  prepend-AreEntries entry entries r (canceled e) w first h = tt
  prepend-AreEntries entry entries r (results rs) w first h = (first, h)

  pub run_entries-AreEntries :
      (entries : List SuiteEntry) (w : W)
      → Upholds (AreEntries entries) (run_entries deps fuel options entries w)
  unfolding run_entries AreEntries Recorded Upholds IsEntry
  run_entries-AreEntries [] w = tt
  run_entries-AreEntries (entry ∷ entries) w =
      let P : Option (EntriesEnd × W) → Type 0 = Upholds (AreEntries (entry ∷ entries)) in
      on_option P (deps.host.ctx_err w) {s = λ e. some (canceled e, w)}
        (Upholds-bind (IsEntry entry) (AreEntries (entry ∷ entries))
          (run_entry deps fuel options entry _) _ (run_entry-IsEntry entry _)
          (λ (r, v) first.
            Upholds-bind (AreEntries entries) (AreEntries (entry ∷ entries))
              (run_entries deps fuel options entries v) _ (run_entries-AreEntries entries v)
              (λ (end, u) h. prepend-AreEntries entry entries r end u first h)))
        (λ e. tt)
