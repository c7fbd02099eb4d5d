-- ===== src/Scenario/Suite.antt =====
-- core/internal/scenario/suite.go: `SuiteRunner`. The fuel is that of the scripts' runs.
use atomyx.Prelude.{
  count_if, ℕ, ◌-◌, List, [], ◌∷◌, Option, none, some, Bool, true, false, Text, ◌==◌, ◌⊎◌, inl, inr,
  if◌then◌else◌, ℤ, ◌-ℤ◌, length,
}
use atomyx.Orchestra.Launch.{reset_launched_apps}
use atomyx.Runner.Types.{ScriptDefinition}
use atomyx.Runner.Host.{Host}
use atomyx.Runner.Outcome.{RunOutcome, run_error, finished}
use atomyx.Runner.Steps.{◌>>=◌}
use atomyx.Runner.Run.{run}
use atomyx.Scenario.Types.{ScenarioDefinition, unreadable, not_run, ScenarioDeps, ScenarioState}
use atomyx.Scenario.Run.{
  ScenarioOutcome, scenario_error, scenario_done, run_scenario, new_script_runner,
}
use atomyx.Scenario.SuiteTypes.{
  SuiteEntryKind, SuiteEntryStatus, SuiteEntry, SuiteEntryOutcome, SuiteEntryResult,
  SuiteRunOptions, SuiteDeps, EntryEnd, SuiteOutcome, EntriesEnd, kind_script, kind_scenario,
  entry_passed, entry_failed, of_script, of_scenario, no_script_result, no_create_load_script,
  unreadable_scenario, scenario_canceled, entry_error, entry_done, suite_canceled, suite_done,
  canceled, results,
}

unfoldable pub status_for : Bool → SuiteEntryStatus
status_for ok = if ok then entry_passed else entry_failed

unfoldable pub outcome_ok : SuiteEntryOutcome → Bool
outcome_ok (of_script r) = r.ok
outcome_ok (of_scenario r) = r.ok

unfoldable pub override_of : Option SuiteRunOptions → Option Text → Text
override_of none level = []
override_of (some options) level = elim options.resolve_preconditions [
  | none ↦ []
  | some resolve ↦ resolve level
]

unfoldable pub script_end : RunOutcome → EntryEnd
script_end (run_error e) = entry_error (no_script_result (not_run e))
script_end (finished r) = entry_done (of_script r)

unfoldable pub scenario_end : ScenarioOutcome → EntryEnd
scenario_end (scenario_error e) = entry_error (scenario_canceled e)
scenario_end (scenario_done r) = entry_done (of_scenario r)

unfoldable pub entry_result : Text → SuiteEntryKind → EntryEnd → ℤ → SuiteEntryResult
unfolding status_for outcome_ok
entry_result path kind (entry_error e) ms = record {
  path = path;
  kind = kind;
  status = entry_failed;
  result = none;
  error = some e;
  duration_ms = ms;
}
entry_result path kind (entry_done o) ms = record {
  path = path;
  kind = kind;
  status = status_for (outcome_ok o);
  result = some o;
  error = none;
  duration_ms = ms;
}

unfoldable pub is_passed : SuiteEntryStatus → Bool
is_passed entry_passed = true
is_passed entry_failed = false

unfoldable pub count_passed : List SuiteEntryResult → ℕ
unfolding is_passed count_if
count_passed rs = count_if (λ r. is_passed r.status) rs

abbrev pub prepend : SuiteEntryResult → EntriesEnd → EntriesEnd
prepend r (canceled e) = canceled e
prepend r (results rs) = results (r ∷ rs)

abbrev pub observed_by_none : {W Step : Type 0} → W → ScenarioState W Step
observed_by_none w = record { world = w; events = []; step_events = [] }

module _ {W Step D : Type 0} (deps : SuiteDeps W Step D) (fuel : ℕ)
    (options : Option SuiteRunOptions) where
  abbrev pub Entry : Type 0
  Entry = Option (EntryEnd × W)

  abbrev pub host_for : Option Text → Host W Step
  host_for level = record deps.host { preconditions_override = override_of options level }

  unfoldable pub run_parsed_script : Text ⊎ ScriptDefinition Step → W → Entry
  unfolding run script_end override_of
  run_parsed_script (inl e) w = some (entry_error (no_script_result (unreadable e)), w)
  run_parsed_script (inr def) w =
      run (host_for none) fuel def (new_script_runner (observed_by_none w)) >>= λ (o, st).
      some (script_end o, st.world)

  unfoldable pub run_script_entry : SuiteEntry → W → Entry
  unfolding run_parsed_script
  run_script_entry entry w = run_parsed_script (deps.parse_script entry.content deps.external_env) w

  abbrev pub scenario_deps :
      (Text → W → (Text ⊎ Text) × W) → ScenarioDefinition → ScenarioDeps W Step
  scenario_deps load def = record {
    host = host_for def.preconditions;
    load_script = load;
    parse_script = deps.parse_script;
    external_env = deps.external_env;
  }

  unfoldable pub run_parsed_scenario :
      (Text → W → (Text ⊎ Text) × W) → Text ⊎ ScenarioDefinition → W → Entry
  unfolding run_scenario scenario_end override_of
  run_parsed_scenario load (inl e) w = some (entry_error (unreadable_scenario e), w)
  run_parsed_scenario load (inr def) w =
      run_scenario (scenario_deps load def) fuel def (observed_by_none w) >>= λ (o, st).
      some (scenario_end o, st.world)

  unfoldable pub run_scenario_entry : SuiteEntry → W → Entry
  unfolding run_parsed_scenario
  run_scenario_entry entry w = elim deps.create_load_script [
    | none ↦ some (entry_error (no_create_load_script entry.path), w)
    | some create ↦
        run_parsed_scenario (create (deps.dir entry.path)) (deps.parse_scenario entry.content) w
  ]

  unfoldable pub run_kind : SuiteEntryKind → SuiteEntry → W → Entry
  unfolding run_script_entry run_scenario_entry
  run_kind kind_script entry w = run_script_entry entry w
  run_kind kind_scenario entry w = run_scenario_entry entry w

  unfoldable pub kind_of : SuiteEntry → SuiteEntryKind
  kind_of entry = if deps.is_scenario_yaml entry.content then kind_scenario else kind_script

  unfoldable pub capture_reset : W → W
  capture_reset w = elim deps.reset_capture [ none ↦ w | some reset ↦ reset w ]

  unfoldable pub run_entry : SuiteEntry → W → Option (SuiteEntryResult × W)
  unfolding kind_of capture_reset run_kind entry_result
  run_entry entry w =
      let read = deps.host.now w in
      run_kind (kind_of entry) entry (capture_reset read.1) >>= λ (end, v).
      let later = deps.host.now v in
      some (entry_result entry.path (kind_of entry) end (later.0 -ℤ read.0), later.1)

  unfoldable pub relaunching : W → W
  unfolding reset_launched_apps
  relaunching w = deps.with_orchestra (reset_launched_apps (deps.orchestra w)) w

  unfoldable pub run_entries : List SuiteEntry → W → Option (EntriesEnd × W)
  unfolding relaunching run_entry
  run_entries [] w = some (results [], w)
  run_entries (entry ∷ entries) w = elim (deps.host.ctx_err w) [
    | some e ↦ some (canceled e, w)
    | none ↦ run_entry entry (relaunching w) >>= λ (r, v).
        run_entries entries v >>= λ (end, u). some (prepend r end, u)
  ]

  unfoldable pub suite_name_of : Option Text
  suite_name_of = elim options [ none ↦ none | some o ↦ o.suite_name ]

  unfoldable pub conclude : (started : ℤ) → EntriesEnd → W → SuiteOutcome × W
  unfolding count_passed suite_name_of
  conclude started (canceled e) w = (suite_canceled e, w)
  conclude started (results rs) w =
      let read = deps.host.now w in
      (
        suite_done (record {
          suite_name = suite_name_of;
          ok = count_passed rs == length rs;
          entries = rs;
          total = length rs;
          passed = count_passed rs;
          failed = length rs - count_passed rs;
          duration_ms = read.0 -ℤ started;
        }),
        read.1,
      )

  unfoldable pub run_suite : List SuiteEntry → W → Option (SuiteOutcome × W)
  unfolding run_entries conclude
  run_suite entries w =
      let read = deps.host.now w in
      run_entries entries read.1 >>= λ (end, v). some (conclude read.0 end v)
