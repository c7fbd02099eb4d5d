-- ===== src/Scenario/Run.antt =====
-- core/internal/scenario/scenario.go: `Run` and `runOne`. The fuel is that of the scripts' runs.
use atomyx.Prelude.{
  ℕ, suc, List, [], ◌∷◌, ◌++◌, Option, none, some, Bool, true, false, not, ◌&&◌, Text, codes,
  text_eq, count_if, ◌⊎◌, inl, inr, if◌then◌else◌, ℤ, pos, ◌-ℤ◌, length,
}
use atomyx.Runner.Types.{ScriptDefinition, ScriptResult}
use atomyx.Runner.Host.{RunState}
use atomyx.Runner.Outcome.{RunOutcome, run_error, finished}
use atomyx.Runner.Steps.{◌>>=◌}
use atomyx.Runner.Run.{run}
use atomyx.Scenario.Types.{
  ScenarioDefinition, ScriptRunStatus, status_passed, status_failed, status_skipped, status_errored,
  ScriptError, unreadable, not_run, ScenarioScriptResult, ScenarioResult, ScenarioEvent,
  scenario_started, script_started, script_completed, scenario_completed, ScenarioDeps,
  ScenarioState, put_all,
}

abbrev pub OneOutcome : Type 0
OneOutcome = ScriptRunStatus × Option ScriptResult × Option ScriptError

pub data ScriptsEnd : Type 0 where
  canceled : Text → ScriptsEnd
  results : List ScenarioScriptResult → ScriptsEnd

pub data ScenarioOutcome : Type 0 where
  scenario_error : Text → ScenarioOutcome
  scenario_done : ScenarioResult → ScenarioOutcome

unfoldable pub on_failure : ScenarioDefinition → Text
on_failure def = elim def.on_failure [ none ↦ codes "stop" | some policy ↦ policy ]

unfoldable pub is_passed : ScriptRunStatus → Bool
is_passed status_passed = true
is_passed status_failed = false
is_passed status_skipped = false
is_passed status_errored = false

unfoldable pub stop_requested : (policy : Text) → ScriptRunStatus → Bool
unfolding is_passed text_eq
stop_requested policy status = not (is_passed status) && text_eq policy (codes "stop")

unfoldable pub verdict : RunOutcome → OneOutcome
verdict (run_error e) = (status_errored, none, some (not_run e))
verdict (finished r) = (if r.ok then status_passed else status_failed, some r, none)

unfoldable pub failed_at : Option ScriptResult → Option ℕ
failed_at none = none
failed_at (some r) = r.failed_at_step

abbrev pub skipped_result : ℕ → Text → ScenarioScriptResult
skipped_result i path = record {
  script_index = i;
  script_path = path;
  status = status_skipped;
  result = none;
  error = none;
  duration_ms = pos 0;
}

abbrev pub result_of : ℕ → Text → OneOutcome → ℤ → ScenarioScriptResult
result_of i path o ms = record {
  script_index = i;
  script_path = path;
  status = o.0;
  result = o.1;
  error = o.2;
  duration_ms = ms;
}

abbrev pub recorded : ScenarioScriptResult → ScriptsEnd → ScriptsEnd
recorded r (canceled e) = canceled e
recorded r (results rs) = results (r ∷ rs)

unfoldable pub count_passed : List ScenarioScriptResult → ℕ
unfolding is_passed count_if
count_passed rs = count_if (λ r. is_passed r.status) rs

unfoldable pub all_passed : List ScenarioScriptResult → Bool
unfolding is_passed
all_passed [] = true
all_passed (r ∷ rs) = is_passed r.status && all_passed rs

module _ {W Step : Type 0} where
  -- A runner of its own for each script.
  abbrev pub new_script_runner : ScenarioState W Step → RunState W Step
  new_script_runner st = record {
    world = st.world;
    completed_requires = [];
    call_stack = [];
    completed_precondition_setups = [];
    global_step_index = 0;
    depth = 0;
    events = st.step_events;
  }

  abbrev pub with_world : ScenarioState W Step → W → ScenarioState W Step
  with_world st w = record st { world = w }

  abbrev pub emit : ScenarioState W Step → ScenarioEvent → ScenarioState W Step
  emit st e = record st { events = st.events ++ e ∷ [] }

module _ {W Step : Type 0} (deps : ScenarioDeps W Step) (fuel : ℕ) where
  abbrev pub Outcome : Type 0
  Outcome = Option (OneOutcome × ScenarioState W Step)

  abbrev pub Scripts : Type 0
  Scripts = Option (ScriptsEnd × ScenarioState W Step)

  unfoldable pub child_env : ScenarioDefinition → List (Text × Text)
  unfolding put_all
  child_env def = put_all deps.external_env (put_all def.env [])

  unfoldable pub parse_loaded : List (Text × Text) → Text ⊎ Text → Text ⊎ ScriptDefinition Step
  parse_loaded env (inl e) = inl e
  parse_loaded env (inr yaml) = deps.parse_script yaml env

  unfoldable pub run_parsed : Text ⊎ ScriptDefinition Step → ScenarioState W Step → Outcome
  unfolding run verdict
  run_parsed (inl e) st = some ((status_errored, none, some (unreadable e)), st)
  run_parsed (inr def) st = run deps.host fuel def (new_script_runner st) >>= λ (o, ended).
      some (verdict o, record st { world = ended.world; step_events = ended.events })

  unfoldable pub run_one : (path : Text) → List (Text × Text) → ScenarioState W Step → Outcome
  unfolding parse_loaded run_parsed
  run_one path env st =
      let loaded = deps.load_script path st.world in
      run_parsed (parse_loaded env loaded.0) (with_world st loaded.1)

  -- After `runOne`: the record of its outcome, and the event.
  abbrev pub complete :
      ℕ
      → Text
      → (started : ℤ) → OneOutcome
      → ScenarioState W Step
      → ScenarioScriptResult × ScenarioState W Step
  complete i path started o st =
      let read = deps.host.now st.world in
      let ms = read.0 -ℤ started in
      (
        result_of i path o ms,
        emit (with_world st read.1) (script_completed i path o.0 ms (failed_at o.1)),
      )

  unfoldable pub run_script :
      ℕ
      → Text
      → List (Text × Text)
      → ScenarioState W Step
      → Option (ScenarioScriptResult × ScenarioState W Step)
  unfolding run_one failed_at
  run_script i path env st =
      let read = deps.host.now st.world in
      run_one path env (emit (with_world st read.1) (script_started i path)) >>= λ (o, st').
      some (complete i path read.0 o st')

  -- The turn of a script in the loop; `rest` goes on with the next.
  unfoldable pub turn :
      (policy : Text)
      → List (Text × Text)
      → (rest : Bool → ScenarioState W Step → Scripts) → ℕ
      → Text
      → Bool
      → ScenarioState W Step
      → Scripts
  unfolding run_script stop_requested
  turn policy env rest i path true st =
      rest true st >>= λ (end, st'). some (recorded (skipped_result i path) end, st')
  turn policy env rest i path false st = run_script i path env st >>= λ (r, st').
      rest (stop_requested policy r.status) st' >>= λ (end, st''). some (recorded r end, st'')

  unfoldable pub run_scripts :
      (policy : Text) → List (Text × Text) → ℕ → List Text → Bool → ScenarioState W Step → Scripts
  unfolding turn
  run_scripts policy env i [] stop st = some (results [], st)
  run_scripts policy env i (path ∷ paths) stop st = elim (deps.host.ctx_err st.world) [
    | some e ↦ some (canceled e, st)
    | none ↦ turn policy env (run_scripts policy env (suc i) paths) i path stop st
  ]

  unfoldable pub conclude :
      ScenarioDefinition
      → (started : ℤ) → ScriptsEnd
      → ScenarioState W Step
      → ScenarioOutcome × ScenarioState W Step
  unfolding all_passed count_passed
  conclude def started (canceled e) st = (scenario_error e, st)
  conclude def started (results rs) st =
      let read = deps.host.now st.world in
      let ms = read.0 -ℤ started in
      let total = length def.scripts in
      (
        scenario_done (record {
          scenario_name = def.name;
          ok = all_passed rs;
          scripts = rs;
          total_scripts = total;
          passed_scripts = count_passed rs;
          duration_ms = ms;
        }),
        emit (with_world st read.1) (scenario_completed (all_passed rs) total (count_passed rs) ms),
      )

  unfoldable pub run_scenario :
      ScenarioDefinition → ScenarioState W Step → Option (ScenarioOutcome × ScenarioState W Step)
  unfolding run_scripts conclude child_env on_failure
  run_scenario def st =
      let read = deps.host.now st.world in
      let begun = emit (with_world st read.1) (scenario_started def.name (length def.scripts)) in
      run_scripts (on_failure def) (child_env def) 0 def.scripts false begun >>= λ (end, st').
      some (conclude def read.0 end st')
