-- ===== src/Scenario/Samples.antt =====
-- Scenarios and suites of scripts with one step, which passes or fails, and the theorems on them.
use atomyx.Prelude.{
  ℕ, zero, suc, ◌<◌, ◌≡◌, refl, subst, List, [], ◌∷◌, ◌++◌, Bool, none, some, true, false, Text,
  codes, ◌⊎◌, inl, inr, ℤ, pos, ◌-ℤ◌, arith,
}
use mathlib.Core.Option.{some-injective}
use mathlib.Core.Sum.{inr-injective}
use atomyx.Orchestra.Launch.{Orchestra}
use atomyx.Runner.Types.{
  ScriptDefinition, ScriptResult, step_started, step_completed, success, failure, completed,
}
use atomyx.Runner.Host.{Host, Command, Action, finish}
use atomyx.Runner.Gate.{gate, nested}
use atomyx.Runner.Requires.{run_required_flows}
use atomyx.Runner.Run.{run}
use atomyx.Runner.Confined.{Confined, ConfinedScript}
use atomyx.Runner.Returns.{Returns}
use atomyx.Scenario.Types.{
  scenario_started, script_started, script_completed, scenario_completed, ScenarioDefinition,
  status_passed, status_errored, ScenarioResult, ScenarioDeps, ScenarioState, unreadable,
}
use atomyx.Scenario.Run.{scenario_done, run_scenario, skipped_result, result_of}
use atomyx.Scenario.Report.{scenario_events}
use atomyx.Scenario.Report.Run.{run_scenario-events}
use atomyx.Scenario.SuiteTypes.{
  SuiteEntry, SuiteDeps, SuiteResult, entry_passed, entry_failed, kind_script, kind_scenario,
  of_script, of_scenario,
}
use atomyx.Scenario.Suite.{run_suite, observed_by_none}
use atomyx.Scenario.SuiteReport.Run
use atomyx.Scenario.Terminate.{Ranked}
use atomyx.Scenario.Terminate.Suite.{run_suite-Returns}

-- The driver is a clock.
abbrev Device : Type 0
Device = Orchestra ℕ

abbrev tick : Device → ℤ × Device
tick w = (pos w.driver, record w { driver = suc w.driver })

abbrev tap_or_fail : ℕ → Device → Action Device ℕ
tap_or_fail zero w = finish (success completed) w
tap_or_fail (suc n) w = finish (failure completed) w

abbrev tap_command : Command Device ℕ
tap_command = record { should_skip = λ def w. false; execute = λ def i step w. tap_or_fail step w }

abbrev device : Host Device ℕ
device = record {
  now = tick;
  sleep = λ ms w. (none, w);
  ctx_err = λ w. none;
  hierarchy = λ w. (inl (codes "offline"), w);
  check_health = λ w. (none, w);
  load_flow = none;
  absolute = λ path. path;
  command_of = λ step. codes "tap";
  registry = λ command. some tap_command;
  no_capture_configured = true;
  preconditions_override = [];
  setup_key = λ setup. [];
  variables_from_env = λ env w. w;
}

abbrev tap_script : List (Text × Text) → ℕ → ScriptDefinition ℕ
tap_script env step = record {
  app_id = codes "com.example.notes";
  name = codes "tap";
  env = env;
  proxy = none;
  requires = [];
  preconditions = [];
  step_delay = none;
  steps = step ∷ [];
  step_lines = [];
}

-- The text of a script is its step; the empty text is no script.
abbrev parse : Text → List (Text × Text) → Text ⊎ ScriptDefinition ℕ
parse [] env = inl (codes "empty")
parse (step ∷ s) env = inr (tap_script env step)

abbrev deps : ScenarioDeps Device ℕ
deps = record {
  host = device;
  load_script = λ path w. (inr path, w);
  parse_script = parse;
  external_env = [];
}

abbrev pub morning : ScenarioDefinition
morning = record {
  name = codes "morning";
  env = [];
  scripts = (0 ∷ []) ∷ [] ∷ (0 ∷ []) ∷ [];
  on_failure = none;
  preconditions = none;
}

abbrev new_device : Device
new_device = record { driver = 0; maybe_keyboard_open = false; launched_apps = codes "old" ∷ [] }

abbrev begun : ScenarioState Device ℕ
begun = observed_by_none new_device

abbrev tapped : (ms : ℤ) → ScriptResult
tapped ms = record {
  script_name = codes "tap";
  ok = true;
  steps =
      record {
        step_index = pos 0;
        command = codes "tap";
        ok = true;
        detail = some completed;
        duration_ms = pos 1;
      }
      ∷ [];
  total_steps = 1;
  passed_steps = 1;
  failed_at_step = none;
  duration_ms = ms;
  abort = none;
}

abbrev pub morning_result : ScenarioResult
morning_result = record {
  scenario_name = codes "morning";
  ok = false;
  scripts =
      result_of 0 (0 ∷ []) (status_passed, some (tapped (pos 3)), none) (pos 5)
      ∷ result_of 1 [] (status_errored, none, some (unreadable (codes "empty"))) (pos 1)
      ∷ skipped_result 2 (0 ∷ [])
      ∷ [];
  total_scripts = 3;
  passed_scripts = 1;
  duration_ms = pos 9;
}

abbrev later : ScenarioState Device ℕ
later = record {
  world = record { driver = 10; maybe_keyboard_open = false; launched_apps = codes "old" ∷ [] };
  events =
      scenario_started (codes "morning") 3
      ∷ script_started 0 (0 ∷ [])
      ∷ script_completed 0 (0 ∷ []) status_passed (pos 5) none
      ∷ script_started 1 []
      ∷ script_completed 1 [] status_errored (pos 1) none
      ∷ scenario_completed false 3 1 (pos 9)
      ∷ [];
  step_events =
      step_started 0 0 0 none ∷ step_completed 0 0 0 none (success completed) (pos 1) ∷ [];
}

runs_morning : run_scenario deps 1 morning begun ≡ some (scenario_done morning_result, later)
unfolding run_scenario run run_required_flows gate nested ◌-ℤ◌
runs_morning = refl

run_scenario-events_example : later.events ≡ begun.events ++ scenario_events morning_result
run_scenario-events_example =
    run_scenario-events deps 1 morning begun morning_result later runs_morning

-- The text of a scenario is longer than one step.
abbrev is_scenario : Text → Bool
is_scenario (a ∷ b ∷ s) = true
is_scenario s = false

abbrev suite_deps : SuiteDeps Device ℕ ℕ
suite_deps = record {
  host = device;
  orchestra = λ w. w;
  with_orchestra = λ o w. o;
  reset_capture = none;
  is_scenario_yaml = is_scenario;
  parse_script = parse;
  parse_scenario = λ content. inr morning;
  dir = λ path. [];
  create_load_script = some (λ dir path w. (inr path, w));
  external_env = [];
}

abbrev entries : List SuiteEntry
entries =
    record { path = codes "tap"; content = 0 ∷ [] }
    ∷ record { path = codes "morning"; content = 7 ∷ 7 ∷ [] }
    ∷ []

abbrev suite_result : SuiteResult
suite_result = record {
  suite_name = none;
  ok = false;
  entries =
      record {
        path = codes "tap";
        kind = kind_script;
        status = entry_passed;
        result = some (of_script (tapped (pos 3)));
        error = none;
        duration_ms = pos 5;
      }
      ∷ record {
        path = codes "morning";
        kind = kind_scenario;
        status = entry_failed;
        result = some (of_scenario morning_result);
        error = none;
        duration_ms = pos 11;
      }
      ∷ [];
  total = 2;
  passed = 1;
  failed = 1;
  duration_ms = pos 19;
}

-- The launches of before the suite are forgotten.
abbrev after_suite : Device
after_suite = record { driver = 20; maybe_keyboard_open = false; launched_apps = [] }

tap_or_fail-Confined : (step : ℕ) (w : Device) → Confined device (λ s. 0 < 0) (tap_or_fail step w)
unfolding Confined
tap_or_fail-Confined zero w = tt
tap_or_fail-Confined (suc n) w = tt

parsed-Ranked :
    (yaml : Text) (env : List (Text × Text)) (def : ScriptDefinition ℕ)
    → parse yaml env ≡ inr def
    → Ranked device (λ s. 0) 1 def
unfolding ConfinedScript
parsed-Ranked [] env def e = grind arith
parsed-Ranked (n ∷ s) env def e = subst (Ranked device (λ s. 0) 1) (inr-injective _ _ e) (record {
  handlers = λ step cmd i w e.
      subst (λ c. Confined device (λ s. 0 < 0) (c.execute (tap_script env n) i step w))
        (some-injective _ _ e) (tap_or_fail-Confined step w);
  script = (tt, (omega arith, tt));
  required = tt;
})

run_suite-Returns_example : Returns (run_suite suite_deps 2 none entries new_device)
run_suite-Returns_example =
    run_suite-Returns suite_deps (λ s. 0) 1 none parsed-Ranked entries new_device
