-- ===== src/Runner/Samples.antt =====
-- Runs of scripts whose steps are taps and groups of two steps, and the theorems on them.
use atomyx.Prelude.{
  ℕ, zero, suc, ◌<◌, ◌≡◌, refl, subst, List, [], ◌∷◌, none, some, true, false, Text, codes, ◌⊎◌,
  inl, inr, pos, ◌-ℤ◌, delete_text, arith, has_text,
}
use mathlib.Core.Option.{some-injective}
use atomyx.Runner.Types.{
  success, completed, ScriptDefinition, ScriptResult, step_started, step_completed,
}
use atomyx.Runner.Host.{Host, Command, Action, finish, run_steps, RunState}
use atomyx.Runner.Outcome.{finished, satisfied}
use atomyx.Runner.Requires.{run_required_flows}
use atomyx.Runner.Gate.{gate, nested}
use atomyx.Runner.Run.{run}
use atomyx.Runner.Returns.{Returns}
use atomyx.Runner.Confined.{Confined, ConfinedScript, ConfinedRequired}
use atomyx.Runner.Trace.Run.{RunTrace, run-Traced}
use atomyx.Runner.Terminate.Run.{run-Returns}
use atomyx.Runner.Report.{Reports}
use atomyx.Runner.Report.Run.{run-Reports}
use atomyx.Runner.Once.Requires.{run_required_flows-keeps, run_required_flows-once}

-- A step is the depth of its groups; the state outside is a clock.
abbrev tap_or_group : ℕ → ℕ → Action ℕ ℕ
tap_or_group zero w = finish (success completed) w
tap_or_group (suc n) w = run_steps (n ∷ n ∷ []) w (λ r v. finish r v)

abbrev group_command : Command ℕ ℕ
group_command = record {
  should_skip = λ def w. false;
  execute = λ def i step w. tap_or_group step w;
}

abbrev pub script_of : List Text → List ℕ → ScriptDefinition ℕ
script_of requires steps = record {
  app_id = codes "com.example.notes";
  name = codes "notes";
  env = [];
  proxy = none;
  requires = requires;
  preconditions = [];
  step_delay = none;
  steps = steps;
  step_lines = 4 ∷ [];
}

abbrev load_login : Text → ℕ → (Text ⊎ ScriptDefinition ℕ) × ℕ
load_login path w = (inr (script_of [] (0 ∷ [])), w)

abbrev pub ticking : Host ℕ ℕ
ticking = record {
  now = λ w. (pos w, suc w);
  sleep = λ ms w. (none, w);
  ctx_err = λ w. none;
  hierarchy = λ w. (inl (codes "offline"), w);
  check_health = λ w. (none, w);
  load_flow = some load_login;
  absolute = λ path. path;
  command_of = λ step. codes "group";
  registry = λ command. some group_command;
  no_capture_configured = true;
  preconditions_override = [];
  setup_key = λ setup. [];
  variables_from_env = λ env w. w;
}

abbrev pub at_start : RunState ℕ ℕ
at_start = record {
  world = 0;
  completed_requires = [];
  call_stack = [];
  completed_precondition_setups = [];
  global_step_index = 0;
  depth = 0;
  events = [];
}

abbrev pub notes : ScriptDefinition ℕ
notes = script_of (codes "login" ∷ []) (1 ∷ [])

abbrev notes_result : ScriptResult
notes_result = record {
  script_name = codes "notes";
  ok = true;
  steps =
      record {
        step_index = pos 0;
        command = codes "group";
        ok = true;
        detail = some completed;
        duration_ms = pos 5;
      }
      ∷ [];
  total_steps = 1;
  passed_steps = 1;
  failed_at_step = none;
  duration_ms = pos 9;
  abort = none;
}

abbrev at_end : RunState ℕ ℕ
at_end = record {
  world = 10;
  completed_requires = codes "login" ∷ [];
  call_stack = [];
  completed_precondition_setups = [];
  global_step_index = 4;
  depth = 0;
  events =
      step_started 0 0 1 none
      ∷ step_completed 0 0 1 none (success completed) (pos 1)
      ∷ step_started 1 1 0 (some 4)
      ∷ step_started 2 0 1 none
      ∷ step_completed 2 0 1 none (success completed) (pos 1)
      ∷ step_started 3 0 1 none
      ∷ step_completed 3 0 1 none (success completed) (pos 1)
      ∷ step_completed 1 1 0 (some 4) (success completed) (pos 5)
      ∷ [];
}

runs_notes : run ticking 2 notes at_start ≡ some (finished notes_result, at_end)
unfolding run run_required_flows gate nested delete_text ◌-ℤ◌
runs_notes = refl

-- Groups that nest two levels take more fuel than a level.
starves_deeper : run ticking 1 (script_of [] (2 ∷ [])) at_start ≡ none
unfolding run run_required_flows gate nested
starves_deeper = refl

run-Traced_example : RunTrace [] at_end.events
run-Traced_example = run-Traced ticking 2 notes at_start (finished notes_result) at_end runs_notes

run-Reports_example : Reports ticking 2 notes at_start notes_result
run-Reports_example = run-Reports ticking 2 notes at_start notes_result at_end runs_notes

-- A group runs only steps of less depth.
tap_or_group-Confined : (step w : ℕ) → Confined ticking (λ s. s < step) (tap_or_group step w)
unfolding Confined
tap_or_group-Confined zero w = tt
tap_or_group-Confined (suc n) w = ((omega arith, (omega arith, tt)), λ r v. tt)

ticking-Confined :
    (step : ℕ) (cmd : Command ℕ ℕ) (i w : ℕ)
    → some group_command ≡ some cmd
    → Confined ticking (λ s. s < step) (cmd.execute notes i step w)
ticking-Confined step cmd i w e =
    subst (λ c. Confined ticking (λ s. s < step) (Command.execute c notes i step w))
      (some-injective group_command cmd e) (tap_or_group-Confined step w)

notes-ConfinedScript : ConfinedScript ticking (λ s. s < 2) notes
unfolding ConfinedScript
notes-ConfinedScript = (tt, (omega arith, tt))

login-Confined :
    (load : Text → ℕ → (Text ⊎ ScriptDefinition ℕ) × ℕ)
    → some load_login ≡ some load
    → (w : ℕ) → ConfinedRequired ticking (λ s. s < 2) (load (codes "login") w).0
unfolding ConfinedRequired
login-Confined load e w =
    subst (λ l. ConfinedRequired ticking (λ s. s < 2) (l (codes "login") w).0)
      (some-injective load_login load e) (tt, (omega arith, tt))

run-Returns_example : Returns (run ticking 3 notes at_start)
run-Returns_example =
    run-Returns ticking notes (λ s. s) ticking-Confined 2 notes-ConfinedScript (login-Confined, tt)
      at_start

abbrev after_login : RunState ℕ ℕ
after_login = record {
  world = 2;
  completed_requires = codes "login" ∷ [];
  call_stack = [];
  completed_precondition_setups = [];
  global_step_index = 1;
  depth = 0;
  events = step_started 0 0 1 none ∷ step_completed 0 0 1 none (success completed) (pos 1) ∷ [];
}

requires_login :
    run_required_flows ticking 2 notes (codes "login" ∷ []) at_start ≡ some (satisfied, after_login)
unfolding run_required_flows gate nested delete_text ◌-ℤ◌
requires_login = refl

run_required_flows-keeps_example :
    (after_login.call_stack ≡ [])
    × ((a : Text) → has_text a [] ≡ true → has_text a after_login.completed_requires ≡ true)
run_required_flows-keeps_example =
    run_required_flows-keeps ticking 2 notes (codes "login" ∷ []) satisfied at_start after_login
      requires_login

run_required_flows-once_example :
    run_required_flows ticking 0 (script_of [] []) (codes "login" ∷ []) after_login
    ≡ some (satisfied, after_login)
run_required_flows-once_example =
    run_required_flows-once ticking 2 0 notes (script_of [] []) (codes "login" ∷ []) at_start
      after_login requires_login
