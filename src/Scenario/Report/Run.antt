-- ===== src/Scenario/Report/Run.antt =====
-- core/internal/scenario/scenario.go: what `Run` reports of a scenario.
use atomyx.Prelude.{
  Counts, count_if-Counts, count_if, count_if-bound, count_if-All, All-count_if, All-imp, ℕ, suc,
  ◌≤◌, ◌≡◌, refl, subst, ap, ◌∙◌, ◌↔◌, List, [], ◌∷◌, ◌++◌, some, Bool, true, false, Text, ℤ, All,
  length, arith,
}
use mathlib.Core.List.{append_assoc}
use atomyx.Runner.Returns.{Upholds, Upholds-bind}
use atomyx.Scenario.Types.{
  ScenarioEvent, scenario_started, ScenarioDefinition, ScriptRunStatus, status_passed,
  status_failed, status_skipped, status_errored, ScenarioScriptResult, ScenarioResult, ScenarioDeps,
  ScenarioState,
}
use atomyx.Scenario.Run.{
  ScriptsEnd, canceled, results, ScenarioOutcome, scenario_error, scenario_done, is_passed,
  all_passed, count_passed, conclude, run_scripts, run_scenario, on_failure, child_env,
}
use atomyx.Scenario.Report.{
  IsPassed, Recorded, over, skipped, passed, went_on, halted, all_events_of, scenario_events,
}
use atomyx.Scenario.Report.Loop.{IsEnd, run_scripts-IsEnd}
use atomyx.Scenario.Report.Events.{EmitsAll, run_scripts-EmitsAll}

-- A scenario's result: the results of its scripts, and what they add up to.
pub record Reports (def : ScenarioDefinition) (r : ScenarioResult) : Type 0 where
  pub name_kept : r.scenario_name ≡ def.name
  pub scripts_recorded : Recorded (on_failure def) 0 false def.scripts r.scripts
  pub total : r.total_scripts ≡ length def.scripts
  pub passed_counted : Counts IsPassed r.scripts r.passed_scripts
  pub some_passed : r.passed_scripts ≤ r.total_scripts
  pub ok_all : (r.ok ≡ true) ↔ All IsPassed r.scripts
  pub ok_count : (r.ok ≡ true) ↔ (r.passed_scripts ≡ r.total_scripts)

is_passed_iff : (s : ScriptRunStatus) → (is_passed s ≡ true) ↔ (s ≡ status_passed)
unfolding is_passed
is_passed_iff status_passed = (λ e. refl, λ e. refl)
is_passed_iff status_failed = (λ e. grind arith, λ e. grind arith)
is_passed_iff status_skipped = (λ e. grind arith, λ e. grind arith)
is_passed_iff status_errored = (λ e. grind arith, λ e. grind arith)

passes : ScenarioScriptResult → Bool
passes r = is_passed r.status

count_passed-bound : (rs : List ScenarioScriptResult) → count_passed rs ≤ length rs
unfolding count_passed passes
count_passed-bound rs = count_if-bound passes rs

-- All passed exactly if all are counted.
all_passed-count :
    (rs : List ScenarioScriptResult) → all_passed rs ≡ true → count_passed rs ≡ length rs
unfolding all_passed count_passed count_if
all_passed-count [] e = refl
all_passed-count (r ∷ rs) e = ground (arith, e, all_passed-count rs)

count-all_passed :
    (rs : List ScenarioScriptResult) → count_passed rs ≡ length rs → all_passed rs ≡ true
unfolding all_passed count_passed count_if
count-all_passed [] e = refl
count-all_passed (r ∷ rs) e = ground (arith, e, count_passed-bound rs, count-all_passed rs)

count_passed-All :
    (rs : List ScenarioScriptResult) → (count_passed rs ≡ length rs) ↔ All IsPassed rs
unfolding count_passed passes
count_passed-All rs = (
  λ e. All-imp _ IsPassed rs (λ r. (is_passed_iff r.status).0) (count_if-All passes rs e),
  λ h. All-count_if passes rs (All-imp IsPassed _ rs (λ r. (is_passed_iff r.status).1) h),
)

count_passed-Counts : (rs : List ScenarioScriptResult) → Counts IsPassed rs (count_passed rs)
unfolding count_passed passes
count_passed-Counts rs = count_if-Counts IsPassed passes (λ r. is_passed_iff r.status) rs

Recorded-length :
    {policy : Text} {i : ℕ} {stop : Bool} {paths : List Text} {rs : List ScenarioScriptResult}
    → Recorded policy i stop paths rs
    → length rs ≡ length paths
Recorded-length over = refl
Recorded-length (skipped is s ms h) = ap suc (Recorded-length h)
Recorded-length (passed is p h) = ap suc (Recorded-length h)
Recorded-length (went_on is bad e h) = ap suc (Recorded-length h)
Recorded-length (halted is bad e h) = ap suc (Recorded-length h)

framed :
    (es xs fs : List ScenarioEvent) (a c : ScenarioEvent)
    → fs ≡ es ++ a ∷ [] ++ xs
    → fs ++ c ∷ [] ≡ es ++ (a ∷ (xs ++ c ∷ []))
framed es xs fs a c e =
    ap (λ l. l ++ c ∷ []) (e ∙ append_assoc es (a ∷ []) xs) ∙ append_assoc es (a ∷ xs) (c ∷ [])

module _ {W Step : Type 0} (deps : ScenarioDeps W Step) (fuel : ℕ) (def : ScenarioDefinition) where
  unfoldable pub ReportsOutcome : ScenarioOutcome × ScenarioState W Step → Type 0
  ReportsOutcome x = elim x.0 [ scenario_error e ↦ Unit | scenario_done r ↦ Reports def r ]

  conclude-Reports :
      (started : ℤ) (end : ScriptsEnd) (st : ScenarioState W Step)
      → IsEnd deps fuel (on_failure def) (child_env deps fuel def) 0 false def.scripts (end, st)
      → ReportsOutcome (conclude deps fuel def started end st)
  unfolding conclude ReportsOutcome IsEnd
  conclude-Reports started (canceled e) st h = tt
  conclude-Reports started (results rs) st h =
      let many : length rs ≡ length def.scripts = Recorded-length h in
      record {
        name_kept = refl;
        scripts_recorded = h;
        total = refl;
        passed_counted = count_passed-Counts rs;
        some_passed = omega (arith, many, count_passed-bound rs);
        ok_all = (
          λ ok. (count_passed-All rs).0 (all_passed-count rs ok),
          λ all. count-all_passed rs ((count_passed-All rs).1 all),
        );
        ok_count = (
          λ ok. omega (arith, many, all_passed-count rs ok),
          λ e. count-all_passed rs (omega (arith, many, e)),
        );
      }

  pub run_scenario-ReportsOutcome :
      (st : ScenarioState W Step) → Upholds ReportsOutcome (run_scenario deps fuel def st)
  unfolding run_scenario Upholds
  run_scenario-ReportsOutcome st =
      Upholds-bind (IsEnd deps fuel (on_failure def) (child_env deps fuel def) 0 false def.scripts)
        ReportsOutcome
        (run_scripts deps fuel (on_failure def) (child_env deps fuel def) 0 def.scripts false _) _
        (run_scripts-IsEnd deps fuel (on_failure def) (child_env deps fuel def) 0 def.scripts false
          _)
        (λ (end, s) h. conclude-Reports _ end s h)

  Told : List ScenarioEvent → ScenarioOutcome × ScenarioState W Step → Type 0
  Told es x = elim x.0 [
    | scenario_error e ↦ Unit
    | scenario_done r ↦ x.1.events ≡ es ++ scenario_events r
  ]

  conclude-Told :
      (es : List ScenarioEvent) (started : ℤ) (end : ScriptsEnd) (st : ScenarioState W Step)
      → EmitsAll deps fuel
          (on_failure def)
          (child_env deps fuel def)
          (es ++ scenario_started def.name (length def.scripts) ∷ [])
          (end, st)
      → Told es (conclude deps fuel def started end st)
  unfolding conclude Told EmitsAll scenario_events
  conclude-Told es started (canceled e) st h = tt
  conclude-Told es started (results rs) st h = framed es (all_events_of rs) st.events _ _ h

  run_scenario-Told :
      (st : ScenarioState W Step) → Upholds (Told st.events) (run_scenario deps fuel def st)
  unfolding run_scenario Upholds
  run_scenario-Told st =
      Upholds-bind
        (EmitsAll deps fuel (on_failure def) (child_env deps fuel def)
          (st.events ++ scenario_started def.name (length def.scripts) ∷ []))
        (Told st.events)
        (run_scripts deps fuel (on_failure def) (child_env deps fuel def) 0 def.scripts false _) _
        (run_scripts-EmitsAll deps fuel (on_failure def) (child_env deps fuel def) 0 def.scripts
          false _)
        (λ (end, s) h. conclude-Told st.events _ end s h)

  -- If a run of a scenario returns a result, it has emitted, beyond what was there before, exactly
  -- the events that the result tells: the start, of each script that was not skipped its start and
  -- its completion, in order, and the completion with the result's counts.
  pub run_scenario-events :
      (st : ScenarioState W Step) (r : ScenarioResult) (st' : ScenarioState W Step)
      → run_scenario deps fuel def st ≡ some (scenario_done r, st')
      → st'.events ≡ st.events ++ scenario_events r
  unfolding Upholds Told
  run_scenario-events st r st' e = subst (Upholds (Told st.events)) e (run_scenario-Told st)
