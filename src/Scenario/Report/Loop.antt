-- ===== src/Scenario/Report/Loop.antt =====
-- core/internal/scenario/scenario.go: the results of the loop over a scenario's scripts.
use atomyx.Prelude.{
  ℕ, suc, ◌≡◌, refl, subst, ◌⊎◌, inl, inr, List, [], ◌∷◌, none, some, Bool, true, false, Text,
  codes, text_eq, ℤ, on_option, Bool-cases, if◌then◌else◌,
}
use atomyx.Runner.Types.{ScriptDefinition, ScriptResult}
use atomyx.Runner.Outcome.{RunOutcome, run_error, finished}
use atomyx.Runner.Run.{run}
use atomyx.Runner.Returns.{Upholds, Upholds-bind, Upholds-trivial}
use atomyx.Scenario.Types.{
  status_passed, status_failed, status_skipped, status_errored, ScenarioScriptResult, ScenarioDeps,
  ScenarioState,
}
use atomyx.Scenario.Run.{
  OneOutcome, ScriptsEnd, canceled, results, verdict, stop_requested, is_passed, recorded,
  skipped_result, result_of, Scripts, run_one, run_parsed, run_script, run_scripts, parse_loaded,
  turn, new_script_runner,
}
use atomyx.Scenario.Report.{Agrees, IsResult, Recorded, over, skipped, passed, went_on, halted}

-- A script that runs has one of three statuses.
unfoldable pub HasRun : OneOutcome → Type 0
unfolding Agrees
HasRun (status_skipped, r, e) = ⊥
HasRun (status, r, e) = Agrees status r e

if_passed_or_failed :
    (b : Bool) (r : ScriptResult)
    → r.ok ≡ b
    → HasRun (if b then status_passed else status_failed, some r, none)
unfolding HasRun
if_passed_or_failed true r e = e
if_passed_or_failed false r e = e

pub verdict-HasRun : (o : RunOutcome) → HasRun (verdict o)
unfolding verdict HasRun
verdict-HasRun (run_error e) = tt
verdict-HasRun (finished r) = if_passed_or_failed r.ok r refl

module _ {W Step : Type 0} (deps : ScenarioDeps W Step) (fuel : ℕ) (policy : Text)
    (env : List (Text × Text)) where
  RanOne : OneOutcome × ScenarioState W Step → Type 0
  RanOne x = HasRun x.0

  run_parsed-RanOne :
      (x : Text ⊎ ScriptDefinition Step) (st : ScenarioState W Step)
      → Upholds RanOne (run_parsed deps fuel x st)
  unfolding run_parsed RanOne HasRun Upholds
  run_parsed-RanOne (inl e) st = tt
  run_parsed-RanOne (inr def) st =
      Upholds-bind (λ x. Unit) RanOne (run deps.host fuel def (new_script_runner st)) _
        (Upholds-trivial _) (λ (o, ended) t. verdict-HasRun o)

  IsRecordOf : ℕ → Text → ScenarioScriptResult × ScenarioState W Step → Type 0
  IsRecordOf i path x =
      (x.0.script_index ≡ i) × (x.0.script_path ≡ path) × HasRun (x.0.status, x.0.result, x.0.error)

  run_script-IsRecordOf :
      (i : ℕ) (path : Text) (st : ScenarioState W Step)
      → Upholds (IsRecordOf i path) (run_script deps fuel i path env st)
  unfolding run_script run_one IsRecordOf RanOne Upholds
  run_script-IsRecordOf i path st =
      Upholds-bind RanOne (IsRecordOf i path) (run_one deps fuel path env _) _
        (run_parsed-RanOne (parse_loaded deps fuel env _) _) (λ (o, st') ran. (refl, refl, ran))

  unfoldable pub IsEnd : ℕ → Bool → List Text → ScriptsEnd × ScenarioState W Step → Type 0
  IsEnd i stop paths x = elim x.0 [
    | canceled e ↦ Unit
    | results rs ↦ Recorded policy i stop paths rs
  ]

  skipped-IsEnd :
      (i : ℕ) (path : Text) (paths : List Text) (end : ScriptsEnd) (st : ScenarioState W Step)
      → IsEnd (suc i) true paths (end, st)
      → IsEnd i true (path ∷ paths) (recorded (skipped_result i path) end, st)
  unfolding IsEnd Agrees
  skipped-IsEnd i path paths (canceled e) st h = tt
  skipped-IsEnd i path paths (results rs) st h =
      skipped (record { index = refl; named = refl; agrees = tt }) refl refl h

  -- A result that does not pass, by whether the policy stops at it.
  unfinished :
      (i : ℕ) (path : Text) (paths : List Text) (r : ScenarioScriptResult)
      (rs : List ScenarioScriptResult)
      → IsResult i path r
      → (r.status ≡ status_failed) ⊎ (r.status ≡ status_errored)
      → Recorded policy (suc i) (text_eq policy (codes "stop")) paths rs
      → Recorded policy i false (path ∷ paths) (r ∷ rs)
  unfinished i path paths r rs is bad h = elim (Bool-cases (text_eq policy (codes "stop"))) [
    | inl e ↦ halted is bad e (subst (λ b. Recorded policy (suc i) b paths rs) e h)
    | inr e ↦ went_on is bad e (subst (λ b. Recorded policy (suc i) b paths rs) e h)
  ]

  -- A script that ran, in front of what the rest records.
  ran-IsEnd :
      (i j : ℕ) (path p : Text) (paths : List Text) (o : OneOutcome) (ms : ℤ) (end : ScriptsEnd)
      (st : ScenarioState W Step)
      → j ≡ i
      → p ≡ path
      → HasRun o
      → IsEnd (suc i) (stop_requested policy o.0) paths (end, st)
      → IsEnd i false (path ∷ paths) (recorded (result_of j p o ms) end, st)
  unfolding IsEnd HasRun Agrees stop_requested is_passed
  ran-IsEnd i j path p paths o ms (canceled e) st same named ran h = tt
  ran-IsEnd i j path p paths (status_skipped, r, e) ms (results rs) st same named ran h =
      elim ran [ ]
  ran-IsEnd i j path p paths (status_passed, r, e) ms (results rs) st same named ran h =
      passed (record { index = same; named = named; agrees = ran }) refl h
  ran-IsEnd i j path p paths (status_failed, r, e) ms (results rs) st same named ran h =
      unfinished i path paths _ rs (record { index = same; named = named; agrees = ran }) (inl refl)
        h
  ran-IsEnd i j path p paths (status_errored, r, e) ms (results rs) st same named ran h =
      unfinished i path paths _ rs (record { index = same; named = named; agrees = ran }) (inr refl)
        h

  turn-IsEnd :
      (rest : Bool → ScenarioState W Step → Scripts deps fuel) (i : ℕ) (path : Text)
      (paths : List Text) (stop : Bool) (st : ScenarioState W Step)
      → ((b : Bool) (s : ScenarioState W Step) → Upholds (IsEnd (suc i) b paths) (rest b s))
      → Upholds (IsEnd i stop (path ∷ paths)) (turn deps fuel policy env rest i path stop st)
  unfolding turn Upholds IsRecordOf
  turn-IsEnd rest i path paths true st later =
      Upholds-bind (IsEnd (suc i) true paths) (IsEnd i true (path ∷ paths)) (rest true st) _
        (later true st) (λ (end, s) h. skipped-IsEnd i path paths end s h)
  turn-IsEnd rest i path paths false st later =
      Upholds-bind (IsRecordOf i path) (IsEnd i false (path ∷ paths))
        (run_script deps fuel i path env st) _ (run_script-IsRecordOf i path st)
        (λ (r, st') is.
          Upholds-bind (IsEnd (suc i) (stop_requested policy r.status) paths)
            (IsEnd i false (path ∷ paths)) (rest (stop_requested policy r.status) st') _
            (later _ st')
            (λ (end, s) h.
              ran-IsEnd i r.script_index path r.script_path paths (r.status, r.result, r.error)
                r.duration_ms end s is.0 is.1 is.2 h))

  pub run_scripts-IsEnd :
      (i : ℕ) (paths : List Text) (stop : Bool) (st : ScenarioState W Step)
      → Upholds (IsEnd i stop paths) (run_scripts deps fuel policy env i paths stop st)
  unfolding run_scripts Upholds IsEnd
  run_scripts-IsEnd i [] stop st = over
  run_scripts-IsEnd i (path ∷ paths) stop st =
      on_option (Upholds (IsEnd i stop (path ∷ paths))) (deps.host.ctx_err st.world)
        {s = λ e. some (canceled e, st)}
        (turn-IsEnd (run_scripts deps fuel policy env (suc i) paths) i path paths stop st
          (λ b s. run_scripts-IsEnd (suc i) paths b s))
        (λ e. tt)
