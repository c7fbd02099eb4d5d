-- ===== src/Scenario/Report/Events.antt =====
-- core/internal/scenario/scenario.go: the events of the loop over a scenario's scripts.
use atomyx.Prelude.{
  ℕ, suc, ◌≡◌, refl, sym, ap, ◌∙◌, List, [], ◌∷◌, ◌++◌, some, Bool, true, false, Text, ◌⊎◌, inl,
  inr, ℤ, on_option,
}
use mathlib.Core.List.{append_assoc, append-nil}
use atomyx.Runner.Types.{ScriptDefinition}
use atomyx.Runner.Run.{run}
use atomyx.Runner.Returns.{Upholds, Upholds-bind, Upholds-trivial}
use atomyx.Scenario.Types.{
  status_passed, status_failed, status_skipped, status_errored, ScenarioScriptResult, ScenarioEvent,
  script_started, script_completed, ScenarioDeps, ScenarioState,
}
use atomyx.Scenario.Run.{
  OneOutcome, ScriptsEnd, canceled, results, failed_at, stop_requested, recorded, result_of,
  skipped_result, Scripts, run_one, run_parsed, run_script, run_scripts, parse_loaded, turn,
  new_script_runner,
}
use atomyx.Scenario.Report.{events_of, all_events_of}
use atomyx.Scenario.Report.Loop.{HasRun, verdict-HasRun}

events_of-ran :
    (i : ℕ) (path : Text) (o : OneOutcome) (ms : ℤ)
    → HasRun o
    → events_of (result_of i path o ms)
      ≡ script_started i path ∷ script_completed i path o.0 ms (failed_at o.1) ∷ []
unfolding events_of HasRun
events_of-ran i path (status_passed, r, e) ms ran = refl
events_of-ran i path (status_failed, r, e) ms ran = refl
events_of-ran i path (status_errored, r, e) ms ran = refl
events_of-ran i path (status_skipped, r, e) ms ran = elim ran [ ]

-- What two computations emit, one after the other.
regroup :
    (a b c : List ScenarioEvent) (xs ys : List ScenarioEvent)
    → b ≡ a ++ xs
    → c ≡ b ++ ys
    → c ≡ a ++ (xs ++ ys)
regroup a b c xs ys e f = f ∙ ap (λ l. l ++ ys) e ∙ append_assoc a xs ys

module _ {W Step : Type 0} (deps : ScenarioDeps W Step) (fuel : ℕ) (policy : Text)
    (env : List (Text × Text)) where
  -- `runOne` emits nothing.
  Quiet : List ScenarioEvent → OneOutcome × ScenarioState W Step → Type 0
  Quiet es x = HasRun x.0 × (x.1.events ≡ es)

  run_parsed-Quiet :
      (x : Text ⊎ ScriptDefinition Step) (st : ScenarioState W Step)
      → Upholds (Quiet st.events) (run_parsed deps fuel x st)
  unfolding run_parsed Quiet HasRun Upholds
  run_parsed-Quiet (inl e) st = (tt, refl)
  run_parsed-Quiet (inr def) st =
      Upholds-bind (λ x. Unit) (Quiet st.events) (run deps.host fuel def (new_script_runner st)) _
        (Upholds-trivial _) (λ (o, ended) t. (verdict-HasRun o, refl))

  Emits : List ScenarioEvent → ScenarioScriptResult × ScenarioState W Step → Type 0
  Emits es x = x.1.events ≡ es ++ events_of x.0

  run_script-Emits :
      (i : ℕ) (path : Text) (st : ScenarioState W Step)
      → Upholds (Emits st.events) (run_script deps fuel i path env st)
  unfolding run_script run_one Emits Quiet Upholds
  run_script-Emits i path st =
      let start = script_started i path in
      Upholds-bind (Quiet (st.events ++ start ∷ [])) (Emits st.events)
        (run_one deps fuel path env _) _ (run_parsed-Quiet (parse_loaded deps fuel env _) _)
        (λ (o, st') (ran, same).
          regroup st.events st'.events _ (start ∷ []) _ same refl
          ∙ ap (λ l. st.events ++ l) (sym (events_of-ran i path o _ ran)))

  unfoldable pub EmitsAll : List ScenarioEvent → ScriptsEnd × ScenarioState W Step → Type 0
  EmitsAll es x = elim x.0 [ canceled e ↦ Unit | results rs ↦ x.1.events ≡ es ++ all_events_of rs ]

  recorded-EmitsAll :
      (es fs : List ScenarioEvent) (r : ScenarioScriptResult) (end : ScriptsEnd)
      (st : ScenarioState W Step)
      → fs ≡ es ++ events_of r
      → EmitsAll fs (end, st)
      → EmitsAll es (recorded r end, st)
  unfolding EmitsAll all_events_of
  recorded-EmitsAll es fs r (canceled e) st front h = tt
  recorded-EmitsAll es fs r (results rs) st front h = regroup es fs _ (events_of r) _ front h

  turn-EmitsAll :
      (rest : Bool → ScenarioState W Step → Scripts deps fuel) (i : ℕ) (path : Text) (stop : Bool)
      (st : ScenarioState W Step)
      → ((b : Bool) (s : ScenarioState W Step) → Upholds (EmitsAll s.events) (rest b s))
      → Upholds (EmitsAll st.events) (turn deps fuel policy env rest i path stop st)
  unfolding turn Upholds Emits events_of
  turn-EmitsAll rest i path true st later =
      Upholds-bind (EmitsAll st.events) (EmitsAll st.events) (rest true st) _ (later true st)
        (λ (end, s) h.
          recorded-EmitsAll st.events st.events (skipped_result i path) end s
            (sym (append-nil st.events)) h)
  turn-EmitsAll rest i path false st later =
      Upholds-bind (Emits st.events) (EmitsAll st.events) (run_script deps fuel i path env st) _
        (run_script-Emits i path st)
        (λ (r, st') front.
          Upholds-bind (EmitsAll st'.events) (EmitsAll st.events)
            (rest (stop_requested policy r.status) st') _ (later _ st')
            (λ (end, s) h. recorded-EmitsAll st.events st'.events r end s front h))

  pub run_scripts-EmitsAll :
      (i : ℕ) (paths : List Text) (stop : Bool) (st : ScenarioState W Step)
      → Upholds (EmitsAll st.events) (run_scripts deps fuel policy env i paths stop st)
  unfolding run_scripts Upholds EmitsAll all_events_of
  run_scripts-EmitsAll i [] stop st = sym (append-nil st.events)
  run_scripts-EmitsAll i (path ∷ paths) stop st =
      on_option (Upholds (EmitsAll st.events)) (deps.host.ctx_err st.world)
        {s = λ e. some (canceled e, st)}
        (turn-EmitsAll (run_scripts deps fuel policy env (suc i) paths) i path stop st
          (λ b s. run_scripts-EmitsAll (suc i) paths b s))
        (λ e. tt)
