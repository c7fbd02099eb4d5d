-- ===== src/Scenario/Terminate/Suite.antt =====
-- core/internal/scenario/suite.go: `Run` ends, where the runs of the scripts that it parses do.
use atomyx.Prelude.{ℕ, suc, ◌≡◌, refl, List, [], ◌∷◌, Option, none, Text, ◌⊎◌, inl, inr, on_option}
use atomyx.Runner.Types.{ScriptDefinition}
use atomyx.Runner.Run.{run}
use atomyx.Runner.Confined.{Confined, ConfinedScript, ConfinedRequired}
use atomyx.Runner.Returns.{Returns, Returns-bind}
use atomyx.Runner.Terminate.Run.{run-Returns}
use atomyx.Scenario.Types.{ScenarioDefinition}
use atomyx.Scenario.Run.{run_scenario, new_script_runner}
use atomyx.Scenario.SuiteTypes.{
  SuiteEntry, SuiteEntryKind, kind_script, kind_scenario, SuiteRunOptions, SuiteDeps, EntriesEnd,
}
use atomyx.Scenario.Suite.{
  observed_by_none, host_for, scenario_deps, run_parsed_script, run_script_entry,
  run_parsed_scenario, run_scenario_entry, run_kind, kind_of, run_entry, run_entries, run_suite,
}
use atomyx.Scenario.Terminate.{Ranked, run_scenario-Returns}

module _ {W Step D : Type 0} (deps : SuiteDeps W Step D) (rank : Step → ℕ) (bound : ℕ)
    (options : Option SuiteRunOptions)
    (ranked : (yaml : Text) (env : List (Text × Text)) (def : ScriptDefinition Step)
      → deps.parse_script yaml env ≡ inr def
      → Ranked deps.host rank bound def) where
  -- What overrides the preconditions does not matter to the nesting.
  overridden :
      (level : Option Text) (def : ScriptDefinition Step)
      → Ranked deps.host rank bound def
      → Ranked (host_for deps (suc bound) options level) rank bound def
  unfolding Confined ConfinedScript ConfinedRequired
  overridden level def r = record {
    handlers = r.handlers;
    script = r.script;
    required = r.required;
  }

  run_parsed_script-Returns :
      (x : Text ⊎ ScriptDefinition Step) (w : W)
      → ((def : ScriptDefinition Step) → x ≡ inr def → Ranked deps.host rank bound def)
      → Returns (run_parsed_script deps (suc bound) options x w)
  unfolding run_parsed_script Returns
  run_parsed_script-Returns (inl e) w h = tt
  run_parsed_script-Returns (inr def) w h =
      let host = host_for deps (suc bound) options none in
      let r = overridden none def (h def refl) in
      Returns-bind (run host (suc bound) def (new_script_runner (observed_by_none w))) _
        (run-Returns host def rank r.handlers bound r.script r.required _) (λ (o, st). tt)

  run_parsed_scenario-Returns :
      (load : Text → W → (Text ⊎ Text) × W) (x : Text ⊎ ScenarioDefinition) (w : W)
      → Returns (run_parsed_scenario deps (suc bound) options load x w)
  unfolding run_parsed_scenario Returns
  run_parsed_scenario-Returns load (inl e) w = tt
  run_parsed_scenario-Returns load (inr def) w =
      let child = scenario_deps deps (suc bound) options load def in
      Returns-bind (run_scenario child (suc bound) def (observed_by_none w)) _
        (run_scenario-Returns child rank bound
          (λ yaml env flow e. overridden def.preconditions flow (ranked yaml env flow e)) def
          (observed_by_none w))
        (λ (o, st). tt)

  run_kind-Returns :
      (kind : SuiteEntryKind) (entry : SuiteEntry) (w : W)
      → Returns (run_kind deps (suc bound) options kind entry w)
  unfolding run_kind run_script_entry run_scenario_entry Returns
  run_kind-Returns kind_script entry w =
      run_parsed_script-Returns _ w (ranked entry.content deps.external_env)
  run_kind-Returns kind_scenario entry w =
      on_option Returns deps.create_load_script tt
        (λ create. run_parsed_scenario-Returns (create (deps.dir entry.path)) _ w)

  run_entry-Returns :
      (entry : SuiteEntry) (w : W) → Returns (run_entry deps (suc bound) options entry w)
  unfolding run_entry Returns
  run_entry-Returns entry w =
      Returns-bind
        (run_kind deps (suc bound) options (kind_of deps (suc bound) options entry) entry _) _
        (run_kind-Returns _ entry _) (λ (end, v). tt)

  run_entries-Returns :
      (entries : List SuiteEntry) (w : W) → Returns (run_entries deps (suc bound) options entries w)
  unfolding run_entries Returns
  run_entries-Returns [] w = tt
  run_entries-Returns (entry ∷ entries) w =
      on_option (Returns {A = EntriesEnd × W}) (deps.host.ctx_err w)
        (Returns-bind (run_entry deps (suc bound) options entry _) _ (run_entry-Returns entry _)
          (λ (r, v).
            Returns-bind (run_entries deps (suc bound) options entries v) _
              (run_entries-Returns entries v) (λ (end, u). tt)))
        (λ e. tt)

  -- A run of a suite returns, whatever its entries and in whatever state it begins, if the nesting of
  -- every script that the parser can give is bounded.
  pub run_suite-Returns :
      (entries : List SuiteEntry) (w : W) → Returns (run_suite deps (suc bound) options entries w)
  unfolding run_suite Returns
  run_suite-Returns entries w =
      Returns-bind (run_entries deps (suc bound) options entries _) _
        (run_entries-Returns entries _) (λ (end, v). tt)
