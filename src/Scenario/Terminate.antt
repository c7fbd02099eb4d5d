-- ===== src/Scenario/Terminate.antt =====
-- core/internal/scenario/scenario.go: `Run` ends, where the runs of the scripts that it parses do.
pub mod Suite
use atomyx.Prelude.{
  ℕ, suc, ◌<◌, ◌≡◌, refl, arith, List, [], ◌∷◌, Option, none, some, Bool, true, false, Text, ◌⊎◌,
  inl, inr, All, on_option,
}
use atomyx.Runner.Types.{ScriptDefinition}
use atomyx.Runner.Host.{Host, Command}
use atomyx.Runner.Run.{run}
use atomyx.Runner.Confined.{Confined, ConfinedScript, ConfinedLoad}
use atomyx.Runner.Returns.{Returns, Returns-bind}
use atomyx.Runner.Terminate.Run.{run-Returns}
use atomyx.Scenario.Types.{ScenarioDefinition, ScenarioDeps, ScenarioState}
use atomyx.Scenario.Run.{
  Scripts, stop_requested, run_one, run_parsed, run_script, run_scripts, run_scenario, parse_loaded,
  turn, new_script_runner, child_env, on_failure,
}

-- A script whose nesting ends: a handler has only steps run that are of smaller rank than its own,
-- and the ranks of the script's steps, of its setups and of the flows that it requires are bounded.
pub record Ranked {W Step : Type 0} (host : Host W Step) (rank : Step → ℕ) (bound : ℕ)
    (def : ScriptDefinition Step) : Type 0 where
  pub handlers :
      (step : Step) (cmd : Command W Step) (i : ℕ) (w : W)
      → host.registry (host.command_of step) ≡ some cmd
      → Confined host (λ s. rank s < rank step) (cmd.execute def i step w)
  pub script : ConfinedScript host (λ s. rank s < bound) def
  pub required : All (ConfinedLoad host (λ s. rank s < bound)) def.requires

module _ {W Step : Type 0} (deps : ScenarioDeps W Step) (rank : Step → ℕ) (bound : ℕ)
    (ranked : (yaml : Text) (env : List (Text × Text)) (def : ScriptDefinition Step)
      → deps.parse_script yaml env ≡ inr def
      → Ranked deps.host rank bound def) where
  run_parsed-Returns :
      (x : Text ⊎ ScriptDefinition Step) (st : ScenarioState W Step)
      → ((def : ScriptDefinition Step) → x ≡ inr def → Ranked deps.host rank bound def)
      → Returns (run_parsed deps (suc bound) x st)
  unfolding run_parsed Returns
  run_parsed-Returns (inl e) st h = tt
  run_parsed-Returns (inr def) st h =
      let r = h def refl in
      Returns-bind (run deps.host (suc bound) def (new_script_runner st)) _
        (run-Returns deps.host def rank r.handlers bound r.script r.required _) (λ (o, ended). tt)

  parsed-Ranked :
      (env : List (Text × Text)) (loaded : Text ⊎ Text) (def : ScriptDefinition Step)
      → parse_loaded deps (suc bound) env loaded ≡ inr def
      → Ranked deps.host rank bound def
  unfolding parse_loaded
  parsed-Ranked env (inl e) def same = grind arith
  parsed-Ranked env (inr yaml) def same = ranked yaml env def same

  run_script-Returns :
      (i : ℕ) (path : Text) (env : List (Text × Text)) (st : ScenarioState W Step)
      → Returns (run_script deps (suc bound) i path env st)
  unfolding run_script run_one Returns
  run_script-Returns i path env st =
      Returns-bind (run_one deps (suc bound) path env _) _
        (run_parsed-Returns (parse_loaded deps (suc bound) env _) _ (parsed-Ranked env _))
        (λ (o, st'). tt)

  turn-Returns :
      (policy : Text) (env : List (Text × Text))
      (rest : Bool → ScenarioState W Step → Scripts deps (suc bound)) (i : ℕ) (path : Text)
      (stop : Bool) (st : ScenarioState W Step)
      → ((b : Bool) (s : ScenarioState W Step) → Returns (rest b s))
      → Returns (turn deps (suc bound) policy env rest i path stop st)
  unfolding turn Returns
  turn-Returns policy env rest i path true st later =
      Returns-bind (rest true st) _ (later true st) (λ (end, s). tt)
  turn-Returns policy env rest i path false st later =
      Returns-bind (run_script deps (suc bound) i path env st) _ (run_script-Returns i path env st)
        (λ (r, st').
          Returns-bind (rest (stop_requested policy r.status) st') _ (later _ st') (λ (end, s). tt))

  run_scripts-Returns :
      (policy : Text) (env : List (Text × Text)) (i : ℕ) (paths : List Text) (stop : Bool)
      (st : ScenarioState W Step)
      → Returns (run_scripts deps (suc bound) policy env i paths stop st)
  unfolding run_scripts Returns
  run_scripts-Returns policy env i [] stop st = tt
  run_scripts-Returns policy env i (path ∷ paths) stop st =
      on_option Returns (deps.host.ctx_err st.world)
        (turn-Returns policy env (run_scripts deps (suc bound) policy env (suc i) paths) i path stop
          st (λ b s. run_scripts-Returns policy env (suc i) paths b s))
        (λ e. tt)

  -- A run of a scenario returns, in whatever state it begins, if the nesting of every script that
  -- the parser can give is bounded.
  pub run_scenario-Returns :
      (def : ScenarioDefinition) (st : ScenarioState W Step)
      → Returns (run_scenario deps (suc bound) def st)
  unfolding run_scenario Returns
  run_scenario-Returns def st =
      Returns-bind
        (run_scripts deps (suc bound) (on_failure def) (child_env deps (suc bound) def) 0
          def.scripts false _)
        _
        (run_scripts-Returns (on_failure def) (child_env deps (suc bound) def) 0 def.scripts false
          _)
        (λ (end, s). tt)
