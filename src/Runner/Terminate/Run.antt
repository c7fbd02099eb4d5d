-- ===== src/Runner/Terminate/Run.antt =====
-- core/internal/runner/runner.go: `Run` ends.
use atomyx.Prelude.{
  ℕ, suc, ◌<◌, ◌≡◌, List, [], ◌∷◌, some, ◌&&◌, Text, ℤ, ◌⊎◌, inl, inr, All, on_bool, on_option,
  on_option_at, has_text,
}
use atomyx.Runner.Types.{Precondition, ScriptDefinition}
use atomyx.Runner.Host.{Host, Command, RunState}
use atomyx.Runner.Outcome.{RunOutcome, Required, satisfied, failed, load_error, line_for_step}
use atomyx.Runner.Steps.{Ran, Exec, Observed, observe, with_world}
use atomyx.Runner.Gate.{gate, execute, nested}
use atomyx.Runner.Loop.{Looped, script_loop, pause, record_step}
use atomyx.Runner.Requires.{Flowed, run_loaded, run_required_flows, run_one_required_flow, go_on}
use atomyx.Runner.Run.{run, run_gated, after_required, requires_proxy}
use atomyx.Runner.Confined.{Confined, ConfinedGate, ConfinedScript, ConfinedRequired, ConfinedLoad}
use atomyx.Runner.Reasoning.{gate-Good}
use atomyx.Runner.Returns.{Returns, Returns-bind}
use atomyx.Runner.Terminate.{
  return_reasoning, Handles, observe-Returns, nested-Returns, run_steps-Handles,
}

module _ {W Step : Type 0} (host : Host W Step) (def : ScriptDefinition Step) (P : Step → Type 0)
    (exec : Exec host) (handles : Handles host def P exec) where
  record_step-Returns :
      (rest : RunState W Step → Looped host) (i : ℕ) (command : Text) (o : Observed W Step)
      → Returns (rest o.state)
      → Returns (record_step host rest i command o)
  unfolding record_step Returns
  record_step-Returns rest i command o h =
      on_bool Returns o.result.ok (Returns-bind (rest o.state) _ h (λ (end, s). tt)) tt

  script_loop-Returns :
      (i : ℕ) (steps : List Step) (st : RunState W Step)
      → All P steps
      → Returns (script_loop host exec def i steps st)
  unfolding script_loop Returns Handles
  script_loop-Returns i [] st h = tt
  script_loop-Returns i (step ∷ steps) st (p, h) =
      let Q : Looped host → Type 0 = Returns in
      let command = host.command_of step in
      on_option Q (host.ctx_err st.world)
        (on_option_at Q (host.registry command) tt (λ cmd e.
          on_bool Q (cmd.should_skip def st.world) (script_loop-Returns (suc i) steps st h) (
            let paused = pause host def i command st.world in
            on_option Q paused.0
              (Returns-bind
                (observe host exec (λ _. 0) (line_for_step def i) step (cmd.execute def i step)
                  (with_world st paused.1))
                (record_step host (script_loop host exec def (suc i) steps) i command)
                (observe-Returns host def exec (λ _. 0) (line_for_step def i) step
                  (cmd.execute def i step) (with_world st paused.1)
                  (λ w s. handles step cmd i w s p e))
                (λ o.
                  record_step-Returns (script_loop host exec def (suc i) steps) i command o
                    (script_loop-Returns (suc i) steps o.state h)))
              (λ e. tt))))
        (λ e. tt)

module _ {W Step : Type 0} (host : Host W Step) (def : ScriptDefinition Step) (rank : Step → ℕ)
    (ranked : (step : Step) (cmd : Command W Step) (i : ℕ) (w : W)
      → host.registry (host.command_of step) ≡ some cmd
      → Confined host (λ s. rank s < rank step) (cmd.execute def i step w))
    (fuel : ℕ) where
  deeper : List Step → RunState W Step → Ran W Step
  deeper = nested host (suc fuel) def

  P : Step → Type 0
  P s = rank s < fuel

  gate-Returns :
      (ps : List (Precondition Step)) (st : RunState W Step)
      → ConfinedGate host P ps
      → Returns (gate host deeper ps st)
  unfolding return_reasoning P deeper
  gate-Returns ps st c =
      gate-Good host return_reasoning P deeper (nested-Returns host def rank ranked fuel) ps st c

  run_loaded-Returns :
      (path : Text) (x : Text ⊎ ScriptDefinition Step) (st : RunState W Step)
      → ConfinedRequired host P x
      → Returns (run_loaded host (suc fuel) def path x st)
  unfolding run_loaded Returns P deeper ConfinedRequired ConfinedScript
  run_loaded-Returns path (inl e) st c = tt
  run_loaded-Returns path (inr flow) st (c, below) =
      Returns-bind (gate host deeper flow.preconditions st) _ (gate-Returns flow.preconditions st c)
        (λ (gated, st').
          on_bool Returns gated.ok
            (Returns-bind (nested host (suc fuel) def flow.steps st') _
              (nested-Returns host def rank ranked fuel flow.steps st' below) (λ (ran, st''). tt))
            tt)

  run_one_required_flow-Returns :
      (path : Text) (st : RunState W Step)
      → ConfinedLoad host P path
      → Returns (run_one_required_flow host (suc fuel) def path (host.absolute path) st)
  unfolding run_one_required_flow Returns
  run_one_required_flow-Returns path st c =
      let absolute = host.absolute path in
      on_option_at Returns host.load_flow tt (λ load e.
        run_loaded-Returns path (load absolute st.world).0
          (with_world st (load absolute st.world).1) (c load e st.world))

  go_on-Returns :
      (rest : RunState W Step → Flowed host) (path : Text) (r : Required) (st : RunState W Step)
      → ((s : RunState W Step) → Returns (rest s))
      → Returns (go_on host rest path r st)
  unfolding go_on Returns
  go_on-Returns rest path satisfied st h = h _
  go_on-Returns rest path (failed d) st h = tt
  go_on-Returns rest path (load_error e) st h = tt

  run_required_flows-Returns :
      (paths : List Text) (st : RunState W Step)
      → All (ConfinedLoad host P) paths
      → Returns (run_required_flows host (suc fuel) def paths st)
  unfolding run_required_flows go_on Returns
  run_required_flows-Returns [] st c = tt
  run_required_flows-Returns (path ∷ paths) st (c, cs) =
      let absolute = host.absolute path in
      on_bool (Returns {A = Required × RunState W Step}) (has_text absolute st.completed_requires)
        (run_required_flows-Returns paths st cs)
        (on_bool (Returns {A = Required × RunState W Step}) (has_text absolute st.call_stack) tt (
          Returns-bind (run_one_required_flow host (suc fuel) def path absolute _) _
            (run_one_required_flow-Returns path _ c)
            (λ (r, st').
              go_on-Returns (run_required_flows host (suc fuel) def paths) absolute r st'
                (λ s. run_required_flows-Returns paths s cs))))

  after_required-Returns :
      (started : ℤ) (r : Required) (st : RunState W Step)
      → ConfinedScript host P def
      → Returns (after_required host (suc fuel) def started r st)
  unfolding after_required run_gated Returns P deeper ConfinedScript
  after_required-Returns started satisfied st (c, below) =
      Returns-bind (gate host deeper def.preconditions st) _ (gate-Returns def.preconditions st c)
        (λ (gated, st').
          on_bool Returns gated.ok
            (Returns-bind (script_loop host (execute host deeper) def 0 def.steps st') _
              (script_loop-Returns host def P (execute host deeper)
                (run_steps-Handles host def rank ranked fuel) 0 def.steps st' below)
              (λ (end, st''). tt))
            tt)
  after_required-Returns started (failed d) st c = tt
  after_required-Returns started (load_error e) st c = tt

  -- A run returns, in whatever state it begins: where a handler, for the script that is run, has only
  -- steps run that are of smaller rank than its own step, setups that it names included, and the
  -- ranks of the script's steps, of its setups and of the flows that it requires are below `fuel`.
  pub run-Returns :
      ConfinedScript host (λ s. rank s < fuel) def
      → All (ConfinedLoad host (λ s. rank s < fuel)) def.requires
      → (st : RunState W Step) → Returns (run host (suc fuel) def st)
  unfolding run Returns P
  run-Returns confined loads st =
      on_bool (Returns {A = RunOutcome × RunState W Step})
        (requires_proxy def && host.no_capture_configured) tt
        (Returns-bind (run_required_flows host (suc fuel) def def.requires _) _
          (run_required_flows-Returns def.requires _ loads)
          (λ (r, st'). after_required-Returns _ r st' confined))
