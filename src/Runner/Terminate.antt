-- ===== src/Runner/Terminate.antt =====
-- core/internal/runner/runner.go: a run ends where the scripts and the handlers do not nest without
-- an end, and the fuel of the model is enough where it is above the depth to which they nest.
pub mod Run
use atomyx.Prelude.{
  ℕ, zero, suc, ◌<◌, ◌≡◌, List, [], ◌∷◌, Option, none, some, Bool, ◌&&◌, Text, ℤ, ◌⊎◌, inl, inr,
  All, All-imp, arith, on_bool, on_option, on_option_at, on_sum, has_text, text_eq,
}
use atomyx.Runner.Types.{CommandResult, ScriptDefinition}
use atomyx.Runner.Host.{Host, Command, Action, RunState}
use atomyx.Runner.Steps.{Ran, Exec, Observed, observe, step_loop, run_nested_steps, with_world}
use atomyx.Runner.Gate.{gate, execute, nested}
use atomyx.Runner.Confined.{Confined, ConfinedGate}
use atomyx.Runner.Reasoning.{Reasoning, gate-Good, execute-Good}
use atomyx.Runner.Returns.{Returns, Returns-bind}

module _ {W Step : Type 0} where
  unfoldable pub return_reasoning : Reasoning W Step
  unfolding Returns
  return_reasoning = record {
    Good = λ st m. Returns m;
    stays = λ r w setups st. tt;
    moved = λ w st m good. good;
    follows = λ st m f good next. Returns-bind m f good (λ (r, st'). next r st');
  }

module _ {W Step : Type 0} (host : Host W Step) (def : ScriptDefinition Step) where
  -- The handlers of such steps, at any index and in any state, return.
  unfoldable pub Handles : (Step → Type 0) → Exec host → Type 0
  Handles P exec =
      (step : Step) (cmd : Command W Step) (i : ℕ) (w : W) (st : RunState W Step)
      → P step
      → host.registry (host.command_of step) ≡ some cmd
      → Returns (exec (cmd.execute def i step w) st)

  pub observe-Returns :
      (exec : Exec host) (depth : RunState W Step → ℕ) (line : Option ℕ) (step : Step)
      (action : W → Action W Step) (st : RunState W Step)
      → ((w : W) (s : RunState W Step) → Returns (exec (action w) s))
      → Returns (observe host exec depth line step action st)
  unfolding observe Returns
  observe-Returns exec depth line step action st h =
      Returns-bind (exec _ _) _ (h _ _) (λ (r, after). tt)

  module _ (P : Step → Type 0) (exec : Exec host) (handles : Handles P exec) where
    step_loop-Returns :
        (i : ℕ) (steps : List Step) (st : RunState W Step)
        → All P steps
        → Returns (step_loop host exec def i steps st)
    unfolding step_loop Returns Handles
    step_loop-Returns i [] st h = tt
    step_loop-Returns i (step ∷ steps) st (p, h) =
        on_option (Returns {A = CommandResult × RunState W Step}) (host.ctx_err st.world)
          (on_option_at (Returns {A = CommandResult × RunState W Step})
            (host.registry (host.command_of step)) tt
            (λ cmd e.
              on_bool Returns (cmd.should_skip def st.world) (step_loop-Returns (suc i) steps st h)
                (Returns-bind
                  (observe host exec (λ s. s.depth) none step (cmd.execute def i step) st) _
                  (observe-Returns exec (λ s. s.depth) none step (cmd.execute def i step) st
                    (λ w s. handles step cmd i w s p e))
                  (λ o.
                    on_bool Returns o.result.ok (step_loop-Returns (suc i) steps o.state h) tt))))
          (λ e. tt)

    run_nested_steps-Returns :
        (steps : List Step) (st : RunState W Step)
        → All P steps
        → Returns (run_nested_steps host exec def steps st)
    unfolding run_nested_steps Returns
    run_nested_steps-Returns steps st h =
        Returns-bind (step_loop host exec def 0 steps _) _ (step_loop-Returns 0 steps _ h)
          (λ (r, st'). tt)

module _ {W Step : Type 0} (host : Host W Step) (def : ScriptDefinition Step) (rank : Step → ℕ)
    (ranked : (step : Step) (cmd : Command W Step) (i : ℕ) (w : W)
      → host.registry (host.command_of step) ≡ some cmd
      → Confined host (λ s. rank s < rank step) (cmd.execute def i step w)) where
  abbrev pub Below : ℕ → Step → Type 0
  Below n s = rank s < n

  -- Handlers of steps below `n`, where whatever is below that of the step returns.
  handle-Returns :
      (n : ℕ) (deeper : List Step → RunState W Step → Ran W Step)
      → ((r : ℕ) (steps : List Step) (st : RunState W Step)
          → r < n
          → All (Below r) steps
          → Returns (deeper steps st))
      → Handles host def (Below n) (execute host deeper)
  unfolding Handles return_reasoning
  handle-Returns n deeper deeper-Returns step cmd i w st p e =
      execute-Good host return_reasoning (Below (rank step)) deeper
        (λ steps s h. deeper-Returns (rank step) steps s p h) (cmd.execute def i step w) st
        (ranked step cmd i w e)

  pub nested-Returns :
      (fuel : ℕ) (steps : List Step) (st : RunState W Step)
      → All (Below fuel) steps
      → Returns (nested host (suc fuel) def steps st)
  unfolding nested Handles
  nested-Returns zero steps st h =
      run_nested_steps-Returns host def (Below zero) (execute host (nested host zero def))
        (λ step cmd i w s p e. let no : ⊥ = omega (arith, p) in elim no [ ]) steps st h
  nested-Returns (suc fuel) steps st h =
      run_nested_steps-Returns host def (Below (suc fuel))
        (execute host (nested host (suc fuel) def))
        (handle-Returns (suc fuel) (nested host (suc fuel) def) (λ r ss s lt below.
          nested-Returns fuel ss s
            (All-imp (Below r) (Below fuel) ss (λ x q. omega (arith, lt, q)) below)))
        steps st h

  pub run_steps-Handles :
      (fuel : ℕ) → Handles host def (Below fuel) (execute host (nested host (suc fuel) def))
  run_steps-Handles fuel = handle-Returns fuel (nested host (suc fuel) def) (λ r steps s lt below.
      nested-Returns fuel steps s
        (All-imp (Below r) (Below fuel) steps (λ x q. omega (arith, lt, q)) below))
