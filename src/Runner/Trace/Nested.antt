-- ===== src/Runner/Trace/Nested.antt =====
-- core/internal/runner/runner.go: the events of steps and of the steps nested in them.
use atomyx.Prelude.{
  ℕ, zero, suc, ◌≡◌, refl, sym, List, [], ◌∷◌, ◌++◌, Option, none, some, arith, on_bool, on_option,
}
use atomyx.Runner.Types.{CommandResult, failure, text, ScriptDefinition, step_started}
use atomyx.Runner.Host.{Host, Action, RunState}
use atomyx.Runner.Steps.{Ran, Exec, Observed, observe, step_loop, run_nested_steps}
use atomyx.Runner.Gate.{gate, execute, nested}
use atomyx.Runner.Confined.{Anything, Confined-Anything, ConfinedGate-Anything}
use atomyx.Runner.Reasoning.{Reasoning, gate-Good, execute-Good}
use atomyx.Runner.Returns.{Upholds, Upholds-bind}
use atomyx.Runner.Trace.{Mark, mark, Grown, Grown-refl, Grown-trans, Grown-step}

abbrev pub same : ℕ → ℕ
same d = d

module _ {W Step : Type 0} where
  -- What a computation adds at its own level, and one level below it.
  abbrev pub IsTraced : (ℕ → ℕ) → RunState W Step → CommandResult × RunState W Step → Type 0
  IsTraced level st x = Grown level (mark st) (mark x.1)

  abbrev pub Traces : {A : Type 0} → (A → RunState W Step → Ran W Step) → Type 0
  Traces {A} f = (a : A) (st : RunState W Step) → Upholds (IsTraced suc st) (f a st)

  pub weaken :
      (level : ℕ → ℕ) (a : Mark Step) (st : RunState W Step) (m : Ran W Step)
      → Grown level a (mark st)
      → Upholds (IsTraced level st) m
      → Upholds (λ x. Grown level a (mark x.1)) m
  unfolding Upholds
  weaken level a st none g h = tt
  weaken level a st (some (r, st')) g h = Grown-trans g h

  trace_reasoning : Reasoning W Step
  unfolding Upholds
  trace_reasoning = record {
    Good = λ st m. Upholds (IsTraced suc st) m;
    stays = λ r w setups st. Grown-refl (mark st);
    moved = λ w st m good. good;
    follows = λ st m f good next.
        Upholds-bind (IsTraced suc st) (IsTraced suc st) m f good
          (λ (r, st') g. weaken suc (mark st) st' _ g (next r st'));
  }

module _ {W Step : Type 0} (host : Host W Step) (exec : Exec host) (exec-Trace : Traces exec) where
  -- `depth` reads the depth of the state, for states as deep as the first.
  pub observe-Trace :
      (depth : RunState W Step → ℕ) (line : Option ℕ) (step : Step) (action : W → Action W Step)
      (st : RunState W Step)
      → ((s : RunState W Step) → s.depth ≡ st.depth → st.depth ≡ depth s)
      → Upholds
          (λ o. Grown same (mark st) (mark (Observed.state o)))
          (observe host exec depth line step action st)
  unfolding observe Upholds
  observe-Trace depth line step action st reads =
      Upholds-bind
        (λ x.
          Grown suc
            (record {
              depth = st.depth;
              index = suc st.global_step_index;
              events = st.events ++ step_started st.global_step_index step (depth st) line ∷ [];
            })
            (mark x.1))
        _ (exec _ _) _ (exec-Trace _ _)
        (λ (r, after) g.
          Grown-step (mark st) (mark after) step line r _ (depth st) (depth after) (reads st refl)
            (reads after g.same_depth) g)

  step_loop-Trace :
      (def : ScriptDefinition Step) (i : ℕ) (steps : List Step) (st : RunState W Step)
      → Upholds (IsTraced same st) (step_loop host exec def i steps st)
  unfolding step_loop Upholds
  step_loop-Trace def i [] st = Grown-refl (mark st)
  step_loop-Trace def i (step ∷ steps) st =
      let P : Ran W Step → Type 0 = Upholds (IsTraced same st) in
      on_option P (host.ctx_err st.world) {s = λ e. some (failure (text e), st)}
        (on_option P (host.registry (host.command_of step)) (Grown-refl (mark st)) (λ cmd.
          on_bool P (cmd.should_skip def st.world) (step_loop-Trace def (suc i) steps st) (
            Upholds-bind _ _
              (observe host exec (λ s. s.depth) none step (cmd.execute def i step) st) _
              (observe-Trace (λ s. s.depth) none step (cmd.execute def i step) st (λ s e. sym e))
              (λ o g.
                on_bool P o.result.ok {e = some (o.result, o.state)}
                  (weaken same (mark st) o.state _ g (step_loop-Trace def (suc i) steps o.state))
                  g))))
        (λ e. Grown-refl {level = same} (mark st))

  pub run_nested_steps-Trace :
      (def : ScriptDefinition Step) → Traces (run_nested_steps host exec def)
  unfolding run_nested_steps Upholds
  run_nested_steps-Trace def steps st =
      Upholds-bind _ _ (step_loop host exec def 0 steps _) _
        (step_loop-Trace def 0 steps (record st { depth = suc st.depth }))
        (λ (r, st') g. record {
          same_depth = omega (arith, g.same_depth);
          emitted = g.emitted;
          appended = g.appended;
          traced = g.traced;
        })

module _ {W Step : Type 0} (host : Host W Step) where
  pub execute-Trace :
      (deeper : List Step → RunState W Step → Ran W Step)
      → Traces deeper
      → Traces (execute host deeper)
  unfolding trace_reasoning
  execute-Trace deeper deeper-Trace action st =
      execute-Good host trace_reasoning Anything deeper (λ steps s c. deeper-Trace steps s) action
        st (Confined-Anything host action)

  pub gate-Trace :
      (deeper : List Step → RunState W Step → Ran W Step)
      → Traces deeper
      → Traces (gate host deeper)
  unfolding trace_reasoning
  gate-Trace deeper deeper-Trace ps st =
      gate-Good host trace_reasoning Anything deeper (λ steps s c. deeper-Trace steps s) ps st
        (ConfinedGate-Anything host ps)

  pub nested-Trace : (fuel : ℕ) (def : ScriptDefinition Step) → Traces (nested host fuel def)
  unfolding nested Upholds
  nested-Trace zero def steps st = tt
  nested-Trace (suc fuel) def steps st =
      run_nested_steps-Trace host (execute host (nested host fuel def))
        (execute-Trace (nested host fuel def) (nested-Trace fuel def)) def steps st
