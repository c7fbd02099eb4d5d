-- ===== src/Runner/Trace/Loop.antt =====
-- core/internal/runner/runner.go: the events of the loop over a script's steps.
use atomyx.Prelude.{
  ℕ, suc, ◌≡◌, refl, ◌∙◌, subst, List, [], ◌∷◌, Option, none, some, Text, on_bool, on_option,
}
use atomyx.Runner.Types.{ScriptDefinition, RunAbort}
use atomyx.Runner.Host.{Host, RunState}
use atomyx.Runner.Outcome.{interrupted, canceled, sleep_failed, line_for_step}
use atomyx.Runner.Steps.{Exec, Observed, observe, with_world}
use atomyx.Runner.Loop.{Looped, script_loop, pause, record_step, classify_step_failure}
use atomyx.Runner.Returns.{Upholds, Upholds-bind}
use atomyx.Runner.Trace.{Mark, mark, Grown, Grown-refl, Grown-trans}
use atomyx.Runner.Trace.Nested.{same, Traces, observe-Trace}

module _ {W Step : Type 0} where
  abbrev pub Grows {ℓ} : {A : Type ℓ} → (ℕ → ℕ) → RunState W Step → A × RunState W Step → Type 0
  Grows level st x = Grown level (mark st) (mark x.1)

  pub grow_past {ℓ} :
      {A : Type ℓ} {level : ℕ → ℕ} {a : Mark Step} (st : RunState W Step)
      → Grown level a (mark st)
      → (m : Option (A × RunState W Step)) → Upholds (Grows level st) m
      → Upholds (λ x. Grown level a (mark x.1)) m
  unfolding Upholds
  grow_past st g none h = tt
  grow_past st g (some x) h = Grown-trans g h

  classify_step_failure-mark :
      (host : Host W Step) (st : RunState W Step) → mark st ≡ mark (classify_step_failure host st).1
  unfolding classify_step_failure
  classify_step_failure-mark host st =
      on_option {A = Option RunAbort × RunState W Step} (λ x. mark st ≡ mark x.1)
        (host.ctx_err st.world) refl (λ e. refl)

module _ {W Step : Type 0} (host : Host W Step) (exec : Exec host) (exec-Trace : Traces exec)
    (def : ScriptDefinition Step) where
  record_step-Trace :
      (rest : RunState W Step → Looped host) (i : ℕ) (command : Text) (o : Observed W Step)
      (st : RunState W Step)
      → Grown same (mark st) (mark o.state)
      → Upholds (Grows same o.state) (rest o.state)
      → Upholds (Grows same st) (record_step host rest i command o)
  unfolding record_step Upholds classify_step_failure
  record_step-Trace rest i command o st g later =
      on_bool (Upholds (Grows same st)) o.result.ok
        (Upholds-bind (Grows same o.state) (Grows same st) (rest o.state) _ later
          (λ (end, s) h. Grown-trans g h))
        (subst (λ m. Grown same (mark st) m) (classify_step_failure-mark host o.state) g)

  pub script_loop-Trace :
      (i : ℕ) (steps : List Step) (st : RunState W Step)
      → st.depth ≡ 0
      → Upholds (Grows same st) (script_loop host exec def i steps st)
  unfolding script_loop Upholds
  script_loop-Trace i [] st zero_depth = Grown-refl (mark st)
  script_loop-Trace i (step ∷ steps) st zero_depth =
      let P : Looped host → Type 0 = Upholds (Grows same st) in
      let command = host.command_of step in
      on_option P (host.ctx_err st.world) {s = λ e. some (interrupted (canceled e), st)}
        (on_option P (host.registry command) (Grown-refl (mark st)) (λ cmd.
          on_bool P (cmd.should_skip def st.world) (script_loop-Trace (suc i) steps st zero_depth) (
            let paused = pause host def i command st.world in
            on_option P paused.0
              {s = λ e. some (interrupted (sleep_failed e), with_world st paused.1)}
              (Upholds-bind (λ o. Grown same (mark st) (mark (Observed.state o))) (Grows same st)
                (observe host exec (λ _. 0) (line_for_step def i) step (cmd.execute def i step)
                  (with_world st paused.1))
                (record_step host (script_loop host exec def (suc i) steps) i command)
                (observe-Trace host exec exec-Trace (λ _. 0) (line_for_step def i) step
                  (cmd.execute def i step) (with_world st paused.1) (λ s e. zero_depth))
                (λ o g.
                  record_step-Trace (script_loop host exec def (suc i) steps) i command o st g
                    (script_loop-Trace (suc i) steps o.state (g.same_depth ∙ zero_depth))))
              (λ e. Grown-refl {level = same} (mark st)))))
        (λ e. Grown-refl {level = same} (mark st))
