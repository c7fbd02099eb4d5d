-- ===== src/Runner/Once.antt =====
-- core/internal/runner/runner.go: what the runner keeps between runs, the flows that completed and
-- those that are running.
pub mod Requires
use atomyx.Prelude.{
  ℕ, zero, suc, ◌-◌, ◌≡◌, refl, sym, ◌∙◌, ap, subst, List, [], ◌∷◌, Option, none, some, Bool, true,
  false, ◌||◌, Text, text_eq, text_eq_refl, has_text, delete_text, ◌⊎◌, inl, inr, All, All-imp,
  on_bool, on_option, Bool-cases, if◌then◌else◌,
}
use atomyx.Runner.Types.{CommandResult, Precondition, ScriptDefinition, failure, text}
use atomyx.Runner.Host.{Host, Action, RunState}
use atomyx.Runner.Outcome.{Required, satisfied, failed, load_error}
use atomyx.Runner.Steps.{Ran, Exec, Observed, observe, step_loop, run_nested_steps, with_world}
use atomyx.Runner.Gate.{gate, execute, nested}
use atomyx.Runner.Confined.{Anything, Confined-Anything, ConfinedGate-Anything}
use atomyx.Runner.Reasoning.{Reasoning, gate-Good, execute-Good}
use atomyx.Runner.Requires.{
  Flowed, run_loaded, run_one_required_flow, run_required_flows, go_on, leave_required,
}
use atomyx.Runner.Returns.{Upholds, Upholds-bind}

-- What a runner keeps.
abbrev pub Kept : Type 0
Kept = List Text × List Text

module _ {W Step : Type 0} where
  abbrev pub kept : RunState W Step → Kept
  kept st = (st.completed_requires, st.call_stack)

  abbrev pub Keeps {ℓ} : {A : Type ℓ} → Kept → A × RunState W Step → Type 0
  Keeps k x = kept x.1 ≡ k

  pub keep_past {ℓ} :
      {A : Type ℓ} {k : Kept} (st : RunState W Step) (m : Option (A × RunState W Step))
      → kept st ≡ k
      → Upholds (Keeps (kept st)) m
      → Upholds (Keeps k) m
  unfolding Upholds
  keep_past st none e h = tt
  keep_past st (some x) e h = h ∙ e

  keep_reasoning : Reasoning W Step
  unfolding Upholds
  keep_reasoning = record {
    Good = λ st m. Upholds (Keeps (kept st)) m;
    stays = λ r w setups st. refl;
    moved = λ w st m good. good;
    follows = λ st m f good next.
        Upholds-bind (Keeps (kept st)) (Keeps (kept st)) m f good
          (λ (r, st') e. keep_past st' (f (r, st')) e (next r st'));
  }

module _ {W Step : Type 0} (host : Host W Step) (def : ScriptDefinition Step) where
  step_loop-Keeps :
      (exec : Exec host)
      → ((action : Action W Step) (st : RunState W Step)
          → Upholds (Keeps (kept st)) (exec action st))
      → (i : ℕ) (steps : List Step) (st : RunState W Step)
      → Upholds (Keeps (kept st)) (step_loop host exec def i steps st)
  unfolding step_loop observe Upholds
  step_loop-Keeps exec keeps i [] st = refl
  step_loop-Keeps exec keeps i (step ∷ steps) st =
      let P : Ran W Step → Type 0 = Upholds (Keeps (kept st)) in
      on_option P (host.ctx_err st.world) {s = λ e. some (failure (text e), st)}
        (on_option P (host.registry (host.command_of step)) refl (λ cmd.
          on_bool P (cmd.should_skip def st.world) (step_loop-Keeps exec keeps (suc i) steps st) (
            Upholds-bind (λ o. kept (Observed.state o) ≡ kept st) (Keeps (kept st))
              (observe host exec (λ s. s.depth) none step (cmd.execute def i step) st) _
              (Upholds-bind (Keeps (kept st)) _ (exec _ _) _ (keeps _ _) (λ (r, after) e. e))
              (λ o e.
                on_bool P o.result.ok {e = some (o.result, o.state)}
                  (keep_past o.state (step_loop host exec def (suc i) steps o.state) e
                    (step_loop-Keeps exec keeps (suc i) steps o.state))
                  e))))
        (λ e. refl)

  pub nested-Keeps :
      (fuel : ℕ) (steps : List Step) (st : RunState W Step)
      → Upholds (Keeps (kept st)) (nested host fuel def steps st)
  unfolding nested run_nested_steps Upholds keep_reasoning
  nested-Keeps zero steps st = tt
  nested-Keeps (suc fuel) steps st =
      let deeper : RunState W Step = record st { depth = suc st.depth } in
      let exec : Exec host = execute host (nested host fuel def) in
      Upholds-bind {A = CommandResult × RunState W Step} {B = CommandResult × RunState W Step}
        (Keeps (kept st)) (Keeps (kept st)) (step_loop host exec def 0 steps deeper)
        (λ (r, st'). some (r, record st' { depth = st'.depth - 1 }))
        (step_loop-Keeps exec
          (λ action s.
            execute-Good host keep_reasoning Anything (nested host fuel def)
              (λ ss s' c. nested-Keeps fuel ss s') action s (Confined-Anything host action))
          0 steps deeper)
        (λ (r, st') e. e)

  pub gate-Keeps :
      (fuel : ℕ) (ps : List (Precondition Step)) (st : RunState W Step)
      → Upholds (Keeps (kept st)) (gate host (nested host fuel def) ps st)
  unfolding keep_reasoning
  gate-Keeps fuel ps st =
      gate-Good host keep_reasoning Anything (nested host fuel def)
        (λ ss s c. nested-Keeps fuel ss s) ps st (ConfinedGate-Anything host ps)

module _ {W Step : Type 0} (host : Host W Step) (fuel : ℕ) (def : ScriptDefinition Step) where
  run_loaded-Keeps :
      (path : Text) (x : Text ⊎ ScriptDefinition Step) (st : RunState W Step)
      → Upholds (Keeps (kept st)) (run_loaded host fuel def path x st)
  unfolding run_loaded Upholds
  run_loaded-Keeps path (inl e) st = refl
  run_loaded-Keeps path (inr flow) st =
      Upholds-bind (Keeps (kept st)) (Keeps (kept st))
        (gate host (nested host fuel def) flow.preconditions st) _
        (gate-Keeps host def fuel flow.preconditions st)
        (λ (gated, st') e.
          on_bool (Upholds (Keeps (kept st))) gated.ok
            (Upholds-bind (Keeps (kept st')) (Keeps (kept st)) (nested host fuel def flow.steps st')
              _ (nested-Keeps host def fuel flow.steps st') (λ (ran, st'') e'. e' ∙ e))
            e)

  pub run_one_required_flow-Keeps :
      (path absolute : Text) (st : RunState W Step)
      → Upholds (Keeps (kept st)) (run_one_required_flow host fuel def path absolute st)
  unfolding run_one_required_flow Upholds
  run_one_required_flow-Keeps path absolute st =
      on_option (Upholds (Keeps (kept st))) host.load_flow refl (λ load.
        run_loaded-Keeps path (load absolute st.world).0 (with_world st (load absolute st.world).1))
