-- ===== src/Runner/Reasoning.antt =====
-- core/internal/runner/runner.go: what holds of nested steps holds of the preconditions and the
-- handlers that have them run, for properties that are kept when one computation follows another.
use atomyx.Prelude.{
  List, [], ◌∷◌, Option, none, some, ◌⊎◌, inl, inr, Text, codes, text_eq, has_text, All, on_bool,
  on_option, on_sum,
}
use atomyx.Runner.Types.{CommandResult, Precondition, PreconditionCheck, ScriptDefinition}
use atomyx.Runner.Host.{Host, Action, finish, panic, run_steps, run_preconditions, RunState}
use atomyx.Runner.Check.{evaluate_check, resolve_effective_policy}
use atomyx.Runner.Steps.{Ran, ◌>>=◌, perform, with_world}
use atomyx.Runner.Gate.{
  Loader, loaded_steps, resolve_steps, verify, run_setup, run_setup_deduped, after_setup, ensure,
  precondition_loop, gate, execute,
}
use atomyx.Runner.Confined.{Confined, ConfinedFlow, ConfinedSetup, ConfinedGate}

-- A property of a computation from a state, which looks neither at the world nor at the setups.
pub record Reasoning (W Step : Type 0) : Type 1 where
  pub Good : RunState W Step → Ran W Step → Type 0
  pub stays :
      (r : CommandResult) (w : W) (setups : List Text) (st : RunState W Step)
      → Good st (some (r, record st { world = w; completed_precondition_setups = setups }))
  pub moved : (w : W) (st : RunState W Step) (m : Ran W Step) → Good (with_world st w) m → Good st m
  pub follows :
      (st : RunState W Step) (m : Ran W Step) (f : CommandResult × RunState W Step → Ran W Step)
      → Good st m
      → ((r : CommandResult) (st' : RunState W Step) → Good st' (f (r, st')))
      → Good st (m >>= f)

module _ {W Step : Type 0} (host : Host W Step) (L : Reasoning W Step) (P : Step → Type 0)
    (nested : List Step → RunState W Step → Ran W Step)
    (nested-Good : (steps : List Step) (st : RunState W Step)
      → All P steps
      → L.Good st (nested steps st)) where
  loaded_steps-Good :
      (file : Text) (x : Text ⊎ ScriptDefinition Step) (w : W) (st : RunState W Step)
      → ConfinedFlow P x
      → L.Good st (elim (loaded_steps file x) [
        | inl r ↦ some (r, with_world st w)
        | inr steps ↦ nested steps (with_world st w)
      ])
  unfolding loaded_steps ConfinedFlow
  loaded_steps-Good file (inl e) w st c = L.stays _ w st.completed_precondition_setups st
  loaded_steps-Good file (inr flow) w st c =
      L.moved w st _ (nested-Good flow.steps (with_world st w) c)

  resolved-Good :
      (loader : Loader W Step) (steps : List Step) (file : Option Text) (st : RunState W Step)
      → ConfinedSetup P loader (record { steps = steps; file = file })
      → L.Good st (
          let resolved = resolve_steps loader (record { steps = steps; file = file }) st in
          elim resolved.0 [ inl r ↦ some (r, resolved.1) | inr found ↦ nested found resolved.1 ])
  unfolding resolve_steps ConfinedSetup
  resolved-Good loader steps none st c = nested-Good steps st c
  resolved-Good none steps (some file) st c = L.stays _ st.world st.completed_precondition_setups st
  resolved-Good (some load) steps (some file) st c =
      loaded_steps-Good file (load file st.world).0 (load file st.world).1 st (c st.world)

  run_setup-Good :
      (p : Precondition Step) (st : RunState W Step)
      → ConfinedSetup P host.load_flow p.setup
      → L.Good st (run_setup host nested p st)
  unfolding run_setup
  run_setup-Good p st c = resolved-Good host.load_flow p.setup.steps p.setup.file st c

  run_setup_deduped-Good :
      (p : Precondition Step) (st : RunState W Step)
      → ConfinedSetup P host.load_flow p.setup
      → L.Good st (run_setup_deduped host nested p st)
  unfolding run_setup_deduped
  run_setup_deduped-Good p st c =
      on_bool (L.Good st) (has_text (host.setup_key p.setup) st.completed_precondition_setups)
        (L.stays _ st.world st.completed_precondition_setups st)
        (L.follows st _ _ (run_setup-Good p st c) (λ r st'.
          on_bool (λ s. L.Good st' (some (r, s))) r.ok (L.stays r st'.world _ st')
            (L.stays r st'.world st'.completed_precondition_setups st')))

  module _ (rest : RunState W Step → Ran W Step)
      (rest-Good : (s : RunState W Step) → L.Good s (rest s)) where
    after_setup-Good :
        (check : PreconditionCheck) (r : CommandResult) (st : RunState W Step)
        → L.Good st (after_setup host nested check rest r st)
    unfolding after_setup verify
    after_setup-Good check r st =
        on_bool (L.Good st) r.ok
          (on_option (L.Good st) (verify host check st).0 (L.moved _ st _ (rest-Good _))
            (λ fault. L.stays fault _ st.completed_precondition_setups st))
          (L.stays r st.world st.completed_precondition_setups st)

    ensure-Good :
        (p : Precondition Step) (st : RunState W Step)
        → ConfinedSetup P host.load_flow p.setup
        → L.Good st (ensure host nested p rest st)
    unfolding ensure
    ensure-Good p st c =
        let held = evaluate_check host p.check st.world in
        on_sum (L.Good st) held.0 (λ e. L.stays _ held.1 st.completed_precondition_setups st)
          (λ b. on_bool (L.Good st) b (L.moved held.1 st _ (rest-Good _)) (
            L.moved held.1 st _ (
              L.follows (with_world st held.1) (run_setup host nested p (with_world st held.1)) _
                (run_setup-Good p (with_world st held.1) c)
                (λ r st'. after_setup-Good p.check r st'))))

  precondition_loop-Good :
      (ps : List (Precondition Step)) (st : RunState W Step)
      → ConfinedGate host P ps
      → L.Good st (precondition_loop host nested ps st)
  unfolding precondition_loop
  precondition_loop-Good [] st c = L.stays _ st.world st.completed_precondition_setups st
  precondition_loop-Good (p ∷ ps) st (c, cs) =
      let policy = resolve_effective_policy host.preconditions_override p.policy in
      let rest-Good : (s : RunState W Step) → L.Good s (precondition_loop host nested ps s) =
        λ s. precondition_loop-Good ps s cs in
      on_option (L.Good st) (host.ctx_err st.world)
        (on_bool (L.Good st) (text_eq policy (codes "skip")) (rest-Good st) (
          on_bool (L.Good st) (text_eq policy (codes "always"))
            (L.follows st _ _ (run_setup_deduped-Good p st c) (λ r st'.
              after_setup-Good (precondition_loop host nested ps) rest-Good p.check r st'))
            (ensure-Good (precondition_loop host nested ps) rest-Good p st c)))
        (λ e. L.stays _ st.world st.completed_precondition_setups st)

  pub gate-Good :
      (ps : List (Precondition Step)) (st : RunState W Step)
      → ConfinedGate host P ps
      → L.Good st (gate host nested ps st)
  unfolding gate
  gate-Good [] st c = L.stays _ st.world st.completed_precondition_setups st
  gate-Good (p ∷ ps) st c = precondition_loop-Good (p ∷ ps) st c

  pub execute-Good :
      (action : Action W Step) (st : RunState W Step)
      → Confined host P action
      → L.Good st (execute host nested action st)
  unfolding execute perform Confined
  execute-Good (finish r w) st c = L.stays r w st.completed_precondition_setups st
  execute-Good (panic t w) st c = L.stays _ w st.completed_precondition_setups st
  execute-Good (run_steps steps w k) st (c, cs) = L.moved w st _ (
      L.follows (with_world st w) _ _ (nested-Good steps (with_world st w) c)
        (λ r st'. execute-Good (k r st'.world) st' (cs r st'.world)))
  execute-Good (run_preconditions ps w k) st (c, cs) = L.moved w st _ (
      L.follows (with_world st w) _ _ (gate-Good ps (with_world st w) c)
        (λ r st'. execute-Good (k r st'.world) st' (cs r st'.world)))
