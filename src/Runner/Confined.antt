-- ===== src/Runner/Confined.antt =====
-- core/internal/runner: actions and setups that have only such steps run as have a property.
use atomyx.Prelude.{◌≡◌, Text, List, [], ◌∷◌, Option, none, some, ◌⊎◌, inl, inr, All}
use atomyx.Runner.Types.{CommandResult, Precondition, ScriptDefinition, StepsOrFile}
use atomyx.Runner.Gate.{Loader}
use atomyx.Runner.Host.{Host, Action, finish, panic, run_steps, run_preconditions}

unfoldable pub ConfinedFlow :
    {Step : Type 0} → (Step → Type 0) → Text ⊎ ScriptDefinition Step → Type 0
ConfinedFlow P (inl e) = Unit
ConfinedFlow P (inr flow) = All P flow.steps

-- The steps of a setup, or those of every flow that its file may load.
unfoldable pub ConfinedSetup :
    {W Step : Type 0} → (Step → Type 0) → Loader W Step → StepsOrFile Step → Type 0
unfolding ConfinedFlow
ConfinedSetup {W = W} P loader sof = elim sof.file [
  | none ↦ All P sof.steps
  | some file ↦ elim loader [ none ↦ Unit | some load ↦ (w : W) → ConfinedFlow P (load file w).0 ]
]

module _ {W Step : Type 0} (host : Host W Step) (P : Step → Type 0) where
  abbrev pub ConfinedGate : List (Precondition Step) → Type 0
  ConfinedGate ps = All (λ p. ConfinedSetup P host.load_flow (Precondition.setup p)) ps

  unfoldable pub Confined : Action W Step → Type 0
  Confined (finish r w) = Unit
  Confined (panic t w) = Unit
  Confined (run_steps steps w k) = All P steps × ((r : CommandResult) (v : W) → Confined (k r v))
  Confined (run_preconditions ps w k) =
      ConfinedGate ps × ((r : CommandResult) (v : W) → Confined (k r v))

-- A script whose steps, setups and required flows have a property; these run their own setups too.
unfoldable pub ConfinedScript :
    {W Step : Type 0} → Host W Step → (Step → Type 0) → ScriptDefinition Step → Type 0
ConfinedScript host P def = ConfinedGate host P def.preconditions × All P def.steps

unfoldable pub ConfinedRequired :
    {W Step : Type 0} → Host W Step → (Step → Type 0) → Text ⊎ ScriptDefinition Step → Type 0
unfolding ConfinedScript
ConfinedRequired host P (inl e) = Unit
ConfinedRequired host P (inr flow) = ConfinedScript host P flow

-- The flow that a path loads, whatever the state outside.
abbrev pub ConfinedLoad : {W Step : Type 0} → Host W Step → (Step → Type 0) → Text → Type 0
ConfinedLoad {W = W} {Step = Step} host P path =
    (load : Text → W → (Text ⊎ ScriptDefinition Step) × W)
    → host.load_flow ≡ some load
    → (w : W) → ConfinedRequired host P (load (host.absolute path) w).0

-- Every action has steps run of which nothing is asked.
abbrev pub Anything : {Step : Type 0} → Step → Type 0
Anything s = Unit

pub All-Anything : {Step : Type 0} (steps : List Step) → All Anything steps
All-Anything [] = tt
All-Anything (s ∷ steps) = (tt, All-Anything steps)

ConfinedFlow-Anything : {Step : Type 0} (x : Text ⊎ ScriptDefinition Step) → ConfinedFlow Anything x
unfolding ConfinedFlow
ConfinedFlow-Anything (inl e) = tt
ConfinedFlow-Anything (inr flow) = All-Anything flow.steps

ConfinedSetup-Anything :
    {W Step : Type 0} (loader : Loader W Step) (steps : List Step) (file : Option Text)
    → ConfinedSetup Anything loader (record { steps = steps; file = file })
unfolding ConfinedSetup
ConfinedSetup-Anything loader steps none = All-Anything steps
ConfinedSetup-Anything none steps (some file) = tt
ConfinedSetup-Anything (some load) steps (some file) = λ w. ConfinedFlow-Anything (load file w).0

module _ {W Step : Type 0} (host : Host W Step) where
  pub ConfinedGate-Anything : (ps : List (Precondition Step)) → ConfinedGate host Anything ps
  ConfinedGate-Anything [] = tt
  ConfinedGate-Anything (p ∷ ps) =
      (ConfinedSetup-Anything host.load_flow p.setup.steps p.setup.file, ConfinedGate-Anything ps)

  pub Confined-Anything : (action : Action W Step) → Confined host Anything action
  unfolding Confined
  Confined-Anything (finish r w) = tt
  Confined-Anything (panic t w) = tt
  Confined-Anything (run_steps steps w k) = (All-Anything steps, λ r v. Confined-Anything (k r v))
  Confined-Anything (run_preconditions ps w k) =
      (ConfinedGate-Anything ps, λ r v. Confined-Anything (k r v))
