-- ===== src/Runner/RunFlow/Samples.antt =====
-- A runFlow step whose flow is a group, and those whose file is not loaded.
use atomyx.Prelude.{ℕ, ◌≡◌, refl, List, [], ◌∷◌, none, some, Text, codes, ◌⊎◌, inl, inr}
use atomyx.Runner.Types.{failure, exception, sub_flow_not_found, ScriptDefinition}
use atomyx.Runner.Gate.{nested, execute}
use atomyx.Runner.RunFlow.{RunFlowStep, LoadError, parse_error, Flows, loaded_sub_flow, run_flow}
use atomyx.Runner.Samples.{script_of, ticking, notes, at_start}

abbrev load_any : Text → List (Text × Text) → ℕ → (LoadError ⊎ ScriptDefinition ℕ) × ℕ
load_any path env w = (inr (script_of [] (1 ∷ [])), w)

abbrev library : Flows ℕ ℕ
library = record {
  absolute = λ path. path;
  environment_from_variables = λ w. [];
  load_flow = some load_any;
}

abbrev open_notes : RunFlowStep
open_notes = record { file = codes "open.yaml"; env = (codes "user", codes "ada") ∷ [] }

runs_flow :
    execute ticking (nested ticking 2 notes) (run_flow library open_notes 0) at_start
    ≡ execute ticking
        (nested ticking 2 notes)
        (loaded_sub_flow (codes "open.yaml") (inr (script_of [] (1 ∷ []))) 0)
        at_start
unfolding execute run_flow
runs_flow = refl

broken_flow :
    execute ticking
      (nested ticking 2 notes)
      (run_flow
        (record library {
          load_flow = some (λ path env w. (inl (parse_error (codes "bad yaml")), w));
        })
        open_notes
        0)
      at_start
    ≡ some (failure (exception (codes "bad yaml")), at_start)
unfolding execute run_flow
broken_flow = refl

missing_flow :
    execute ticking
      (nested ticking 2 notes)
      (run_flow (record library { load_flow = none }) open_notes 0)
      at_start
    ≡ some (failure (sub_flow_not_found (codes "open.yaml")), at_start)
unfolding execute run_flow
missing_flow = refl
