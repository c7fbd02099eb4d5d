-- ===== src/Runner/Run.antt =====
-- core/internal/runner/runner.go: `Run`.
use atomyx.Prelude.{
  count_if, ℕ, List, [], ◌∷◌, Option, none, some, Bool, true, false, ◌&&◌, Text, codes, text_eq,
  if◌then◌else◌, ℤ, pos, negsuc, ◌-ℤ◌, length,
}
use atomyx.Runner.Types.{Detail, ScriptDefinition, RunAbort, proxy_required, StepResult}
use atomyx.Runner.Outcome.{
  LoopEnd, interrupted, ended, RunOutcome, run_error, finished, Required, satisfied, failed,
  load_error, count_ok,
}
use atomyx.Runner.Host.{Host, RunState}
use atomyx.Runner.Steps.{◌>>=◌, with_world}
use atomyx.Runner.Gate.{gate, execute, nested}
use atomyx.Runner.Loop.{script_loop}
use atomyx.Runner.Requires.{run_required_flows}

abbrev pub proxy_abort : RunAbort
proxy_abort = record {
  reason = proxy_required;
  code = codes "PROXY_REQUIRED";
  message = codes "This script needs network capture, but no proxy is configured.";
  remedy =
      codes
        "Pass --proxy <type:path> on the CLI, or set the \"proxy\" argument on the run_script tool call.";
}

unfoldable pub requires_proxy : {Step : Type 0} → ScriptDefinition Step → Bool
unfolding text_eq
requires_proxy def = elim def.proxy [ none ↦ false | some proxy ↦ text_eq proxy (codes "required") ]

abbrev pub refusal : Text → Option Detail → List StepResult
refusal command d =
    record { step_index = negsuc 0; command = command; ok = false; detail = d; duration_ms = pos 0 }
    ∷ []

module _ {W Step : Type 0} (host : Host W Step) where
  abbrev pub Reported : Type 0
  Reported = RunOutcome × RunState W Step

  unfoldable pub report :
      ScriptDefinition Step
      → (started : ℤ) → (ok : Bool) → List StepResult
      → (passed : ℕ) → Option ℕ
      → Option RunAbort
      → RunState W Step
      → Reported
  report def started ok steps passed at abort st =
      let read = host.now st.world in
      (
        finished (record {
          script_name = def.name;
          ok = ok;
          steps = steps;
          total_steps = length def.steps;
          passed_steps = passed;
          failed_at_step = at;
          duration_ms = read.0 -ℤ started;
          abort = abort;
        }),
        with_world st read.1,
      )

  unfoldable pub conclude : ScriptDefinition Step → ℤ → LoopEnd → RunState W Step → Reported
  unfolding report count_ok count_if
  conclude def started (interrupted e) st = (run_error e, st)
  conclude def started (ended steps at abort) st =
      report def started (elim at [ none ↦ true | some i ↦ false ]) steps (count_ok steps) at abort
        st

  -- The script after its required flows: its preconditions, then its steps.
  unfoldable pub run_gated : ℕ → ScriptDefinition Step → ℤ → RunState W Step → Option Reported
  unfolding gate nested execute script_loop conclude report
  run_gated fuel def started st =
      gate host (nested host fuel def) def.preconditions st >>= λ (gated, st').
      if gated.ok
      then (script_loop host (execute host (nested host fuel def)) def 0 def.steps st'
          >>= λ (end, st''). some (conclude def started end st''))
      else some (
          report def started false (refusal (codes "preconditions") gated.detail) 0 (some 0) none
            st')

  unfoldable pub after_required :
      ℕ → ScriptDefinition Step → ℤ → Required → RunState W Step → Option Reported
  unfolding run_gated report
  after_required fuel def started satisfied st = run_gated fuel def started st
  after_required fuel def started (failed d) st =
      some (report def started false (refusal (codes "requires") (some d)) 0 (some 0) none st)
  after_required fuel def started (load_error e) st = some (run_error e, st)

  -- The state in which a run begins: what the runner keeps between runs stays.
  unfoldable pub fresh : ScriptDefinition Step → W → RunState W Step → RunState W Step
  fresh def w st = record st {
    world = host.variables_from_env def.env w;
    completed_precondition_setups = [];
    global_step_index = 0;
    depth = 0;
  }

  unfoldable pub run : ℕ → ScriptDefinition Step → RunState W Step → Option Reported
  unfolding requires_proxy fresh after_required run_required_flows report
  run fuel def st =
      let begun = host.now st.world in
      if requires_proxy def && host.no_capture_configured
      then some (report def begun.0 false [] 0 none (some proxy_abort) (with_world st begun.1))
      else (run_required_flows host fuel def def.requires (fresh def begun.1 st)
          >>= λ (required, st'). after_required fuel def begun.0 required st')
