-- ===== src/Runner/Report.antt =====
-- core/internal/runner/runner.go: what `Run` reports of the steps of a script.
pub mod Loop
pub mod Run
use atomyx.Prelude.{
  Counts, none_left, counted, passed_over, count_if, ℕ, zero, suc, ◌≡◌, refl, ap, subst, List, [],
  ◌∷◌, Option, none, some, Bool, true, false, ◌&&◌, Text, codes, ℤ, pos, All, length, arith,
  on_bool, on_option, Bool-cases, if◌then◌else◌,
}
use atomyx.Runner.Types.{
  CommandResult, ScriptDefinition, RunAbort, StepResult, ScriptResult, Detail,
}
use atomyx.Runner.Host.{Host, Command, RunState}
use atomyx.Runner.Outcome.{
  RunOutcome, run_error, finished, LoopEnd, interrupted, ended, prepend, canceled, sleep_failed,
  line_for_step, count_ok, neutral_detail, Required, satisfied, failed, load_error,
}
use atomyx.Runner.Steps.{Ran, Exec, Observed, observe, with_world}
use atomyx.Runner.Gate.{gate, execute, nested}
use atomyx.Runner.Loop.{
  Looped, script_loop, pause, record_step, classify_step_failure, unknown_step,
}
use atomyx.Runner.Requires.{run_required_flows}
use atomyx.Runner.Run.{
  Reported, run, run_gated, after_required, conclude, report, fresh, requires_proxy, refusal,
  proxy_abort,
}
use atomyx.Runner.Returns.{Upholds, Upholds-bind, Upholds-trivial}

-- The results of steps, the first of which is at an index and begins in a state: in their order, each
-- with what its handler gave in the state that the steps before it left. A step without a result was
-- one to be skipped in that state. All passed but one that failed, or that no handler is known for,
-- which is the last.
pub data Ended {W Step : Type 0} (host : Host W Step) (exec : Exec host)
    (def : ScriptDefinition Step)
    : ℕ → List Step → RunState W Step → List StepResult → Option ℕ → Option RunAbort → Type 0 where
  over : (i : ℕ) (st : RunState W Step) → Ended host exec def i [] st [] none none
  skipped :
      {i : ℕ} {steps : List Step} {ss : List StepResult} {at : Option ℕ} {abort : Option RunAbort}
      (st : RunState W Step) (step : Step) (cmd : Command W Step)
      → host.registry (host.command_of step) ≡ some cmd
      → cmd.should_skip def st.world ≡ true
      → Ended host exec def (suc i) steps st ss at abort
      → Ended host exec def i (step ∷ steps) st ss at abort
  passed :
      {i : ℕ} {steps : List Step} {ss : List StepResult} {at : Option ℕ} {abort : Option RunAbort}
      (st : RunState W Step) (step : Step) (cmd : Command W Step) (o : Observed W Step)
      → host.registry (host.command_of step) ≡ some cmd
      → cmd.should_skip def st.world ≡ false
      → observe host exec
          (λ _. 0)
          (line_for_step def i)
          step
          (cmd.execute def i step)
          (with_world st (pause host def i (host.command_of step) st.world).1)
        ≡ some o
      → o.result.ok ≡ true
      → Ended host exec def (suc i) steps o.state ss at abort
      → Ended host exec def i
          (step ∷ steps)
          st
          (record {
            step_index = pos i;
            command = host.command_of step;
            ok = true;
            detail = o.result.detail;
            duration_ms = o.duration_ms;
          }
            ∷ ss)
          at
          abort
  stopped :
      {i : ℕ} {steps : List Step} (st : RunState W Step) (step : Step) (cmd : Command W Step)
      (o : Observed W Step)
      → host.registry (host.command_of step) ≡ some cmd
      → cmd.should_skip def st.world ≡ false
      → observe host exec
          (λ _. 0)
          (line_for_step def i)
          step
          (cmd.execute def i step)
          (with_world st (pause host def i (host.command_of step) st.world).1)
        ≡ some o
      → o.result.ok ≡ false
      → Ended host exec def i
          (step ∷ steps)
          st
          (record {
            step_index = pos i;
            command = host.command_of step;
            ok = false;
            detail = neutral_detail (classify_step_failure host o.state).0 o.result.detail;
            duration_ms = o.duration_ms;
          }
            ∷ [])
          (some i)
          (classify_step_failure host o.state).0
  unknown :
      {i : ℕ} {steps : List Step} (st : RunState W Step) (step : Step)
      → host.registry (host.command_of step) ≡ none
      → Ended host exec def i
          (step ∷ steps)
          st
          (unknown_step host i (host.command_of step) ∷ [])
          (some i)
          none

abbrev pub IsOk : StepResult → Type 0
IsOk s = s.ok ≡ true

module _ {W Step : Type 0} (host : Host W Step) (fuel : ℕ) (def : ScriptDefinition Step)
    (start : RunState W Step) where
  -- A run's state after its required flows, which were satisfied.
  abbrev pub Satisfied : RunState W Step → Type 0
  Satisfied ready =
      run_required_flows host fuel def def.requires (fresh host def (host.now start.world).1 start)
      ≡ some (satisfied, ready)

  abbrev pub Gated : (ready : RunState W Step) → CommandResult → (after : RunState W Step) → Type 0
  Gated ready result after =
      gate host (nested host fuel def) def.preconditions ready ≡ some (result, after)

  -- What `Run` may report of a script that it runs from a state: it was refused, with the one result
  -- that says why, or its required flows and its preconditions hold and its steps were run.
  pub data Reports : ScriptResult → Type 0 where
    proxy_refused :
        requires_proxy def ≡ true
        → host.no_capture_configured ≡ true
        → (ms : ℤ)
        → Reports (record {
          script_name = def.name;
          ok = false;
          steps = [];
          total_steps = length def.steps;
          passed_steps = 0;
          failed_at_step = none;
          duration_ms = ms;
          abort = some proxy_abort;
        })
    requires_refused :
        (d : Detail) (after : RunState W Step)
        → run_required_flows host fuel def def.requires
            (fresh host def (host.now start.world).1 start)
          ≡ some (failed d, after)
        → (ms : ℤ)
        → Reports (record {
          script_name = def.name;
          ok = false;
          steps = refusal (codes "requires") (some d);
          total_steps = length def.steps;
          passed_steps = 0;
          failed_at_step = some 0;
          duration_ms = ms;
          abort = none;
        })
    preconditions_refused :
        (ready : RunState W Step) (gated : CommandResult) (after : RunState W Step)
        → Satisfied ready
        → Gated ready gated after
        → gated.ok ≡ false
        → (ms : ℤ)
        → Reports (record {
          script_name = def.name;
          ok = false;
          steps = refusal (codes "preconditions") gated.detail;
          total_steps = length def.steps;
          passed_steps = 0;
          failed_at_step = some 0;
          duration_ms = ms;
          abort = none;
        })
    ran :
        {ss : List StepResult} {n : ℕ} {at : Option ℕ} {abort : Option RunAbort}
        (ready : RunState W Step) (gated : CommandResult) (after : RunState W Step)
        → Satisfied ready
        → Gated ready gated after
        → gated.ok ≡ true
        → Ended host (execute host (nested host fuel def)) def 0 def.steps after ss at abort
        → Counts IsOk ss n
        → (ms : ℤ)
        → Reports (record {
          script_name = def.name;
          ok = elim at [ none ↦ true | some i ↦ false ];
          steps = ss;
          total_steps = length def.steps;
          passed_steps = n;
          failed_at_step = at;
          duration_ms = ms;
          abort = abort;
        })

-- Of the steps that were run, none failed if none is named.
Ended-All :
    {W Step : Type 0} {host : Host W Step} {exec : Exec host} {def : ScriptDefinition Step} {i : ℕ}
    {steps : List Step} {st : RunState W Step} {ss : List StepResult} {at : Option ℕ}
    {abort : Option RunAbort}
    → Ended host exec def i steps st ss at abort
    → at ≡ none
    → All IsOk ss × (abort ≡ none)
Ended-All (over i st) e = (tt, refl)
Ended-All (skipped st step cmd known skips h) e = Ended-All h e
Ended-All (passed st step cmd o known runs gave good h) e =
    let all = Ended-All h e in ((refl, all.0), all.1)
Ended-All (stopped st step cmd o known runs gave bad) e = grind arith
Ended-All (unknown st step lacks) e = grind arith

Counts-All : {ss : List StepResult} {n : ℕ} → Counts IsOk ss n → All IsOk ss → n ≡ length ss
Counts-All none_left h = refl
Counts-All (counted p c) (q, h) = ap suc (Counts-All c h)
Counts-All (passed_over failing c) (q, h) = absurd (failing q)

pub Reports-ok :
    {W Step : Type 0} {host : Host W Step} {fuel : ℕ} {def : ScriptDefinition Step}
    {start : RunState W Step} {r : ScriptResult}
    → Reports host fuel def start r
    → r.ok ≡ true
    → (r.failed_at_step ≡ none)
      × All IsOk r.steps
      × (r.passed_steps ≡ length r.steps)
      × (r.abort ≡ none)
Reports-ok (ran {at = none} ready gated after s g ok h c ms) e =
    (let all = Ended-All h refl in (refl, all.0, Counts-All c all.0, all.1))
Reports-ok (ran {at = some i} ready gated after s g ok h c ms) e = grind arith
Reports-ok (proxy_refused p q ms) e = grind arith
Reports-ok (requires_refused d after q ms) e = grind arith
Reports-ok (preconditions_refused ready gated after s g bad ms) e = grind arith
