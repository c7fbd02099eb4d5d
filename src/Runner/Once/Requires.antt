-- ===== src/Runner/Once/Requires.antt =====
-- core/internal/runner/runner.go: `runRequiredFlows` runs every required flow once.
use atomyx.Prelude.{
  ℕ, ◌≡◌, refl, ◌∙◌, ap, subst, List, [], ◌∷◌, none, some, true, false, Text, has_text, delete_text,
  delete_text_head, has_text_head, has_text_later, All, on_bool_at, arith,
}
use atomyx.Runner.Types.{ScriptDefinition}
use atomyx.Runner.Host.{Host, RunState}
use atomyx.Runner.Outcome.{Required, satisfied, failed, load_error}
use atomyx.Runner.Requires.{
  Flowed, run_one_required_flow, run_required_flows, go_on, leave_required,
}
use atomyx.Runner.Returns.{Upholds, Upholds-bind}
use atomyx.Runner.Once.{Kept, kept, Keeps, run_one_required_flow-Keeps}

module _ {W Step : Type 0} (host : Host W Step) where
  abbrev pub IsComplete : RunState W Step → Text → Type 0
  IsComplete st path = has_text (host.absolute path) st.completed_requires ≡ true

  -- The same flows are running, no completed one is forgotten, and all are complete if that is said.
  record Left (stack completed : List Text) (paths : List Text) (x : Required × RunState W Step)
      : Type 0 where
    same_stack : RunState.call_stack x.1 ≡ stack
    kept_completed :
        (a : Text)
        → has_text a completed ≡ true
        → has_text a (RunState.completed_requires x.1) ≡ true
    all_complete : x.0 ≡ satisfied → All (IsComplete x.1) paths

  IsLeft : RunState W Step → List Text → Flowed host → Type 0
  IsLeft st paths = Upholds (Left st.call_stack st.completed_requires paths)

  -- The flows after one that is complete, in the state that it leaves.
  Left-later :
      (path : Text) (paths : List Text) (stack completed completed' : List Text) (m : Flowed host)
      → has_text (host.absolute path) completed' ≡ true
      → ((a : Text) → has_text a completed ≡ true → has_text a completed' ≡ true)
      → Upholds (Left stack completed' paths) m
      → Upholds (Left stack completed (path ∷ paths)) m
  unfolding Upholds
  Left-later path paths stack completed completed' none done grows h = tt
  Left-later path paths stack completed completed' (some x) done grows h = record {
    same_stack = h.same_stack;
    kept_completed = λ a e. h.kept_completed a (grows a e);
    all_complete = λ e. (h.kept_completed (host.absolute path) done, h.all_complete e);
  }

  module _ (absolute : Text) (st st' : RunState W Step)
      (absent : has_text absolute st.call_stack ≡ false)
      (e : kept st' ≡ (st.completed_requires, absolute ∷ st.call_stack)) where
    off_stack : delete_text absolute st'.call_stack ≡ st.call_stack
    off_stack =
        ap (λ (k : Kept). delete_text absolute k.1) e
        ∙ delete_text_head absolute st.call_stack absent

    still_complete :
        (a : Text)
        → has_text a st.completed_requires ≡ true
        → has_text a st'.completed_requires ≡ true
    still_complete a h = ap (λ (k : Kept). has_text a k.0) e ∙ h

  go_on-Left :
      (rest : RunState W Step → Flowed host) (path : Text) (paths : List Text) (r : Required)
      (st st' : RunState W Step)
      → ((s : RunState W Step) → IsLeft s paths (rest s))
      → has_text (host.absolute path) st.call_stack ≡ false
      → kept st' ≡ (st.completed_requires, host.absolute path ∷ st.call_stack)
      → IsLeft st (path ∷ paths) (go_on host rest (host.absolute path) r st')
  unfolding go_on leave_required Upholds IsLeft
  go_on-Left rest path paths satisfied st st' later absent e =
      let absolute = host.absolute path in
      let left : RunState W Step = leave_required host absolute satisfied st' in
      Left-later path paths st.call_stack st.completed_requires left.completed_requires (rest left)
        (has_text_head absolute st'.completed_requires)
        (λ a h.
          has_text_later a absolute st'.completed_requires
            (still_complete absolute st st' absent e a h))
        (subst (λ stack. Upholds (Left stack left.completed_requires paths) (rest left))
          (off_stack absolute st st' absent e) (later left))
  go_on-Left rest path paths (failed d) st st' later absent e = record {
    same_stack = off_stack (host.absolute path) st st' absent e;
    kept_completed = still_complete (host.absolute path) st st' absent e;
    all_complete = λ h. grind arith;
  }
  go_on-Left rest path paths (load_error d) st st' later absent e = record {
    same_stack = off_stack (host.absolute path) st st' absent e;
    kept_completed = still_complete (host.absolute path) st st' absent e;
    all_complete = λ h. grind arith;
  }

  module _ (fuel : ℕ) (def : ScriptDefinition Step) where
    run_required_flows-IsLeft :
        (paths : List Text) (st : RunState W Step)
        → IsLeft st paths (run_required_flows host fuel def paths st)
    unfolding run_required_flows IsLeft Upholds
    run_required_flows-IsLeft [] st = record {
      same_stack = refl;
      kept_completed = λ a h. h;
      all_complete = λ h. tt;
    }
    run_required_flows-IsLeft (path ∷ paths) st =
        let absolute = host.absolute path in
        on_bool_at (IsLeft st (path ∷ paths)) (has_text absolute st.completed_requires)
          (λ done.
            Left-later path paths st.call_stack st.completed_requires st.completed_requires
              (run_required_flows host fuel def paths st) done (λ a h. h)
              (run_required_flows-IsLeft paths st))
          (λ new.
            on_bool_at (IsLeft st (path ∷ paths)) (has_text absolute st.call_stack)
              (λ again. record {
                same_stack = refl;
                kept_completed = λ a h. h;
                all_complete = λ h. grind arith;
              })
              (λ absent.
                let begun : RunState W Step = record st { call_stack = absolute ∷ st.call_stack } in
                Upholds-bind (Keeps (kept begun))
                  (Left st.call_stack st.completed_requires (path ∷ paths))
                  (run_one_required_flow host fuel def path absolute begun) _
                  (run_one_required_flow-Keeps host fuel def path absolute begun)
                  (λ (r, st') e.
                    go_on-Left (run_required_flows host fuel def paths) path paths r st st'
                      (run_required_flows-IsLeft paths) absent e)))

    -- Flows that are complete are not run again.
    skips_complete :
        (paths : List Text) (st : RunState W Step)
        → All (IsComplete st) paths
        → run_required_flows host fuel def paths st ≡ some (satisfied, st)
    unfolding run_required_flows
    skips_complete [] st h = refl
    skips_complete (path ∷ paths) st (done, h) = rw done (skips_complete paths st h)

  -- When required flows have returned, with whatever outcome, the flows that were running before are
  -- those that are running, and every flow that had completed still counts as complete.
  pub run_required_flows-keeps :
      (fuel : ℕ) (def : ScriptDefinition Step) (paths : List Text) (r : Required)
      (st st' : RunState W Step)
      → run_required_flows host fuel def paths st ≡ some (r, st')
      → (st'.call_stack ≡ st.call_stack)
        × ((a : Text)
            → has_text a st.completed_requires ≡ true
            → has_text a st'.completed_requires ≡ true)
  unfolding IsLeft Upholds
  run_required_flows-keeps fuel def paths r st st' e =
      let left : Left st.call_stack st.completed_requires paths (r, st') =
        subst (IsLeft st paths) e (run_required_flows-IsLeft fuel def paths st) in
      (left.same_stack, left.kept_completed)

  -- After required flows have succeeded, requiring the same ones, for whatever script, succeeds at
  -- once: no event and no change of the state follows.
  pub run_required_flows-once :
      (fuel fuel' : ℕ) (def def' : ScriptDefinition Step) (paths : List Text)
      (st st' : RunState W Step)
      → run_required_flows host fuel def paths st ≡ some (satisfied, st')
      → run_required_flows host fuel' def' paths st' ≡ some (satisfied, st')
  unfolding IsLeft Upholds
  run_required_flows-once fuel fuel' def def' paths st st' e =
      let left : Left st.call_stack st.completed_requires paths (satisfied, st') =
        subst (IsLeft st paths) e (run_required_flows-IsLeft fuel def paths st) in
      skips_complete fuel' def' paths st' (left.all_complete refl)
