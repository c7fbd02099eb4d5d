-- ===== src/Runner/Trace.antt =====
-- core/internal/runner/step_event.go: the order of a run's events. A step has one event before its
-- nested steps and one after them, and its index is the next of the run.
pub mod Nested
pub mod Loop
pub mod Requires
pub mod Run
use atomyx.Prelude.{
  ℕ, suc, ◌≡◌, refl, sym, ◌∙◌, ap, subst, List, [], ◌∷◌, ◌++◌, append_assoc, append-nil, Option, ℤ,
}
use atomyx.Runner.Types.{CommandResult, StepEvent, step_started, step_completed}
use atomyx.Runner.Host.{RunState}

-- The events of steps at the depth `d` that take the indices from `i` up to the last argument.
pub data Trace {Step : Type 0} : (depth from : ℕ) → List (StepEvent Step) → ℕ → Type 0 where
  idle : (d i : ℕ) → Trace d i [] i
  step_over :
      {d i j k : ℕ} {inner later : List (StepEvent Step)}
      → (step : Step) (line : Option ℕ) (r : CommandResult) (ms : ℤ) → Trace (suc d) (suc i) inner j
      → Trace d j later k
      → Trace d i
          (step_started i step d line ∷ (inner ++ (step_completed i step d line r ms ∷ later)))
          k

pub Trace-append :
    {Step : Type 0} {d i j k : ℕ} {es later : List (StepEvent Step)}
    → Trace d i es j
    → Trace d j later k
    → Trace d i (es ++ later) k
Trace-append (idle d i) u = u
Trace-append {k = k} {later = later}
      (step_over {d} {i} {inner = inner} {later = es} step line r ms t s) u =
    subst (λ l. Trace d i (step_started i step d line ∷ l) k)
      (sym (append_assoc inner (step_completed i step d line r ms ∷ es) later))
      (step_over step line r ms t (Trace-append s u))

-- What the events say of a state.
pub record Mark (Step : Type 0) : Type 0 where
  pub depth : ℕ
  pub index : ℕ
  pub events : List (StepEvent Step)

abbrev pub mark : {W Step : Type 0} → RunState W Step → Mark Step
mark st = record { depth = st.depth; index = st.global_step_index; events = st.events }

-- The second state is as deep as the first, and has emitted a trace since, at a depth from that of
-- the first.
pub record Grown {Step : Type 0} (level : ℕ → ℕ) (a b : Mark Step) : Type 0 where
  pub same_depth : b.depth ≡ a.depth
  pub emitted : List (StepEvent Step)
  pub appended : b.events ≡ a.events ++ emitted
  pub traced : Trace (level a.depth) a.index emitted b.index

module _ {Step : Type 0} {level : ℕ → ℕ} where
  pub Grown-refl : (a : Mark Step) → Grown level a a
  Grown-refl a = record {
    same_depth = refl;
    emitted = [];
    appended = sym (append-nil a.events);
    traced = idle (level a.depth) a.index;
  }

  pub Grown-trans : {a b c : Mark Step} → Grown level a b → Grown level b c → Grown level a c
  Grown-trans {a} {b} {c} g h = record {
    same_depth = h.same_depth ∙ g.same_depth;
    emitted = g.emitted ++ h.emitted;
    appended =
        h.appended
        ∙ ap (λ l. l ++ h.emitted) g.appended
        ∙ append_assoc a.events g.emitted h.emitted;
    traced =
        Trace-append g.traced
          (subst (λ d. Trace (level d) b.index h.emitted c.index) g.same_depth h.traced);
  }

module _ {Step : Type 0} where
  -- A step whose nested steps are traced, with the depths that its two events name.
  pub Grown-step :
      (a b : Mark Step) (step : Step) (line : Option ℕ) (r : CommandResult) (ms : ℤ) (d d' : ℕ)
      → a.depth ≡ d
      → a.depth ≡ d'
      → Grown suc
          (record {
            depth = a.depth;
            index = suc a.index;
            events = a.events ++ step_started a.index step d line ∷ [];
          })
          b
      → Grown
          (λ e. e)
          a
          (record {
            depth = b.depth;
            index = b.index;
            events = b.events ++ step_completed a.index step d' line r ms ∷ [];
          })
  Grown-step a b step line r ms d d' eq eq' g =
      let completed : List (StepEvent Step) = step_completed a.index step d' line r ms ∷ [] in
      record {
        same_depth = g.same_depth;
        emitted = step_started a.index step d line ∷ (g.emitted ++ completed);
        appended =
            ap (λ l. l ++ completed) g.appended
            ∙ append_assoc (a.events ++ step_started a.index step d line ∷ []) g.emitted completed
            ∙ append_assoc a.events (step_started a.index step d line ∷ [])
                (g.emitted ++ completed);
        traced =
            subst
              (λ e.
                Trace a.depth a.index
                  (step_started a.index step d line
                    ∷ (g.emitted ++ step_completed a.index step e line r ms ∷ []))
                  b.index)
              eq'
              (subst
                (λ e.
                  Trace a.depth a.index
                    (step_started a.index step e line
                      ∷ (g.emitted ++ step_completed a.index step a.depth line r ms ∷ []))
                    b.index)
                eq (step_over step line r ms g.traced (idle a.depth b.index)));
      }
