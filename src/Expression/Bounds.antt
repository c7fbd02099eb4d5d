-- ===== src/Expression/Bounds.antt =====
-- `Evaluate` from source text: it answers, and every position that it reports lies in the source.
use atomyx.Prelude.{
  ℕ, suc, ◌≤◌, subst, sym, inl, inr, [], ◌∷◌, arith, length, Text, All, All-left, All-right,
}
use atomyx.Expression.Outcome.{returned, failed, Returns, Outcome}
use atomyx.Expression.Utf16.{encode}
use atomyx.Expression.Float.{FloatOps}
use atomyx.Expression.FormatNumber.Shape.{FormatsScientific}
use atomyx.Expression.Ast.{Node, start}
use atomyx.Expression.Parse.Levels.{Tokens}
use atomyx.Expression.Parse.Grammar.{
  Level, Derives, tight, binary, negation, minus, number, string, boolean, name, enclosed, cast,
}
use atomyx.Expression.Source.{
  Ascending, Ascending-le, Covers-Ascending_source, IsParse, parse-Returns,
}
use atomyx.Expression.Value.{Value}
use atomyx.Expression.Eval.Messages.{Evaluated}
use atomyx.Expression.Eval.Settles.{Settles, gives, raises, Settles-map}
use atomyx.Expression.Eval.Run.{
  Lookup, Answer, result, parse_error, eval_error, crash, answer_of, evaluate_parsed, evaluate,
}
use atomyx.Expression.Eval.Blame.{StartsAt, StartsAt-start, eval-Settles}

abbrev PositionsAtMost : ℕ → Tokens → Type 0
PositionsAtMost m = All (λ t. t.position ≤ m)

module _ {A : Type 0} (ops : FloatOps A) (m : ℕ) where
  -- A node that derives from some tokens starts at one of them, and so does each node below it.
  StartsAt-le :
      {l : Level} {ts : Tokens} {n : Node A}
      → Derives ops l ts n
      → PositionsAtMost m ts
      → (p : ℕ) → StartsAt p n
      → p ≤ m
  unfolding start
  StartsAt-le (tight d) h p s = StartsAt-le d h p s
  StartsAt-le (binary {ts} {a} {b} left t right split op d e) h p s = elim s [
    | inl q ↦ StartsAt-le d (left_part h) p (subst (λ r. StartsAt r a) (sym q) (StartsAt-start a))
    | inr (inl u) ↦ StartsAt-le d (left_part h) p u
    | inr (inr u) ↦ StartsAt-le e (right_part h) p u
  ]
    where
      left_part : PositionsAtMost m ts → PositionsAtMost m left
      left_part k =
          All-left (λ t. t.position ≤ m) left (t ∷ right) (subst (PositionsAtMost m) split k)

      right_part : PositionsAtMost m ts → PositionsAtMost m right
      right_part k =
          (All-right (λ t. t.position ≤ m) left (t ∷ right) (subst (PositionsAtMost m) split k)).1
  StartsAt-le (negation k d) h p (inl q) = omega arith
  StartsAt-le (negation k d) h p (inr u) = StartsAt-le d h.1 p u
  StartsAt-le (minus k d) h p (inl q) = omega arith
  StartsAt-le (minus k d) h p (inr u) = StartsAt-le d h.1 p u
  StartsAt-le (number k) h p s = omega arith
  StartsAt-le (string k) h p s = omega arith
  StartsAt-le (boolean k b) h p s = omega arith
  StartsAt-le (name k b) h p s = omega arith
  StartsAt-le (enclosed o c ts a b split d) h p s =
      StartsAt-le d
        (All-left (λ t. t.position ≤ m) ts (c ∷ []) (subst (PositionsAtMost m) split h).1) p s
  StartsAt-le (cast t o c ts k b f a e split d) h p (inl q) =
      let first = (subst (PositionsAtMost m) split h).0 in omega arith
  StartsAt-le (cast t o c ts k b f a e split d) h p (inr u) =
      StartsAt-le d
        (All-left (λ t. t.position ≤ m) ts (c ∷ []) (subst (PositionsAtMost m) split h).1.1) p u

Ascending-PositionsAtMost : (i n : ℕ) (ts : Tokens) → Ascending i n ts → PositionsAtMost n ts
Ascending-PositionsAtMost i n [] a = absurd a
Ascending-PositionsAtMost i n (t ∷ []) a = (omega arith, tt)
Ascending-PositionsAtMost i n (t ∷ u ∷ ts) a =
    let later = Ascending-le (suc t.position) n (u ∷ ts) a.2 in
    (omega arith, Ascending-PositionsAtMost (suc t.position) n (u ∷ ts) a.2)

-- An answer, whose error, if it is one, points into a source of `n` units or to its end.
abbrev pub AnswersWithin : {A : Type 0} → ℕ → Answer A → Type 0
AnswersWithin n (result v) = Unit
AnswersWithin n (parse_error e) = e.position ≤ n
AnswersWithin n (eval_error e) = e.position ≤ n
AnswersWithin n crash = ⊥

answer_of-AnswersWithin :
    {A : Type 0} (n : ℕ) {r : Evaluated (Value A)}
    → Settles (λ v. Unit {0}) (λ e. e.position ≤ n) r
    → AnswersWithin n (answer_of r)
answer_of-AnswersWithin n (gives h) = tt
answer_of-AnswersWithin n (raises h) = h

module _ {A : Type 0} (ops : FloatOps A) (formats : FormatsScientific ops) where
  IsParse-StartsAt-le :
      (source : Text) (node : Node A)
      → IsParse ops source node
      → (p : ℕ) → StartsAt p node
      → p ≤ length (encode source)
  IsParse-StartsAt-le source node parsed p s =
      let (used, last, rest, split, ends, derives) = parsed.derives_all in
      let all =
        Ascending-PositionsAtMost 0 (length (encode source)) parsed.tokens
          (Covers-Ascending_source parsed.covers) in
      StartsAt-le ops (length (encode source)) derives
        (All-left (λ t. t.position ≤ length (encode source)) used (last ∷ rest)
          (subst (PositionsAtMost (length (encode source))) split all))
        p s

  evaluate_parsed-AnswersWithin :
      (source : Text) (lookup : Lookup A) {m : Outcome (Node A)}
      → Returns (IsParse ops source) (λ e. e.position ≤ length (encode source)) m
      → AnswersWithin (length (encode source)) (evaluate_parsed ops lookup m)
  evaluate_parsed-AnswersWithin source lookup (returned {a} parsed) =
      answer_of-AnswersWithin (length (encode source)) (
        Settles-map (eval-Settles ops formats lookup a) (λ v u. u)
          (λ e s. IsParse-StartsAt-le source a parsed e.position s))
  evaluate_parsed-AnswersWithin source lookup (failed h) = h

  -- `Evaluate` answers on every source and lookup with a value, a parse error or an evaluation
  -- error, never a panic; the position of either error lies in the source or at its end.
  pub evaluate-AnswersWithin :
      (source : Text) (lookup : Lookup A)
      → AnswersWithin (length (encode source)) (evaluate ops source lookup)
  unfolding evaluate
  evaluate-AnswersWithin source lookup =
      evaluate_parsed-AnswersWithin source lookup (parse-Returns ops source)
