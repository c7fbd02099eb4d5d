-- ===== src/Expression/Eval/Run.antt =====
-- `Eval` and `Evaluate` of eval.go, operator by operator.
use atomyx.Prelude.{
  ℕ, Bool, true, false, not, ◌++◌, Option, none, some, if◌then◌else◌, Text, codes, text_eq,
}
use atomyx.Expression.Outcome.{ParseError, EvalError, ok, fail, out_of_fuel}
use atomyx.Expression.Outcome
use atomyx.Expression.Float.{FloatOps}
use atomyx.Expression.Value.{Value}
use atomyx.Expression.Ast.{
  BinaryOperator, UnaryOperator, Node, number_literal, string_literal, boolean_literal, identifier,
  unary_expr, binary_expr, cast_expr, start,
}
use atomyx.Expression.Parse.Methods.{parse}
use atomyx.Expression.Eval.Messages.{
  Evaluated, value, error, panic, ◌>>=◌, error_at, describe_arithmetic_rejection,
  describe_logical_rejection, describe_comparison_rejection,
}
use atomyx.Expression.Eval.Cast.{eval_cast}

-- `Lookup`: `none` is ok == false.
abbrev pub Lookup : Type 0 → Type 0
Lookup A = Text → Option (Value A)

-- The two kinds of error of `Evaluate`, its value, or a failure of the model's that it never is.
pub data Answer (A : Type 0) : Type 0 where
  result : Value A → Answer A
  parse_error : ParseError → Answer A
  eval_error : EvalError → Answer A
  crash : Answer A

abbrev pub answer_of : {A : Type 0} → Evaluated (Value A) → Answer A
answer_of (value v) = result v
answer_of (error e) = eval_error e
answer_of panic = crash

module _ {A : Type 0} (ops : FloatOps A) where
  unfoldable pub eval_unary : UnaryOperator → ℕ → Value A → Evaluated (Value A)
  unfolding describe_arithmetic_rejection describe_logical_rejection
  eval_unary UnaryOperator.minus p (Value.number f) = value (Value.number (ops.neg f))
  eval_unary UnaryOperator.minus p v = error_at p (describe_arithmetic_rejection ops v)
  eval_unary UnaryOperator.not p (Value.bool b) = value (Value.bool (not b))
  eval_unary UnaryOperator.not p v = error_at p (describe_logical_rejection ops v)

  unfoldable pub values_equal : Value A → Value A → Bool
  unfolding text_eq
  values_equal (Value.number l) (Value.number r) = ops.eq l r
  values_equal (Value.string l) (Value.string r) = text_eq l r
  values_equal (Value.bool true) (Value.bool r) = r
  values_equal (Value.bool false) (Value.bool r) = not r
  values_equal _ _ = false

  abbrev pub arithmetic_at : BinaryOperator → A → A → ℕ → Evaluated (Value A)
  arithmetic_at BinaryOperator.add l r p = value (Value.number (ops.add l r))
  arithmetic_at BinaryOperator.sub l r p = value (Value.number (ops.sub l r))
  arithmetic_at BinaryOperator.mul l r p = value (Value.number (ops.mul l r))
  arithmetic_at BinaryOperator.div l r p =
      if ops.eq r ops.zero_value
      then error_at p (some (codes "division by zero"))
      else value (Value.number (ops.div l r))
  arithmetic_at _ l r p =
      if ops.eq r ops.zero_value
      then error_at p (some (codes "modulo by zero"))
      else value (Value.number (ops.fmod l r))

  unfoldable pub eval_arithmetic : BinaryOperator → Value A → Value A → ℕ → ℕ → Evaluated (Value A)
  unfolding describe_arithmetic_rejection
  eval_arithmetic o (Value.number l) (Value.number r) left_start right_start =
      arithmetic_at o l r right_start
  eval_arithmetic o (Value.number l) right left_start right_start =
      error_at right_start (describe_arithmetic_rejection ops right)
  eval_arithmetic o left right left_start right_start =
      error_at left_start (describe_arithmetic_rejection ops left)

  abbrev pub compare_at : BinaryOperator → A → A → Bool
  compare_at BinaryOperator.lt l r = ops.lt l r
  compare_at BinaryOperator.lte l r = ops.le l r
  compare_at BinaryOperator.gt l r = ops.lt r l
  compare_at _ l r = ops.le r l

  unfoldable pub eval_comparison : BinaryOperator → Value A → Value A → ℕ → Evaluated (Value A)
  unfolding describe_comparison_rejection
  eval_comparison o (Value.number l) (Value.number r) p = value (Value.bool (compare_at o l r))
  eval_comparison o left right p = error_at p (describe_comparison_rejection ops left right)

  -- the `switch` of `evalBinary`, on the values of both sides
  unfoldable pub eval_strict : BinaryOperator → ℕ → ℕ → ℕ → Value A → Value A → Evaluated (Value A)
  unfolding values_equal eval_comparison eval_arithmetic
  eval_strict BinaryOperator.eq p l_start r_start l r = value (Value.bool (values_equal l r))
  eval_strict BinaryOperator.neq p l_start r_start l r = value (Value.bool (not (values_equal l r)))
  eval_strict BinaryOperator.lt p l_start r_start l r = eval_comparison BinaryOperator.lt l r p
  eval_strict BinaryOperator.lte p l_start r_start l r = eval_comparison BinaryOperator.lte l r p
  eval_strict BinaryOperator.gt p l_start r_start l r = eval_comparison BinaryOperator.gt l r p
  eval_strict BinaryOperator.gte p l_start r_start l r = eval_comparison BinaryOperator.gte l r p
  eval_strict o p l_start r_start l r = eval_arithmetic o l r l_start r_start

  -- the right side of `evalLogical`
  abbrev pub logical_right : ℕ → Value A → Evaluated (Value A)
  logical_right p (Value.bool b) = value (Value.bool b)
  logical_right p v = error_at p (describe_logical_rejection ops v)

  -- `evalLogical`: `right` is read only where the left value does not settle the result. `settles`
  -- is that value, false for `and` and true for `or`.
  unfoldable pub eval_logical : Bool → ℕ → ℕ → Value A → Evaluated (Value A) → Evaluated (Value A)
  unfolding describe_logical_rejection
  eval_logical false l_start r_start (Value.bool false) right = value (Value.bool false)
  eval_logical false l_start r_start (Value.bool true) right = right >>= logical_right r_start
  eval_logical true l_start r_start (Value.bool true) right = value (Value.bool true)
  eval_logical true l_start r_start (Value.bool false) right = right >>= logical_right r_start
  eval_logical settles l_start r_start v right = error_at l_start (describe_logical_rejection ops v)

  -- `evalBinary`
  unfoldable pub eval_binary :
      BinaryOperator → ℕ → ℕ → ℕ → Evaluated (Value A) → Evaluated (Value A) → Evaluated (Value A)
  unfolding eval_logical eval_strict
  eval_binary BinaryOperator.and p l_start r_start left right =
      left >>= λ l. eval_logical false l_start r_start l right
  eval_binary BinaryOperator.or p l_start r_start left right =
      left >>= λ l. eval_logical true l_start r_start l right
  eval_binary o p l_start r_start left right =
      left >>= λ l. right >>= λ r. eval_strict o p l_start r_start l r

  abbrev pub identifier_value : Text → ℕ → Option (Value A) → Evaluated (Value A)
  identifier_value name p (some v) = value v
  identifier_value name p none =
      error_at p (some (codes "variable \"" ++ (name ++ codes "\" is not defined")))

  unfoldable pub eval : Lookup A → Node A → Evaluated (Value A)
  unfolding eval_unary eval_binary eval_cast start
  eval lookup (number_literal p f) = value (Value.number f)
  eval lookup (string_literal p s) = value (Value.string s)
  eval lookup (boolean_literal p b) = value (Value.bool b)
  eval lookup (identifier p name) = identifier_value name p (lookup name)
  eval lookup (unary_expr p o a) = eval lookup a >>= eval_unary o p
  eval lookup (binary_expr p o a b) =
      eval_binary o p (start a) (start b) (eval lookup a) (eval lookup b)
  eval lookup (cast_expr p f a) = eval lookup a >>= λ v. eval_cast ops f v (start a)

  abbrev pub evaluate_parsed : Lookup A → Outcome.Outcome (Node A) → Answer A
  evaluate_parsed lookup (ok node) = answer_of (eval lookup node)
  evaluate_parsed lookup (fail e) = parse_error e
  evaluate_parsed lookup Outcome.panic = crash
  evaluate_parsed lookup out_of_fuel = crash

  unfoldable pub evaluate : Text → Lookup A → Answer A
  unfolding eval parse
  evaluate source lookup = evaluate_parsed lookup (parse ops source)
