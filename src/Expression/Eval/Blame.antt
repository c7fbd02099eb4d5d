-- ===== src/Expression/Eval/Blame.antt =====
-- Where the errors of `Eval` point: to the start of a node of the expression. Nothing panics.
use atomyx.Prelude.{
  ℕ, ◌≡◌, refl, ◌⊎◌, inl, inr, Bool, true, false, Option, none, some, codes, text_eq, subst, sym,
}
use atomyx.Expression.Outcome.{EvalError}
use atomyx.Expression.Float.{FloatOps}
use atomyx.Expression.FormatNumber.Shape.{FormatsScientific, format_number-total}
use atomyx.Expression.Value.{Value}
use atomyx.Expression.Ast.{
  BinaryOperator, UnaryOperator, CastFunction, Node, number_literal, string_literal,
  boolean_literal, identifier, unary_expr, binary_expr, cast_expr, start,
}
use atomyx.Expression.Eval.Messages.{
  Evaluated, describe_arithmetic_rejection, describe_logical_rejection,
  describe_comparison_rejection,
}
use atomyx.Expression.Eval.Settles.{
  Settles, gives, raises, Settles-bind, Settles-map, Settles-if, Settles-error_at,
  describe_arithmetic_rejection-IsBuilt, describe_logical_rejection-IsBuilt,
  describe_comparison_rejection-IsBuilt,
}
use atomyx.Expression.Eval.Cast.{strict_number, eval_cast, string_result}
use atomyx.Expression.Eval.Run.{
  Lookup, eval_unary, eval_arithmetic, eval_comparison, eval_strict, eval_logical, eval_binary,
  eval, arithmetic_at, logical_right, identifier_value,
}

-- `p` is the start of the node or of one below it.
abbrev pub StartsAt : {A : Type 0} → ℕ → Node A → Type 0
StartsAt p (unary_expr q o a) = (p ≡ q) ⊎ StartsAt p a
StartsAt p (binary_expr q o a b) = (p ≡ q) ⊎ (StartsAt p a ⊎ StartsAt p b)
StartsAt p (cast_expr q f a) = (p ≡ q) ⊎ StartsAt p a
StartsAt p n = p ≡ start n

pub StartsAt-start : {A : Type 0} (n : Node A) → StartsAt (start n) n
unfolding start
StartsAt-start (number_literal p v) = refl
StartsAt-start (unary_expr q o a) = inl refl
StartsAt-start (binary_expr q o a b) = inl refl
StartsAt-start (cast_expr q f a) = inl refl
StartsAt-start _ = refl

StartsAt-eq : {A : Type 0} (p : ℕ) (n : Node A) → p ≡ start n → StartsAt p n
StartsAt-eq p n e = subst (λ q. StartsAt q n) (sym e) (StartsAt-start n)

abbrev At : ℕ → EvalError → Type 0
At p e = e.position ≡ p

abbrev AtSide : ℕ → ℕ → ℕ → EvalError → Type 0
AtSide p l r e = (e.position ≡ p) ⊎ ((e.position ≡ l) ⊎ (e.position ≡ r))

abbrev Any : {V : Type 0} → V → Type 0
Any v = Unit

module _ {A : Type 0} (ops : FloatOps A) (formats : FormatsScientific ops) where
  eval_unary-Settles :
      (o : UnaryOperator) (p : ℕ) (v : Value A) → Settles Any (At p) (eval_unary ops o p v)
  unfolding eval_unary
  eval_unary-Settles UnaryOperator.minus p (Value.number f) = gives tt
  eval_unary-Settles UnaryOperator.minus p v =
      Settles-error_at p (describe_arithmetic_rejection ops v)
        (describe_arithmetic_rejection-IsBuilt ops formats v) (λ t. refl)
  eval_unary-Settles UnaryOperator.not p (Value.bool b) = gives tt
  eval_unary-Settles UnaryOperator.not p v =
      Settles-error_at p (describe_logical_rejection ops v)
        (describe_logical_rejection-IsBuilt ops formats v) (λ t. refl)

  eval_cast-Settles :
      (f : CastFunction) (v : Value A) (p : ℕ) → Settles Any (At p) (eval_cast ops f v p)
  unfolding eval_cast
  eval_cast-Settles CastFunction.number (Value.number f) p = gives tt
  eval_cast-Settles CastFunction.number (Value.string s) p =
      Settles-if (strict_number s) (λ _. gives tt) (λ _. raises refl)
  eval_cast-Settles CastFunction.number (Value.bool b) p = raises refl
  eval_cast-Settles CastFunction.string (Value.string s) p = gives tt
  eval_cast-Settles CastFunction.string (Value.bool true) p = gives tt
  eval_cast-Settles CastFunction.string (Value.bool false) p = gives tt
  eval_cast-Settles CastFunction.string (Value.number f) p =
      let (t, e) = format_number-total ops formats f in rw (e, string_result) (gives tt)
  eval_cast-Settles CastFunction.bool (Value.bool b) p = gives tt
  eval_cast-Settles CastFunction.bool (Value.string s) p =
      Settles-if (text_eq s (codes "true")) (λ _. gives tt)
        λ _. Settles-if (text_eq s (codes "false")) (λ _. gives tt) λ _. raises refl
  eval_cast-Settles CastFunction.bool (Value.number f) p = raises refl

  eval_arithmetic-Settles :
      (o : BinaryOperator) (l r : Value A) (p lp rp : ℕ)
      → Settles Any (AtSide p lp rp) (eval_arithmetic ops o l r lp rp)
  unfolding eval_arithmetic
  eval_arithmetic-Settles o (Value.number l) (Value.number r) p lp rp = numbers o
    where
      numbers : (o : BinaryOperator) → Settles Any (AtSide p lp rp) (arithmetic_at ops o l r rp)
      numbers BinaryOperator.add = gives tt
      numbers BinaryOperator.sub = gives tt
      numbers BinaryOperator.mul = gives tt
      numbers BinaryOperator.div =
          Settles-if (ops.eq r ops.zero_value) (λ _. raises (inr (inr refl))) (λ _. gives tt)
      numbers _ =
          Settles-if (ops.eq r ops.zero_value) (λ _. raises (inr (inr refl))) (λ _. gives tt)
  eval_arithmetic-Settles o (Value.number l) r p lp rp =
      Settles-error_at rp (describe_arithmetic_rejection ops r)
        (describe_arithmetic_rejection-IsBuilt ops formats r) (λ t. inr (inr refl))
  eval_arithmetic-Settles o l r p lp rp =
      Settles-error_at lp (describe_arithmetic_rejection ops l)
        (describe_arithmetic_rejection-IsBuilt ops formats l) (λ t. inr (inl refl))

  eval_comparison-Settles :
      (o : BinaryOperator) (l r : Value A) (p lp rp : ℕ)
      → Settles Any (AtSide p lp rp) (eval_comparison ops o l r p)
  unfolding eval_comparison
  eval_comparison-Settles o (Value.number l) (Value.number r) p lp rp = gives tt
  eval_comparison-Settles o (Value.number l) r p lp rp =
      Settles-error_at p (describe_comparison_rejection ops (Value.number l) r)
        (describe_comparison_rejection-IsBuilt ops formats (Value.number l) r) (λ t. inl refl)
  eval_comparison-Settles o l r p lp rp =
      Settles-error_at p (describe_comparison_rejection ops l r)
        (describe_comparison_rejection-IsBuilt ops formats l r) (λ t. inl refl)

  eval_strict-Settles :
      (o : BinaryOperator) (p lp rp : ℕ) (l r : Value A)
      → Settles Any (AtSide p lp rp) (eval_strict ops o p lp rp l r)
  unfolding eval_strict
  eval_strict-Settles BinaryOperator.eq p lp rp l r = gives tt
  eval_strict-Settles BinaryOperator.neq p lp rp l r = gives tt
  eval_strict-Settles BinaryOperator.lt p lp rp l r =
      eval_comparison-Settles BinaryOperator.lt l r p lp rp
  eval_strict-Settles BinaryOperator.lte p lp rp l r =
      eval_comparison-Settles BinaryOperator.lte l r p lp rp
  eval_strict-Settles BinaryOperator.gt p lp rp l r =
      eval_comparison-Settles BinaryOperator.gt l r p lp rp
  eval_strict-Settles BinaryOperator.gte p lp rp l r =
      eval_comparison-Settles BinaryOperator.gte l r p lp rp
  eval_strict-Settles o p lp rp l r = eval_arithmetic-Settles o l r p lp rp

  logical_right-Settles : (lp rp : ℕ) (v : Value A) → Settles Any (At rp) (logical_right ops rp v)
  logical_right-Settles lp rp (Value.bool b) = gives tt
  logical_right-Settles lp rp v =
      Settles-error_at rp (describe_logical_rejection ops v)
        (describe_logical_rejection-IsBuilt ops formats v) (λ t. refl)

  -- `right` may raise its own errors, `R`.
  eval_logical-Settles :
      {R : EvalError → Type 0} (settles : Bool) (lp rp : ℕ) (l : Value A)
      (right : Evaluated (Value A))
      → ((e : EvalError) → At lp e → R e)
      → ((e : EvalError) → At rp e → R e)
      → Settles Any R right
      → Settles Any R (eval_logical ops settles lp rp l right)
  unfolding eval_logical
  eval_logical-Settles false lp rp (Value.bool false) right f g h = gives tt
  eval_logical-Settles false lp rp (Value.bool true) right f g h =
      Settles-bind h λ v _. Settles-map (logical_right-Settles lp rp v) (λ w u. u) g
  eval_logical-Settles true lp rp (Value.bool true) right f g h = gives tt
  eval_logical-Settles true lp rp (Value.bool false) right f g h =
      Settles-bind h λ v _. Settles-map (logical_right-Settles lp rp v) (λ w u. u) g
  eval_logical-Settles false lp rp l right f g h =
      Settles-error_at lp (describe_logical_rejection ops l)
        (describe_logical_rejection-IsBuilt ops formats l) (λ t. f _ refl)
  eval_logical-Settles true lp rp l right f g h =
      Settles-error_at lp (describe_logical_rejection ops l)
        (describe_logical_rejection-IsBuilt ops formats l) (λ t. f _ refl)

  eval_binary-Settles :
      {R : EvalError → Type 0} (o : BinaryOperator) (p lp rp : ℕ) (left right : Evaluated (Value A))
      → ((e : EvalError) → AtSide p lp rp e → R e)
      → Settles Any R left
      → Settles Any R right
      → Settles Any R (eval_binary ops o p lp rp left right)
  unfolding eval_binary
  eval_binary-Settles BinaryOperator.and p lp rp left right f h k = Settles-bind h λ l _.
      eval_logical-Settles false lp rp l right (λ e a. f e (inr (inl a))) (λ e a. f e (inr (inr a)))
        k
  eval_binary-Settles BinaryOperator.or p lp rp left right f h k = Settles-bind h λ l _.
      eval_logical-Settles true lp rp l right (λ e a. f e (inr (inl a))) (λ e a. f e (inr (inr a)))
        k
  eval_binary-Settles o p lp rp left right f h k =
      Settles-bind h
        λ l _. Settles-bind k λ r _. Settles-map (eval_strict-Settles o p lp rp l r) (λ v u. u) f

  -- `Eval` does not panic, and each error of it points to the start of a node of the expression.
  pub eval-Settles :
      (lookup : Lookup A) (n : Node A)
      → Settles (λ v. Unit {0}) (λ e. StartsAt e.position n) (eval ops lookup n)
  unfolding eval
  eval-Settles lookup (number_literal p f) = gives tt
  eval-Settles lookup (string_literal p s) = gives tt
  eval-Settles lookup (boolean_literal p b) = gives tt
  eval-Settles lookup (identifier p name) = found (lookup name)
    where
      found : (v : Option (Value A)) → Settles Any (At p) (identifier_value ops name p v)
      found (some v) = gives tt
      found none = raises refl
  eval-Settles lookup (unary_expr p o a) =
      Settles-bind (Settles-map (eval-Settles lookup a) (λ v u. u) (λ e s. inr s))
        λ v _. Settles-map (eval_unary-Settles o p v) (λ w u. u) (λ e s. inl s)
  eval-Settles lookup (binary_expr p o a b) =
      eval_binary-Settles o p (start a) (start b) _ _ (λ e s. sides e s)
        (Settles-map (eval-Settles lookup a) (λ v u. u) (λ e s. inr (inl s)))
        (Settles-map (eval-Settles lookup b) (λ v u. u) (λ e s. inr (inr s)))
    where
      sides :
          (e : EvalError)
          → AtSide p (start a) (start b) e
          → StartsAt e.position (binary_expr p o a b)
      sides e (inl h) = inl h
      sides e (inr (inl h)) = inr (inl (StartsAt-eq e.position a h))
      sides e (inr (inr h)) = inr (inr (StartsAt-eq e.position b h))
  eval-Settles lookup (cast_expr p f a) =
      Settles-bind (Settles-map (eval-Settles lookup a) (λ v u. u) (λ e s. inr s)) λ v _.
        Settles-map (eval_cast-Settles f v (start a)) (λ w u. u)
          (λ e s. inr (StartsAt-eq e.position a s))
