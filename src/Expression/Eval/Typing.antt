-- ===== src/Expression/Eval/Typing.antt =====
-- An expression that has a kind evaluates to a value of the kind, or fails dynamically.
use atomyx.Prelude.{ℕ, ◌≡◌, refl, Bool, true, false, Option, Text, codes, text_eq}
use atomyx.Expression.Outcome.{EvalError}
use atomyx.Expression.Float.{FloatOps}
use atomyx.Expression.FormatNumber.Shape.{FormatsScientific, format_number-total}
use atomyx.Expression.Value.{Kind, Value, kind}
use atomyx.Expression.Ast.{BinaryOperator, UnaryOperator, CastFunction, Node, start}
use atomyx.Expression.Eval.Messages.{Evaluated}
use atomyx.Expression.Eval.Settles.{Settles, gives, raises, Settles-bind, Settles-map, Settles-if}
use atomyx.Expression.Eval.Cast.{strict_number, eval_cast, string_result}
use atomyx.Expression.Eval.Run.{
  Lookup, eval_unary, eval_strict, eval_logical, eval_binary, eval, identifier_value, logical_right,
}
use atomyx.Expression.Eval.Kinds.{
  IsLogical, IsEquality, IsComparison, IsArithmetic, Casts, HasKind, Agrees, DynamicError,
  division_by_zero, modulo_by_zero, not_a_number, not_a_boolean, number_of_number, number_of_string,
  string_of, bool_of_bool, bool_of_string, number, string, boolean, variable, minus, negation,
  logical, equality, comparison, arithmetic, cast,
}

data OfKind {A : Type 0} : Value A → Kind → Type 0 where
  of_number : {f : A} → OfKind (Value.number f) Kind.number
  of_string : {s : Text} → OfKind (Value.string s) Kind.string
  of_bool : {b : Bool} → OfKind (Value.bool b) Kind.bool

OfKind-kind : {A : Type 0} (v : Value A) → OfKind v (kind v)
unfolding kind
OfKind-kind (Value.number f) = of_number
OfKind-kind (Value.string s) = of_string
OfKind-kind (Value.bool b) = of_bool

kind-OfKind : {A : Type 0} {v : Value A} {k : Kind} → OfKind v k → kind v ≡ k
unfolding kind
kind-OfKind of_number = refl
kind-OfKind of_string = refl
kind-OfKind of_bool = refl

abbrev Dynamic : EvalError → Type 0
Dynamic e = DynamicError e.message

abbrev Gives : {A : Type 0} → Kind → Evaluated (Value A) → Type 0
Gives k = Settles (λ v. OfKind v k) Dynamic

module _ {A : Type 0} (ops : FloatOps A) (formats : FormatsScientific ops) where
  eval_cast-Gives :
      {f : CastFunction} {j k : Kind} {v : Value A} (p : ℕ)
      → Casts f j k
      → OfKind v j
      → Gives k (eval_cast ops f v p)
  unfolding eval_cast
  eval_cast-Gives p number_of_number of_number = gives of_number
  eval_cast-Gives p number_of_string (of_string {s}) =
      Settles-if (strict_number s) (λ _. gives of_number) (λ _. raises (not_a_number s refl))
  eval_cast-Gives p string_of (of_number {f}) =
      let (t, e) = format_number-total ops formats f in rw (e, string_result) (gives of_string)
  eval_cast-Gives p string_of of_string = gives of_string
  eval_cast-Gives p string_of (of_bool {b}) = booleans b
    where
      booleans : (b : Bool) → Gives Kind.string (eval_cast ops CastFunction.string (Value.bool b) p)
      booleans true = gives of_string
      booleans false = gives of_string
  eval_cast-Gives p bool_of_bool of_bool = gives of_bool
  eval_cast-Gives p bool_of_string (of_string {s}) =
      Settles-if (text_eq s (codes "true")) (λ _. gives of_bool)
        λ _.
          Settles-if (text_eq s (codes "false")) (λ _. gives of_bool)
            λ _. raises (not_a_boolean s refl)

  eval_strict-equality :
      {o : BinaryOperator} (p lp rp : ℕ) (l r : Value A)
      → IsEquality o
      → Gives Kind.bool (eval_strict ops o p lp rp l r)
  unfolding eval_strict
  eval_strict-equality p lp rp l r IsEquality.eq = gives of_bool
  eval_strict-equality p lp rp l r IsEquality.neq = gives of_bool

  eval_strict-comparison :
      {o : BinaryOperator} (p lp rp : ℕ) {l r : Value A}
      → IsComparison o
      → OfKind l Kind.number
      → OfKind r Kind.number
      → Gives Kind.bool (eval_strict ops o p lp rp l r)
  unfolding eval_strict
  eval_strict-comparison p lp rp IsComparison.lt of_number of_number = gives of_bool
  eval_strict-comparison p lp rp IsComparison.lte of_number of_number = gives of_bool
  eval_strict-comparison p lp rp IsComparison.gt of_number of_number = gives of_bool
  eval_strict-comparison p lp rp IsComparison.gte of_number of_number = gives of_bool

  eval_strict-arithmetic :
      {o : BinaryOperator} (p lp rp : ℕ) {l r : Value A}
      → IsArithmetic o
      → OfKind l Kind.number
      → OfKind r Kind.number
      → Gives Kind.number (eval_strict ops o p lp rp l r)
  unfolding eval_strict
  eval_strict-arithmetic p lp rp IsArithmetic.add of_number of_number = gives of_number
  eval_strict-arithmetic p lp rp IsArithmetic.sub of_number of_number = gives of_number
  eval_strict-arithmetic p lp rp IsArithmetic.mul of_number of_number = gives of_number
  eval_strict-arithmetic p lp rp IsArithmetic.div of_number (of_number {f}) =
      Settles-if (ops.eq f ops.zero_value) (λ _. raises division_by_zero) (λ _. gives of_number)
  eval_strict-arithmetic p lp rp IsArithmetic.modulo of_number (of_number {f}) =
      Settles-if (ops.eq f ops.zero_value) (λ _. raises modulo_by_zero) (λ _. gives of_number)

  eval_logical-Gives :
      (settles : Bool) (lp rp : ℕ) {l : Value A} (right : Evaluated (Value A))
      → OfKind l Kind.bool
      → Gives Kind.bool right
      → Gives Kind.bool (eval_logical ops settles lp rp l right)
  unfolding eval_logical
  eval_logical-Gives settles lp rp right (of_bool {b}) h = cases settles b
    where
      read : (v : Value A) → OfKind v Kind.bool → Gives Kind.bool (logical_right ops rp v)
      read _ of_bool = gives of_bool

      cases :
          (settles b : Bool) → Gives Kind.bool (eval_logical ops settles lp rp (Value.bool b) right)
      cases true true = gives of_bool
      cases true false = Settles-bind h read
      cases false true = Settles-bind h read
      cases false false = gives of_bool

  eval_binary-logical :
      {o : BinaryOperator} (p lp rp : ℕ) (left right : Evaluated (Value A))
      → IsLogical o
      → Gives Kind.bool left
      → Gives Kind.bool right
      → Gives Kind.bool (eval_binary ops o p lp rp left right)
  unfolding eval_binary
  eval_binary-logical p lp rp left right IsLogical.and h k =
      Settles-bind h λ l u. eval_logical-Gives false lp rp right u k
  eval_binary-logical p lp rp left right IsLogical.or h k =
      Settles-bind h λ l u. eval_logical-Gives true lp rp right u k

  eval_binary-equality :
      {o : BinaryOperator} (p lp rp : ℕ) (i j : Kind) (left right : Evaluated (Value A))
      → IsEquality o
      → Gives i left
      → Gives j right
      → Gives Kind.bool (eval_binary ops o p lp rp left right)
  unfolding eval_binary
  eval_binary-equality p lp rp i j left right IsEquality.eq h k =
      Settles-bind h λ l u. Settles-bind k λ r v. eval_strict-equality p lp rp l r IsEquality.eq
  eval_binary-equality p lp rp i j left right IsEquality.neq h k =
      Settles-bind h λ l u. Settles-bind k λ r v. eval_strict-equality p lp rp l r IsEquality.neq

  eval_binary-comparison :
      {o : BinaryOperator} (p lp rp : ℕ) (left right : Evaluated (Value A))
      → IsComparison o
      → Gives Kind.number left
      → Gives Kind.number right
      → Gives Kind.bool (eval_binary ops o p lp rp left right)
  unfolding eval_binary
  eval_binary-comparison p lp rp left right IsComparison.lt h k =
      Settles-bind h λ l u. Settles-bind k λ r v. eval_strict-comparison p lp rp IsComparison.lt u v
  eval_binary-comparison p lp rp left right IsComparison.lte h k =
      Settles-bind h
        λ l u. Settles-bind k λ r v. eval_strict-comparison p lp rp IsComparison.lte u v
  eval_binary-comparison p lp rp left right IsComparison.gt h k =
      Settles-bind h λ l u. Settles-bind k λ r v. eval_strict-comparison p lp rp IsComparison.gt u v
  eval_binary-comparison p lp rp left right IsComparison.gte h k =
      Settles-bind h
        λ l u. Settles-bind k λ r v. eval_strict-comparison p lp rp IsComparison.gte u v

  eval_binary-arithmetic :
      {o : BinaryOperator} (p lp rp : ℕ) (left right : Evaluated (Value A))
      → IsArithmetic o
      → Gives Kind.number left
      → Gives Kind.number right
      → Gives Kind.number (eval_binary ops o p lp rp left right)
  unfolding eval_binary
  eval_binary-arithmetic p lp rp left right IsArithmetic.add h k =
      Settles-bind h
        λ l u. Settles-bind k λ r v. eval_strict-arithmetic p lp rp IsArithmetic.add u v
  eval_binary-arithmetic p lp rp left right IsArithmetic.sub h k =
      Settles-bind h
        λ l u. Settles-bind k λ r v. eval_strict-arithmetic p lp rp IsArithmetic.sub u v
  eval_binary-arithmetic p lp rp left right IsArithmetic.mul h k =
      Settles-bind h
        λ l u. Settles-bind k λ r v. eval_strict-arithmetic p lp rp IsArithmetic.mul u v
  eval_binary-arithmetic p lp rp left right IsArithmetic.div h k =
      Settles-bind h
        λ l u. Settles-bind k λ r v. eval_strict-arithmetic p lp rp IsArithmetic.div u v
  eval_binary-arithmetic p lp rp left right IsArithmetic.modulo h k =
      Settles-bind h
        λ l u. Settles-bind k λ r v. eval_strict-arithmetic p lp rp IsArithmetic.modulo u v

module _ {A : Type 0} (ops : FloatOps A) (formats : FormatsScientific ops)
    (kinds : Text → Option Kind) (lookup : Lookup A) (agrees : Agrees kinds lookup) where
  eval-Gives : {n : Node A} {k : Kind} → HasKind kinds n k → Gives k (eval ops lookup n)
  unfolding eval eval_unary
  eval-Gives number = gives of_number
  eval-Gives string = gives of_string
  eval-Gives boolean = gives of_bool
  eval-Gives (variable {p} {name} {k} e) =
      let (v, found, same) = agrees name k e in
      rw (found, identifier_value) (gives (rw same at (OfKind-kind v)))
  eval-Gives (minus {p} h) = Settles-bind (eval-Gives h) negative
    where
      negative :
          (v : Value A)
          → OfKind v Kind.number
          → Gives Kind.number (eval_unary ops UnaryOperator.minus p v)
      negative _ of_number = gives of_number
  eval-Gives (negation {p} h) = Settles-bind (eval-Gives h) opposite
    where
      opposite :
          (v : Value A)
          → OfKind v Kind.bool
          → Gives Kind.bool (eval_unary ops UnaryOperator.not p v)
      opposite _ of_bool = gives of_bool
  eval-Gives (logical {p} {o} {a} {b} i h k) =
      eval_binary-logical ops formats p (start a) (start b) _ _ i (eval-Gives h) (eval-Gives k)
  eval-Gives (equality {p} {o} {a} {b} j l i h k) =
      eval_binary-equality ops formats p (start a) (start b) j l _ _ i (eval-Gives h) (eval-Gives k)
  eval-Gives (comparison {p} {o} {a} {b} i h k) =
      eval_binary-comparison ops formats p (start a) (start b) _ _ i (eval-Gives h) (eval-Gives k)
  eval-Gives (arithmetic {p} {o} {a} {b} i h k) =
      eval_binary-arithmetic ops formats p (start a) (start b) _ _ i (eval-Gives h) (eval-Gives k)
  eval-Gives (cast {n} j c h) =
      Settles-bind (eval-Gives h) λ v u. eval_cast-Gives ops formats (start n) c u

  -- An expression that has a kind, under variables that agree with theirs, evaluates to a value of
  -- that kind, or fails with a zero divisor or with a text that a cast refuses, and no other way.
  pub eval-HasKind :
      {n : Node A} {k : Kind}
      → HasKind kinds n k
      → Settles (λ v. kind v ≡ k) (λ e. DynamicError e.message) (eval ops lookup n)
  eval-HasKind h = Settles-map (eval-Gives h) (λ v u. kind-OfKind u) (λ e d. d)
