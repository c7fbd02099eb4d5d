-- ===== src/Expression/Eval/Kinds.antt =====
-- The kinds of expressions, given the kinds of variables. No conversion is implied: a kind changes
-- only at a cast, a comparison or an equality.
use atomyx.Prelude.{ℕ, ◌≡◌, ◌++◌, Option, some, Bool, Text, codes}
use atomyx.Expression.Value.{Kind, Value, kind}
use atomyx.Expression.Ast.{
  BinaryOperator, UnaryOperator, CastFunction, Node, number_literal, string_literal,
  boolean_literal, identifier, unary_expr, binary_expr, cast_expr,
}
use atomyx.Expression.Eval.Run.{Lookup}

pub data IsLogical : BinaryOperator → Type 0 where
  and : IsLogical BinaryOperator.and
  or : IsLogical BinaryOperator.or

pub data IsEquality : BinaryOperator → Type 0 where
  eq : IsEquality BinaryOperator.eq
  neq : IsEquality BinaryOperator.neq

pub data IsComparison : BinaryOperator → Type 0 where
  lt : IsComparison BinaryOperator.lt
  lte : IsComparison BinaryOperator.lte
  gt : IsComparison BinaryOperator.gt
  gte : IsComparison BinaryOperator.gte

pub data IsArithmetic : BinaryOperator → Type 0 where
  add : IsArithmetic BinaryOperator.add
  sub : IsArithmetic BinaryOperator.sub
  mul : IsArithmetic BinaryOperator.mul
  div : IsArithmetic BinaryOperator.div
  modulo : IsArithmetic BinaryOperator.modulo

-- Which kinds a cast takes, and the kind that it gives.
pub data Casts : CastFunction → Kind → Kind → Type 0 where
  number_of_number : Casts CastFunction.number Kind.number Kind.number
  number_of_string : Casts CastFunction.number Kind.string Kind.number
  string_of : {k : Kind} → Casts CastFunction.string k Kind.string
  bool_of_bool : Casts CastFunction.bool Kind.bool Kind.bool
  bool_of_string : Casts CastFunction.bool Kind.string Kind.bool

pub data HasKind {A : Type 0} (kinds : Text → Option Kind) : Node A → Kind → Type 0 where
  number : {p : ℕ} {f : A} → HasKind kinds (number_literal p f) Kind.number
  string : {p : ℕ} {s : Text} → HasKind kinds (string_literal p s) Kind.string
  boolean : {p : ℕ} {b : Bool} → HasKind kinds (boolean_literal p b) Kind.bool
  variable :
      {p : ℕ} {name : Text} {k : Kind} → kinds name ≡ some k → HasKind kinds (identifier p name) k
  minus :
      {p : ℕ} {n : Node A}
      → HasKind kinds n Kind.number
      → HasKind kinds (unary_expr p UnaryOperator.minus n) Kind.number
  negation :
      {p : ℕ} {n : Node A}
      → HasKind kinds n Kind.bool
      → HasKind kinds (unary_expr p UnaryOperator.not n) Kind.bool
  logical :
      {p : ℕ} {o : BinaryOperator} {a b : Node A}
      → IsLogical o
      → HasKind kinds a Kind.bool
      → HasKind kinds b Kind.bool
      → HasKind kinds (binary_expr p o a b) Kind.bool
  equality :
      {p : ℕ} {o : BinaryOperator} {a b : Node A} (j k : Kind)
      → IsEquality o
      → HasKind kinds a j
      → HasKind kinds b k
      → HasKind kinds (binary_expr p o a b) Kind.bool
  comparison :
      {p : ℕ} {o : BinaryOperator} {a b : Node A}
      → IsComparison o
      → HasKind kinds a Kind.number
      → HasKind kinds b Kind.number
      → HasKind kinds (binary_expr p o a b) Kind.bool
  arithmetic :
      {p : ℕ} {o : BinaryOperator} {a b : Node A}
      → IsArithmetic o
      → HasKind kinds a Kind.number
      → HasKind kinds b Kind.number
      → HasKind kinds (binary_expr p o a b) Kind.number
  cast :
      {p : ℕ} {f : CastFunction} {n : Node A} {k : Kind} (j : Kind)
      → Casts f j k
      → HasKind kinds n j
      → HasKind kinds (cast_expr p f n) k

-- Each variable that has a kind is defined, with a value of the kind.
abbrev pub Agrees : {A : Type 0} → (Text → Option Kind) → Lookup A → Type 0
Agrees {A} kinds lookup =
    (name : Text) (k : Kind)
    → kinds name ≡ some k
    → (v : Value A) × (lookup name ≡ some v) × (kind v ≡ k)

-- What may fail in an expression that has a kind: a zero divisor, or a text that a cast refuses.
pub data DynamicError : Text → Type 0 where
  division_by_zero : DynamicError (codes "division by zero")
  modulo_by_zero : DynamicError (codes "modulo by zero")
  not_a_number :
      {m : Text} (s : Text)
      → m ≡ codes "cannot convert \"" ++ (s ++ codes "\" to a number")
      → DynamicError m
  not_a_boolean :
      {m : Text} (s : Text)
      → m
        ≡ codes "cannot convert \""
          ++ (s ++ codes "\" to a boolean, expected \"true\" or \"false\"")
      → DynamicError m
