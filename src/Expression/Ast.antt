-- ===== src/Expression/Ast.antt =====
-- core/internal/script/expression/ast.go, over the type `A` of float64 values.
use atomyx.Prelude.{ℕ, Bool, Text}

pub data BinaryOperator : Type 0 where
  or and eq neq lt lte gt gte add sub mul div modulo : BinaryOperator

pub data UnaryOperator : Type 0 where
  minus not : UnaryOperator

pub data CastFunction : Type 0 where
  number string bool : CastFunction

-- Each node carries its `StartPos` first.
pub data Node (A : Type 0) : Type 0 where
  number_literal : ℕ → A → Node A
  string_literal : ℕ → Text → Node A
  boolean_literal : ℕ → Bool → Node A
  identifier : ℕ → Text → Node A
  unary_expr : ℕ → UnaryOperator → Node A → Node A
  binary_expr : ℕ → BinaryOperator → Node A → Node A → Node A
  cast_expr : ℕ → CastFunction → Node A → Node A

-- `Start`
unfoldable pub start : {A : Type 0} → Node A → ℕ
start (number_literal p v) = p
start (string_literal p v) = p
start (boolean_literal p v) = p
start (identifier p v) = p
start (unary_expr p o a) = p
start (binary_expr p o a b) = p
start (cast_expr p f a) = p
