-- ===== src/Expression/Parse/Grammar.antt =====
-- The grammar of the expression language: nine levels, from `or` down to the primaries, and which
-- node a run of tokens derives at a level. No parser state and no lookahead stand in it.
use atomyx.Prelude.{◌≡◌, true, false, [], ◌∷◌, ◌++◌, Option, none, some, codes, text_eq}
use atomyx.Expression.Token.{TokenKind, Token}
use atomyx.Expression.Float.{FloatOps}
use atomyx.Expression.Ast.{
  BinaryOperator, UnaryOperator, CastFunction, Node, number_literal, string_literal,
  boolean_literal, identifier, unary_expr, binary_expr, cast_expr, start,
}
use atomyx.Expression.Parse.Levels.{
  Tokens, is_punct, is_keyword, or_operator, and_operator, equality_operator, comparison_operator,
  additive_operator, multiplicative_operator,
}
use atomyx.Expression.Parse.Methods.{cast_function, is_boolean_name}

-- From the loosest binding to the tightest.
pub data Level : Type 0 where
  at_or at_and at_not at_equality at_comparison at_additive at_multiplicative at_unary at_primary :
      Level

abbrev pub tighter : Level → Level
tighter at_or = at_and
tighter at_and = at_not
tighter at_not = at_equality
tighter at_equality = at_comparison
tighter at_comparison = at_additive
tighter at_additive = at_multiplicative
tighter at_multiplicative = at_unary
tighter _ = at_primary

abbrev pub operator_at : Level → Token → Option BinaryOperator
operator_at at_or = or_operator
operator_at at_and = and_operator
operator_at at_equality = equality_operator
operator_at at_comparison = comparison_operator
operator_at at_additive = additive_operator
operator_at at_multiplicative = multiplicative_operator
operator_at _ = λ t. none

module _ {A : Type 0} (ops : FloatOps A) where
  pub data Derives : Level → Tokens → Node A → Type 0 where
    tight : {l : Level} {ts : Tokens} {n : Node A} → Derives (tighter l) ts n → Derives l ts n
    -- binary operators associate to the left
    binary :
        {l : Level} {ts : Tokens} {a b : Node A} {o : BinaryOperator} (left : Tokens) (t : Token)
        (right : Tokens)
        → ts ≡ left ++ t ∷ right
        → operator_at l t ≡ some o
        → Derives l left a
        → Derives (tighter l) right b
        → Derives l ts (binary_expr (start a) o a b)
    negation :
        {t : Token} {ts : Tokens} {n : Node A}
        → is_keyword (codes "not") t ≡ true
        → Derives at_not ts n
        → Derives at_not (t ∷ ts) (unary_expr t.position UnaryOperator.not n)
    minus :
        {t : Token} {ts : Tokens} {n : Node A}
        → is_punct (codes "-") t ≡ true
        → Derives at_unary ts n
        → Derives at_unary (t ∷ ts) (unary_expr t.position UnaryOperator.minus n)
    number :
        {t : Token}
        → t.kind ≡ TokenKind.number
        → Derives at_primary (t ∷ []) (number_literal t.position (ops.parse_float t.value))
    string :
        {t : Token}
        → t.kind ≡ TokenKind.string
        → Derives at_primary (t ∷ []) (string_literal t.position t.value)
    boolean :
        {t : Token}
        → t.kind ≡ TokenKind.identifier
        → is_boolean_name t.value ≡ true
        → Derives at_primary (t ∷ []) (boolean_literal t.position (text_eq t.value (codes "true")))
    name :
        {t : Token}
        → t.kind ≡ TokenKind.identifier
        → is_boolean_name t.value ≡ false
        → Derives at_primary (t ∷ []) (identifier t.position t.value)
    enclosed :
        {all : Tokens} {n : Node A} (open' close' : Token) (ts : Tokens)
        → is_punct (codes "(") open' ≡ true
        → is_punct (codes ")") close' ≡ true
        → all ≡ open' ∷ (ts ++ close' ∷ [])
        → Derives at_or ts n
        → Derives at_primary all n
    cast :
        {all : Tokens} {n : Node A} {f : CastFunction} (t open' close' : Token) (ts : Tokens)
        → t.kind ≡ TokenKind.identifier
        → is_boolean_name t.value ≡ false
        → cast_function t.value ≡ some f
        → is_punct (codes "(") open' ≡ true
        → is_punct (codes ")") close' ≡ true
        → all ≡ t ∷ open' ∷ (ts ++ close' ∷ [])
        → Derives at_or ts n
        → Derives at_primary all (cast_expr t.position f n)
