-- ===== src/Expression/Parse/Levels.antt =====
-- `Parse` and the methods of `parser`. A method takes the tokens from the current one on, and
-- returns a node and the tokens that follow it.
use atomyx.Prelude.{
  ℕ, zero, suc, ◌++◌, Bool, ◌&&◌, List, [], ◌∷◌, Option, none, some, if◌then◌else◌, length, Text,
  codes, text_eq,
}
use atomyx.Expression.Outcome.{Outcome, ok, fail, panic, out_of_fuel, ◌>>=◌}
use atomyx.Expression.Token.{TokenKind, kind_eq, Token, describe_token}
use atomyx.Expression.Ast.{BinaryOperator, Node, binary_expr, start}

abbrev pub Tokens : Type 0
Tokens = List Token

abbrev pub Parser : Type 0 → Type 0
Parser A = Tokens → Outcome (Node A × Tokens)

unfoldable pub is_punct : Text → Token → Bool
unfolding kind_eq text_eq
is_punct value t = kind_eq t.kind TokenKind.punct && text_eq t.value value

unfoldable pub is_keyword : Text → Token → Bool
unfolding kind_eq text_eq
is_keyword value t = kind_eq t.kind TokenKind.identifier && text_eq t.value value

unfoldable pub is_eof : Token → Bool
unfolding kind_eq
is_eof t = kind_eq t.kind TokenKind.eof

unfoldable pub advance : Token → Tokens → Tokens
unfolding is_eof
advance t ts = if is_eof t then t ∷ ts else ts

unfoldable pub expect_punct : Text → Tokens → Outcome Tokens
unfolding is_punct advance describe_token
expect_punct value [] = panic
expect_punct value (t ∷ ts) =
    if is_punct value t
    then ok (advance t ts)
    else fail (record {
      message =
          codes "expected \""
          ++ (value ++ (codes "\" but found \"" ++ (describe_token t ++ codes "\"")));
      position = t.position;
    })

-- The operators that the loops of the six binary levels test for.
unfoldable pub or_operator : Token → Option BinaryOperator
unfolding is_keyword
or_operator t = if is_keyword (codes "or") t then some BinaryOperator.or else none

unfoldable pub and_operator : Token → Option BinaryOperator
unfolding is_keyword
and_operator t = if is_keyword (codes "and") t then some BinaryOperator.and else none

unfoldable pub equality_operator : Token → Option BinaryOperator
unfolding is_punct
equality_operator t =
    if is_punct (codes "==") t
    then some BinaryOperator.eq
    else if is_punct (codes "!=") t
    then some BinaryOperator.neq
    else none

unfoldable pub comparison_operator : Token → Option BinaryOperator
unfolding is_punct
comparison_operator t =
    if is_punct (codes "<") t
    then some BinaryOperator.lt
    else if is_punct (codes "<=") t
    then some BinaryOperator.lte
    else if is_punct (codes ">") t
    then some BinaryOperator.gt
    else if is_punct (codes ">=") t
    then some BinaryOperator.gte
    else none

unfoldable pub additive_operator : Token → Option BinaryOperator
unfolding is_punct
additive_operator t =
    if is_punct (codes "+") t
    then some BinaryOperator.add
    else if is_punct (codes "-") t
    then some BinaryOperator.sub
    else none

unfoldable pub multiplicative_operator : Token → Option BinaryOperator
unfolding is_punct
multiplicative_operator t =
    if is_punct (codes "*") t
    then some BinaryOperator.mul
    else if is_punct (codes "/") t
    then some BinaryOperator.div
    else if is_punct (codes "%") t
    then some BinaryOperator.modulo
    else none

module _ {A : Type 0} where
  -- The `for` loop of a binary level, with `next` the method of the level above it.
  unfoldable pub binary_loop :
      (Token → Option BinaryOperator) → Parser A → ℕ → Node A → Tokens → Outcome (Node A × Tokens)
  unfolding start
  binary_loop operator next fuel left [] = panic
  binary_loop operator next zero left (t ∷ ts) = elim (operator t) [
    | none ↦ ok (left, t ∷ ts)
    | some o ↦ out_of_fuel
  ]
  binary_loop operator next (suc fuel) left (t ∷ ts) = elim (operator t) [
    | none ↦ ok (left, t ∷ ts)
    | some o ↦ next (advance t ts) >>= λ (right, rest).
        binary_loop operator next fuel (binary_expr (start left) o left right) rest
  ]

  unfoldable pub binary_level : (Token → Option BinaryOperator) → Parser A → Parser A
  unfolding binary_loop
  binary_level operator next ts =
      next ts >>= λ (left, rest). binary_loop operator next (length rest) left rest
