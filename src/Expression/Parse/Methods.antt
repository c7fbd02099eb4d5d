-- ===== src/Expression/Parse/Methods.antt =====
-- The methods of `parser` from `parsePrimary` down to `parseOr`, and `Parse`. `inner` is `parseOr`,
-- which a parenthesis and a cast call again.
use atomyx.Prelude.{
  ℕ, zero, suc, ◌++◌, Bool, true, false, ◌||◌, [], ◌∷◌, Option, none, some, if◌then◌else◌, length,
  Text, codes, text_eq,
}
use atomyx.Expression.Outcome.{Outcome, ok, fail, panic, out_of_fuel, ◌>>=◌}
use atomyx.Expression.Token.{TokenKind, Token, describe_token}
use atomyx.Expression.Tokenize.Scan.{tokenize}
use atomyx.Expression.Float.{FloatOps}
use atomyx.Expression.Ast.{
  UnaryOperator, CastFunction, Node, number_literal, string_literal, boolean_literal, identifier,
  unary_expr, cast_expr,
}
use atomyx.Expression.Parse.Levels.{
  Tokens, Parser, is_punct, is_keyword, is_eof, advance, expect_punct, or_operator, and_operator,
  equality_operator, comparison_operator, additive_operator, multiplicative_operator, binary_level,
}

-- `isCastFunctionName`, with the conversion `CastFunction(token.Value)`
unfoldable pub cast_function : Text → Option CastFunction
unfolding text_eq
cast_function name =
    if text_eq name (codes "number")
    then some CastFunction.number
    else if text_eq name (codes "string")
    then some CastFunction.string
    else if text_eq name (codes "bool")
    then some CastFunction.bool
    else none

unfoldable pub followed_by_call : Tokens → Bool
unfolding is_punct
followed_by_call [] = false
followed_by_call (t ∷ ts) = is_punct (codes "(") t

unfoldable pub is_boolean_name : Text → Bool
unfolding text_eq
is_boolean_name name = text_eq name (codes "true") || text_eq name (codes "false")

module _ {A : Type 0} (ops : FloatOps A) (inner : Parser A) where
  -- what follows an opening parenthesis: an expression and the closing one
  unfoldable pub parse_enclosed : Parser A
  unfolding expect_punct
  parse_enclosed ts =
      inner ts >>= λ (node, rest). expect_punct (codes ")") rest >>= λ after. ok (node, after)

  abbrev unknown_function : Token → Outcome (Node A × Tokens)
  unknown_function t = fail (record {
    message =
        codes "unknown function \""
        ++ (t.value ++ codes "\", only number, string, and bool are callable");
    position = t.position;
  })

  -- the branches of `parseIdentifierLike` behind the test for a call
  unfoldable pub parse_call : Token → Option CastFunction → Tokens → Outcome (Node A × Tokens)
  unfolding parse_enclosed advance
  parse_call t none ts = unknown_function t
  parse_call t (some function) [] = panic
  parse_call t (some function) (paren ∷ ts) =
      parse_enclosed (advance paren ts) >>= λ (argument, rest).
      ok (cast_expr t.position function argument, rest)

  unfoldable pub parse_identifier_like : Token → Tokens → Outcome (Node A × Tokens)
  unfolding is_boolean_name followed_by_call parse_call cast_function advance
  parse_identifier_like t ts =
      if is_boolean_name t.value
      then ok (boolean_literal t.position (text_eq t.value (codes "true")), advance t ts)
      else if followed_by_call ts
      then parse_call t (cast_function t.value) (advance t ts)
      else ok (identifier t.position t.value, advance t ts)

  unfoldable pub parse_parenthesis : Token → Tokens → Outcome (Node A × Tokens)
  unfolding is_punct advance parse_enclosed describe_token
  parse_parenthesis t ts =
      if is_punct (codes "(") t
      then parse_enclosed (advance t ts)
      else fail (record {
        message = codes "expected an expression but found \"" ++ (describe_token t ++ codes "\"");
        position = t.position;
      })

  -- the `switch` of `parsePrimary`
  unfoldable pub parse_kind : TokenKind → Token → Tokens → Outcome (Node A × Tokens)
  unfolding parse_identifier_like parse_parenthesis advance
  parse_kind TokenKind.number t ts =
      ok (number_literal t.position (ops.parse_float t.value), advance t ts)
  parse_kind TokenKind.string t ts = ok (string_literal t.position t.value, advance t ts)
  parse_kind TokenKind.identifier t ts = parse_identifier_like t ts
  parse_kind _ t ts = parse_parenthesis t ts

  unfoldable pub parse_primary : Parser A
  unfolding parse_kind
  parse_primary [] = panic
  parse_primary (t ∷ ts) = parse_kind t.kind t ts

  -- A punctuation token is no end of input, so `advance` drops it: here and in `parse_not` the
  -- recursion is on the tokens.
  unfoldable pub parse_unary : Parser A
  unfolding is_punct parse_primary
  parse_unary [] = panic
  parse_unary (t ∷ ts) = elim (is_punct (codes "-") t) [
    | true ↦ parse_unary ts >>= λ (argument, rest).
        ok (unary_expr t.position UnaryOperator.minus argument, rest)
    | false ↦ parse_primary (t ∷ ts)
  ]

  unfoldable pub parse_multiplicative : Parser A
  unfolding binary_level multiplicative_operator parse_unary
  parse_multiplicative = binary_level multiplicative_operator parse_unary

  unfoldable pub parse_additive : Parser A
  unfolding binary_level additive_operator parse_multiplicative
  parse_additive = binary_level additive_operator parse_multiplicative

  unfoldable pub parse_comparison : Parser A
  unfolding binary_level comparison_operator parse_additive
  parse_comparison = binary_level comparison_operator parse_additive

  unfoldable pub parse_equality : Parser A
  unfolding binary_level equality_operator parse_comparison
  parse_equality = binary_level equality_operator parse_comparison

  unfoldable pub parse_not : Parser A
  unfolding is_keyword parse_equality
  parse_not [] = panic
  parse_not (t ∷ ts) = elim (is_keyword (codes "not") t) [
    | true ↦ parse_not ts >>= λ (argument, rest).
        ok (unary_expr t.position UnaryOperator.not argument, rest)
    | false ↦ parse_equality (t ∷ ts)
  ]

  unfoldable pub parse_and : Parser A
  unfolding binary_level and_operator parse_not
  parse_and = binary_level and_operator parse_not

  unfoldable pub parse_or_with : Parser A
  unfolding binary_level or_operator parse_and
  parse_or_with = binary_level or_operator parse_and

module _ {A : Type 0} (ops : FloatOps A) where
  -- `parseOr`, on fuel: each nested call stands behind a parenthesis.
  unfoldable pub parse_or : ℕ → Parser A
  unfolding parse_or_with
  parse_or zero ts = out_of_fuel
  parse_or (suc fuel) ts = parse_or_with ops (parse_or fuel) ts

  -- the test for trailing input
  unfoldable pub finish : Node A → Tokens → Outcome (Node A)
  unfolding is_eof describe_token
  finish node [] = panic
  finish node (t ∷ ts) =
      if is_eof t
      then ok node
      else fail (record {
        message = codes "unexpected trailing input \"" ++ (describe_token t ++ codes "\"");
        position = t.position;
      })

  unfoldable pub parse_tokens : Tokens → Outcome (Node A)
  unfolding parse_or finish is_eof
  parse_tokens [] = panic
  parse_tokens (t ∷ ts) =
      if is_eof t
      then fail (record { message = codes "expression source is empty"; position = 0 })
      else (parse_or (length (t ∷ ts)) (t ∷ ts) >>= λ (node, rest). finish node rest)

  unfoldable pub parse : Text → Outcome (Node A)
  unfolding tokenize parse_tokens
  parse source = tokenize source >>= parse_tokens
