-- ===== src/Expression/Samples.antt =====
-- Runs of the expression engine, and its theorems at concrete inputs. Numbers stand for float64.
use atomyx.Prelude.{
  ℕ, ◌+◌, ◌-◌, ◌*◌, ◌/◌, ◌%◌, ◌≤◌, ◌≡◌, refl, Bool, true, false, ◌++◌, Option, none, some, arith,
  ltb, leb, ◌==◌, if◌then◌else◌, length, Text, codes, text_eq,
}
use atomyx.Expression.Outcome.{Returns}
use atomyx.Expression.Utf16.{encode}
use atomyx.Expression.Tokenize.Scan.{tokenize}
use atomyx.Expression.Tokenize.Cover.{Covers, tokenize-Returns}
use atomyx.Expression.Tokenize.StringLiteral.{Within}
use atomyx.Expression.Float.{FloatOps}
use atomyx.Expression.Decimal.{digits_value, itoa, digits_value-itoa}
use atomyx.Expression.FormatNumber.{format_number, is_plain_exponent}
use atomyx.Expression.FormatNumber.Shape.{FormatsScientific, format_number-finite}
use atomyx.Expression.Value.{Kind, Value, kind}
use atomyx.Expression.Eval.Kinds.{
  Agrees, DynamicError, IsArithmetic, string_of, arithmetic, cast, variable, number,
}
use atomyx.Expression.Eval.Typing.{eval-HasKind}
use atomyx.Expression.Ast.{Node}
use atomyx.Expression.Parse.Methods.{parse}
use atomyx.Expression.Source.{IsParse, parse-Returns}
use atomyx.Expression.Eval.Settles.{Settles}
use atomyx.Expression.Eval.Run.{Lookup, eval, result, parse_error, eval_error, evaluate}
use atomyx.Expression.Eval.Blame.{StartsAt, eval-Settles}
use atomyx.Expression.Bounds.{AnswersWithin, evaluate-AnswersWithin}

parse_digits : Text → ℕ
unfolding digits_value
parse_digits s = elim (digits_value 0 s) [ none ↦ 0 | some n ↦ n ]

abbrev ops : FloatOps ℕ
unfolding parse_digits itoa
ops = record {
  add = λ a b. a + b;
  sub = λ a b. a - b;
  mul = λ a b. a * b;
  div = λ a b. a / b;
  fmod = λ a b. a % b;
  neg = λ a. a;
  lt = ltb;
  le = leb;
  eq = λ a b. a == b;
  zero_value = 0;
  parse_float = parse_digits;
  is_nan = λ a. false;
  is_pos_inf = λ a. false;
  is_neg_inf = λ a. false;
  format_e = λ a. itoa a ++ codes "e+00";
  format_f = λ a. itoa a;
}

formats : FormatsScientific ops
unfolding ops digits_value
formats = record {
  scientific = λ f n h l. record {
    mantissa = itoa f;
    minus = false;
    digits = codes "00";
    magnitude = 0;
    shape = refl;
    digits_nonempty = λ e. cc;
    digits_magnitude = refl;
    in_range = omega arith;
  };
}

abbrev lookup : Lookup ℕ
unfolding text_eq
lookup name = if text_eq name (codes "n") then some (Value.number 7) else none

precedence : evaluate ops (codes "1 + 2 * n == 15 and not false") lookup ≡ result (Value.bool true)
unfolding evaluate ops lookup
precedence = refl

short_circuit : evaluate ops (codes "false and missing") lookup ≡ result (Value.bool false)
unfolding evaluate ops lookup
short_circuit = refl

undefined_variable :
    evaluate ops (codes "1 + missing") lookup
    ≡ eval_error (record { message = codes "variable \"missing\" is not defined"; position = 4 })
unfolding evaluate ops lookup
undefined_variable = refl

describes_number :
    evaluate ops (codes "not 12") lookup
    ≡ eval_error (record {
      message =
          codes
            "cannot use number value 12 in a logical operation, a number cannot be used as a boolean";
      position = 0;
    })
unfolding evaluate ops lookup
describes_number = refl

trailing :
    evaluate ops (codes "1 2") lookup
    ≡ parse_error (record { message = codes "unexpected trailing input \"2\""; position = 2 })
unfolding evaluate ops lookup
trailing = refl

unknown_escape :
    evaluate ops (codes "'a\\q'") lookup
    ≡ parse_error (record {
      message = codes "unknown escape sequence \"\\q\" in string literal";
      position = 2;
    })
unfolding evaluate ops lookup
unknown_escape = refl

-- A character beyond the Basic Multilingual Plane moves the position by two.
astral_position :
    evaluate ops (codes "'😀' + x") lookup
    ≡ eval_error (record { message = codes "variable \"x\" is not defined"; position = 7 })
unfolding evaluate ops lookup
astral_position = refl

tokenize-Returns_example :
    Returns
      (Covers 0 (encode (codes "n >= 'x'")))
      (Within 0 (length (encode (codes "n >= 'x'"))))
      (tokenize (codes "n >= 'x'"))
tokenize-Returns_example = tokenize-Returns (codes "n >= 'x'")

parse-Returns_example :
    Returns
      (IsParse ops (codes "(n + 1) * 2"))
      (λ e. e.position ≤ length (encode (codes "(n + 1) * 2")))
      (parse ops (codes "(n + 1) * 2"))
parse-Returns_example = parse-Returns ops (codes "(n + 1) * 2")

abbrev sum : Node ℕ
sum =
    Node.binary_expr 0 atomyx.Expression.Ast.BinaryOperator.add (Node.identifier 0 (codes "n"))
      (Node.string_literal 4 (codes "x"))

eval-Settles_example : Settles (λ v. Unit {0}) (λ e. StartsAt e.position sum) (eval ops lookup sum)
eval-Settles_example = eval-Settles ops formats lookup sum

evaluate-AnswersWithin_example :
    AnswersWithin (length (encode (codes "1 / 0"))) (evaluate ops (codes "1 / 0") lookup)
evaluate-AnswersWithin_example = evaluate-AnswersWithin ops formats (codes "1 / 0") lookup

digits_value-itoa_example : digits_value 0 (itoa 120) ≡ some 120
digits_value-itoa_example = digits_value-itoa 120

format_number-finite_example : format_number ops 5 ≡ some (ops.format_f 5)
unfolding ops formats is_plain_exponent
format_number-finite_example = format_number-finite ops formats 5 refl refl refl refl

-- The kinds of the variables that `lookup` defines.
abbrev kinds : Text → Option Kind
unfolding text_eq
kinds name = if text_eq name (codes "n") then some Kind.number else none

agrees_where :
    (b : Bool) (k : Kind)
    → (if b then some Kind.number else none) ≡ some k
    → (v : Value ℕ) × ((if b then some (Value.number 7) else none) ≡ some v) × (kind v ≡ k)
unfolding kind
agrees_where true k h = (Value.number 7, refl, grind arith)
agrees_where false k h = grind arith

agrees : Agrees kinds lookup
unfolding kinds lookup
agrees name k h = agrees_where (text_eq name (codes "n")) k h

-- `string(n / 0)`
abbrev quotient : Node ℕ
quotient = Node.cast_expr 0 atomyx.Expression.Ast.CastFunction.string (
    Node.binary_expr 7 atomyx.Expression.Ast.BinaryOperator.div (Node.identifier 7 (codes "n"))
      (Node.number_literal 11 0))

eval-HasKind_example :
    Settles (λ v. kind v ≡ Kind.string) (λ e. DynamicError e.message) (eval ops lookup quotient)
unfolding kinds
eval-HasKind_example =
    eval-HasKind ops formats kinds lookup agrees
      (cast Kind.number string_of (arithmetic IsArithmetic.div (variable refl) number))
