-- ===== src/Expression/Eval/Messages.antt =====
-- The outcome of an evaluation, and the messages of eval.go.
use atomyx.Prelude.{ℕ, true, false, ◌++◌, Option, none, some, Text, codes}
use mathlib.Core.Option
use atomyx.Expression.Outcome.{EvalError}
use atomyx.Expression.Float.{FloatOps}
use atomyx.Expression.FormatNumber.{format_number}
use atomyx.Expression.Value.{Value}

pub data Evaluated (V : Type 0) : Type 0 where
  value : V → Evaluated V
  error : EvalError → Evaluated V
  panic : Evaluated V

infixl 1 ◌>>=◌
abbrev pub ◌>>=◌ : {V W : Type 0} → Evaluated V → (V → Evaluated W) → Evaluated W
value v >>= f = f v
error e >>= f = error e
panic >>= f = panic

-- An error at a position whose message is built by code that may panic.
abbrev pub error_at : {V : Type 0} → ℕ → Option Text → Evaluated V
error_at p none = panic
error_at p (some m) = error (record { message = m; position = p })

abbrev pub with_both : Option Text → Option Text → Option Text
with_both (some l) (some r) = some (
    codes "cannot compare "
    ++ (l ++ (codes " and " ++ (r ++ codes ", both sides must be numbers"))))
with_both (some l) none = none
with_both none r = none

abbrev pub boolean_in_arithmetic : Text
boolean_in_arithmetic = codes " in arithmetic, a boolean has no valid numeric conversion"

abbrev pub other_in_arithmetic : Text
other_in_arithmetic = codes " in arithmetic, convert it with number(...)"

abbrev pub number_in_logic : Text
number_in_logic = codes " in a logical operation, a number cannot be used as a boolean"

abbrev pub other_in_logic : Text
other_in_logic = codes " in a logical operation, convert it with bool(...)"

module _ {A : Type 0} (ops : FloatOps A) where
  unfoldable pub describe_value : Value A → Option Text
  unfolding format_number
  describe_value (Value.string s) = some (codes "string value \"" ++ (s ++ codes "\""))
  describe_value (Value.bool true) = some (codes "boolean value true")
  describe_value (Value.bool false) = some (codes "boolean value false")
  describe_value (Value.number f) =
      Option.map (λ t. codes "number value " ++ t) (format_number ops f)

  abbrev pub cannot_use : Text → Value A → Option Text
  cannot_use advice v = Option.map (λ t. codes "cannot use " ++ (t ++ advice)) (describe_value v)

  unfoldable pub describe_arithmetic_rejection : Value A → Option Text
  unfolding describe_value
  describe_arithmetic_rejection (Value.bool b) = cannot_use boolean_in_arithmetic (Value.bool b)
  describe_arithmetic_rejection v = cannot_use other_in_arithmetic v

  unfoldable pub describe_logical_rejection : Value A → Option Text
  unfolding describe_value
  describe_logical_rejection (Value.number f) = cannot_use number_in_logic (Value.number f)
  describe_logical_rejection v = cannot_use other_in_logic v

  unfoldable pub describe_comparison_rejection : Value A → Value A → Option Text
  unfolding describe_value
  describe_comparison_rejection l r = with_both (describe_value l) (describe_value r)
