-- ===== src/Expression/Eval/Cast.antt =====
-- The cast functions of eval.go: `evalCast`, `castToNumber`, `castToString`, `castToBool`.
use atomyx.Prelude.{
  ℕ, Bool, true, false, ◌&&◌, ◌||◌, ◌++◌, [], ◌∷◌, Option, none, some, if◌then◌else◌, ◌==◌, Text,
  codes, text_eq,
}
use atomyx.Expression.Float.{FloatOps}
use atomyx.Expression.FormatNumber.{format_number}
use atomyx.Expression.Value.{Value}
use atomyx.Expression.Ast.{CastFunction}
use atomyx.Expression.Tokenize.Chars.{is_digit}
use atomyx.Expression.Eval.Messages.{Evaluated, value, panic, error_at}

unfoldable pub all_digits : Text → Bool
unfolding is_digit
all_digits [] = true
all_digits (c ∷ s) = is_digit c && all_digits s

-- one digit at least, and digits only
abbrev pub digits_only : Text → Bool
digits_only [] = false
digits_only (c ∷ s) = is_digit c && all_digits s

-- `\d+(\.\d+)?$`
unfoldable pub unsigned_number : Text → Bool
unfolding is_digit all_digits
unsigned_number [] = false
unsigned_number (c ∷ []) = is_digit c
unsigned_number (c ∷ d ∷ s) = is_digit c && (d == b'.' && digits_only s || unsigned_number (d ∷ s))

-- `strictNumberPattern`: `^[+-]?\d+(\.\d+)?$`
unfoldable pub strict_number : Text → Bool
unfolding unsigned_number
strict_number [] = false
strict_number (c ∷ s) =
    if c == b'+' || c == b'-' then unsigned_number s else unsigned_number (c ∷ s)

module _ {A : Type 0} (ops : FloatOps A) where
  unfoldable pub cast_to_number : Value A → ℕ → Evaluated (Value A)
  unfolding strict_number
  cast_to_number (Value.number f) p = value (Value.number f)
  cast_to_number (Value.string s) p =
      if strict_number s
      then value (Value.number (ops.parse_float s))
      else error_at p (some (codes "cannot convert \"" ++ (s ++ codes "\" to a number")))
  cast_to_number (Value.bool b) p =
      error_at p (some (codes "cannot convert a boolean to a number, compare it directly instead"))

  abbrev pub string_result : Option Text → Evaluated (Value A)
  string_result none = panic
  string_result (some s) = value (Value.string s)

  unfoldable pub cast_to_string : Value A → Evaluated (Value A)
  unfolding format_number
  cast_to_string (Value.string s) = value (Value.string s)
  cast_to_string (Value.number f) = string_result (format_number ops f)
  cast_to_string (Value.bool true) = value (Value.string (codes "true"))
  cast_to_string (Value.bool false) = value (Value.string (codes "false"))

  unfoldable pub cast_to_bool : Value A → ℕ → Evaluated (Value A)
  unfolding text_eq
  cast_to_bool (Value.bool b) p = value (Value.bool b)
  cast_to_bool (Value.string s) p =
      if text_eq s (codes "true")
      then value (Value.bool true)
      else if text_eq s (codes "false")
      then value (Value.bool false)
      else error_at p (
          some (
            codes "cannot convert \""
            ++ (s ++ codes "\" to a boolean, expected \"true\" or \"false\"")))
  cast_to_bool (Value.number f) p =
      error_at p (some (codes "cannot convert a number to a boolean, compare it directly instead"))

  unfoldable pub eval_cast : CastFunction → Value A → ℕ → Evaluated (Value A)
  unfolding cast_to_number cast_to_string cast_to_bool
  eval_cast CastFunction.number v p = cast_to_number v p
  eval_cast CastFunction.string v p = cast_to_string v
  eval_cast CastFunction.bool v p = cast_to_bool v p
