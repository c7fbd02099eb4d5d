-- ===== src/Expression/FormatNumber.antt =====
-- core/internal/script/expression/jsnumber.go: `FormatNumber`.
pub mod Shape
use atomyx.Prelude.{
  ℤ, pos, negsuc, ℕ, suc, ◌++◌, Bool, true, false, [], ◌∷◌, Option, none, some, leb, ◌==◌,
  if◌then◌else◌, Text, codes,
}
use atomyx.Expression.Float.{FloatOps}
use atomyx.Expression.Decimal.{atoi, itoa}

-- `sci[:eIdx]` and `sci[eIdx+1:]` at the last `e`; `none` where there is no `e`, which is a panic.
abbrev cut_here : ℕ → Text → Option (Text × Text) → Option (Text × Text)
cut_here c s (some (mantissa, exponent)) = some (c ∷ mantissa, exponent)
cut_here c s none = if c == b'e' then some ([], s) else none

unfoldable pub cut_last_e : Text → Option (Text × Text)
cut_last_e [] = none
cut_last_e (c ∷ s) = cut_here c s (cut_last_e s)

-- decExp >= -6 && decExp <= 20
unfoldable pub is_plain_exponent : ℤ → Bool
is_plain_exponent (pos n) = leb n 20
is_plain_exponent (negsuc n) = leb (suc n) 6

unfoldable pub signed_exponent : ℤ → Text
unfolding itoa
signed_exponent (pos n) = codes "+" ++ itoa n
signed_exponent (negsuc n) = codes "-" ++ itoa (suc n)

module _ {A : Type 0} (ops : FloatOps A) where
  abbrev with_exponent : A → Text → Option ℤ → Option Text
  with_exponent f mantissa none = none
  with_exponent f mantissa (some exponent) = some (
      if is_plain_exponent exponent
      then ops.format_f f
      else mantissa ++ (codes "e" ++ signed_exponent exponent))

  abbrev from_scientific : A → Option (Text × Text) → Option Text
  from_scientific f none = none
  from_scientific f (some (mantissa, exponent)) = with_exponent f mantissa (atoi exponent)

  -- `none` is a panic.
  unfoldable pub format_number : A → Option Text
  unfolding cut_last_e is_plain_exponent signed_exponent atoi
  format_number f =
      if ops.is_nan f
      then some (codes "NaN")
      else if ops.eq f ops.zero_value
      then some (codes "0")
      else if ops.is_pos_inf f
      then some (codes "Infinity")
      else if ops.is_neg_inf f
      then some (codes "-Infinity")
      else from_scientific f (cut_last_e (ops.format_e f))
