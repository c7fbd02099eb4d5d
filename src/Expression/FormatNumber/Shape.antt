-- ===== src/Expression/FormatNumber/Shape.antt =====
-- What `FormatNumber` renders, from what Go documents of strconv.FormatFloat with the `e` verb.
use atomyx.Prelude.{
  ℤ, pos, ℕ, ◌+◌, ◌-◌, ◌*◌, ◌^◌, ◌<◌, ◌≡◌, ◌≢◌, refl, Bool, true, false, [], ◌∷◌, ◌++◌, none, some,
  arith, leb, ap, zero, suc, if◌then◌else◌, Text, codes, Bool-cases, inl, inr,
}
use atomyx.Expression.Float.{FloatOps}
use atomyx.Expression.Decimal.{itoa, negate, digits_value, atoi, nonempty_value}
use atomyx.Expression.FormatNumber.{cut_last_e, is_plain_exponent, signed_exponent, format_number}

-- The exponent that a sign and a number of digits stand for.
abbrev pub exponent_of : Bool → ℕ → ℤ
exponent_of true n = negate n
exponent_of false n = pos n

abbrev pub sign_char : Bool → ℕ
sign_char true = b'-'
sign_char false = b'+'

-- A text of the form "-d.ddde±dd", as strconv documents the `e` verb.
pub record Scientific (s : Text) : Type 0 where
  pub mantissa : Text
  pub minus : Bool
  pub digits : Text
  pub magnitude : ℕ
  pub shape : s ≡ mantissa ++ b'e' ∷ sign_char minus ∷ digits
  pub digits_nonempty : digits ≢ []
  pub digits_magnitude : digits_value 0 digits ≡ some magnitude
  pub in_range : magnitude < 2 ^ 63

-- Of finite values strconv.FormatFloat(f, 'e', -1, 64) has this form.
pub record FormatsScientific {A : Type 0} (ops : FloatOps A) : Type 0 where
  pub scientific :
      (f : A)
      → ops.is_nan f ≡ false
      → ops.is_pos_inf f ≡ false
      → ops.is_neg_inf f ≡ false
      → Scientific (ops.format_e f)

cut_last_e-digits : (acc n : ℕ) (s : Text) → digits_value acc s ≡ some n → cut_last_e s ≡ none
unfolding cut_last_e digits_value
cut_last_e-digits acc n [] h = refl
cut_last_e-digits acc n (c ∷ s) h = ground (arith, h, cut_last_e-digits (acc * 10 + (c - b'0')) n s)

cut_last_e-append : (m s : Text) → cut_last_e s ≡ none → cut_last_e (m ++ b'e' ∷ s) ≡ some (m, s)
unfolding cut_last_e
cut_last_e-append [] s h = rw h refl
cut_last_e-append (c ∷ m) s h = rw (cut_last_e-append m s h) refl

cut_last_e-scientific :
    (m : Text) (minus : Bool) (s : Text) (n : ℕ)
    → digits_value 0 s ≡ some n
    → cut_last_e (m ++ b'e' ∷ sign_char minus ∷ s) ≡ some (m, sign_char minus ∷ s)
unfolding cut_last_e
cut_last_e-scientific m true s n h =
    cut_last_e-append m (b'-' ∷ s) (rw (cut_last_e-digits 0 n s h) refl)
cut_last_e-scientific m false s n h =
    cut_last_e-append m (b'+' ∷ s) (rw (cut_last_e-digits 0 n s h) refl)

nonempty-digits :
    (s : Text) (n : ℕ) → s ≢ [] → digits_value 0 s ≡ some n → nonempty_value s ≡ some n
nonempty-digits [] n k h = absurd (k refl)
nonempty-digits (c ∷ s) n k h = h

atoi-signed :
    (minus : Bool) (s : Text) (n : ℕ)
    → s ≢ []
    → digits_value 0 s ≡ some n
    → n < 2 ^ 63
    → atoi (sign_char minus ∷ s) ≡ some (exponent_of minus n)
unfolding atoi
atoi-signed true s n k h lt = rw (nonempty-digits s n k h) (ground arith)
atoi-signed false s n k h lt = rw (nonempty-digits s n k h) (ground arith)

rendering :
    (minus : Bool) (n : ℕ) (plain mantissa : Text)
    → (if is_plain_exponent (exponent_of minus n)
        then plain
        else mantissa ++ (codes "e" ++ signed_exponent (exponent_of minus n)))
      ≡ (if leb n (if minus then 6 else 20)
          then plain
          else mantissa ++ b'e' ∷ sign_char minus ∷ itoa n)
unfolding is_plain_exponent signed_exponent
rendering true zero plain mantissa = refl
rendering true (suc n) plain mantissa = refl
rendering false n plain mantissa = refl

module _ {A : Type 0} (ops : FloatOps A) (formats : FormatsScientific ops) where
  -- A finite value other than zero renders in the plain form where its decimal exponent lies
  -- between -6 and 20, and otherwise as mantissa, `e`, explicit sign, and unpadded exponent.
  pub format_number-finite :
      (f : A) (nan : ops.is_nan f ≡ false)
      → ops.eq f ops.zero_value ≡ false
      → (high : ops.is_pos_inf f ≡ false) (low : ops.is_neg_inf f ≡ false)
      → let form = formats.scientific f nan high low in
        format_number ops f
        ≡ some (
            if leb form.magnitude (if form.minus then 6 else 20)
            then ops.format_f f
            else form.mantissa ++ b'e' ∷ sign_char form.minus ∷ itoa form.magnitude)
  unfolding format_number
  format_number-finite f nan nonzero high low =
      let form = formats.scientific f nan high low in
      rw
        (
          nan,
          nonzero,
          high,
          low,
          form.shape,
          cut_last_e-scientific form.mantissa form.minus form.digits form.magnitude
              form.digits_magnitude,
          atoi-signed form.minus form.digits form.magnitude form.digits_nonempty
              form.digits_magnitude form.in_range,
        )
        (ap some (rendering form.minus form.magnitude (ops.format_f f) form.mantissa))

  -- `FormatNumber` renders every value: it does not panic.
  pub format_number-total : (f : A) → (t : Text) × (format_number ops f ≡ some t)
  unfolding format_number
  format_number-total f = elim (Bool-cases (ops.is_nan f)) [
    | inl nan ↦ (codes "NaN", rw nan refl)
    | inr nan ↦ elim (Bool-cases (ops.eq f ops.zero_value)) [
      | inl zero' ↦ (codes "0", rw (nan, zero') refl)
      | inr zero' ↦ elim (Bool-cases (ops.is_pos_inf f)) [
        | inl high ↦ (codes "Infinity", rw (nan, zero', high) refl)
        | inr high ↦ elim (Bool-cases (ops.is_neg_inf f)) [
          | inl low ↦ (codes "-Infinity", rw (nan, zero', high, low) refl)
          | inr low ↦ (_, format_number-finite f nan zero' high low)
        ]
      ]
    ]
  ]
