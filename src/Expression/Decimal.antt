-- ===== src/Expression/Decimal.antt =====
-- Go's strconv.Atoi and strconv.Itoa, which core/internal/script/expression/jsnumber.go calls.
use atomyx.Prelude.{
  ℕ, zero, suc, ◌+◌, ◌-◌, inl, inr, ◌*◌, ◌/◌, ◌%◌, ◌^◌, ◌<◌, ◌≤◌, ◌≡◌, ap, ◌∙◌, Bool, ◌&&◌, [], ◌∷◌,
  ◌++◌, Option, none, some, arith, ltb, leb, ◌==◌, if◌then◌else◌, Text, Bool-cases, ℤ, pos, negsuc,
}

abbrev pub negate : ℕ → ℤ
negate zero = pos 0
negate (suc n) = negsuc n

abbrev is_decimal : ℕ → Bool
is_decimal c = leb b'0' c && leb c b'9'

-- the value of a run of digits, read from the left onto `acc`
unfoldable pub digits_value : ℕ → Text → Option ℕ
digits_value acc [] = some acc
digits_value acc (c ∷ s) = if is_decimal c then digits_value (acc * 10 + (c - b'0')) s else none

abbrev pub nonempty_value : Text → Option ℕ
nonempty_value [] = none
nonempty_value (c ∷ s) = digits_value 0 (c ∷ s)

abbrev positive : Option ℕ → Option ℤ
positive none = none
positive (some n) = if ltb n (2 ^ 63) then some (pos n) else none

abbrev negative : Option ℕ → Option ℤ
negative none = none
negative (some n) = if leb n (2 ^ 63) then some (negate n) else none

-- `none` is the error of strconv.Atoi: no digits, another character, or out of range.
unfoldable pub atoi : Text → Option ℤ
unfolding digits_value
atoi [] = none
atoi (c ∷ s) =
    if c == b'-'
    then negative (nonempty_value s)
    else if c == b'+'
    then positive (nonempty_value s)
    else positive (digits_value 0 (c ∷ s))

abbrev digit : ℕ → ℕ
digit d = b'0' + d

-- The digits of a number on fuel, the last one being its remainder.
unfoldable pub itoa_fuel : ℕ → ℕ → Text
itoa_fuel zero n = []
itoa_fuel (suc fuel) n =
    let more = itoa_fuel fuel (n / 10) ++ digit (n % 10) ∷ [] in
    if ltb n 10 then digit n ∷ [] else more

unfoldable pub itoa : ℕ → Text
unfolding itoa_fuel
itoa n = itoa_fuel (suc n) n

digits_value-append :
    (acc d m : ℕ) (s : Text)
    → d < 10
    → digits_value acc s ≡ some m
    → digits_value acc (s ++ digit d ∷ []) ≡ some (m * 10 + d)
unfolding digits_value
digits_value-append acc d m [] h e = ground (arith, e)
digits_value-append acc d m (c ∷ s) h e =
    ground (arith, e, digits_value-append (acc * 10 + (c - b'0')) d m s h)

itoa_fuel-value : (fuel n : ℕ) → n < fuel → digits_value 0 (itoa_fuel fuel n) ≡ some n
unfolding itoa_fuel digits_value
itoa_fuel-value zero n h = absurd (omega arith)
itoa_fuel-value (suc fuel) n h = elim (Bool-cases (ltb n 10)) [
  | inl small ↦ rw small (ground arith)
  | inr large ↦ rw large (
      digits_value-append 0 (n % 10) (n / 10) (itoa_fuel fuel (n / 10)) (omega arith)
        (itoa_fuel-value fuel (n / 10) (ground (arith, large)))
      ∙ ap some (omega arith))
]

-- The digits that `Itoa` writes stand for the number.
pub digits_value-itoa : (n : ℕ) → digits_value 0 (itoa n) ≡ some n
unfolding itoa
digits_value-itoa n = itoa_fuel-value (suc n) n (omega arith)

-- No leading zero: the first digit is zero only where the number is.
abbrev pub NoLeadingZero : ℕ → Text → Type 0
NoLeadingZero n [] = ⊥
NoLeadingZero n (c ∷ s) = (c ≡ b'0' → n ≡ 0)

NoLeadingZero-append :
    (n m : ℕ) (s t : Text) → (n ≡ 0 → m ≡ 0) → NoLeadingZero n s → NoLeadingZero m (s ++ t)
NoLeadingZero-append n m [] t f h = absurd h
NoLeadingZero-append n m (c ∷ s) t f h = λ e. f (h e)

itoa_fuel-NoLeadingZero : (fuel n : ℕ) → n < fuel → NoLeadingZero n (itoa_fuel fuel n)
unfolding itoa_fuel
itoa_fuel-NoLeadingZero zero n h = absurd (omega arith)
itoa_fuel-NoLeadingZero (suc fuel) n h = elim (Bool-cases (ltb n 10)) [
  | inl small ↦ rw small (λ e. omega arith)
  | inr large ↦ rw large (
      let big : 10 ≤ n = ground (arith, large) in
      NoLeadingZero-append (n / 10) n (itoa_fuel fuel (n / 10)) _ (λ e. omega arith)
        (itoa_fuel-NoLeadingZero fuel (n / 10) (omega arith)))
]

pub itoa-NoLeadingZero : (n : ℕ) → NoLeadingZero n (itoa n)
unfolding itoa
itoa-NoLeadingZero n = itoa_fuel-NoLeadingZero (suc n) n (omega arith)
