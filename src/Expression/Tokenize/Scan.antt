-- ===== src/Expression/Tokenize/Scan.antt =====
-- The loop of `tokenize` and the readers of its token kinds.
use atomyx.Prelude.{
  ℕ, zero, suc, ◌+◌, ◌++◌, Bool, ◌&&◌, ◌||◌, List, [], ◌∷◌, Option, none, some, ◌==◌, if◌then◌else◌,
  length, Text, codes,
}
use atomyx.Expression.Outcome.{Outcome, ok, fail, out_of_fuel, ◌>>=◌}
use atomyx.Expression.Utf16.{Units, encode, decode}
use atomyx.Expression.Token.{TokenKind, Token}
use atomyx.Expression.Tokenize.Chars.{
  quote_char, apostrophe, backslash, is_digit, is_identifier_start, is_identifier_part, is_space,
  two_char_punct, one_char_punct, unescape,
}

-- The run of units that pass a test, and what follows it.
unfoldable pub span : (ℕ → Bool) → Units → Units × Units
span p [] = ([], [])
span p (u ∷ us) = let (run, rest) = span p us in if p u then (u ∷ run, rest) else ([], u ∷ us)

-- `consumeDigits`
unfoldable pub consume_digits : Units → Units × Units
unfolding span is_digit
consume_digits us = span is_digit us

-- the decimal point and the digits behind it, where a digit follows the point
unfoldable pub fraction : Units → Units × Units
unfolding consume_digits is_digit
fraction (point ∷ d ∷ us) =
    let (digits, rest) = consume_digits (d ∷ us) in
    if point == b'.' && is_digit d then (point ∷ digits, rest) else ([], point ∷ d ∷ us)
fraction us = ([], us)

-- One round of the loop: the token it appends, if any, the units that are left, and their offset.
abbrev pub Round : Type 0
Round = Option Token × Units × ℕ

unfoldable pub scan_number : Units → ℕ → Round
unfolding consume_digits fraction
scan_number us i =
    let (whole, after) = consume_digits us in
    let (part, rest) = fraction after in
    (
      some (record { kind = TokenKind.number; value = decode (whole ++ part); position = i }),
      rest,
      i + length (whole ++ part),
    )

unfoldable pub scan_identifier : ℕ → Units → ℕ → Round
unfolding span is_identifier_part
scan_identifier ch us i =
    let (run, rest) = span is_identifier_part us in
    (
      some (record { kind = TokenKind.identifier; value = decode (ch ∷ run); position = i }),
      rest,
      i + length (ch ∷ run),
    )

abbrev pub unterminated : {A : Type 0} → ℕ → Outcome A
unterminated start =
    fail (record { message = codes "unterminated string literal"; position = start })

-- The loop of `readStringLiteral`: `i` is the offset of the units, `value` those resolved so far.
unfoldable pub read_string : ℕ → ℕ → ℕ → Units → Units → Outcome (Text × Units × ℕ)
unfolding unescape
read_string quote start i value [] = unterminated start
read_string quote start i value (ch ∷ []) =
    if ch == quote then ok (decode value, [], i + 1) else unterminated start
read_string quote start i value (ch ∷ e ∷ us) =
    let after_escape = λ (r : ℕ). read_string quote start (i + 2) (value ++ r ∷ []) us in
    let after_plain = read_string quote start (i + 1) (value ++ ch ∷ []) (e ∷ us) in
    if ch == quote
    then ok (decode value, e ∷ us, i + 1)
    else if ch == backslash
    then (unescape e i >>= after_escape)
    else after_plain

unfoldable pub scan_string : ℕ → Units → ℕ → Outcome Round
unfolding read_string
scan_string quote us i = read_string quote i (i + 1) [] us >>= λ (value, rest, end).
    ok (some (record { kind = TokenKind.string; value = value; position = i }), rest, end)

abbrev punct_token : Text → ℕ → Option Token
punct_token value i = some (record { kind = TokenKind.punct; value = value; position = i })

unfoldable pub scan_one_char : ℕ → Units → ℕ → Outcome Round
unfolding one_char_punct
scan_one_char ch us i =
    if one_char_punct ch
    then ok (punct_token (decode (ch ∷ [])) i, us, i + 1)
    else fail (record {
      message = codes "unexpected character \"" ++ (decode (ch ∷ []) ++ codes "\" in expression");
      position = i;
    })

unfoldable pub scan_punct : ℕ → Units → ℕ → Outcome Round
unfolding scan_one_char two_char_punct
scan_punct ch [] i = scan_one_char ch [] i
scan_punct ch (next ∷ us) i =
    if two_char_punct (decode (ch ∷ next ∷ []))
    then ok (punct_token (decode (ch ∷ next ∷ [])) i, us, i + 2)
    else scan_one_char ch (next ∷ us) i

unfoldable pub scan_one : ℕ → Units → ℕ → Outcome Round
unfolding is_space is_digit is_identifier_start scan_number scan_string scan_identifier scan_punct
scan_one ch us i =
    if is_space ch
    then ok (none, us, i + 1)
    else if is_digit ch
    then ok (scan_number (ch ∷ us) i)
    else if ch == quote_char || ch == apostrophe
    then scan_string ch us i
    else if is_identifier_start ch
    then ok (scan_identifier ch us i)
    else scan_punct ch us i

abbrev pub add_token : Option Token → List Token → List Token
add_token none ts = ts
add_token (some t) ts = t ∷ ts

-- The loop, on fuel: each round consumes at least one unit.
unfoldable pub scan : ℕ → Units → ℕ → Outcome (List Token)
scan fuel [] i = ok (record { kind = TokenKind.eof; value = []; position = i } ∷ [])
scan zero (ch ∷ us) i = out_of_fuel
scan (suc fuel) (ch ∷ us) i =
    scan_one ch us i >>= λ (t, rest, j). scan fuel rest j >>= λ ts. ok (add_token t ts)

unfoldable pub tokenize : Text → Outcome (List Token)
unfolding scan scan_one encode decode
tokenize source = let units = encode source in scan (length units) units 0
