-- ===== src/Expression/Tokenize/Cover.antt =====
-- `tokenize` returns on every source, and its tokens with the white space cover the source in order.
use atomyx.Prelude.{
  ℕ, zero, suc, ◌+◌, ◌<◌, ◌≤◌, ◌≡◌, refl, ap, ◌⊎◌, inl, inr, Bool, true, ◌&&◌, ◌||◌, List, [], ◌∷◌,
  ◌++◌, none, some, arith, ◌==◌, ==_iff, length, length-append, append_assoc, append-nil, Text, sym,
  ◌∙◌, Bool-cases,
}
use atomyx.Expression.Outcome.{
  ok, ◌>>=◌, Returns, returned, failed, Returns-bind, Returns-if, Returns-map,
}
use atomyx.Expression.Utf16.{Units, encode, decode}
use atomyx.Expression.Token.{TokenKind, Token}
use atomyx.Expression.Tokenize.Chars.{
  quote_char, apostrophe, is_digit, is_identifier_start, is_identifier_part, is_space,
  two_char_punct, one_char_punct,
}
use atomyx.Expression.Tokenize.Scan.{
  span, fraction, Round, scan_number, scan_identifier, scan_string, scan_one_char, scan_punct,
  scan_one, scan, tokenize, add_token,
}
use atomyx.Expression.Tokenize.Lexeme.{
  AllPass, IsQuote, double, single, Lexeme, integer, decimal, quoted, identifier, two_chars,
  one_char,
}
use atomyx.Expression.Tokenize.StringLiteral.{Within, read_string-Returns}

-- The tokens of the units that begin at offset `i`.
pub data Covers : ℕ → Units → List Token → Type 0 where
  end : {i : ℕ} {t : Token} → t.kind ≡ TokenKind.eof → t.position ≡ i → Covers i [] (t ∷ [])
  space :
      {i u : ℕ} {us : Units} {ts : List Token}
      → is_space u ≡ true
      → Covers (i + 1) us ts
      → Covers i (u ∷ us) ts
  lexeme :
      {i : ℕ} {us used rest : Units} {t : Token} {ts : List Token}
      → us ≡ used ++ rest
      → 0 < length used
      → Lexeme used t.kind t.value
      → t.position ≡ i
      → Covers (i + length used) rest ts
      → Covers i us (t ∷ ts)

span-split : (p : ℕ → Bool) (us : Units) → us ≡ (span p us).0 ++ (span p us).1
unfolding span
span-split p [] = refl
span-split p (u ∷ us) = ground (arith, span-split p us)

span-AllPass : (p : ℕ → Bool) (us : Units) → AllPass p (span p us).0
unfolding span
span-AllPass p [] = tt
span-AllPass p (u ∷ us) = ground (arith, span-AllPass p us)

-- What one round of the loop did with the units `us`.
data Advance (i : ℕ) (us : Units) : Round → Type 0 where
  skipped :
      {u : ℕ} {rest : Units} → us ≡ u ∷ rest → is_space u ≡ true → Advance i us (none, rest, i + 1)
  read :
      {used rest : Units} {t : Token} {j : ℕ}
      → us ≡ used ++ rest
      → 0 < length used
      → Lexeme used t.kind t.value
      → t.position ≡ i
      → j ≡ i + length used
      → Advance i us (some t, rest, j)

scan_identifier-Advance :
    (ch : ℕ) (us : Units) (i : ℕ)
    → is_identifier_start ch ≡ true
    → Advance i (ch ∷ us) (scan_identifier ch us i)
unfolding scan_identifier
scan_identifier-Advance ch us i h =
    read (ap (λ t. ch ∷ t) (span-split is_identifier_part us)) (omega arith)
      (identifier h (span-AllPass is_identifier_part us)) refl refl

fraction-split : (us : Units) → us ≡ (fraction us).0 ++ (fraction us).1
unfolding fraction
fraction-split [] = refl
fraction-split (p ∷ []) = refl
fraction-split (p ∷ d ∷ us) = ground (arith, span-split is_digit (d ∷ us))

span-pos : (p : ℕ → Bool) (u : ℕ) (us : Units) → p u ≡ true → 0 < length (span p (u ∷ us)).0
unfolding span
span-pos p u us h = ground arith

-- The fraction is empty, or a point with at least one digit behind it.
fraction-cases :
    (us : Units)
    → ((fraction us).0 ≡ [])
      ⊎ ((digits : Units) × ((fraction us).0 ≡ b'.' ∷ digits)
          × AllPass is_digit digits
          × (0 < length digits))
unfolding fraction
fraction-cases [] = inl refl
fraction-cases (p ∷ []) = inl refl
fraction-cases (p ∷ d ∷ us) = elim (Bool-cases (p == b'.' && is_digit d)) [
  | inl h ↦ inr (
    (span is_digit (d ∷ us)).0,
    ground (arith, h),
    span-AllPass is_digit (d ∷ us),
    span-pos is_digit d us (ground (arith, h)),
  )
  | inr h ↦ inl (rw h refl)
]

number-Lexeme :
    (whole after : Units)
    → AllPass is_digit whole
    → 0 < length whole
    → Lexeme (whole ++ (fraction after).0) TokenKind.number (decode (whole ++ (fraction after).0))
number-Lexeme whole after h k = elim (fraction-cases after) [
  | inl e ↦ rw (e, append-nil) (integer h k)
  | inr (digits, e, all, pos) ↦ decimal whole digits h k all pos (ap (λ t. whole ++ t) e)
]

scan_number-Advance :
    (ch : ℕ) (us : Units) (i : ℕ)
    → is_digit ch ≡ true
    → Advance i (ch ∷ us) (scan_number (ch ∷ us) i)
unfolding scan_number
scan_number-Advance ch us i h =
    read
      (span-split is_digit (ch ∷ us)
        ∙ ap (λ t. whole ++ t) (fraction-split after)
        ∙ sym (append_assoc whole (fraction after).0 (fraction after).1))
      (omega (arith, span-pos is_digit ch us h, length-append whole (fraction after).0))
      (number-Lexeme whole after (span-AllPass is_digit (ch ∷ us)) (span-pos is_digit ch us h)) refl
      refl
  where
    whole : Units
    whole = (span is_digit (ch ∷ us)).0

    after : Units
    after = (span is_digit (ch ∷ us)).1

scan_string-Returns :
    (ch : ℕ) (us : Units) (i : ℕ)
    → IsQuote ch
    → Returns (Advance i (ch ∷ us)) (Within i (length (ch ∷ us))) (scan_string ch us i)
unfolding scan_string
scan_string-Returns ch us i h =
    Returns-bind
      (Returns-map (read_string-Returns ch i (i + 1) [] us) (λ a p. p) (λ err p. omega arith))
      λ (value, rest, j) (body, tail, split, d, text, offset). returned (
        read {used = ch ∷ body} (ap (λ t. ch ∷ t) split) (omega arith) (rw text (quoted h d)) refl
          (omega arith))

scan_one_char-Returns :
    (ch : ℕ) (us : Units) (i : ℕ)
    → Returns (Advance i (ch ∷ us)) (Within i (length (ch ∷ us))) (scan_one_char ch us i)
unfolding scan_one_char
scan_one_char-Returns ch us i =
    Returns-if (one_char_punct ch)
      (λ h. returned (read {used = ch ∷ []} refl (omega arith) (one_char h) refl refl))
      λ _. failed (omega arith, omega arith)

scan_punct-Returns :
    (ch : ℕ) (us : Units) (i : ℕ)
    → Returns (Advance i (ch ∷ us)) (Within i (length (ch ∷ us))) (scan_punct ch us i)
unfolding scan_punct
scan_punct-Returns ch [] i = scan_one_char-Returns ch [] i
scan_punct-Returns ch (next ∷ us) i =
    Returns-if (two_char_punct (decode (ch ∷ next ∷ [])))
      (λ h. returned (read {used = ch ∷ next ∷ []} refl (omega arith) (two_chars h) refl refl))
      λ _. scan_one_char-Returns ch (next ∷ us) i

is_quote : (ch : ℕ) → (ch == quote_char || ch == apostrophe) ≡ true → IsQuote ch
is_quote ch h = elim (Bool-cases (ch == quote_char)) [
  | inl d ↦ double ((==_iff ch quote_char).0 d)
  | inr n ↦ single ((==_iff ch apostrophe).0 (ground (arith, h, n)))
]

scan_one-Returns :
    (ch : ℕ) (us : Units) (i : ℕ)
    → Returns (Advance i (ch ∷ us)) (Within i (length (ch ∷ us))) (scan_one ch us i)
unfolding scan_one
scan_one-Returns ch us i =
    Returns-if (is_space ch) (λ h. returned (skipped refl h))
      λ _.
        Returns-if (is_digit ch) (λ h. returned (scan_number-Advance ch us i h))
          λ _.
            Returns-if (ch == quote_char || ch == apostrophe)
              (λ h. scan_string-Returns ch us i (is_quote ch h))
              λ _.
                Returns-if (is_identifier_start ch)
                  (λ h. returned (scan_identifier-Advance ch us i h))
                  λ _. scan_punct-Returns ch us i

-- One round, then the rest of the loop.
scan_round-Returns :
    (fuel i : ℕ) (us : Units) (a : Round)
    → length us ≤ suc fuel
    → ((rest : Units) (j : ℕ)
        → length rest ≤ fuel
        → Returns (Covers j rest) (Within j (length rest)) (scan fuel rest j))
    → Advance i us a
    → Returns
        (Covers i us)
        (Within i (length us))
        (scan fuel a.1 a.2 >>= λ ts. ok (add_token a.0 ts))
scan_round-Returns fuel i us a h loop (skipped {u} {rest} split blank) =
    let shorter : length us ≡ suc (length rest) = ap length split in
    Returns-bind
      (Returns-map (loop rest (i + 1) (omega arith)) (λ ts c. c)
        (λ e p. (omega arith, omega arith)))
      λ ts c. returned (rw split (space blank c))
scan_round-Returns fuel i us a h loop (read {used} {rest} {t} {j} split pos lex at offset) =
    let shorter : length us ≡ length used + length rest =
      ap length split ∙ length-append used rest in
    Returns-bind
      (Returns-map (loop rest j (omega arith)) (λ ts c. c) (λ e p. (omega arith, omega arith)))
      λ ts c. returned (lexeme split pos lex at (rw offset at c))

scan-Returns :
    (fuel : ℕ) (us : Units) (i : ℕ)
    → length us ≤ fuel
    → Returns (Covers i us) (Within i (length us)) (scan fuel us i)
unfolding scan
scan-Returns fuel [] i h = returned (end refl refl)
scan-Returns zero (ch ∷ us) i h = absurd (omega arith)
scan-Returns (suc fuel) (ch ∷ us) i h =
    Returns-bind (scan_one-Returns ch us i)
      λ a. scan_round-Returns fuel i (ch ∷ us) a h (scan-Returns fuel)

-- `tokenize` returns on every source: either tokens that cover its units in order, as the lexical
-- grammar has them, or an error whose position lies in the source.
pub tokenize-Returns :
    (source : Text)
    → Returns (Covers 0 (encode source)) (Within 0 (length (encode source))) (tokenize source)
unfolding tokenize
tokenize-Returns source = scan-Returns (length (encode source)) (encode source) 0 (omega arith)
