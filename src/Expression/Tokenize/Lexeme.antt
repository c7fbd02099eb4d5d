-- ===== src/Expression/Tokenize/Lexeme.antt =====
-- The lexical grammar of tokenize.go as a relation between source units and token values, with no
-- cursor and no order of tests in it.
use atomyx.Prelude.{ℕ, ◌<◌, ◌≡◌, ◌≢◌, Bool, true, [], ◌∷◌, ◌++◌, length, Text, All}
use atomyx.Expression.Outcome.{ok}
use atomyx.Expression.Utf16.{Units, decode}
use atomyx.Expression.Token.{TokenKind}
use atomyx.Expression.Tokenize.Chars.{
  quote_char, apostrophe, backslash, is_digit, is_identifier_start, is_identifier_part,
  two_char_punct, one_char_punct, unescape,
}

abbrev pub AllPass : (ℕ → Bool) → Units → Type 0
AllPass p = All (λ u. p u ≡ true)

-- `Quoted q body value`: `body` is what follows an opening quote `q`, up to and with the closing
-- one, and `value` the units that it stands for.
pub data Quoted (q : ℕ) : Units → Units → Type 0 where
  close : Quoted q (q ∷ []) []
  plain :
      {ch : ℕ} {body value : Units}
      → ch ≢ q
      → ch ≢ backslash
      → Quoted q body value
      → Quoted q (ch ∷ body) (ch ∷ value)
  escape :
      (i : ℕ) {e r : ℕ} {body value : Units}
      → backslash ≢ q
      → unescape e i ≡ ok r
      → Quoted q body value
      → Quoted q (backslash ∷ e ∷ body) (r ∷ value)

pub data IsQuote : ℕ → Type 0 where
  double : {q : ℕ} → q ≡ quote_char → IsQuote q
  single : {q : ℕ} → q ≡ apostrophe → IsQuote q

pub data Lexeme : Units → TokenKind → Text → Type 0 where
  integer :
      {digits : Units}
      → AllPass is_digit digits
      → 0 < length digits
      → Lexeme digits TokenKind.number (decode digits)
  decimal :
      (whole digits : Units) {used : Units}
      → AllPass is_digit whole
      → 0 < length whole
      → AllPass is_digit digits
      → 0 < length digits
      → used ≡ whole ++ b'.' ∷ digits
      → Lexeme used TokenKind.number (decode used)
  quoted :
      {q : ℕ} {body value : Units}
      → IsQuote q
      → Quoted q body value
      → Lexeme (q ∷ body) TokenKind.string (decode value)
  identifier :
      {ch : ℕ} {run : Units}
      → is_identifier_start ch ≡ true
      → AllPass is_identifier_part run
      → Lexeme (ch ∷ run) TokenKind.identifier (decode (ch ∷ run))
  two_chars :
      {a b : ℕ}
      → two_char_punct (decode (a ∷ b ∷ [])) ≡ true
      → Lexeme (a ∷ b ∷ []) TokenKind.punct (decode (a ∷ b ∷ []))
  one_char : {a : ℕ} → one_char_punct a ≡ true → Lexeme (a ∷ []) TokenKind.punct (decode (a ∷ []))
