-- ===== src/Expression/Tokenize/Chars.antt =====
-- The character classes of tokenize.go, its punctuation tables, and `unescape`.
use atomyx.Prelude.{
  ℕ, ◌++◌, Bool, ◌&&◌, ◌||◌, [], ◌∷◌, leb, ◌==◌, if◌then◌else◌, Text, codes, text_eq,
}
use atomyx.Expression.Outcome.{Outcome, ok, fail}
use atomyx.Expression.Utf16.{decode}

abbrev pub quote_char : ℕ
quote_char = b'"'

abbrev pub apostrophe : ℕ
apostrophe = 39

abbrev pub backslash : ℕ
backslash = 92

unfoldable pub is_digit : ℕ → Bool
is_digit ch = leb b'0' ch && leb ch b'9'

unfoldable pub is_identifier_start : ℕ → Bool
is_identifier_start ch = leb b'a' ch && leb ch b'z' || (leb b'A' ch && leb ch b'Z') || ch == b'_'

unfoldable pub is_identifier_part : ℕ → Bool
unfolding is_identifier_start is_digit
is_identifier_part ch = is_identifier_start ch || is_digit ch

unfoldable pub is_space : ℕ → Bool
is_space ch = ch == 32 || ch == 9 || ch == 10 || ch == 13

unfoldable pub two_char_punct : Text → Bool
unfolding text_eq
two_char_punct s =
    text_eq s (codes "==")
    || text_eq s (codes "!=")
    || text_eq s (codes "<=")
    || text_eq s (codes ">=")

unfoldable pub one_char_punct : ℕ → Bool
one_char_punct ch =
    ch == b'('
    || ch == b')'
    || ch == b'+'
    || ch == b'-'
    || ch == b'*'
    || ch == b'/'
    || ch == b'%'
    || ch == b'<'
    || ch == b'>'

unfoldable pub unescape : ℕ → ℕ → Outcome ℕ
unescape escaped backslash_position =
    if escaped == backslash
    then ok backslash
    else if escaped == quote_char
    then ok quote_char
    else if escaped == apostrophe
    then ok apostrophe
    else if escaped == b'n'
    then ok 10
    else if escaped == b't'
    then ok 9
    else fail (record {
      message =
          codes "unknown escape sequence \"\\"
          ++ (decode (escaped ∷ []) ++ codes "\" in string literal");
      position = backslash_position;
    })
