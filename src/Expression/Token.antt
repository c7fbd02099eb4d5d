-- ===== src/Expression/Token.antt =====
-- core/internal/script/expression/token.go.
use atomyx.Prelude.{ℕ, Bool, true, false, Text, codes}

pub data TokenKind : Type 0 where
  number string identifier punct eof : TokenKind

unfoldable pub kind_eq : TokenKind → TokenKind → Bool
kind_eq TokenKind.number TokenKind.number = true
kind_eq TokenKind.string TokenKind.string = true
kind_eq TokenKind.identifier TokenKind.identifier = true
kind_eq TokenKind.punct TokenKind.punct = true
kind_eq TokenKind.eof TokenKind.eof = true
kind_eq _ _ = false

pub record Token : Type 0 where
  pub kind : TokenKind
  pub value : Text
  pub position : ℕ

abbrev describe : TokenKind → Text → Text
describe TokenKind.eof value = codes "end of input"
describe _ value = value

unfoldable pub describe_token : Token → Text
describe_token t = describe t.kind t.value
