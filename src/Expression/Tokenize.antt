-- ===== src/Expression/Tokenize.antt =====
-- core/internal/script/expression/tokenize.go: `tokenize` and its helpers. A cursor `i` into the
-- slice `units` is the suffix that begins there, next to the number `i`.
pub mod Chars
pub mod Scan
pub mod Lexeme
pub mod StringLiteral
pub mod Cover
