-- ===== src/Expression/Parse.antt =====
-- core/internal/script/expression/parse.go. The parser's state `(tokens, pos)` is the list of the
-- tokens from `pos` on; `current` on the empty list is Go's index out of range.
pub mod Levels
pub mod Methods
pub mod Grammar
pub mod Sound
pub mod Total
