-- ===== src/Expression/Eval.antt =====
-- core/internal/script/expression/eval.go. A message that shows a number goes through
-- `FormatNumber`, which may panic; so may each function here that builds such a message.
pub mod Messages
pub mod Settles
pub mod Cast
pub mod Run
pub mod Blame
pub mod Kinds
pub mod Typing
