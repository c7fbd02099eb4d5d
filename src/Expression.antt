-- ===== src/Expression.antt =====
-- core/internal/script/expression: the expression language of the script engine.
-- One child for each file of the package; each child's proofs are its own children.
pub mod Outcome
pub mod Utf16
pub mod Token
pub mod Tokenize
pub mod Float
pub mod Decimal
pub mod FormatNumber
pub mod Ast
pub mod Value
pub mod Parse
pub mod Source
pub mod Eval
pub mod Bounds
mod Samples
