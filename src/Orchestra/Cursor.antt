-- ===== src/Orchestra/Cursor.antt =====
-- core/internal/orchestra/cursor.go.
pub mod Walk
pub mod Preorder
pub mod Placed
