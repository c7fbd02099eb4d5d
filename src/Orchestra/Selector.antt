-- ===== src/Orchestra/Selector.antt =====
-- core/internal/orchestra/selector.go and priority_broadening.go.
pub mod Compile
pub mod Rank
pub mod Broaden
pub mod Selects
