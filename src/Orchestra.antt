-- ===== src/Orchestra.antt =====
-- core/internal/orchestra: element resolution over UI trees, and the actions on a driver.
pub mod Cursor
pub mod Pattern
pub mod Filter
pub mod Selector
pub mod AppId
pub mod Bounds
pub mod Overlay
pub mod Finder
pub mod WaitFor
pub mod Wait
pub mod Signature
pub mod Scroll
pub mod Obscurement
pub mod Launch
mod Fixtures
mod Samples
