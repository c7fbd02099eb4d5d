-- ===== src/IosSimDriver.antt =====
-- core/internal/iossimdriver: the driver of iOS simulators.
pub mod WsFrame
mod Samples
