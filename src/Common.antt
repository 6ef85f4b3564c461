-- ===== src/Common.antt =====
-- internal/common: the configuration, the authentication of callers, and the answers to errors.
pub mod Loader
pub mod Config
pub mod Auth
pub mod Fit
pub mod Currency
pub mod Startup
pub mod Http
mod Tests
