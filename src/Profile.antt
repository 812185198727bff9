-- ===== src/Profile.antt =====
-- profile.go
pub mod State
pub mod Policy
pub mod Route
pub mod Build
mod Tests
