-- ===== src/Proxy.antt =====
-- proxy.go
pub mod Request
pub mod TryKey
pub mod ServeOnce
pub mod Serve
pub mod ServeHttp
pub mod AccessLog
mod Tests
mod Sample
mod ServeTests
mod AccountTests
pub mod Respond
