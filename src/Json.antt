-- ===== src/Json.antt =====
-- Package encoding/json, as far as the source uses it: decoded values, Unmarshal into them, and the
-- fields of the structs that the source decodes into.
pub mod Value
pub mod Strings
pub mod Numbers
pub mod Parse
pub mod Decode
pub mod Structs
pub mod Any
mod Tests
