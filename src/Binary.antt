-- ===== src/Binary.antt =====
-- binary.go: the messages that the Go process and its workers exchange, and their byte format.
pub mod Wire
pub mod Write
pub mod Parse
pub mod RoundTrip
pub mod Reparse
pub mod Truncated
pub mod Messages
