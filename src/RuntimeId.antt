-- ===== src/RuntimeId.antt =====
-- pkg/runtime/proto.go and parsers.go: a runtime as an ID, and an ID as a runtime.
pub mod Names
pub mod Parse
pub mod Versions
pub mod Parts
pub mod RoundTrip
mod Samples
