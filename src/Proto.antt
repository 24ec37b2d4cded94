-- ===== src/Proto.antt =====
-- The protocol-buffer messages that the daemon's parts exchange (buildozer/proto/v1).
-- A field that none of the modelled code reads is left out.
pub mod Runtime
pub mod Job
