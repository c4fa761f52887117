-- ===== src/Protocol.antt =====
-- The wire formats of the SDK: src/integration-protocol.ts (commands of a backend),
-- src/runtime-command.ts and src/environment-command.ts (commands inside a message), and
-- src/session-runtime-protocol.ts (envelopes of the platform), over parsed JSON values.
pub mod Values
pub mod Patterns
pub mod RuntimeCommands
pub mod Commands
pub mod AuthSessions
pub mod Envelopes
pub mod Decoding
pub mod Checked
pub mod Received
mod Examples
