-- ===== src/Adapter.antt =====
-- src/session-runtime-adapter.ts: one incarnation of a Session runtime, over the modelled mailbox,
-- messages, activity slot and quiescence. Adapter/Operations is the harness operations, Adapter/Intake
-- the binding of the Session, the intake of messages and the recoveries.
pub mod Replies
pub mod Operations
pub mod Intake
pub mod Supervision
