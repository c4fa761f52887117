-- ===== src/Lib.antt =====
-- The Cantelop SDK: the runtime side of a Session, the wire formats and the event subscription.
--
-- A Session runtime takes messages from the platform, runs the user's behaviour on them one at a
-- time, lets it start activities that outlive a message, and hands its output to a collector. The
-- parts modelled here are the state machines that this rests on, and the checks of what comes in.
--
-- * CursorBuffer (src/cursor-buffer.ts): a bounded log with one reader's acknowledgments. Entries get
--   cursors in order; `read` at a cursor acknowledges what is before it and answers with a batch or
--   parks; `append` wakes readers, and an acknowledgment settles producers and wakes those that
--   wait for capacity.
-- * Output (src/output.ts): `publish` over such a buffer, with the limits of a Session's output.
-- * Mailbox (src/mailbox.ts): the FIFO intake of one activation, which hands a message to its receiver
--   at a time and remembers each outcome under the message's id.
-- * Messages (src/runtime-messages.ts): reservations and receipts. `admit` fingerprints an envelope by
--   its canonical text (Messages/Canonical), starts a delivery, and follows it to its outcome;
--   `cancel` stops it, and `get`, `reply`, `work` and `completions` look at the records
--   (Messages/Queries). In Adapter, `admit` is given a delivery that enqueues into the mailbox.
-- * Quiescence (src/runtime-quiescence.ts): generations of messages, and the waits for an idle
--   runtime; idle is what mailbox and activity slot say together.
-- * Activity (src/activity.ts): the slot of background work. Activity/Options is `validate`,
--   Activity/Slot the state and the calls (start, queue, steer, cancel, cancelMessage, extend,
--   snapshot, drain, launch, abort), Activity/Turns the callbacks (the work's begin and end, hooks,
--   timer, settle, flush).
-- * Stream (src/stream.ts): Stream/Lines is `readLines`, Stream/Frames the frames, `readEvent` and the
--   loop of `streamSessionEvents`.
-- * Protocol (src/integration-protocol.ts, src/runtime-command.ts, src/environment-command.ts,
--   src/session-runtime-protocol.ts, with the patterns of src/shared.ts and src/native-auth.ts): the
--   validation of commands and envelopes over parsed JSON values.
-- * TurnQueue (src/harnesses/queue.ts): the queue of provider turns of a harness.
-- * ClaudeStore (src/harnesses/claude-durable-state.ts): the transactions of the durable store of a
--   Claude Session, its outbox of publications, and the fence behind a write that failed.
-- * ClaudeView (src/harnesses/claude-view.ts): the public view of a Claude Session. ClaudeView is `clip`
--   and `claudeView`, ClaudeView/Json the text that `JSON.stringify` writes, ClaudeView/Observe and
--   its children `observeClaude` (Blocks the blocks of a message, Events the kinds of events).
-- * Observations (src/observability.ts): the buffer of observations, over a cursor buffer, and the
--   observer with its spans. LogCapture (src/runtime-log-capture.ts) cuts what the console and the
--   streams print into log records for that buffer, and counts those dropped.
-- * Adapter (src/session-runtime-adapter.ts): one incarnation of a Session runtime, which owns a mailbox,
--   the messages, an activity slot, quiescence and the harness operations. Adapter/Intake is
--   `bindSession`, `admit`, `receive`, `sendMessage`, `recover`, the callbacks that the constructor
--   gives to its components, and Adapter/Intake/Turns the histories of them all;
--   Adapter/Operations is `startHarnessOperation` and its callbacks, Adapter/Replies the copy of a
--   reply (`encodeReply` of src/session-runtime-protocol.ts), Adapter/Supervision `supervisedWork`.
--
-- How the code corresponds. A class is a record of its fields, a method a function from the record
-- to the record and what it gives back, and a thrown error a `Result` (Prelude/Errors). Code that
-- waits is cut at each `await`: the continuation is a function of its own, run as a turn of the
-- event loop, and the state holds the continuations owed. A history is a list of turns, and a turn
-- that is not owed does nothing, so that every interleaving is among the histories. A promise, a
-- waiter or an activity is named by a number, in place of its identity or a random UUID. Fields and
-- functions keep the source's names in snake case.
--
-- Bounds and fuel. Numbers are natural numbers, and what the code accepts as a JavaScript number is
-- `Number` (Prelude/Numbers); counters are taken to stay below 2^53, as a counter that is raised once
-- per message does. Loops are structural recursion, but for three: the decimal digits of a number have
-- a fuel of 16, as a safe integer has no more digits; the slices of a log line have its length as
-- fuel; and the search for a free entry id has one more than the ids there are. Times are
-- milliseconds or nanoseconds as the code counts them, given with each turn.
--
-- Parameters: JSON encoding and parsing, SHA-256, the sizes of encoded texts in Output, Messages and
-- Observations, the text of an arbitrary value and the usage of an event in ClaudeView, the key order
-- of `sort`, and the date parser of Stream. What is relied on of them is a named hypothesis where a
-- theorem needs one.
--
-- Not modelled: the user's code, the activation of a runtime and what an invocation's context
-- offers, the auth terminals, the HTTP servers and clients, child processes and terminals, the
-- harnesses but for the queue, the store and the view (the opening of the store is left out), the
-- patching of the console and the streams, the SQL client, and the build tools; observers'
-- exceptions, which the code swallows; of Stream, the request of a subscription and the refusal
-- by status or content type; and of Activity, steering that is still pending when the flush of its
-- activity has ended.
pub mod Prelude
pub mod CursorBuffer
pub mod Output
pub mod Mailbox
pub mod Messages
pub mod Quiescence
pub mod Activity
pub mod Stream
pub mod Protocol
pub mod ClaudeStore
pub mod ClaudeView
pub mod Observations
pub mod LogCapture
pub mod Adapter
pub mod TurnQueue
