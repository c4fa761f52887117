-- ===== src/Adapter/Intake.antt =====
-- src/session-runtime-adapter.ts: what the runtime is bound to, the intake of messages, controls and
-- recoveries, and when it is idle, over the modelled components. The fingerprint of a recovery is the
-- pair that its JSON text tells; whether an auth terminal is active is an argument.
pub mod Turns
pub mod Changes
pub mod Generations
pub mod Recovering
mod Examples
use cantelop_sdk.Prelude.{
  codes, starts_with, ℕ, zero, suc, ◌-◌, String, Bool, true, false, not, ◌&&◌, ◌||◌, Option, none,
  some, List, [], ◌∷◌, ◌++◌, length, drop, ◌==◌, if◌then◌else◌, lookup, insert, str_eq, is_some,
  Thrown, error, type_error, protocol_error, Result, ok, err, ensure, ◌>>=◌, ◌>>◌,
}
use cantelop_sdk.Activity.Slot.{
  InMemoryActivity, cancel_message as cancel_activities, is_idle as is_slot_idle,
}
use cantelop_sdk.Adapter.Operations.{Operations, abort_operation}
use cantelop_sdk.Mailbox
use cantelop_sdk.Mailbox.{Mailbox}
use cantelop_sdk.Messages
use cantelop_sdk.Messages.{Messages, Delivery, Deadline, Digest, Receipt}
use cantelop_sdk.Messages.Canonical.{Json}
use cantelop_sdk.Protocol.AuthSessions.{is_reserved_auth_session_id}
use cantelop_sdk.Protocol.Envelopes.{SessionIdentity}
use cantelop_sdk.Quiescence
use cantelop_sdk.Quiescence.{Quiescence}

-- What a command asks of the intake.
pub data Command : Type 0 where
  dispatch steer cancel auth : Command

pub record RuntimeRecovery : Type 0 where
  pub interrupted_message_id : String
  pub session : SessionIdentity
  pub generation : ℕ

-- `M` is a payload, `V` a reply; the mailbox resolves nothing and rejects with what was thrown.
pub record Runtime (M V : Type 0) : Type 0 where
  pub bound_session : Option SessionIdentity
  pub harness_mode : Bool
  pub recovers : Bool
  pub messages : Messages V
  pub quiescence : Quiescence
  pub mailbox : Mailbox (Unit {0}) Thrown
  pub activity : InMemoryActivity M
  pub harness_operations : Operations M
  pub recoveries : List (String × RuntimeRecovery)
  pub pending_controls : ℕ
  pub next_intake_sequence : ℕ

-- How the promise of a delivery comes about.
pub data Intake : Type 0 where
  refused : Thrown → Intake
  control : Intake
  queued : Intake

abbrev pub same_session : SessionIdentity → SessionIdentity → Bool
same_session a b = str_eq a.id b.id && str_eq a.workspace_id b.workspace_id

-- Whether `started` is called before `receive` returns.
abbrev pub started_at : Intake → ℕ → Option ℕ
started_at queued now = none
started_at _ now = some now

abbrev pub is_auth : Command → Bool
is_auth auth = true
is_auth _ = false

-- Whether the fingerprint of a recovery is that of a request.
unfoldable pub fits : RuntimeRecovery → String → SessionIdentity → Bool
fits existing interrupted session =
    str_eq existing.interrupted_message_id interrupted
    && same_session existing.session session
    && existing.session.keep_alive_seconds == session.keep_alive_seconds

module _ {M V : Type 0} where
  bind_to : Runtime M V → SessionIdentity → Option SessionIdentity → Result (Runtime M V)
  bind_to r session none = ok (record r { bound_session = some session })
  bind_to r session (some bound) = do
    ensure (same_session bound session) (protocol_error 409 "session_mismatch")
    ok r

  unfoldable pub bind_session : Runtime M V → SessionIdentity → Result (Runtime M V)
  unfolding bind_to
  bind_session r session = bind_to r session r.bound_session

  -- `mailbox.enqueue`, as far as the runtime's state goes.
  abbrev pub enqueued : Runtime M V → String → ℕ → Runtime M V
  enqueued r id now = record r { mailbox = (Mailbox.enqueue r.mailbox id now).0 }

  receive_command : Runtime M V → String → Command → ℕ → Runtime M V × Intake
  receive_command r id cancel now =
      if r.harness_mode
      then (enqueued r id now, queued)
      else (record r { pending_controls = suc r.pending_controls }, control)
  receive_command r id _ now = (enqueued r id now, queued)

  -- `receive` with the generation that it returns.
  unfoldable pub receive :
      Runtime M V → String → SessionIdentity → Command → ℕ → Runtime M V × ℕ × Intake
  unfolding receive_command
  receive r id session command now =
      let (quiescence, generation) = Quiescence.observe_message r.quiescence id in
      let r' = record r {
        quiescence = quiescence;
        next_intake_sequence = suc r.next_intake_sequence;
      } in
      if is_reserved_auth_session_id session.id && not (is_auth command)
      then (r', generation, refused (type_error "Reserved auth Session requires an auth command"))
      else (let (r'', intake) = receive_command r' id command now in (r'', generation, intake))

  -- The control's `finally`.
  unfoldable pub control_settled : Runtime M V → Runtime M V
  control_settled r = record r { pending_controls = r.pending_controls - 1 }

  admit_new :
      Digest
      → Runtime M V
      → Runtime M V × ℕ × Intake
      → String
      → Json
      → ℕ
      → Deadline
      → Option String
      → Option V
      → Result (Runtime M V × Receipt)
  admit_new h r (r', generation, intake) id envelope now deadline attempt reply = do
    admitted ←
        Messages.admit h r.messages id envelope now deadline attempt
          (ok (record { generation = generation; reply = reply; started = started_at intake now }))
    ok (record r' { messages = admitted.0 }, admitted.1)

  admit_retry : Runtime M V → Result (Messages V × Receipt) → Result (Runtime M V × Receipt)
  admit_retry r admitted = admitted >>= λ p. ok (record r { messages = p.0 }, p.1)

  -- `admit`: the delivery is made only for a message that was not reserved before.
  unfoldable pub admit :
      Digest
      → Runtime M V
      → String
      → Json
      → SessionIdentity
      → Command
      → ℕ
      → Deadline
      → Option String
      → Option V
      → Result (Runtime M V × Receipt)
  unfolding admit_new admit_retry
  admit h r id envelope session command now deadline attempt reply =
      if is_some (lookup id r.messages.records)
      then admit_retry r (
          Messages.admit h r.messages id envelope now deadline attempt
            (err (error "not delivered")))
      else admit_new h r (receive r id session command now) id envelope now deadline attempt reply

  send_bound :
      Digest
      → Runtime M V
      → String
      → Json
      → ℕ
      → Option SessionIdentity
      → Result (Runtime M V × Receipt)
  send_bound h r id envelope now none =
      err (error "Session runtime cannot send before its Session is bound")
  send_bound h r id envelope now (some session) =
      admit h r id envelope session dispatch now Deadline.absent none none

  -- `sendMessage`; `id` is the new id of the message.
  unfoldable pub send_message :
      Digest → Runtime M V → String → Json → ℕ → Result (Runtime M V × Receipt)
  unfolding send_bound
  send_message h r id envelope now = send_bound h r id envelope now r.bound_session

  recover_known :
      Runtime M V
      → String
      → String
      → SessionIdentity
      → ℕ
      → Option RuntimeRecovery
      → Result (Runtime M V × RuntimeRecovery)
  recover_known r id interrupted session now (some existing) = do
    ensure (fits existing interrupted session) (protocol_error 409 "recovery_conflict")
    ok (r, existing)
  recover_known r id interrupted session now none = do
    ensure r.recovers (protocol_error 409 "recovery_unsupported")
    ok (
        let (quiescence, generation) = Quiescence.observe_message r.quiescence interrupted in
        let recovery : RuntimeRecovery = record {
          interrupted_message_id = interrupted;
          session = session;
          generation = generation;
        } in
        (
          record (enqueued r id now) {
            quiescence = quiescence;
            recoveries = insert id recovery r.recoveries;
          },
          recovery,
        ))

  unfoldable pub recover :
      Runtime M V → String → String → SessionIdentity → ℕ → Result (Runtime M V × RuntimeRecovery)
  unfolding recover_known
  recover r id interrupted session now =
      recover_known r id interrupted session now (lookup id r.recoveries)

  -- The callback that `RuntimeMessages` is given: what was queued or runs for a message is stopped.
  unfoldable pub on_cancel : Runtime M V → String → Thrown → ℕ → Runtime M V
  on_cancel r id reason now = record r {
    mailbox = (Mailbox.cancel r.mailbox id reason).0;
    activity = (cancel_activities r.activity id now).0;
    harness_operations = abort_operation r.harness_operations id reason now;
  }

  cancelled :
      Runtime M V → String → Thrown → ℕ → Messages V × Receipt × Bool → Runtime M V × Receipt
  unfolding on_cancel
  cancelled r id reason now (messages, receipt, called) =
      let r' = record r { messages = messages } in
      (if called then on_cancel r' id reason now else r', receipt)

  -- `messages.cancel`, with that callback.
  unfoldable pub cancel_message :
      Runtime M V → String → String → Thrown → ℕ → Result (Runtime M V × Receipt)
  unfolding cancelled
  cancel_message r id code reason now =
      Messages.cancel r.messages id code now >>= λ p. ok (cancelled r id reason now p)

  -- The callback that `RuntimeQuiescence` is given.
  unfoldable pub is_idle : Runtime M V → Bool → Bool
  is_idle r auth_active =
      Mailbox.is_idle r.mailbox
      && is_slot_idle r.activity
      && length r.harness_operations == 0
      && r.pending_controls == 0
      && not auth_active
