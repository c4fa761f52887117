-- ===== src/Adapter/Intake/Turns.antt =====
-- src/session-runtime-adapter.ts: histories of a runtime: the calls of its server, and the callbacks
-- of its components.
use cantelop_sdk.Prelude.{ℕ, String, Bool, Option, none, List, [], ◌∷◌, Thrown, Result, ok, err}
use cantelop_sdk.Activity.Slot.{new_activity}
use cantelop_sdk.Activity.Turns as ActivityTurns
use cantelop_sdk.Adapter.Operations.Turns as OperationTurns
use cantelop_sdk.Adapter.Intake.{
  Command, Runtime, bind_session, admit, send_message, recover, cancel_message, control_settled,
}
use cantelop_sdk.Mailbox
use cantelop_sdk.Mailbox.{new_mailbox}
use cantelop_sdk.Messages
use cantelop_sdk.Messages.{Deadline, Digest, new_messages}
use cantelop_sdk.Messages.Canonical.{Json}
use cantelop_sdk.Output.{Json as ReplyJson}
use cantelop_sdk.Protocol.Envelopes.{SessionIdentity}
use cantelop_sdk.Quiescence.{new_quiescence}

pub data Turn (M V : Type 0) : Type 0 where
  binds : SessionIdentity → Turn M V
  admits :
      Digest
      → String
      → Json
      → SessionIdentity
      → Command
      → ℕ
      → Deadline
      → Option String
      → Option V
      → Turn M V
  sends : Digest → String → Json → ℕ → Turn M V
  resumes : String → String → SessionIdentity → ℕ → Turn M V
  control_ends : Turn M V
  cancels : String → String → Thrown → ℕ → Turn M V
  message_starts : String → ℕ → Turn M V
  message_settles : String → Bool → Turn M V
  message_closes : String → ℕ → Turn M V
  mailbox_turn : Mailbox.Turn (Unit {0}) Thrown → Turn M V
  activity_turn : ActivityTurns.Turn M → Turn M V
  operation_turn : ReplyJson V → OperationTurns.Turn M V → Turn M V

module _ {M V : Type 0} where
  -- The constructor.
  abbrev pub new_runtime : String → ℕ → ℕ → Bool → Bool → Runtime M V
  new_runtime sandbox_id timeout_ms max_messages harness_mode recovers = record {
    bound_session = none;
    harness_mode = harness_mode;
    recovers = recovers;
    messages = new_messages sandbox_id timeout_ms max_messages;
    quiescence = new_quiescence;
    mailbox = new_mailbox;
    activity = new_activity;
    harness_operations = [];
    recoveries = [];
    pending_controls = 0;
    next_intake_sequence = 1;
  }

  -- A call that throws changes nothing.
  abbrev pub after : {A : Type 0} → Runtime M V → Result (Runtime M V × A) → Runtime M V
  after r (err thrown) = r
  after r (ok out) = out.0

  abbrev pub after_bind : Runtime M V → Result (Runtime M V) → Runtime M V
  after_bind r (err thrown) = r
  after_bind r (ok r') = r'

  unfoldable pub turn : Runtime M V → Turn M V → Runtime M V
  turn r (binds session) = after_bind r (bind_session r session)
  turn r (admits h id envelope session command now deadline attempt reply) =
      after r (admit h r id envelope session command now deadline attempt reply)
  turn r (sends h id envelope now) = after r (send_message h r id envelope now)
  turn r (resumes id interrupted session now) = after r (recover r id interrupted session now)
  turn r control_ends = control_settled r
  turn r (cancels id code reason now) = after r (cancel_message r id code reason now)
  turn r (message_starts id now) = record r { messages = Messages.started r.messages id now }
  turn r (message_settles id fulfilled) = record r {
    messages = Messages.outcome r.messages id fulfilled;
  }
  turn r (message_closes id now) = record r { messages = (Messages.close r.messages id now).0 }
  turn r (mailbox_turn t) = record r { mailbox = (Mailbox.turn r.mailbox t).0 }
  turn r (activity_turn t) = record r { activity = (ActivityTurns.turn r.activity t).0 }
  turn r (operation_turn json t) = record r {
    harness_operations = (OperationTurns.turn json r.harness_operations t).0;
  }

  unfoldable pub run : Runtime M V → List (Turn M V) → Runtime M V
  run r [] = r
  run r (t ∷ ts) = run (turn r t) ts
