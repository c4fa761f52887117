-- ===== src/Adapter/Operations.antt =====
-- src/session-runtime-adapter.ts: the operations that a harness runs for messages, by the id of the
-- message. The user's harness is not modelled: turns say whether its call returned and how its promise
-- ended. An operation's random id is a number. `outer` is the reason of the message's or the
-- runtime's signal, where one of them is aborted at the call.
pub mod Turns
pub mod Invariant
pub mod Owed
pub mod Draining
mod Examples
use cantelop_sdk.Prelude.{
  ℕ, suc, String, Bool, true, false, not, ◌&&◌, Option, none, some, List, [], ◌∷◌, ◌++◌, length,
  ltb, leb, ◌==◌, if◌then◌else◌, lookup, insert, erase, str_eq, is_some, Thrown, error,
  abort_reason, Result, ok, err, ensure, ◌>>=◌, ◌>>◌,
}
use cantelop_sdk.Activity.{FollowupMessages, no_followups, push}
use cantelop_sdk.Adapter.Replies.{encode_reply}
use cantelop_sdk.Output.{Json}

abbrev pub max_harness_operations : ℕ
max_harness_operations = 256

-- The harness is being called, its promise is pending, or the work is closed and its follow-up
-- messages are being sent.
pub data Phase : Type 0 where
  calling working flushing : Phase

-- `aborted` is the reason of the operation's own controller.
pub record HarnessOperation (M : Type 0) : Type 0 where
  pub id : ℕ
  pub aborted : Option Thrown
  pub deadline : ℕ
  pub cancelled_at : Option ℕ
  pub followups : FollowupMessages M
  pub replies : Bool
  pub phase : Phase

abbrev pub Operations : Type 0 → Type 0
Operations M = List (String × HarnessOperation M)

-- What a turn does outside: messages sent on, `quiescence.changed()`, and the end of a completion
-- with the reply that it leaves.
pub data Effect (M V : Type 0) : Type 0 where
  sends : M → Effect M V
  state_changed : Effect M V
  completes : Result (Option V) → Effect M V

abbrev pub is_open : Phase → Bool
is_open flushing = false
is_open _ = true

-- `workSignal`'s reason.
abbrev pub work_aborted : Option Thrown → Option Thrown → Option Thrown
work_aborted none own = own
work_aborted (some reason) own = some reason

reply_of : {V : Type 0} → Json V → Bool → V → Result (Option V)
unfolding encode_reply
reply_of json false result = ok none
reply_of json true result = encode_reply json result >>= λ copy. ok (some copy)

settled_error : Thrown
settled_error = error "Session harness operation settled"

timed_out : Thrown
timed_out = abort_reason "Harness operation timed out"

module _ {M : Type 0} where
  unfoldable pub modify :
      String → (HarnessOperation M → HarnessOperation M) → Operations M → Operations M
  modify id change [] = []
  modify id change ((key, op) ∷ ops) =
      let rest = modify id change ops in
      if str_eq key id then (key, change op) ∷ ops else (key, op) ∷ rest

  abbrev new_operation : ℕ → ℕ → Bool → HarnessOperation M
  new_operation id deadline replies = record {
    id = id;
    aborted = none;
    deadline = deadline;
    cancelled_at = none;
    followups = no_followups;
    replies = replies;
    phase = calling;
  }

  -- `closeWork`: the timer and the abort listener go, and the flush begins.
  abbrev pub close_work : HarnessOperation M → HarnessOperation M
  close_work op = record op { phase = flushing }

  begin_call :
      Operations M → String → HarnessOperation M → Option Thrown → Operations M × Result (Unit {0})
  begin_call ops message_id op none = (insert message_id op ops, ok tt)
  begin_call ops message_id op (some reason) = (insert message_id (close_work op) ops, err reason)

  -- `startHarnessOperation` up to the call of the harness.
  unfoldable pub start_operation :
      Operations M → String → ℕ → ℕ → Bool → Option Thrown → Operations M × Result (Unit {0})
  unfolding begin_call
  start_operation ops message_id id deadline replies outer =
      if leb max_harness_operations (length ops)
      then (ops, err (error "harness operation capacity"))
      else begin_call ops message_id (new_operation id deadline replies) outer

  -- The call came back with a promise, or threw.
  returned_from : Option Thrown → Phase → HarnessOperation M → HarnessOperation M
  returned_from none calling op = record op { phase = working }
  returned_from (some thrown) calling op = close_work op
  returned_from thrown _ op = op

  unfoldable pub call_returned : Operations M → String → Option Thrown → Operations M
  unfolding returned_from
  call_returned ops message_id thrown =
      modify message_id (λ op. returned_from thrown op.phase op) ops

  module _ {V : Type 0} (json : Json V) where
    -- The `then` of the completion.
    completion : HarnessOperation M → Option Thrown → Result V → Result (Option V)
    unfolding reply_of
    completion op outer (err reason) = err reason
    completion op outer (ok result) = elim (work_aborted outer op.aborted) [
      | none ↦ reply_of json op.replies result
      | some reason ↦ err reason
    ]

    settle_working :
        Operations M
        → String
        → Option Thrown
        → Result V
        → HarnessOperation M
        → Phase
        → Operations M × List (Effect M V)
    unfolding completion
    settle_working ops message_id outer result op working =
        (modify message_id close_work ops, completes (completion op outer result) ∷ [])
    settle_working ops message_id outer result op _ = (ops, [])

    settle_found :
        Operations M
        → String
        → Option Thrown
        → Result V
        → Option (HarnessOperation M)
        → Operations M × List (Effect M V)
    unfolding settle_working
    settle_found ops message_id outer result none = (ops, [])
    settle_found ops message_id outer result (some op) =
        settle_working ops message_id outer result op op.phase

    -- The promise of the harness settled: the work closes behind it.
    unfoldable pub settle :
        Operations M → String → Option Thrown → Result V → Operations M × List (Effect M V)
    unfolding settle_found
    settle ops message_id outer result =
        settle_found ops message_id outer result (lookup message_id ops)

  -- `assertWorkOpen`.
  unfoldable pub assert_work_open :
      Option (HarnessOperation M) → Option Thrown → Result (HarnessOperation M)
  unfolding settled_error
  assert_work_open none outer = err settled_error
  assert_work_open (some op) outer = do
    ensure (is_open op.phase) settled_error
    elim (work_aborted outer op.aborted) [ none ↦ ok op | some reason ↦ err reason ]

  -- `work.send`; `size` is the byte length of the payload's JSON.
  unfoldable pub push_message :
      Operations M → String → Option Thrown → M → ℕ → Result (Operations M)
  push_message ops message_id outer payload size = do
    op ← assert_work_open (lookup message_id ops) outer
    followups ← push op.followups payload size
    ok (modify message_id (λ o. record o { followups = followups }) ops)

  -- `controller.abort(reason)`, with `markCancellation` while it listens.
  unfoldable pub abort_once : Thrown → ℕ → HarnessOperation M → Option Thrown → HarnessOperation M
  abort_once reason now op (some _) = op
  abort_once reason now op none = record op {
    aborted = some reason;
    cancelled_at = if is_open op.phase then some now else op.cancelled_at;
  }

  unfoldable pub abort_with : Thrown → ℕ → HarnessOperation M → HarnessOperation M
  unfolding abort_once
  abort_with reason now op = abort_once reason now op op.aborted

  -- Whether an abort would be marked.
  abbrev pub marks : Option (HarnessOperation M) → Bool
  marks none = false
  marks (some op) = is_open op.phase && not (is_some op.aborted)

  unfoldable pub abort_operation : Operations M → String → Thrown → ℕ → Operations M
  abort_operation ops message_id reason now = modify message_id (abort_with reason now) ops

  -- The timer is cleared when the work closes.
  abbrev pub is_due : ℕ → Option (HarnessOperation M) → Bool
  is_due now none = false
  is_due now (some op) = is_open op.phase && leb op.deadline now

  unfoldable pub fire_timer : ℕ → HarnessOperation M → HarnessOperation M
  unfolding timed_out
  fire_timer now op = if is_due now (some op) then abort_with timed_out now op else op

  flush_sent :
      {V : Type 0} → Operations M → String → FollowupMessages M → Operations M × List (Effect M V)
  flush_sent ops message_id f = elim f.messages [
    | [] ↦ (erase message_id ops, state_changed ∷ [])
    | payload ∷ rest ↦ (
      modify message_id (λ o. record o { followups = record f { messages = rest } }) ops,
      sends payload ∷ [],
    )
  ]

  flush_phase :
      {V : Type 0}
      → Operations M
      → String
      → HarnessOperation M
      → Phase
      → Operations M × List (Effect M V)
  unfolding flush_sent
  flush_phase ops message_id op flushing = flush_sent ops message_id op.followups
  flush_phase ops message_id op _ = (ops, [])

  flush_found :
      {V : Type 0}
      → Operations M
      → String
      → Option (HarnessOperation M)
      → Operations M × List (Effect M V)
  unfolding flush_phase
  flush_found ops message_id none = (ops, [])
  flush_found ops message_id (some op) = flush_phase ops message_id op op.phase

  -- One message more of the flush is sent, or the `finally` behind it takes the operation out.
  unfoldable pub flush_next :
      {V : Type 0} → Operations M → String → Operations M × List (Effect M V)
  unfolding flush_found
  flush_next ops message_id = flush_found ops message_id (lookup message_id ops)
