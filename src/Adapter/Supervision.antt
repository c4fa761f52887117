-- ===== src/Adapter/Supervision.antt =====
-- src/session-runtime-adapter.ts: the supervised work: the harness operations and the activities of a
-- runtime, as the server sees them. Ids are numbers in place of random UUIDs; where an operation and
-- an activity had the same, the operation would be cancelled, as in the source.
mod Shown
mod Examples
use cantelop_sdk.Prelude.{
  ℕ, Bool, true, false, ◌||◌, not, String, Option, none, some, List, [], ◌∷◌, length, ltb, leb,
  ◌==◌, if◌then◌else◌, Thrown,
}
use cantelop_sdk.Activity.{ActiveActivity}
use cantelop_sdk.Activity.Slot.{is_active, snapshot as activity_snapshot, cancel as cancel_activity}
use cantelop_sdk.Adapter.Operations.{HarnessOperation, Operations, abort_with}
use cantelop_sdk.Adapter.Intake.{Runtime}

pub record Work : Type 0 where
  pub id : ℕ
  pub deadline : ℕ
  pub cancellation_requested_at : Option ℕ

module _ {M : Type 0} where
  abbrev pub of_activity : ActiveActivity M → Work
  of_activity a = record {
    id = a.id;
    deadline = a.deadline;
    cancellation_requested_at = a.cancelled_at;
  }

  abbrev pub of_operation : HarnessOperation M → Work
  of_operation op = record {
    id = op.id;
    deadline = op.deadline;
    cancellation_requested_at = op.cancelled_at;
  }

  pub sooner : HarnessOperation M → Option (HarnessOperation M) → HarnessOperation M
  sooner op none = op
  sooner op (some pending) = if ltb op.deadline pending.deadline then op else pending

  -- The loop of `snapshot`.
  unfoldable pub earliest_operation :
      Operations M → Option (HarnessOperation M) → Option (HarnessOperation M)
  unfolding sooner
  earliest_operation [] pending = pending
  earliest_operation ((key, op) ∷ ops) pending = earliest_operation ops (some (sooner op pending))

  unfoldable pub choose : Option (HarnessOperation M) → Option (ActiveActivity M) → Option Work
  choose none none = none
  choose none (some background) = some (of_activity background)
  choose (some pending) none = some (of_operation pending)
  choose (some pending) (some background) =
      if leb background.deadline pending.deadline
      then some (of_activity background)
      else some (of_operation pending)

  behind : String × HarnessOperation M → Option (Operations M) → Option (Operations M)
  behind entry none = none
  behind entry (some ops) = some (entry ∷ ops)

  -- The first operation of an id is aborted, if there is one.
  unfoldable pub abort_matching : ℕ → Thrown → ℕ → Operations M → Option (Operations M)
  unfolding behind
  abort_matching id reason now [] = none
  abort_matching id reason now ((key, op) ∷ ops) =
      let further = abort_matching id reason now ops in
      if op.id == id then some ((key, abort_with reason now op) ∷ ops) else behind (key, op) further

module _ {M V : Type 0} where
  unfoldable pub active : Runtime M V → Bool
  active r = is_active r.activity || ltb 0 (length r.harness_operations)

  unfoldable pub snapshot : Runtime M V → Option Work
  unfolding earliest_operation choose
  snapshot r = choose (earliest_operation r.harness_operations none) (activity_snapshot r.activity)

  cancel_found : Runtime M V → ℕ → ℕ → Option (Operations M) → Runtime M V × Bool
  cancel_found r now id (some operations) = (record r { harness_operations = operations }, true)
  cancel_found r now id none =
      let (activity, requested, effects) = cancel_activity r.activity (some id) now in
      (record r { activity = activity }, requested)

  -- `cancel`, with the id of the work or without.
  unfoldable pub cancel : Runtime M V → Thrown → Option ℕ → ℕ → Runtime M V × Bool
  unfolding cancel_found abort_matching
  cancel r reason none now =
      let (activity, requested, effects) = cancel_activity r.activity none now in
      (record r { activity = activity }, requested)
  cancel r reason (some id) now =
      cancel_found r now id (abort_matching id reason now r.harness_operations)
