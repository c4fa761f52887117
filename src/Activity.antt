-- ===== src/Activity.antt =====
-- src/activity.ts: the activity slot of one runtime incarnation, one turn of the event loop at a
-- time. An activity and a completion promise are named by the number of those before them, in
-- place of a UUID and an object. The work of a user is not modelled: a turn says how it ended.
-- `hooks` are the calls of `onCancel` that have not settled, `drains` the microtasks owed.
pub mod Options
pub mod Slot
pub mod Turns
pub mod Selection
pub mod Invariant
pub mod Histories
pub mod Accounting
pub mod Cancelling
mod Examples
use cantelop_sdk.Prelude.{
  ℕ, ◌+◌, ◌*◌, String, Bool, true, false, Option, none, some, List, [], ◌∷◌, ◌++◌, ◌||◌, ltb, leb,
  length, Thrown, error, Result, ok, err, ensure, ◌>>◌, ◌>>=◌,
}

abbrev pub max_queued : ℕ
max_queued = 256

abbrev pub max_followup_bytes : ℕ
max_followup_bytes = 8388608

pub data Outcome : Type 0 where
  started : Outcome
  completed : Outcome
  failed : Outcome
  cancellation_requested : Outcome
  cancelled : Outcome

-- What a turn does outside: reports, callbacks, promises settled, hooks and messages.
pub data Effect (M : Type 0) : Type 0 where
  reports : ℕ → String → Outcome → Effect M
  state_changed : Effect M
  resolves : ℕ → Effect M
  rejects : ℕ → Effect M
  calls_on_cancel : ℕ → Effect M
  calls_on_steer : ℕ → M → Effect M
  sends : M → Effect M

pub record FollowupMessages (M : Type 0) : Type 0 where
  pub messages : List M
  pub bytes : ℕ

-- Where the promise chain of an activity stands: not begun, in the user's work, or (`settled`)
-- waiting for its hooks, with `failed` for the settlement to come.
pub data Stage : Type 0 where
  launched : Stage
  working : Stage
  settling : Bool → Stage

pub record ActiveActivity (M : Type 0) : Type 0 where
  pub id : ℕ
  pub message_id : String
  pub completion : Option ℕ
  pub aborted : Bool
  pub followups : FollowupMessages M
  pub has_on_steer : Bool
  pub has_on_cancel : Bool
  pub steering : List M
  pub stage : Stage
  pub deadline : ℕ
  pub cancelled_at : Option ℕ

module _ {M : Type 0} where
  abbrev pub no_followups : FollowupMessages M
  no_followups = record { messages = []; bytes = 0 }

  -- `size` is the byte length of the payload's JSON.
  unfoldable pub push : FollowupMessages M → M → ℕ → Result (FollowupMessages M)
  push f payload size = do
    ensure (ltb (length f.messages) max_queued) (error "activity mailbox capacity")
    ensure (leb (f.bytes + size) max_followup_bytes) (error "activity mailbox capacity")
    ok (record { messages = f.messages ++ payload ∷ []; bytes = f.bytes + size })
