-- ===== src/Activity/Examples.antt =====
-- src/activity.ts: the theorems at concrete histories of activities whose messages are numbers.
use cantelop_sdk.Prelude.{
  ℕ, ◌≤◌, ◌≡◌, refl, Bool, true, false, none, some, List, [], ◌∷◌, All, is_some, natural, err,
  error,
}
use cantelop_sdk.Activity.{Effect, rejects, Stage, launched, working, ActiveActivity}
use cantelop_sdk.Activity.Options.{Options, function, flag, no_flag, max_timeout}
use cantelop_sdk.Activity.Slot.{
  InMemoryActivity, QueuedActivity, new_activity, splice_next, drain, cancel, steer, extend,
  snapshot, activities,
}
use cantelop_sdk.Activity.Turns.{
  Turn, queues, drains_once, begins, works_end, releases, cancels, steers, flush_continues, turn,
  run,
}
use cantelop_sdk.Activity.Invariant.{AllOf}
use cantelop_sdk.Activity.Accounting.{Balanced, run_activity-Balanced}
use cantelop_sdk.Activity.Selection.{Picked, drain-Picked, snapshot_lem}
use cantelop_sdk.Activity.Cancelling.{cancel-again, cancel-Stopped}

abbrev ordinary : Options
ordinary = record {
  timeout_ms = some (natural 50);
  on_cancel = function;
  on_steer = function;
  priority = no_flag;
}

abbrev urgent : Options
urgent = record {
  timeout_ms = none;
  on_cancel = function;
  on_steer = function;
  priority = flag true;
}

abbrev two_queued : List (Turn ℕ)
two_queued = queues "a" true ordinary ∷ queues "b" true urgent ∷ []

abbrev whole_life : List (Turn ℕ)
whole_life =
    queues "a" true ordinary
    ∷ queues "b" true urgent
    ∷ drains_once 5
    ∷ begins
    ∷ steers 3
    ∷ cancels none 8
    ∷ works_end false
    ∷ releases true 9
    ∷ flush_continues 0
    ∷ []

abbrev later : QueuedActivity
later = record { message_id = "a"; completion = 0; timeout = 50; options = ordinary }

abbrev sooner : QueuedActivity
sooner = record { message_id = "b"; completion = 1; timeout = 1800000; options = urgent }

abbrev both_queued : InMemoryActivity ℕ
both_queued = record {
  current = none;
  flushing = [];
  queued = later ∷ sooner ∷ [];
  launches = 0;
  completions = 2;
  hooks = [];
  drains = 2;
}

abbrev at_work : ActiveActivity ℕ
at_work = record {
  id = 0;
  message_id = "b";
  completion = some 1;
  aborted = false;
  followups = record { messages = []; bytes = 0 };
  has_on_steer = true;
  has_on_cancel = true;
  steering = [];
  stage = working;
  deadline = 1800005;
  cancelled_at = none;
}

abbrev one_running : InMemoryActivity ℕ
one_running = record {
  current = some at_work;
  flushing = [];
  queued = later ∷ [];
  launches = 1;
  completions = 2;
  hooks = [];
  drains = 0;
}

both_queued_reached : (run new_activity two_queued).0 ≡ both_queued
unfolding run cantelop_sdk.Activity.Slot.queue
both_queued_reached = refl

one_running_reached :
    (run both_queued (drains_once 5 ∷ drains_once 6 ∷ begins ∷ [])).0 ≡ one_running
unfolding run
one_running_reached = refl

run_activity-Balanced_example :
    Balanced 1 (run new_activity whole_life).0 (run new_activity whole_life).1
run_activity-Balanced_example = run_activity-Balanced 1 whole_life

later_left :
    Picked both_queued.queued sooner (later ∷ [])
    × ((drain both_queued 5).0.queued ≡ later ∷ [])
    × (is_some (drain both_queued 5).0.current ≡ true)
    × AllOf (λ a. (a.completion ≡ some 1) × (a.message_id ≡ "b")) (drain both_queued 5).0.current
unfolding splice_next
later_left = drain-Picked both_queued 5 sooner (later ∷ []) refl refl

shown_one_running :
    ((snapshot one_running ≡ none) → activities one_running ≡ [])
    × ((a : ActiveActivity ℕ)
        → snapshot one_running ≡ some a
        → All (λ b. a.deadline ≤ b.deadline) (activities one_running)
          × ((P : ActiveActivity ℕ → Type 0) → All P (activities one_running) → P a))
shown_one_running = snapshot_lem one_running

cancel_twice :
    cancel (cancel one_running none 7).0 none 9
    ≡ ((cancel one_running none 7).0, (cancel one_running none 7).1, [])
cancel_twice = cancel-again one_running 7 9

running_stopped :
    ((m : ℕ)
      → steer (cancel one_running none 7).0 m ≡ err (error "No steerable activity is active"))
    × ((n now' : ℕ)
        → 1 ≤ n
        → n ≤ max_timeout
        → extend (cancel one_running none 7).0 (natural n) now'
          ≡ err (error "activity is not extendable"))
    × (working ≡ launched → (turn (cancel one_running none 7).0 begins).1 ≡ rejects 1 ∷ [])
    × ((threw : Bool)
        → working ≡ working
        → (turn (cancel one_running none 7).0 (works_end threw)).1 ≡ rejects 1 ∷ [])
running_stopped = cancel-Stopped one_running 7 at_work 1 refl refl
