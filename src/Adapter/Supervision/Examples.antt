-- ===== src/Adapter/Supervision/Examples.antt =====
-- src/session-runtime-adapter.ts: the supervised work of a runtime with two operations.
use cantelop_sdk.Prelude.{ℕ, ◌≡◌, ◌≤◌, refl, String, true, false, none, some, [], ◌∷◌, error}
use cantelop_sdk.Activity.Slot.{snapshot as activity_snapshot, earliest}
use cantelop_sdk.Adapter.Operations.{working, HarnessOperation}
use cantelop_sdk.Adapter.Intake.{Runtime}
use cantelop_sdk.Adapter.Intake.Turns.{new_runtime}
use cantelop_sdk.Adapter.Supervision.{
  of_operation, sooner, earliest_operation, choose, snapshot, cancel,
}
use cantelop_sdk.Adapter.Supervision.Shown.{Shown, is_stopped, snapshot-Shown, cancel_shown}

abbrev operation : ℕ → ℕ → HarnessOperation String
operation id deadline = record {
  id = id;
  aborted = none;
  deadline = deadline;
  cancelled_at = none;
  followups = record { messages = []; bytes = 0 };
  replies = true;
  phase = working;
}

abbrev two : Runtime String String
two = record (new_runtime "sbx-1" 300000 4096 true false) {
  harness_operations = ("m1", operation 1 5000) ∷ ("m2", operation 2 4000) ∷ [];
}

two_shown : snapshot two ≡ some (of_operation (operation 2 4000))
unfolding snapshot earliest_operation choose sooner activity_snapshot earliest
two_shown = refl

snapshot-Shown_example : Shown (λ w. w.id ≤ 2) two.harness_operations two.activity (snapshot two)
snapshot-Shown_example = snapshot-Shown (λ w. w.id ≤ 2) two

cancel_shown_example :
    let (two', requested) = cancel two (error "stop") (some 2) 3000 in
    (requested ≡ true) × (is_stopped 2 two'.harness_operations two'.activity ≡ true)
cancel_shown_example =
    cancel_shown two (error "stop") 3000 (of_operation (operation 2 4000)) two_shown
