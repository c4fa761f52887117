-- ===== src/Adapter/Operations/Turns.antt =====
-- src/session-runtime-adapter.ts: histories of the harness operations.
use cantelop_sdk.Prelude.{
  ℕ, String, Bool, ◌&&◌, Option, List, [], ◌∷◌, ◌++◌, length, ltb, if◌then◌else◌, lookup, Thrown,
  Result, ok, err,
}
use cantelop_sdk.Adapter.Operations.{
  Operations, Effect, state_changed, max_harness_operations, modify, start_operation, call_returned,
  settle, push_message, abort_operation, marks, is_due, fire_timer, flush_next,
}
use cantelop_sdk.Output.{Json}

-- A turn that is not owed does nothing.
pub data Turn (M V : Type 0) : Type 0 where
  starts : String → ℕ → ℕ → Bool → Option Thrown → Turn M V
  call_returns : String → Option Thrown → Turn M V
  settles : String → Option Thrown → Result V → Turn M V
  pushes : String → Option Thrown → M → ℕ → Turn M V
  aborts : String → Thrown → ℕ → Turn M V
  timer_fires : String → ℕ → Turn M V
  flushes : String → Turn M V

abbrev changed_if : {M V : Type 0} → Bool → List (Effect M V)
changed_if test = if test then state_changed ∷ [] else []

module _ {M : Type 0} where
  unfoldable pub or_same : Operations M → Result (Operations M) → Operations M
  or_same ops (err e) = ops
  or_same ops (ok ops') = ops'

  module _ {V : Type 0} (json : Json V) where
    unfoldable pub turn : Operations M → Turn M V → Operations M × List (Effect M V)
    unfolding or_same
    turn ops (starts message_id id deadline replies outer) = (
      (start_operation ops message_id id deadline replies outer).0,
      changed_if (ltb (length ops) max_harness_operations),
    )
    turn ops (call_returns message_id thrown) = (call_returned ops message_id thrown, [])
    turn ops (settles message_id outer result) = settle json ops message_id outer result
    turn ops (pushes message_id outer payload size) =
        (or_same ops (push_message ops message_id outer payload size), [])
    turn ops (aborts message_id reason now) =
        (abort_operation ops message_id reason now, changed_if (marks (lookup message_id ops)))
    turn ops (timer_fires message_id now) = (
      modify message_id (fire_timer now) ops,
      changed_if (is_due now (lookup message_id ops) && marks (lookup message_id ops)),
    )
    turn ops (flushes message_id) = flush_next ops message_id

    unfoldable pub run : Operations M → List (Turn M V) → Operations M × List (Effect M V)
    run ops [] = (ops, [])
    run ops (t ∷ ts) =
        let (ops', now) = turn ops t in let (ops'', later) = run ops' ts in (ops'', now ++ later)
