-- ===== src/Mailbox/Examples.antt =====
-- Runs of src/mailbox.ts: two messages, of which the second is retried and then cancelled.
use cantelop_sdk.Prelude.{
  ◌≤◌, ◌+◌, ◌*◌, ◌≡◌, refl, All, String, true, some, List, [], ◌∷◌, length, is_some, one_if, lookup,
}
use cantelop_sdk.Mailbox.{
  observe, deduplicated, resolved, rejected, Turn, enqueues, cancels, drains_once, receiver_settles,
  finishes, settles, new_mailbox, enqueue, splice, turn, run, is_idle,
}
use cantelop_sdk.Mailbox.Invariant.{Inv, run_mailbox-Inv}
use cantelop_sdk.Mailbox.Order.{received, Increasing}
use cantelop_sdk.Mailbox.Once.{received_ids, Distinct, received_in_order}
use cantelop_sdk.Mailbox.Results.{outcome_final}
use cantelop_sdk.Mailbox.Progress.{IsCallback, idle_reachable}

abbrev intake : List (Turn String String)
intake =
    enqueues "m1" 1000
    ∷ enqueues "m2" 2000
    ∷ drains_once 5000
    ∷ cancels "m2" "stopped"
    ∷ receiver_settles (resolved "done") 9000
    ∷ finishes 9000
    ∷ []

received_first : received (run new_mailbox intake).1 ≡ 1 ∷ []
unfolding run turn new_mailbox enqueue splice
received_first = refl

m2_rejected : lookup "m2" (run new_mailbox intake).0.results ≡ some (rejected "stopped")
unfolding run turn new_mailbox enqueue splice
m2_rejected = refl

received_in_order_example :
    Increasing 0 (received (run new_mailbox intake).1)
    × Distinct (received_ids (run new_mailbox intake).1)
received_in_order_example = received_in_order intake

run_mailbox-Inv_example : Inv (run new_mailbox intake).0
run_mailbox-Inv_example = run_mailbox-Inv intake

outcome_final_example :
    let m = (run new_mailbox intake).0 in
    let m' = (run m (enqueues "m2" 9500 ∷ settles ∷ [])).0 in
    (lookup "m2" m'.results ≡ some (rejected "stopped"))
    × (enqueue m' "m2" 9999 ≡ (m', observe (deduplicated "m2") ∷ []))
outcome_final_example =
    outcome_final intake (enqueues "m2" 9500 ∷ settles ∷ []) "m2" (rejected "stopped") 9999 tt
      m2_rejected

idle_reachable_example :
    let m = (run new_mailbox intake).0 in
    (ts : List (Turn String String)) × All IsCallback ts
    × (length ts
        ≤ 4 * length m.queue
          + 3 * one_if (is_some m.active)
          + one_if m.finishing
          + m.drains
          + m.settlements)
    × (is_idle (run m ts).0 ≡ true)
idle_reachable_example = idle_reachable intake "done"
