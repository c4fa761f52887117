-- ===== src/TurnQueue/Examples.antt =====
-- src/harnesses/queue.ts: a history in which a turn with priority overtakes, and one is aborted.
use cantelop_sdk.Prelude.{◌+◌, ◌≡◌, refl, true, false, none, List, [], ◌∷◌, sum_by}
use cantelop_sdk.TurnQueue.{
  Turn, enqueues, aborts, drains_once, begins, ends, new_queue, run, resolved, rejected,
}
use cantelop_sdk.TurnQueue.Settling.{Balanced, settles, run_queue-Balanced}

abbrev history : List Turn
history =
    enqueues none none false
    ∷ enqueues none none true
    ∷ drains_once
    ∷ begins
    ∷ aborts 0
    ∷ ends false
    ∷ []

overtaken : (run new_queue history).1 ≡ rejected 0 ∷ resolved 1 ∷ []
unfolding run
overtaken = refl

run_queue-Balanced_example :
    Balanced 1 (run new_queue history).0 (0 + sum_by (settles 1) (run new_queue history).1)
run_queue-Balanced_example = run_queue-Balanced 1 history
