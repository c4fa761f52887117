-- ===== src/Quiescence/Examples.antt =====
-- src/runtime-quiescence.ts: the theorems at concrete histories.
use cantelop_sdk.Prelude.{◌≤◌, ◌<◌, ◌≡◌, refl, true, none, [], ◌∷◌, All, natural, sum_by, ◌+◌, List}
use cantelop_sdk.Quiescence.{
  Quiescence, Turn, observes, changes, waits, new_quiescence, run, observe_message, Wait, resolved,
  wait_for_quiescence, changed, Waiter, Resolution,
}
use cantelop_sdk.Quiescence.Generations
use cantelop_sdk.Quiescence.Waiting.{
  Reached, changed-idle, run-Reached, wait_for_quiescence-resolved,
}

abbrev two_messages : List Turn
two_messages = observes "a" ∷ observes "b" ∷ waits true (natural 3) none 7 ∷ []

abbrev third_message : List Turn
third_message = observes "c" ∷ changes true ∷ []

abbrev waiting : Quiescence
waiting = (run new_quiescence two_messages).0

first_again :
    (0 < 2)
    × ((2 ≤ 2)
        × (observe_message (run waiting third_message).0 "b" ≡ ((run waiting third_message).0, 2)))
unfolding observe_message run cantelop_sdk.Quiescence.turn wait_for_quiescence
first_again = Generations.observe_message-again two_messages third_message "b"

changed-idle_example :
    All (λ r. Reached r × (r.generation ≡ waiting.current_generation)) (changed waiting true).1
    × (All (λ w. waiting.current_generation < w.minimum_generation) (changed waiting true).0.waiters
        × (sum_by (λ (w : Waiter). w.name) waiting.waiters
            ≡ sum_by (λ (w : Waiter). w.name) (changed waiting true).0.waiters
              + sum_by (λ (r : Resolution). r.waiter.name) (changed waiting true).1))
changed-idle_example = changed-idle waiting (λ w. w.name)

wait_reached : (true ≡ true) × ((2 ≤ 2) × (2 ≡ waiting.current_generation))
unfolding wait_for_quiescence run observe_message cantelop_sdk.Quiescence.turn
wait_reached = wait_for_quiescence-resolved waiting true 2 none 8 2 refl

third_resolved : All Reached (run waiting third_message).1
third_resolved = run-Reached waiting third_message
