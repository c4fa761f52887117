-- ===== src/ClaudeStore/Examples.antt =====
-- src/harnesses/claude-durable-state.ts: a history in which the second write fails.
use cantelop_sdk.Prelude.{ℕ, ◌≡◌, refl, none, some, List, [], ◌∷◌, Result, ok, error}
use cantelop_sdk.ClaudeStore.{Store, unrevised, Turn, commits, acknowledges, run}
use cantelop_sdk.ClaudeStore.Fencing.{Consecutive, run-Consecutive}

abbrev opened : Store ℕ ℕ ℕ
opened = record { current = record { revision = 4; content = 0; outbox = [] }; fenced = none }

abbrev view_of : ℕ → ℕ → Result ℕ
view_of revision content = ok content

abbrev set_nine : ℕ → ℕ → Result ℕ
set_nine revision content = ok 9

abbrev history : List (Turn ℕ ℕ)
history =
    commits set_nine (unrevised 1 ∷ []) none
    ∷ acknowledges 5 none
    ∷ commits set_nine [] (some (error "disk full"))
    ∷ commits set_nine [] none
    ∷ []

two_handed_out : (run view_of opened history).1 ≡ 5 ∷ 6 ∷ []
unfolding run
two_handed_out = refl

run-Consecutive_example : Consecutive 4 (run view_of opened history).1
run-Consecutive_example = run-Consecutive view_of opened history
