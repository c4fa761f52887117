-- ===== src/Quiescence/Waiting.antt =====
-- src/runtime-quiescence.ts: which waits `changed` resolves, and when.
use cantelop_sdk.Prelude.{
  ℕ, ◌+◌, ◌≤◌, ◌<◌, ◌≡◌, refl, Bool, true, false, Option, none, some, List, [], ◌∷◌, arith, All,
  All-append, All-map, sum_by, natural, Thrown,
}
use cantelop_sdk.Quiescence.{
  Quiescence, Waiter, changed, wait_natural, wait_for_quiescence, Turn, observes, changes, waits,
  aborts, turn, run, Resolution, resolve_reached, resolved,
}

-- The snapshot is of a generation that its waiter asked for.
abbrev pub Reached : Resolution → Type 0
Reached r = r.waiter.minimum_generation ≤ r.generation

resolve_reached-Reached :
    (g : ℕ) (ws : List Waiter) → All (λ r. Reached r × (r.generation ≡ g)) (resolve_reached g ws).1
unfolding resolve_reached
resolve_reached-Reached g [] = tt
resolve_reached-Reached g (w ∷ ws) = ground (arith, resolve_reached-Reached g ws)

resolve_reached-left :
    (g : ℕ) (ws : List Waiter) → All (λ w. g < w.minimum_generation) (resolve_reached g ws).0
unfolding resolve_reached
resolve_reached-left g [] = tt
resolve_reached-left g (w ∷ ws) = ground (arith, resolve_reached-left g ws)

resolve_reached-sum :
    (f : Waiter → ℕ) (g : ℕ) (ws : List Waiter)
    → sum_by f ws
      ≡ sum_by f (resolve_reached g ws).0
        + sum_by (λ (r : Resolution). f r.waiter) (resolve_reached g ws).1
unfolding resolve_reached
resolve_reached-sum f g [] = refl
resolve_reached-sum f g (w ∷ ws) = ground (arith, resolve_reached-sum f g ws)

-- When the runtime is idle, `changed` settles each waiter once or leaves it, with the current
-- generation for exactly those whose minimum is reached; counted by any weight of the waiters.
pub changed-idle :
    (q : Quiescence) (weight : Waiter → ℕ)
    → All (λ r. Reached r × (r.generation ≡ q.current_generation)) (changed q true).1
      × (All (λ w. q.current_generation < w.minimum_generation) (changed q true).0.waiters
          × (sum_by weight q.waiters
              ≡ sum_by weight (changed q true).0.waiters
                + sum_by (λ (r : Resolution). weight r.waiter) (changed q true).1))
unfolding changed
changed-idle q weight = (
  resolve_reached-Reached q.current_generation q.waiters,
  (
    resolve_reached-left q.current_generation q.waiters,
    resolve_reached-sum weight q.current_generation q.waiters,
  ),
)

-- The waiters of a wait that asked for more than is reached, or of one while the runtime works,
-- are not resolved at once; a wait that is was idle at a generation at least its minimum.
pub wait_for_quiescence-resolved :
    (q : Quiescence) (idle : Bool) (n : ℕ) (aborted : Option Thrown) (w g : ℕ)
    → (wait_for_quiescence q idle (natural n) aborted w).1 ≡ resolved g
    → (idle ≡ true) × ((n ≤ g) × (g ≡ q.current_generation))
unfolding wait_for_quiescence wait_natural
wait_for_quiescence-resolved q idle n (some reason) w g h = ground arith
wait_for_quiescence-resolved q idle n none w g h = ground arith

turn-Reached : (q : Quiescence) (t : Turn) → All Reached (turn q t).1
unfolding turn changed
turn-Reached q (observes id) = tt
turn-Reached q (changes false) = tt
turn-Reached q (changes true) =
    All-map (λ r. Reached r × (r.generation ≡ q.current_generation)) Reached (λ r both. both.0)
      (resolve_reached q.current_generation q.waiters).1
      (resolve_reached-Reached q.current_generation q.waiters)
turn-Reached q (waits idle minimum aborted w) = tt
turn-Reached q (aborts w) = tt

-- In every history, each wait that is resolved gets a generation at least the one it asked for.
pub run-Reached : (q : Quiescence) (ts : List Turn) → All Reached (run q ts).1
unfolding run
run-Reached q [] = tt
run-Reached q (t ∷ ts) =
    All-append Reached (turn q t).1 (run (turn q t).0 ts).1 (turn-Reached q t)
      (run-Reached (turn q t).0 ts)
