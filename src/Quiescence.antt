-- ===== src/Quiescence.antt =====
-- src/runtime-quiescence.ts: generations of observed messages, and the waits for an idle runtime.
-- `idle` is the callback given to the constructor, here its answer at the time of the call. A
-- waiter is named by a number; a promise is settled at most once, by the call that takes its
-- waiter out of the set.
pub mod Generations
pub mod Waiting
mod Examples
use cantelop_sdk.Prelude.{
  ℕ, zero, suc, String, Bool, true, false, not, ◌&&◌, Option, none, some, List, [], ◌∷◌, ◌++◌, leb,
  ltb, ◌==◌, if◌then◌else◌, lookup, insert, filter, Number, natural, negative, other,
  is_safe_natural, Thrown, type_error,
}

pub record Waiter : Type 0 where
  pub name : ℕ
  pub minimum_generation : ℕ

pub record Quiescence : Type 0 where
  pub current_generation : ℕ
  pub message_generations : List (String × ℕ)
  pub waiters : List Waiter

-- What becomes of a call of `waitForQuiescence`.
pub data Wait : Type 0 where
  rejected : Thrown → Wait
  resolved : ℕ → Wait
  parked : Wait

-- A waiter that `changed` resolved, and the generation of its snapshot.
pub record Resolution : Type 0 where
  pub waiter : Waiter
  pub generation : ℕ

abbrev pub new_quiescence : Quiescence
new_quiescence = record { current_generation = 0; message_generations = []; waiters = [] }

observe_found : Quiescence → String → Option ℕ → Quiescence × ℕ
observe_found q id (some existing) = (q, existing)
observe_found q id none = (
  record q {
    current_generation = suc q.current_generation;
    message_generations = insert id (suc q.current_generation) q.message_generations;
  },
  suc q.current_generation,
)

unfoldable pub observe_message : Quiescence → String → Quiescence × ℕ
unfolding observe_found
observe_message q id = observe_found q id (lookup id q.message_generations)

-- The loop of `changed` over a copy of the set: those who go on waiting, and those resolved.
resolve_reached : ℕ → List Waiter → List Waiter × List Resolution
resolve_reached generation [] = ([], [])
resolve_reached generation (w ∷ ws) =
    let rest = resolve_reached generation ws in
    if ltb generation w.minimum_generation
    then (w ∷ rest.0, rest.1)
    else (rest.0, record { waiter = w; generation = generation } ∷ rest.1)

unfoldable pub changed : Quiescence → Bool → Quiescence × List Resolution
unfolding resolve_reached
changed q false = (q, [])
changed q true =
    let (waiters, resolutions) = resolve_reached q.current_generation q.waiters in
    (record q { waiters = waiters }, resolutions)

-- `aborted` is the reason of a signal that is aborted at the call.
wait_natural : Quiescence → Bool → ℕ → Option Thrown → ℕ → Quiescence × Wait
wait_natural q idle minimum (some reason) waiter = (q, rejected reason)
wait_natural q idle minimum none waiter =
    if leb minimum q.current_generation && idle then (q, resolved q.current_generation) else (
      record q {
        waiters = q.waiters ++ record { name = waiter; minimum_generation = minimum } ∷ [];
      },
      parked,
    )

invalid_minimum : Thrown
invalid_minimum = type_error "Minimum runtime generation must be a non-negative integer"

unfoldable pub wait_for_quiescence :
    Quiescence → Bool → Number → Option Thrown → ℕ → Quiescence × Wait
unfolding wait_natural invalid_minimum
wait_for_quiescence q idle (natural n) aborted waiter =
    if is_safe_natural (natural n)
    then wait_natural q idle n aborted waiter
    else (q, rejected invalid_minimum)
wait_for_quiescence q idle (negative _) aborted waiter = (q, rejected invalid_minimum)
wait_for_quiescence q idle other aborted waiter = (q, rejected invalid_minimum)

-- The `abort` listener of a parked wait; `finish` takes its waiter out of the set.
unfoldable pub abort_wait : Quiescence → ℕ → Quiescence
abort_wait q waiter = record q {
  waiters = filter (λ (w : Waiter). not (w.name == waiter)) q.waiters;
}

pub data Turn : Type 0 where
  observes : String → Turn
  changes : Bool → Turn
  waits : Bool → Number → Option Thrown → ℕ → Turn
  aborts : ℕ → Turn

pub turn : Quiescence → Turn → Quiescence × List Resolution
turn q (observes id) = ((observe_message q id).0, [])
turn q (changes idle) = changed q idle
turn q (waits idle minimum aborted waiter) =
    ((wait_for_quiescence q idle minimum aborted waiter).0, [])
turn q (aborts waiter) = (abort_wait q waiter, [])

pub run : Quiescence → List Turn → Quiescence × List Resolution
run q [] = (q, [])
run q (t ∷ ts) = let (q', now) = turn q t in let (q'', later) = run q' ts in (q'', now ++ later)
