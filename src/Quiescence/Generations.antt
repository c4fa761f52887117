-- ===== src/Quiescence/Generations.antt =====
-- src/runtime-quiescence.ts: the generation given to each message.
use cantelop_sdk.Prelude.{
  ℕ, suc, ◌+◌, ◌≤◌, ◌<◌, ◌≡◌, refl, String, Bool, true, false, Option, none, some, List, [], ◌∷◌,
  arith, lookup, insert, length, length-insert, lookup-insert, eq_iff, str_eq_refl, inl, inr,
  Bool-cases, natural, negative, other, Thrown, is_safe_natural,
}
use cantelop_sdk.Quiescence.{
  Quiescence, new_quiescence, observe_found, observe_message, changed, wait_natural,
  wait_for_quiescence, abort_wait, Turn, observes, changes, waits, aborts, turn, run,
}

-- The messages carry the numbers after `n`, in the order of their first observation.
abbrev pub Numbered : ℕ → List (String × ℕ) → Type 0
Numbered n [] = Unit
Numbered n ((id, g) ∷ ms) = (g ≡ suc n) × Numbered (suc n) ms

pub record Inv (q : Quiescence) : Type 0 where
  pub counted : q.current_generation ≡ length q.message_generations
  pub numbered : Numbered 0 q.message_generations

Numbered-insert :
    (n : ℕ) (id : String) (ms : List (String × ℕ))
    → Numbered n ms
    → lookup id ms ≡ none
    → Numbered n (insert id (suc (n + length ms)) ms)
Numbered-insert n id [] v h = ground arith
Numbered-insert n id ((i, g) ∷ ms) v h = ground (arith, Numbered-insert (suc n) id ms)

pub lookup-Numbered :
    (n : ℕ) (id : String) (ms : List (String × ℕ)) (g : ℕ)
    → Numbered n ms
    → lookup id ms ≡ some g
    → (n < g) × (g ≤ n + length ms)
lookup-Numbered n id [] g v h = ground arith
lookup-Numbered n id ((i, k) ∷ ms) g v h = ground (arith, lookup-Numbered (suc n) id ms g)

observe_found-Inv :
    (q : Quiescence) (id : String) (found : Option ℕ)
    → lookup id q.message_generations ≡ found
    → Inv q
    → Inv (observe_found q id found).0
unfolding observe_found
observe_found-Inv q id (some g) h v = v
observe_found-Inv q id none h v = ground (
  arith,
  Numbered-insert 0 id q.message_generations v.numbered h,
  length-insert id (suc q.current_generation) q.message_generations,
)

wait_natural-Inv :
    (q : Quiescence) (idle : Bool) (n : ℕ) (aborted : Option Thrown) (w : ℕ)
    → Inv q
    → Inv (wait_natural q idle n aborted w).0
unfolding wait_natural
wait_natural-Inv q idle n (some reason) w v = v
wait_natural-Inv q idle n none w v = ground arith

pub observe_message-Inv : (q : Quiescence) (id : String) → Inv q → Inv (observe_message q id).0
unfolding observe_message
observe_message-Inv q id v = observe_found-Inv q id (lookup id q.message_generations) refl v

turn-Inv : (q : Quiescence) (t : Turn) → Inv q → Inv (turn q t).0
unfolding turn observe_message changed wait_for_quiescence abort_wait
turn-Inv q (observes id) v = observe_found-Inv q id (lookup id q.message_generations) refl v
turn-Inv q (changes false) v = v
turn-Inv q (changes true) v = ground arith
turn-Inv q (waits idle (natural n) aborted w) v = elim (Bool-cases (is_safe_natural (natural n))) [
  | inl safe ↦ rw (safe) (wait_natural-Inv q idle n aborted w v)
  | inr unsafe ↦ rw (unsafe) v
]
turn-Inv q (waits idle (negative n) aborted w) v = v
turn-Inv q (waits idle other aborted w) v = v
turn-Inv q (aborts w) v = ground arith

pub run-Inv : (q : Quiescence) (ts : List Turn) → Inv q → Inv (run q ts).0
unfolding run
run-Inv q [] v = v
run-Inv q (t ∷ ts) v = run-Inv (turn q t).0 ts (turn-Inv q t v)

pub new_quiescence-Inv : Inv new_quiescence
new_quiescence-Inv = ground arith

-- A generation once given stays.
abbrev pub Kept : Quiescence → Quiescence → Type 0
Kept q q' =
    (id : String) (g : ℕ)
    → lookup id q.message_generations ≡ some g
    → lookup id q'.message_generations ≡ some g

observe_found-Kept :
    (q : Quiescence) (id : String) (found : Option ℕ)
    → lookup id q.message_generations ≡ found
    → Kept q (observe_found q id found).0
unfolding observe_found
observe_found-Kept q id (some g) h = λ i k e. e
observe_found-Kept q id none h = λ i k e.
    ground (arith, lookup-insert id i (suc q.current_generation) q.message_generations, eq_iff id i)

wait_natural-Kept :
    (q : Quiescence) (idle : Bool) (n : ℕ) (aborted : Option Thrown) (w : ℕ)
    → (wait_natural q idle n aborted w).0.message_generations ≡ q.message_generations
unfolding wait_natural
wait_natural-Kept q idle n (some reason) w = refl
wait_natural-Kept q idle n none w = ground arith

turn-Kept : (q : Quiescence) (t : Turn) → Kept q (turn q t).0
unfolding turn observe_message changed wait_for_quiescence abort_wait
turn-Kept q (observes id) = observe_found-Kept q id (lookup id q.message_generations) refl
turn-Kept q (changes false) = λ i k e. e
turn-Kept q (changes true) = λ i k e. e
turn-Kept q (waits idle (natural n) aborted w) =
    λ i k e. ground (arith, wait_natural-Kept q idle n aborted w)
turn-Kept q (waits idle (negative n) aborted w) = λ i k e. e
turn-Kept q (waits idle other aborted w) = λ i k e. e
turn-Kept q (aborts w) = λ i k e. e

run-Kept : (q : Quiescence) (ts : List Turn) → Kept q (run q ts).0
unfolding run
run-Kept q [] = λ i k e. e
run-Kept q (t ∷ ts) = λ i k e. run-Kept (turn q t).0 ts i k (turn-Kept q t i k e)

observe_found-answer :
    (q : Quiescence) (id : String) (found : Option ℕ)
    → lookup id q.message_generations ≡ found
    → lookup id (observe_found q id found).0.message_generations ≡ some (observe_found q id found).1
unfolding observe_found
observe_found-answer q id (some g) h = h
observe_found-answer q id none h =
    ground
      (arith, lookup-insert id id (suc q.current_generation) q.message_generations, str_eq_refl id)

-- An observation keeps what was given before, and its answer is found from then on.
pub observe_message-Kept : (q : Quiescence) (id : String) → Kept q (observe_message q id).0
unfolding observe_message
observe_message-Kept q id = observe_found-Kept q id (lookup id q.message_generations) refl

pub observe_message-answer :
    (q : Quiescence) (id : String)
    → lookup id (observe_message q id).0.message_generations ≡ some (observe_message q id).1
unfolding observe_message
observe_message-answer q id = observe_found-answer q id (lookup id q.message_generations) refl

observe_found_known :
    (q : Quiescence) (id : String) (g : ℕ)
    → lookup id q.message_generations ≡ some g
    → observe_found q id (lookup id q.message_generations) ≡ (q, g)
unfolding observe_found
observe_found_known q id g h = rw (h) refl

-- After any history, the generation that `observeMessage` answers is positive, at most the current
-- one, and the one that every later observation of the same message answers.
pub observe_message-again :
    (before after : List Turn) (id : String)
    → let q = (run new_quiescence before).0 in
      let first = observe_message q id in
      let later = (run first.0 after).0 in
      (0 < first.1)
      × ((first.1 ≤ first.0.current_generation) × (observe_message later id ≡ (later, first.1)))
unfolding observe_message
observe_message-again before after id =
    let q = (run new_quiescence before).0 in
    let v = run-Inv new_quiescence before new_quiescence-Inv in
    let first = observe_message q id in
    let v' = observe_found-Inv q id (lookup id q.message_generations) refl v in
    let e = observe_found-answer q id (lookup id q.message_generations) refl in
    let later = (run first.0 after).0 in
    let kept = run-Kept first.0 after id first.1 e in
    let bound = lookup-Numbered 0 id first.0.message_generations first.1 v'.numbered e in
    (bound.0, (ground (arith, v'.counted), observe_found_known later id first.1 kept))
