-- ===== src/TurnQueue.antt =====
-- src/harnesses/queue.ts: the queue of provider turns, one turn of the event loop at a time. A promise
-- is named by the number of those issued before it. The signals of an entry are the abort of its
-- work or of the queue's lifetime; the provider's execution is a turn that says how it ended.
pub mod Settling
mod Examples
use cantelop_sdk.Prelude.{
  ℕ, zero, suc, Bool, true, false, not, ◌&&◌, ◌||◌, Option, none, some, List, [], ◌∷◌, ◌++◌, length,
  ltb, ◌==◌, if◌then◌else◌, is_some, Thrown, error, Result, ok, err, ensure, ◌>>◌, ◌>>=◌,
}

pub record Entry : Type 0 where
  pub name : ℕ
  pub priority : Bool

pub record Current : Type 0 where
  pub entry : Entry
  pub aborted : Bool
  pub began : Bool

pub record TurnQueue : Type 0 where
  pub waiting : List Entry
  pub current : Option Current
  pub issued : ℕ
  pub drains : ℕ

pub data Settlement : Type 0 where
  resolved : ℕ → Settlement
  rejected : ℕ → Settlement

abbrev pub new_queue : TurnQueue
new_queue = record { waiting = []; current = none; issued = 0; drains = 0 }

-- The abort reasons of the work's signal and of the lifetime, at the call.
unfoldable pub enqueue : TurnQueue → Option Thrown → Option Thrown → Bool → Result TurnQueue
enqueue q (some reason) lifetime priority = err reason
enqueue q none (some reason) priority = err reason
enqueue q none none priority = do
  ensure (ltb (length q.waiting) 256) (error "harness queue capacity")
  ok (record q {
    waiting = q.waiting ++ record { name = q.issued; priority = priority } ∷ [];
    issued = suc q.issued;
    drains = suc q.drains;
  })

-- The `abort` listener of a waiting entry.
remove_entry : ℕ → List Entry → List Entry × List Settlement
remove_entry name [] = ([], [])
remove_entry name (e ∷ es) =
    let rest = remove_entry name es in
    if e.name == name then (es, rejected e.name ∷ []) else (e ∷ rest.0, rest.1)

-- The abort of an entry's signal, waiting or running.
unfoldable pub abort_entry : TurnQueue → ℕ → TurnQueue × List Settlement
unfolding remove_entry
abort_entry q name =
    let (waiting, settled) = remove_entry name q.waiting in
    (
      record q {
        waiting = waiting;
        current = elim q.current [
          | none ↦ none
          | some c ↦ some (record c { aborted = c.aborted || c.entry.name == name })
        ];
      },
      settled,
    )

unfoldable pub cancel : TurnQueue → TurnQueue × Bool
cancel q = elim q.current [
  | none ↦ (q, false)
  | some c ↦ (record q { current = some (record c { aborted = true }) }, true)
]

take_priority : List Entry → Option (Entry × List Entry)
take_priority [] = none
take_priority (e ∷ es) =
    let rest = take_priority es in
    if e.priority
    then some (e, es)
    else (elim rest [ none ↦ none | some (found, others) ↦ some (found, e ∷ others) ])

take_found : Option (Entry × List Entry) → List Entry → Option (Entry × List Entry)
take_found (some found) es = some found
take_found none [] = none
take_found none (e ∷ es) = some (e, es)

run_next : TurnQueue → Option (Entry × List Entry) → TurnQueue
run_next q none = q
run_next q (some (e, rest)) = record q {
  waiting = rest;
  current = some (record { entry = e; aborted = false; began = false });
}

unfoldable pub drain : TurnQueue → TurnQueue
unfolding run_next take_found take_priority
drain q =
    if is_some q.current then q else run_next q (take_found (take_priority q.waiting) q.waiting)

drain_task : TurnQueue → ℕ → TurnQueue
unfolding drain
drain_task q zero = q
drain_task q (suc d) = drain (record q { drains = d })

-- The current turn leaves, the next one starts, and then its promise is settled.
abbrev settle_current : TurnQueue → Current → Bool → TurnQueue × List Settlement
settle_current q c failed = (
  drain (record q { current = none }),
  (if failed then rejected c.entry.name else resolved c.entry.name) ∷ [],
)

-- The microtask of `drain`: an aborted turn fails without being executed.
begin_current : TurnQueue → Option Current → TurnQueue × List Settlement
unfolding drain
begin_current q none = (q, [])
begin_current q (some c) =
    if c.began
    then (q, [])
    else if c.aborted
    then settle_current q c true
    else (record q { current = some (record c { began = true }) }, [])

-- The end of the execution: an abort meanwhile fails the turn, whatever it returned.
end_current : TurnQueue → Bool → Option Current → TurnQueue × List Settlement
unfolding drain
end_current q threw none = (q, [])
end_current q threw (some c) = if c.began then settle_current q c (threw || c.aborted) else (q, [])

pub data Turn : Type 0 where
  enqueues : Option Thrown → Option Thrown → Bool → Turn
  aborts : ℕ → Turn
  cancels : Turn
  drains_once : Turn
  begins : Turn
  ends : Bool → Turn

abbrev or_same : TurnQueue → Result TurnQueue → TurnQueue
or_same q (err e) = q
or_same q (ok q') = q'

unfoldable pub turn : TurnQueue → Turn → TurnQueue × List Settlement
unfolding enqueue abort_entry cancel drain_task begin_current end_current
turn q (enqueues work lifetime priority) = (or_same q (enqueue q work lifetime priority), [])
turn q (aborts name) = abort_entry q name
turn q cancels = ((cancel q).0, [])
turn q drains_once = (drain_task q q.drains, [])
turn q begins = begin_current q q.current
turn q (ends threw) = end_current q threw q.current

unfoldable pub run : TurnQueue → List Turn → TurnQueue × List Settlement
unfolding turn
run q [] = (q, [])
run q (t ∷ ts) = let (q', now) = turn q t in let (q'', later) = run q' ts in (q'', now ++ later)
