-- ===== src/TurnQueue/Settling.antt =====
-- src/harnesses/queue.ts: every promise of the queue is settled exactly once, or still owed.
use cantelop_sdk.Prelude.{
  ℕ, zero, suc, ◌+◌, ◌≡◌, refl, Bool, Option, none, some, List, [], ◌∷◌, ◌++◌, ltb, ◌==◌, one_if,
  Thrown, arith, sum_by, sum_by-append, Option-cases, inl, inr,
}
use cantelop_sdk.TurnQueue.{
  Entry, Current, TurnQueue, Settlement, resolved, rejected, new_queue, enqueue, remove_entry,
  abort_entry, cancel, take_priority, take_found, run_next, drain, drain_task, begin_current,
  end_current, Turn, enqueues, aborts, cancels, drains_once, begins, ends, or_same, turn, run,
}

abbrev pub settles : ℕ → Settlement → ℕ
settles p (resolved n) = one_if (n == p)
settles p (rejected n) = one_if (n == p)

abbrev owed_waiting : ℕ → List Entry → ℕ
owed_waiting p = sum_by λ e. one_if (e.name == p)

abbrev owed_current : ℕ → Option Current → ℕ
owed_current p none = 0
owed_current p (some c) = one_if (c.entry.name == p)

abbrev owed : ℕ → TurnQueue → ℕ
owed p q = owed_current p q.current + owed_waiting p q.waiting

abbrev pub settled : ℕ → List Settlement → ℕ
settled p = sum_by (settles p)

-- A turn that issues no promise settles what it no longer owes.
abbrev Moves : ℕ → TurnQueue → TurnQueue × List Settlement → Type 0
Moves p q r = (owed p r.0 + settled p r.1 ≡ owed p q) × (r.0.issued ≡ q.issued)

take_priority-owed :
    (p : ℕ) (es : List Entry) (e : Entry) (rest : List Entry)
    → take_priority es ≡ some (e, rest)
    → owed_waiting p es ≡ one_if (e.name == p) + owed_waiting p rest
unfolding take_priority
take_priority-owed p [] e rest h = cc
take_priority-owed p (x ∷ es) e rest h = elim (Option-cases (take_priority es)) [
  | inl missing ↦ ground arith
  | inr ((f, others), found) ↦ ground (arith, take_priority-owed p es f others found)
]

take_found-owed :
    (p : ℕ) (found : Option (Entry × List Entry)) (es : List Entry) (e : Entry) (rest : List Entry)
    → take_priority es ≡ found
    → take_found found es ≡ some (e, rest)
    → owed_waiting p es ≡ one_if (e.name == p) + owed_waiting p rest
unfolding take_found
take_found-owed p (some (f, others)) es e rest k h =
    ground (arith, take_priority-owed p es f others k)
take_found-owed p none [] e rest k h = ground arith
take_found-owed p none (x ∷ es) e rest k h = ground arith

run_next-Moves :
    (p : ℕ) (q : TurnQueue) (found : Option (Entry × List Entry))
    → take_found (take_priority q.waiting) q.waiting ≡ found
    → q.current ≡ none
    → Moves p q (run_next q found, [])
unfolding run_next
run_next-Moves p q none e c = ground arith
run_next-Moves p q (some (x, rest)) e c =
    ground (arith, take_found-owed p (take_priority q.waiting) q.waiting x rest refl e)

drain-Moves : (p : ℕ) (q : TurnQueue) → Moves p q (drain q, [])
unfolding drain
drain-Moves p q = elim (Option-cases q.current) [
  | inl free ↦
      ground (arith, run_next-Moves p q (take_found (take_priority q.waiting) q.waiting) refl free)
  | inr (c, busy) ↦ ground arith
]

drain_task-Moves : (p : ℕ) (q : TurnQueue) (d : ℕ) → Moves p q (drain_task q d, [])
unfolding drain_task
drain_task-Moves p q zero = ground arith
drain_task-Moves p q (suc d) = drain-Moves p (record q { drains = d })

remove_entry-owed :
    (p name : ℕ) (es : List Entry)
    → owed_waiting p (remove_entry name es).0 + settled p (remove_entry name es).1
      ≡ owed_waiting p es
unfolding remove_entry
remove_entry-owed p name [] = refl
remove_entry-owed p name (e ∷ es) = ground (arith, remove_entry-owed p name es)

abort_entry-Moves : (p : ℕ) (q : TurnQueue) (name : ℕ) → Moves p q (abort_entry q name)
unfolding abort_entry
abort_entry-Moves p q name = ground (arith, remove_entry-owed p name q.waiting)

cancel-Moves : (p : ℕ) (q : TurnQueue) → Moves p q ((cancel q).0, [])
unfolding cancel
cancel-Moves p q = ground arith

begin_current-Moves :
    (p : ℕ) (q : TurnQueue) (c : Option Current) → q.current ≡ c → Moves p q (begin_current q c)
unfolding begin_current
begin_current-Moves p q none e = ground arith
begin_current-Moves p q (some c) e = ground (arith, drain-Moves p (record q { current = none }))

end_current-Moves :
    (p : ℕ) (q : TurnQueue) (threw : Bool) (c : Option Current)
    → q.current ≡ c
    → Moves p q (end_current q threw c)
unfolding end_current
end_current-Moves p q threw none e = ground arith
end_current-Moves p q threw (some c) e = ground (arith, drain-Moves p (record q { current = none }))

-- Promises are named in order: each of those issued is owed once, or settled once.
pub Balanced : ℕ → TurnQueue → ℕ → Type 0
Balanced p q count = owed p q + count ≡ one_if (ltb p q.issued)

balance :
    (p : ℕ) (q : TurnQueue) (r : TurnQueue × List Settlement) (n : ℕ)
    → Moves p q r
    → Balanced p q n
    → Balanced p r.0 (n + settled p r.1)
unfolding Balanced
balance p q r n m v = ground arith

enqueue-Balanced :
    (p : ℕ) (q : TurnQueue) (work lifetime : Option Thrown) (priority : Bool) (n : ℕ)
    → Balanced p q n
    → Balanced p (or_same q (enqueue q work lifetime priority)) (n + 0)
unfolding enqueue Balanced
enqueue-Balanced p q (some reason) lifetime priority n v = ground arith
enqueue-Balanced p q none (some reason) priority n v = ground arith
enqueue-Balanced p q none none priority n v = ground (
  arith,
  sum_by-append (λ (e : Entry). one_if (e.name == p)) q.waiting
      (record { name = q.issued; priority = priority } ∷ []),
)

turn-Balanced :
    (p : ℕ) (q : TurnQueue) (t : Turn) (n : ℕ)
    → Balanced p q n
    → Balanced p (turn q t).0 (n + settled p (turn q t).1)
unfolding turn
turn-Balanced p q (enqueues work lifetime priority) n v =
    enqueue-Balanced p q work lifetime priority n v
turn-Balanced p q (aborts name) n v =
    balance p q (abort_entry q name) n (abort_entry-Moves p q name) v
turn-Balanced p q cancels n v = balance p q ((cancel q).0, []) n (cancel-Moves p q) v
turn-Balanced p q drains_once n v =
    balance p q (drain_task q q.drains, []) n (drain_task-Moves p q q.drains) v
turn-Balanced p q begins n v =
    balance p q (begin_current q q.current) n (begin_current-Moves p q q.current refl) v
turn-Balanced p q (ends threw) n v =
    balance p q (end_current q threw q.current) n (end_current-Moves p q threw q.current refl) v

run_from-Balanced :
    (p : ℕ) (q : TurnQueue) (ts : List Turn) (n : ℕ)
    → Balanced p q n
    → Balanced p (run q ts).0 (n + settled p (run q ts).1)
unfolding run
run_from-Balanced p q [] n v = let e : n + 0 ≡ n = omega arith in rw (e) v
run_from-Balanced p q (t ∷ ts) n v =
    let now = settled p (turn q t).1 in
    let later = settled p (run (turn q t).0 ts).1 in
    let e : settled p ((turn q t).1 ++ (run (turn q t).0 ts).1) ≡ now + later =
      sum_by-append (settles p) (turn q t).1 (run (turn q t).0 ts).1 in
    let e' : n + (now + later) ≡ n + now + later = omega arith in
    rw (e, e') (run_from-Balanced p (turn q t).0 ts (n + now) (turn-Balanced p q t n v))

-- In every history, the promise of each turn that was enqueued has been settled exactly once, or is
-- still owed, by the waiting turns or by the current one, and no other promise is ever settled.
pub run_queue-Balanced :
    (p : ℕ) (ts : List Turn) → Balanced p (run new_queue ts).0 (0 + settled p (run new_queue ts).1)
unfolding Balanced
run_queue-Balanced p ts = run_from-Balanced p new_queue ts 0 (ground arith)
