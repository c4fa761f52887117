-- ===== src/Mailbox/Order.antt =====
-- src/mailbox.ts: the order in which messages are handed to the receiver.
use cantelop_sdk.Prelude.{
  ℕ, zero, suc, ◌≤◌, ◌<◌, ◌≡◌, refl, ap, ◌⊎◌, inl, inr, String, Bool, true, false, Option, none,
  some, List, [], ◌∷◌, ◌++◌, arith, Bool-cases, Option-cases, lookup, str_eq,
}
use cantelop_sdk.Mailbox.{
  enqueued, deduplicated, handling, handled, failed, Effect, observe, state_changed, Promise,
  unsettled, resolved, rejected, Entry, Run, Mailbox, new_mailbox, splice, admit, enqueue,
  remove_queued, cancel, start_next, drain, drain_task, finish, finally_task, settle_task, Turn,
  enqueues, cancels, drains_once, receiver_settles, finishes, settles, turn, run,
}

-- The sequence numbers that the receiver is called with, in the order of the calls.
abbrev pub received : List Effect → List ℕ
received [] = []
received (observe (handling id s depth wait) ∷ es) = s ∷ received es
received (observe (enqueued id s depth) ∷ es) = received es
received (observe (deduplicated id) ∷ es) = received es
received (observe (handled id s time) ∷ es) = received es
received (observe (failed id s time) ∷ es) = received es
received (state_changed ∷ es) = received es

abbrev pub Increasing : ℕ → List ℕ → Type 0
Increasing last [] = Unit
Increasing last (s ∷ ss) = (last < s) × Increasing s ss

-- Sequence numbers rise along the queue, from above `last` to below `next`.
abbrev Ascends : ℕ → List Entry → ℕ → Type 0
Ascends last [] next = last < next
Ascends last (e ∷ es) next = (last < e.sequence) × Ascends e.sequence es next

Ascends-append :
    (last next : ℕ) (es : List Entry) (e : Entry)
    → e.sequence ≡ next
    → Ascends last es next
    → Ascends last (es ++ e ∷ []) (suc next)
Ascends-append last next [] e h a = omega arith
Ascends-append last next (x ∷ es) e h a = (a.0, Ascends-append x.sequence next es e h a.1)

Ascends-mono :
    (low last next : ℕ) (es : List Entry) → low ≤ last → Ascends last es next → Ascends low es next
Ascends-mono low last next [] h a = omega arith
Ascends-mono low last next (x ∷ es) h a = (omega arith, a.1)

Ascends-splice :
    (id : String) (last next : ℕ) (es : List Entry) {e : Entry} {rest : List Entry}
    → splice id es ≡ some (e, rest)
    → Ascends last es next
    → Ascends last rest next
unfolding splice
Ascends-splice id last next [] h a = cc
Ascends-splice id last next (x ∷ es) {e} {rest} h a = elim (Bool-cases (str_eq x.id id)) [
  | inl hit ↦
      let same : rest ≡ es = ground arith in
      rw same (Ascends-mono last x.sequence next es (omega arith) a.1)
  | inr miss ↦ elim (Option-cases (splice id es)) [
    | inl missing ↦ absurd (ground arith)
    | inr ((f, others), found) ↦
        let same : rest ≡ x ∷ others = ground arith in
        rw same (a.0, Ascends-splice id x.sequence next es found a.1)
  ]
]

received-append : (xs ys : List Effect) → received (xs ++ ys) ≡ received xs ++ received ys
received-append [] ys = refl
received-append (observe (handling id s depth wait) ∷ es) ys = ap (◌∷◌ s) (received-append es ys)
received-append (observe (enqueued id s depth) ∷ es) ys = received-append es ys
received-append (observe (deduplicated id) ∷ es) ys = received-append es ys
received-append (observe (handled id s time) ∷ es) ys = received-append es ys
received-append (observe (failed id s time) ∷ es) ys = received-append es ys
received-append (state_changed ∷ es) ys = received-append es ys

module _ {O E : Type 0} where
  abbrev Ordered : ℕ → Mailbox O E → Type 0
  Ordered last m = Ascends last m.queue m.next_sequence

  -- A turn calls the receiver at most once, with a number above all before.
  abbrev Advances : ℕ → Mailbox O E × List Effect → Type 0
  Advances last r =
      ((received r.1 ≡ []) × Ordered last r.0)
      ⊎ ((s : ℕ) × (received r.1 ≡ s ∷ []) × (last < s) × Ordered s r.0)

  admit-Advances :
      (last : ℕ) (m : Mailbox O E) (id : String) (now : ℕ) (known : Option (Promise O E))
      → Ordered last m
      → Advances last (admit m id now known)
  unfolding admit
  admit-Advances last m id now (some p) a = inl (refl, a)
  admit-Advances last m id now none a =
      inl (refl, Ascends-append last m.next_sequence m.queue _ refl a)

  remove_queued-Advances :
      (last : ℕ) (m : Mailbox O E) (reason : E) (found : Option (Entry × List Entry)) (id : String)
      → splice id m.queue ≡ found
      → Ordered last m
      → Advances last ((remove_queued m reason found).0, [])
  unfolding remove_queued
  remove_queued-Advances last m reason none id h a = inl (refl, a)
  remove_queued-Advances last m reason (some (e, rest)) id h a =
      inl (refl, Ascends-splice id last m.next_sequence m.queue h a)

  start_next-Advances :
      (last : ℕ) (m : Mailbox O E) (now : ℕ) (q : List Entry)
      → m.queue ≡ q
      → Ordered last m
      → Advances last (start_next m now q)
  unfolding start_next
  start_next-Advances last m now [] e a = inl (refl, a)
  start_next-Advances last m now (x ∷ q) e a =
      let b : Ascends last (x ∷ q) m.next_sequence = rw e at a in inr (x.sequence, refl, b.0, b.1)

  drain-Advances :
      (last : ℕ) (m : Mailbox O E) (now : ℕ) → Ordered last m → Advances last (drain m now)
  unfolding drain
  drain-Advances last m now a = elim (Bool-cases m.running) [
    | inl busy ↦ simp busy (inl (refl, a))
    | inr free ↦ simp free (start_next-Advances last m now m.queue refl a)
  ]

  drain_task-Advances :
      (last : ℕ) (m : Mailbox O E) (d now : ℕ) → Ordered last m → Advances last (drain_task m d now)
  unfolding drain_task
  drain_task-Advances last m zero now a = inl (refl, a)
  drain_task-Advances last m (suc d) now a = drain-Advances last (record m { drains = d }) now a

  finish-Advances :
      (last : ℕ) (m : Mailbox O E) (r : Option Run) (p : Promise O E) (now : ℕ)
      → Ordered last m
      → Advances last (finish m r p now)
  unfolding finish
  finish-Advances last m none p now a = inl (refl, a)
  finish-Advances last m (some r) unsettled now a = inl (refl, a)
  finish-Advances last m (some r) (resolved o) now a = inl (refl, a)
  finish-Advances last m (some r) (rejected e) now a = inl (refl, a)

  finally_task-Advances :
      (last : ℕ) (m : Mailbox O E) (f : Bool) (now : ℕ)
      → Ordered last m
      → Advances last (finally_task m f now)
  unfolding finally_task
  finally_task-Advances last m false now a = inl (refl, a)
  finally_task-Advances last m true now a =
      drain-Advances last (record m { finishing = false; running = false }) now a

  settle_task-Advances :
      (last : ℕ) (m : Mailbox O E) (s : ℕ) → Ordered last m → Advances last (settle_task m s)
  unfolding settle_task
  settle_task-Advances last m zero a = inl (refl, a)
  settle_task-Advances last m (suc s) a = inl (refl, a)

  turn-Advances :
      (last : ℕ) (m : Mailbox O E) (t : Turn O E) → Ordered last m → Advances last (turn m t)
  unfolding turn enqueue cancel
  turn-Advances last m (enqueues id now) a = admit-Advances last m id now (lookup id m.results) a
  turn-Advances last m (cancels id reason) a =
      remove_queued-Advances last m reason (splice id m.queue) id refl a
  turn-Advances last m (drains_once now) a = drain_task-Advances last m m.drains now a
  turn-Advances last m (receiver_settles p now) a = finish-Advances last m m.active p now a
  turn-Advances last m (finishes now) a = finally_task-Advances last m m.finishing now a
  turn-Advances last m settles a = settle_task-Advances last m m.settlements a

  run-Increasing :
      (last : ℕ) (m : Mailbox O E) (ts : List (Turn O E))
      → Ordered last m
      → Increasing last (received (run m ts).1)
  unfolding run
  run-Increasing last m [] a = tt
  run-Increasing last m (t ∷ ts) a = elim (turn-Advances last m t a) [
    | inl (quiet, b) ↦
        rw (received-append (turn m t).1 (run (turn m t).0 ts).1, quiet)
          (run-Increasing last (turn m t).0 ts b)
    | inr (s, call, above, b) ↦
        rw (received-append (turn m t).1 (run (turn m t).0 ts).1, call)
          (above, run-Increasing s (turn m t).0 ts b)
  ]

  -- Over any sequence of turns the receiver is called with strictly rising sequence numbers.
  pub received-Increasing : (ts : List (Turn O E)) → Increasing 0 (received (run new_mailbox ts).1)
  unfolding new_mailbox
  received-Increasing ts = run-Increasing 0 new_mailbox ts (omega arith)
