-- ===== src/Mailbox/Invariant.antt =====
-- src/mailbox.ts: what holds of a mailbox between two turns.
use cantelop_sdk.Prelude.{
  ℕ, zero, suc, ◌+◌, ◌<◌, ◌≡◌, refl, ◌⊎◌, String, Bool, true, false, ◌||◌, Option, none, some, List,
  [], ◌∷◌, length, length-append, arith, is_some, one_if, lookup, Bool-cases, inl, inr,
  Option-cases,
}
use cantelop_sdk.Mailbox.{
  Promise, unsettled, resolved, rejected, Entry, Run, Mailbox, new_mailbox, splice, enqueue, admit,
  cancel, drain, start_next, remove_queued, drain_task, finish, finally_task, settle_task, Turn,
  enqueues, cancels, drains_once, receiver_settles, finishes, settles, turn, run,
}

length-splice :
    (id : String) (es : List Entry) {e : Entry} {rest : List Entry}
    → splice id es ≡ some (e, rest)
    → length es ≡ suc (length rest)
unfolding splice
length-splice id [] h = cc
length-splice id (x ∷ es) h = elim (Option-cases (splice id es)) [
  | inl missing ↦ ground arith
  | inr ((f, others), found) ↦ ground (arith, length-splice id es found)
]

module _ {O E : Type 0} where
  -- `pending` counts the messages that are queued, being received, or settled without the mailbox
  -- having noticed; `running` says whether a run is under way, and there is one at most.
  pub record Core (m : Mailbox O E) : Type 0 where
    pub counted : m.pending ≡ length m.queue + one_if (is_some m.active) + m.settlements
    pub running_lem : m.running ≡ is_some m.active || m.finishing
    pub one_run : (m.active ≡ none) ⊎ (m.finishing ≡ false)

  -- No queued message is left with neither a run under way nor a drain to come.
  abbrev pub Woken : Mailbox O E → Type 0
  Woken m = (m.queue ≡ []) ⊎ ((m.running ≡ true) ⊎ (0 < m.drains))

  pub record Inv (m : Mailbox O E) : Type 0 where
    pub core : Core m
    pub woken : Woken m

  pub new_mailbox-Inv : Inv new_mailbox
  unfolding new_mailbox
  new_mailbox-Inv = ground arith

  admit-Inv :
      (m : Mailbox O E) (id : String) (now : ℕ) (known : Option (Promise O E))
      → Inv m
      → Inv (admit m id now known).0
  unfolding admit
  admit-Inv m id now (some p) v = v
  admit-Inv m id now none v = ground (
    arith,
    length-append m.queue (record { id = id; sequence = m.next_sequence; enqueued_at = now } ∷ []),
  )

  remove_queued-Inv :
      (m : Mailbox O E) (reason : E) (found : Option (Entry × List Entry)) (id : String)
      → splice id m.queue ≡ found
      → Inv m
      → Inv (remove_queued m reason found).0
  unfolding remove_queued
  remove_queued-Inv m reason none id h v = v
  remove_queued-Inv m reason (some (e, rest)) id h v = ground (arith, length-splice id m.queue h)

  start_next-Inv :
      (m : Mailbox O E) (now : ℕ) (q : List Entry)
      → m.queue ≡ q
      → m.running ≡ false
      → Core m
      → Inv (start_next m now q).0
  unfolding start_next
  start_next-Inv m now [] e r v = ground arith
  start_next-Inv m now (x ∷ q) e r v = ground arith

  -- A drain needs no drain to have been owed: it leaves none of the queue unattended.
  drain-Inv : (m : Mailbox O E) (now : ℕ) → Core m → Inv (drain m now).0
  unfolding drain
  drain-Inv m now v = elim (Bool-cases m.running) [
    | inl busy ↦ simp busy (record { core = v; woken = inr (inl busy) })
    | inr free ↦ simp free (start_next-Inv m now m.queue refl free v)
  ]

  drain_task-Inv : (m : Mailbox O E) (d now : ℕ) → Inv m → Inv (drain_task m d now).0
  unfolding drain_task
  drain_task-Inv m zero now v = v
  drain_task-Inv m (suc d) now v = drain-Inv (record m { drains = d }) now (ground arith)

  finish-Inv :
      (m : Mailbox O E) (r : Option Run) (p : Promise O E) (now : ℕ)
      → m.active ≡ r
      → Inv m
      → Inv (finish m r p now).0
  unfolding finish
  finish-Inv m none p now e v = v
  finish-Inv m (some r) unsettled now e v = v
  finish-Inv m (some r) (resolved o) now e v = ground arith
  finish-Inv m (some r) (rejected x) now e v = ground arith

  finally_task-Inv :
      (m : Mailbox O E) (f : Bool) (now : ℕ)
      → m.finishing ≡ f
      → Inv m
      → Inv (finally_task m f now).0
  unfolding finally_task
  finally_task-Inv m false now e v = v
  finally_task-Inv m true now e v =
      drain-Inv (record m { finishing = false; running = false }) now (ground arith)

  settle_task-Inv : (m : Mailbox O E) (s : ℕ) → m.settlements ≡ s → Inv m → Inv (settle_task m s).0
  unfolding settle_task
  settle_task-Inv m zero e v = v
  settle_task-Inv m (suc s) e v = ground arith

  pub turn-Inv : (m : Mailbox O E) (t : Turn O E) → Inv m → Inv (turn m t).0
  unfolding turn enqueue cancel
  turn-Inv m (enqueues id now) v = admit-Inv m id now (lookup id m.results) v
  turn-Inv m (cancels id reason) v = remove_queued-Inv m reason (splice id m.queue) id refl v
  turn-Inv m (drains_once now) v = drain_task-Inv m m.drains now v
  turn-Inv m (receiver_settles p now) v = finish-Inv m m.active p now refl v
  turn-Inv m (finishes now) v = finally_task-Inv m m.finishing now refl v
  turn-Inv m settles v = settle_task-Inv m m.settlements refl v

  run_from-Inv : (m : Mailbox O E) (ts : List (Turn O E)) → Inv m → Inv (run m ts).0
  unfolding run
  run_from-Inv m [] v = v
  run_from-Inv m (t ∷ ts) v = run_from-Inv (turn m t).0 ts (turn-Inv m t v)

  -- After any sequence of turns, `pending` counts exactly the messages not yet settled and noticed,
  -- at most one run is under way, and a queued message always has a run or a drain before it.
  pub run_mailbox-Inv : (ts : List (Turn O E)) → Inv (run new_mailbox ts).0
  run_mailbox-Inv ts = run_from-Inv new_mailbox ts new_mailbox-Inv
