-- ===== src/Mailbox/Progress.antt =====
-- src/mailbox.ts: the callbacks that are owed lead an intake that gets no new calls to idleness.
use cantelop_sdk.Prelude.{
  ℕ, zero, suc, ◌+◌, ◌*◌, ◌≤◌, ◌<◌, ◌≡◌, refl, Bool, true, false, none, All, some, List, [], ◌∷◌,
  length, arith, is_some, one_if, Bool-cases, Option-cases, inl, inr, ◌⊎◌,
}
use cantelop_sdk.Mailbox.{
  unsettled, resolved, Entry, Run, Mailbox, new_mailbox, drain, start_next, drain_task, finish,
  finally_task, settle_task, Turn, enqueues, cancels, drains_once, receiver_settles, finishes,
  settles, turn, run, is_idle,
}
use cantelop_sdk.Mailbox.Invariant.{Core, Inv, turn-Inv, run_mailbox-Inv}

number-cases : (n : ℕ) → (n ≡ 0) ⊎ ((k : ℕ) × (n ≡ suc k))
number-cases zero = inl refl
number-cases (suc n) = inr (n, refl)

module _ {O E : Type 0} where
  -- The work left: each callback that is owed, and what a message still gives rise to.
  abbrev work : Mailbox O E → ℕ
  work m =
      4 * length m.queue
      + 3 * one_if (is_some m.active)
      + one_if m.finishing
      + m.drains
      + m.settlements

  start_next-work :
      (m : Mailbox O E) (now : ℕ) (q : List Entry)
      → m.queue ≡ q
      → m.active ≡ none
      → work (start_next m now q).0 ≤ work m
  unfolding start_next
  start_next-work m now [] e a = omega arith
  start_next-work m now (x ∷ q) e a = ground arith

  drain-work : (m : Mailbox O E) (now : ℕ) → Core m → work (drain m now).0 ≤ work m
  unfolding drain
  drain-work m now v = elim (Bool-cases m.running) [
    | inl busy ↦ simp busy (omega arith)
    | inr free ↦ simp free (start_next-work m now m.queue refl (ground arith))
  ]

  -- A turn of the event loop, or a receiver that ends; no call from outside.
  abbrev pub is_callback : Turn O E → Bool
  is_callback (enqueues id now) = false
  is_callback (cancels id reason) = false
  is_callback (receiver_settles unsettled now) = false
  is_callback _ = true

  abbrev pub IsCallback : Turn O E → Type 0
  IsCallback t = is_callback t ≡ true

  abbrev Progresses : Mailbox O E → Type 0
  Progresses m = (t : Turn O E) × IsCallback t × (work (turn m t).0 < work m)

  receiver-progress : (m : Mailbox O E) (r : Run) (o : O) → m.active ≡ some r → Inv m → Progresses m
  unfolding turn finish
  receiver-progress m r o e v =
      (receiver_settles (resolved o) 0, refl, rw (e, finish) (ground arith))

  finally-progress : (m : Mailbox O E) → m.finishing ≡ true → Inv m → Progresses m
  unfolding turn finally_task
  finally-progress m e v = (
    finishes 0,
    refl,
    rw (e, finally_task)
        (ground (arith, drain-work (record m { finishing = false; running = false }) 0)),
  )

  drain-progress : (m : Mailbox O E) (d : ℕ) → m.drains ≡ suc d → Inv m → Progresses m
  unfolding turn drain_task
  drain-progress m d e v = (
    drains_once 0,
    refl,
    rw (e, drain_task) (ground (arith, drain-work (record m { drains = d }) 0)),
  )

  settle-progress : (m : Mailbox O E) (s : ℕ) → m.settlements ≡ suc s → Progresses m
  unfolding turn settle_task
  settle-progress m s e = (settles, refl, rw (e, settle_task) (ground arith))

  -- A mailbox that is not idle is owed a callback, or a receiver has yet to settle.
  progress : (m : Mailbox O E) (o : O) → Inv m → (m.pending ≡ 0) ⊎ Progresses m
  progress m o v = elim (Option-cases m.active) [
    | inr (r, e) ↦ inr (receiver-progress m r o e v)
    | inl idle ↦ elim (Bool-cases m.finishing) [
      | inl e ↦ inr (finally-progress m e v)
      | inr quiet ↦ elim (number-cases m.settlements) [
        | inr (s, e) ↦ inr (settle-progress m s e)
        | inl noticed ↦ elim (number-cases m.drains) [
          | inr (d, e) ↦ inr (drain-progress m d e v)
          | inl none_owed ↦ inl (ground arith)
        ]
      ]
    ]
  ]

  settles_down :
      (fuel : ℕ) (m : Mailbox O E) (o : O)
      → work m < fuel
      → Inv m
      → (ts : List (Turn O E)) × All IsCallback ts × (length ts < fuel) × ((run m ts).0.pending ≡ 0)
  unfolding run
  settles_down zero m o h v = absurd (omega arith)
  settles_down (suc fuel) m o h v = elim (progress m o v) [
    | inl idle ↦ ([], tt, omega arith, idle)
    | inr (t, callback, less) ↦
        let (ts, callbacks, short, done) =
          settles_down fuel (turn m t).0 o (omega arith) (turn-Inv m t v) in
        (t ∷ ts, (callback, callbacks), omega arith, done)
  ]

  -- If receivers settle, every state that turns can reach goes on to an idle one by callbacks alone,
  -- with no further call of the mailbox, and their number is bounded by the work left: no message is
  -- forgotten in the queue.
  pub idle_reachable :
      (before : List (Turn O E)) (o : O)
      → let m = (run new_mailbox before).0 in
        (ts : List (Turn O E)) × All IsCallback ts
        × (length ts
            ≤ 4 * length m.queue
              + 3 * one_if (is_some m.active)
              + one_if m.finishing
              + m.drains
              + m.settlements)
        × (is_idle (run m ts).0 ≡ true)
  unfolding is_idle
  idle_reachable before o =
      let m = (run new_mailbox before).0 in
      let (ts, callbacks, short, done) =
        settles_down (suc (work m)) m o (omega arith) (run_mailbox-Inv before) in
      (ts, callbacks, omega arith, ground (arith, done))
