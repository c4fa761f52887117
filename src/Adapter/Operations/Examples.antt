-- ===== src/Adapter/Operations/Examples.antt =====
-- src/session-runtime-adapter.ts: harness operations whose messages and results are texts.
use cantelop_sdk.Prelude.{
  ◌+◌, ◌≤◌, ◌++◌, ◌⊎◌, refl, ℕ, ◌≡◌, String, true, false, none, some, List, [], ◌∷◌, ok, error,
}
use cantelop_sdk.Output.{Json}
use cantelop_sdk.Adapter.Operations.{
  Phase, calling, working, flushing, HarnessOperation, Operations, modify, call_returned,
  returned_from, settle, settle_found, settle_working, flush_next, flush_found, flush_phase,
  flush_sent,
}
use cantelop_sdk.Adapter.Operations.Turns.{
  turn, Turn, starts, call_returns, settles, pushes, aborts, timer_fires, flushes, run,
}
use cantelop_sdk.Adapter.Operations.Owed.{DistinctKeys, left_for, owed}
use cantelop_sdk.Adapter.Operations.Draining.{AllOwed, is_owed, sent_for, operations_drained}

abbrev texts : Json String
texts = record { encode = λ s. some s; byte_length = λ s. 12; parse = λ s. s }

abbrev history : List (Turn String String)
history =
    starts "m1" 1 301000 true none
    ∷ call_returns "m1" none
    ∷ pushes "m1" none "next" 6
    ∷ starts "m2" 2 302000 false none
    ∷ call_returns "m2" (some (error "no harness"))
    ∷ flushes "m2"
    ∷ aborts "m1" (error "stop") 2000
    ∷ timer_fires "m1" 301000
    ∷ settles "m1" none (ok "pong")
    ∷ flushes "m1"
    ∷ []

abbrev operation : ℕ → String → Phase → HarnessOperation String
operation id message phase = record {
  id = id;
  aborted = none;
  deadline = 301000;
  cancelled_at = none;
  followups = record { messages = message ∷ []; bytes = 3 };
  replies = true;
  phase = phase;
}

abbrev three : Operations String
three =
    ("m1", operation 1 "a" calling)
    ∷ ("m2", operation 2 "b" flushing)
    ∷ ("m3", operation 3 "c" working)
    ∷ []

abbrev three-DistinctKeys : DistinctKeys three
three-DistinctKeys = (refl, (refl, (refl, tt)))

-- The callbacks of three operations, of which one throws, in an order of their own.
abbrev callbacks : List (Turn String String)
callbacks =
    flushes "m2"
    ∷ call_returns "m1" (some (error "no harness"))
    ∷ settles "m3" none (ok "pong")
    ∷ flushes "m1"
    ∷ flushes "m3"
    ∷ flushes "m2"
    ∷ flushes "m3"
    ∷ flushes "m1"
    ∷ []

callbacks-AllOwed : AllOwed texts three callbacks
unfolding turn modify call_returned returned_from settle settle_found settle_working flush_next
    flush_found flush_phase flush_sent
callbacks-AllOwed = (refl, (refl, (refl, (refl, (refl, (refl, (refl, (refl, tt))))))))

operations_drained_example :
    let end = (run texts three callbacks).0 in
    (owed end + 8 ≤ owed three)
    × ((end ≡ []) ⊎ ((t : Turn String String) × (is_owed end t ≡ true)))
    × ((id : String) → sent_for texts id three callbacks ++ left_for id end ≡ left_for id three)
operations_drained_example =
    operations_drained texts three callbacks three-DistinctKeys callbacks-AllOwed
