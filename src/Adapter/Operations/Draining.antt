-- ===== src/Adapter/Operations/Draining.antt =====
-- src/session-runtime-adapter.ts: the callbacks that operations are owed, in whatever order they run,
-- take the operations out and send their messages.
use cantelop_sdk.Prelude.{
  ◌+◌, ◌≤◌, ◌<◌, ◌≡◌, refl, ap, sym, ◌∙◌, ◌⊎◌, inl, inr, String, Bool, true, false, Option, none,
  some, List, [], ◌∷◌, ◌++◌, append_assoc, str_eq, str_eq_refl, eq_iff, length, lookup, erase,
  if◌then◌else◌, Result, err, Thrown, error, arith,
}
use cantelop_sdk.Output.{Json}
use cantelop_sdk.Adapter.Operations.{
  Phase, calling, working, flushing, HarnessOperation, Operations, Effect, sends, state_changed,
  completes, modify, close_work, returned_from, call_returned, settle, settle_found, settle_working,
  flush_sent, flush_phase, flush_found, flush_next,
}
use cantelop_sdk.Adapter.Operations.Owed.{
  is_calling, is_working, is_flushing, DistinctKeys, messages_of, left_for, owed_by, owed,
  lookup-modify, lookup-erase, modify-DistinctKeys, erase-DistinctKeys, owed-modify, owed-erase,
}
use cantelop_sdk.Adapter.Operations.Turns.{Turn, call_returns, settles, flushes, turn, run}

-- The messages that a turn sends.
abbrev pub sent : {M V : Type 0} → List (Effect M V) → List M
sent [] = []
sent (sends m ∷ es) = m ∷ sent es
sent (state_changed ∷ es) = sent es
sent (completes _ ∷ es) = sent es

-- Whether a turn goes on with the flush of an operation.
abbrev pub flushes_of : {M V : Type 0} → String → Turn M V → Bool
flushes_of id (flushes other) = str_eq other id
flushes_of id _ = false

module _ {M V : Type 0} where
  -- Whether a callback is owed to its operation.
  abbrev pub is_owed : Operations M → Turn M V → Bool
  is_owed ops (call_returns id thrown) = is_calling (lookup id ops)
  is_owed ops (settles id outer result) = is_working (lookup id ops)
  is_owed ops (flushes id) = is_flushing (lookup id ops)
  is_owed ops _ = false

-- What is sent for one operation comes from what was left for it.
last_sent :
    {M : Type 0} (hit : Bool) (before now rest after : List M)
    → after ≡ (if hit then rest else before)
    → before ≡ (if hit then now ++ rest else before)
    → (if hit then now else []) ++ after ≡ before
last_sent true before now rest after a b = ap (◌++◌ now) a ∙ sym b
last_sent false before now rest after a b = a

module _ {M V : Type 0} (json : Json V) where
  -- A history of callbacks, each of them owed when it runs.
  abbrev pub AllOwed : Operations M → List (Turn M V) → Type 0
  AllOwed ops [] = Unit
  AllOwed ops (t ∷ ts) = (is_owed ops t ≡ true) × AllOwed (turn json ops t).0 ts

  -- What a history sends of the messages of one operation.
  abbrev pub sent_for : String → Operations M → List (Turn M V) → List M
  sent_for id ops [] = []
  sent_for id ops (t ∷ ts) =
      let (ops', effects) = turn json ops t in
      let later = sent_for id ops' ts in (if flushes_of id t then sent effects else []) ++ later

  -- A callback that was owed brings the end nearer, and sends what it takes from what is left.
  record Nearer (ops : Operations M) (t : Turn M V) (out : Operations M × List (Effect M V))
      : Type 0 where
    distinct : DistinctKeys out.0
    less : owed out.0 < owed ops
    kept :
        (id : String)
        → (if flushes_of id t then sent out.1 else []) ++ left_for id out.0 ≡ left_for id ops

  left-modify :
      (id other : String) (change : HarnessOperation M → HarnessOperation M) (ops : Operations M)
      (op : HarnessOperation M)
      → lookup id ops ≡ some op
      → left_for other (modify id change ops)
        ≡ (if str_eq id other then (change op).followups.messages else left_for other ops)
  unfolding left_for messages_of
  left-modify id other change ops op h = ground (arith, lookup-modify id other change ops op h)

  left_found :
      (id other : String) (ops : Operations M) (op : HarnessOperation M)
      → lookup id ops ≡ some op
      → left_for other ops ≡ (if str_eq id other then op.followups.messages else left_for other ops)
  unfolding left_for messages_of
  left_found id other ops op h = ground (arith, eq_iff id other)

  left-erase :
      (id other : String) (ops : Operations M)
      → DistinctKeys ops
      → left_for other (erase id ops) ≡ (if str_eq id other then [] else left_for other ops)
  unfolding left_for messages_of
  left-erase id other ops d = ground (arith, lookup-erase id other ops d)

  -- A change of an operation that keeps its messages.
  kept-modify :
      (id : String) (change : HarnessOperation M → HarnessOperation M) (ops : Operations M)
      (op : HarnessOperation M)
      → lookup id ops ≡ some op
      → (change op).followups.messages ≡ op.followups.messages
      → (other : String) → left_for other (modify id change ops) ≡ left_for other ops
  kept-modify id change ops op h same other =
      left-modify id other change ops op h
      ∙ ap (λ (ms : List M). if str_eq id other then ms else left_for other ops) same
      ∙ sym (left_found id other ops op h)

  returned-Nearer :
      (ops : Operations M) (id : String) (thrown : Option Thrown)
      (found : Option (HarnessOperation M))
      → lookup id ops ≡ found
      → is_calling found ≡ true
      → DistinctKeys ops
      → Nearer ops (call_returns id thrown) (call_returned ops id thrown, [])
  unfolding call_returned
  returned-Nearer ops id thrown none h p d = cc p
  returned-Nearer ops id thrown (some op) h p d =
      let change = λ (o : HarnessOperation M). returned_from thrown o.phase o in
      let (kept, fewer) = returned op thrown op.phase refl p in
      record {
        distinct = modify-DistinctKeys id change ops d;
        less = omega (arith, owed-modify id change ops op h, fewer);
        kept = kept-modify id change ops op h kept;
      }
    where
      returned :
          (o : HarnessOperation M) (thrown : Option Thrown) (phase : Phase)
          → o.phase ≡ phase
          → (elim phase as (λ p. Bool) [ calling ↦ true | working ↦ false | flushing ↦ false ])
            ≡ true
          → ((returned_from thrown phase o).followups.messages ≡ o.followups.messages)
            × (owed_by (returned_from thrown phase o) < owed_by o)
      returned o none calling e p = (refl, rw e (omega arith))
      returned o (some t) calling e p = (refl, rw e (omega arith))
      returned o thrown working e p = cc p
      returned o thrown flushing e p = cc p

  settled-Nearer :
      (ops : Operations M) (id : String) (outer : Option Thrown) (result : Result V)
      (found : Option (HarnessOperation M))
      → lookup id ops ≡ found
      → is_working found ≡ true
      → DistinctKeys ops
      → Nearer ops (settles id outer result) (settle_found json ops id outer result found)
  unfolding settle_found
  settled-Nearer ops id outer result none h p d = cc p
  settled-Nearer ops id outer result (some op) h p d = settled op.phase refl p
    where
      settled :
          (phase : Phase)
          → op.phase ≡ phase
          → (elim phase as (λ p. Bool) [ calling ↦ false | working ↦ true | flushing ↦ false ])
            ≡ true
          → Nearer ops (settles id outer result) (settle_working json ops id outer result op phase)
      settled working e p =
          let fewer : owed_by (close_work op) < owed_by op = rw e (omega arith) in
          record {
            distinct = modify-DistinctKeys id close_work ops d;
            less = omega (arith, owed-modify id close_work ops op h, fewer);
            kept = kept-modify id close_work ops op h refl;
          }
      settled calling e p = cc p
      settled flushing e p = cc p

  -- The next message leaves, or the operation where none is left.
  flush_sent-Nearer :
      (ops : Operations M) (id : String) (op : HarnessOperation M) (ms : List M)
      → lookup id ops ≡ some op
      → op.phase ≡ flushing
      → op.followups.messages ≡ ms
      → DistinctKeys ops
      → Nearer ops (flushes id) (flush_sent {V = V} ops id op.followups)
  unfolding flush_sent
  flush_sent-Nearer ops id op [] h p e d = rw e (record {
    distinct = erase-DistinctKeys id ops d;
    less = let one : owed_by op ≡ 1 = rw (p, e) refl in omega (arith, owed-erase id ops op h, one);
    kept = λ other.
        last_sent (str_eq id other) (left_for other ops) [] [] _ (left-erase id other ops d) (
          left_found id other ops op h
          ∙ ap (λ (ms : List M). if str_eq id other then ms else left_for other ops) e);
  })
  flush_sent-Nearer ops id op (m ∷ ms) h p e d =
      let change = λ (o : HarnessOperation M). record o {
        followups = record (op.followups) { messages = ms };
      } in
      rw e (record {
        distinct = modify-DistinctKeys id change ops d;
        less =
            let many : owed_by op ≡ owed_by (change op) + 1 = rw (p, e) (omega arith) in
            omega (arith, owed-modify id change ops op h, many);
        kept = λ other.
            last_sent (str_eq id other) (left_for other ops) (m ∷ []) ms _
              (left-modify id other change ops op h)
              (left_found id other ops op h
                ∙ ap (λ (ns : List M). if str_eq id other then ns else left_for other ops) e);
      })

  flushed-Nearer :
      (ops : Operations M) (id : String) (found : Option (HarnessOperation M))
      → lookup id ops ≡ found
      → is_flushing found ≡ true
      → DistinctKeys ops
      → Nearer ops (flushes id) (flush_found {V = V} ops id found)
  unfolding flush_found
  flushed-Nearer ops id none h p d = cc p
  flushed-Nearer ops id (some op) h p d = flushed op.phase refl p
    where
      flushed :
          (phase : Phase)
          → op.phase ≡ phase
          → (elim phase as (λ p. Bool) [ calling ↦ false | working ↦ false | flushing ↦ true ])
            ≡ true
          → Nearer ops (flushes id) (flush_phase {V = V} ops id op phase)
      flushed flushing e p = flush_sent-Nearer ops id op op.followups.messages h e refl d
      flushed calling e p = cc p
      flushed working e p = cc p

  turn-Nearer :
      (ops : Operations M) (t : Turn M V)
      → is_owed ops t ≡ true
      → DistinctKeys ops
      → Nearer ops t (turn json ops t)
  unfolding turn settle flush_next
  turn-Nearer ops (call_returns id thrown) p d =
      returned-Nearer ops id thrown (lookup id ops) refl p d
  turn-Nearer ops (settles id outer result) p d =
      settled-Nearer ops id outer result (lookup id ops) refl p d
  turn-Nearer ops (flushes id) p d = flushed-Nearer ops id (lookup id ops) refl p d
  turn-Nearer ops _ p d = cc p

  -- The first operation is owed a callback.
  next_owed : (ops : Operations M) → (ops ≡ []) ⊎ ((t : Turn M V) × (is_owed ops t ≡ true))
  next_owed [] = inl refl
  next_owed ((id, op) ∷ ops) = inr (next op.phase refl)
    where
      first : lookup id ((id, op) ∷ ops) ≡ some op
      first = ap (λ b. if b then some op else lookup id ops) (str_eq_refl id)

      next :
          (phase : Phase) → op.phase ≡ phase → (t : Turn M V) × (is_owed ((id, op) ∷ ops) t ≡ true)
      next calling e = (call_returns id none, ap is_calling first ∙ rw e refl)
      next working e = (settles id none (err (error "ended")), ap is_working first ∙ rw e refl)
      next flushing e = (flushes id, ap is_flushing first ∙ rw e refl)

  -- Callbacks that are owed to the operations, in any order and with any ends of calls and promises,
  -- run at most as often as counted; as long as an operation is left, one more is owed; and at any
  -- point what they have sent for an operation and what is left for it are its follow-up messages,
  -- in order. So when no callback is owed, no operation is left and each has sent all its messages.
  pub operations_drained :
      (ops : Operations M) (ts : List (Turn M V))
      → DistinctKeys ops
      → AllOwed ops ts
      → let end = (run json ops ts).0 in
        (owed end + length ts ≤ owed ops)
        × ((end ≡ []) ⊎ ((t : Turn M V) × (is_owed end t ≡ true)))
        × ((id : String) → sent_for id ops ts ++ left_for id end ≡ left_for id ops)
  unfolding run
  operations_drained ops [] d a = (omega arith, next_owed ops, λ id. refl)
  operations_drained ops (t ∷ ts) d a =
      let (ops', effects) = turn json ops t in
      let now = turn-Nearer ops t a.0 d in
      let (fewer, next, kept) = operations_drained ops' ts now.distinct a.1 in
      (
        omega (arith, now.less, fewer),
        next,
        λ id.
            append_assoc (if flushes_of id t then sent effects else []) (sent_for id ops' ts) _
            ∙ ap (◌++◌ (if flushes_of id t then sent effects else [])) (kept id)
            ∙ now.kept id,
      )
