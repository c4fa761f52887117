-- ===== src/Mailbox/Once.antt =====
-- src/mailbox.ts: no message is handed to the receiver twice.
use cantelop_sdk.Prelude.{
  ℕ, zero, suc, ◌≡◌, ◌≢◌, refl, sym, ap, subst, ◌∙◌, inl, inr, String, Bool, true, false, Option,
  none, some, List, [], ◌∷◌, ◌++◌, All, All-append, All-map, append_assoc, append-nil, arith,
  Bool-cases, Option-cases, is_some, lookup, lookup-insert, insert, str_eq, str_eq_refl,
}
use cantelop_sdk.Mailbox.{
  enqueued, deduplicated, handling, handled, failed, Effect, observe, state_changed, Promise,
  unsettled, resolved, rejected, Entry, Run, Mailbox, new_mailbox, splice, admit, enqueue,
  remove_queued, cancel, start_next, drain, drain_task, finish, finally_task, settle_task, Turn,
  enqueues, cancels, drains_once, receiver_settles, finishes, settles, turn, run,
}
use cantelop_sdk.Mailbox.Order.{received, Increasing, received-Increasing}

-- The ids of the messages that the receiver is called with, in the order of the calls.
abbrev pub received_ids : List Effect → List String
received_ids [] = []
received_ids (observe (handling id s depth wait) ∷ es) = id ∷ received_ids es
received_ids (observe (enqueued id s depth) ∷ es) = received_ids es
received_ids (observe (deduplicated id) ∷ es) = received_ids es
received_ids (observe (handled id s time) ∷ es) = received_ids es
received_ids (observe (failed id s time) ∷ es) = received_ids es
received_ids (state_changed ∷ es) = received_ids es

abbrev pub Distinct : List String → Type 0
Distinct [] = Unit
Distinct (id ∷ ids) = All (λ other. other ≢ id) ids × Distinct ids

ids_of : List Entry → List String
ids_of [] = []
ids_of (e ∷ es) = e.id ∷ ids_of es

received_ids-append :
    (xs ys : List Effect) → received_ids (xs ++ ys) ≡ received_ids xs ++ received_ids ys
received_ids-append [] ys = refl
received_ids-append (observe (handling id s depth wait) ∷ es) ys =
    ap (◌∷◌ id) (received_ids-append es ys)
received_ids-append (observe (enqueued id s depth) ∷ es) ys = received_ids-append es ys
received_ids-append (observe (deduplicated id) ∷ es) ys = received_ids-append es ys
received_ids-append (observe (handled id s time) ∷ es) ys = received_ids-append es ys
received_ids-append (observe (failed id s time) ∷ es) ys = received_ids-append es ys
received_ids-append (state_changed ∷ es) ys = received_ids-append es ys

-- Of ids that are told apart, with one more that is none of them, and with some left out.
module _ (id : String) where
  Distinct-snoc :
      (ids : List String) → All (λ x. x ≢ id) ids → Distinct ids → Distinct (ids ++ id ∷ [])
  Distinct-snoc [] h d = (tt, tt)
  Distinct-snoc (x ∷ ids) h d = (
    All-append (λ y. y ≢ x) ids (id ∷ []) d.0 ((λ e. h.0 (sym e)), tt),
    Distinct-snoc ids h.1 d.1,
  )

  module _ (P : String → Type 0) where
    All-without : (front back : List String) → All P (front ++ id ∷ back) → All P (front ++ back)
    All-without [] back h = h.1
    All-without (x ∷ front) back h = (h.0, All-without front back h.1)

  Distinct-without :
      (front back : List String) → Distinct (front ++ id ∷ back) → Distinct (front ++ back)
  Distinct-without [] back d = d.1
  Distinct-without (x ∷ front) back d =
      (All-without (λ y. y ≢ x) front back d.0, Distinct-without front back d.1)

Distinct-front : (front back : List String) → Distinct (front ++ back) → Distinct front
Distinct-front [] back d = tt
Distinct-front (x ∷ front) back d =
    (All-front (λ y. y ≢ x) front back d.0, Distinct-front front back d.1)
  where
    All-front :
        (P : String → Type 0) (front back : List String) → All P (front ++ back) → All P front
    All-front P [] back h = tt
    All-front P (y ∷ front) back h = (h.0, All-front P front back h.1)

ids_of-append : (es : List Entry) (e : Entry) → ids_of (es ++ e ∷ []) ≡ ids_of es ++ e.id ∷ []
unfolding ids_of
ids_of-append [] e = refl
ids_of-append (x ∷ es) e = ap (◌∷◌ x.id) (ids_of-append es e)

-- An entry that is spliced out stood between two parts of the queue.
splice_split :
    (id : String) (es : List Entry) {e : Entry} {rest : List Entry}
    → splice id es ≡ some (e, rest)
    → (front : List String) × (back : List String) × (ids_of es ≡ front ++ e.id ∷ back)
      × (ids_of rest ≡ front ++ back)
unfolding splice ids_of
splice_split id [] h = cc h
splice_split id (x ∷ es) {e} {rest} h = elim (Bool-cases (str_eq x.id id)) [
  | inl hit ↦
      let same : x ≡ e = ground arith in
      let left : es ≡ rest = ground arith in
      ([], ids_of es, ap (λ (y : Entry). y.id ∷ ids_of es) same, ap ids_of (sym left))
  | inr miss ↦ elim (Option-cases (splice id es)) [
    | inl missing ↦ absurd (ground arith)
    | inr ((f, others), found) ↦
        let same : f ≡ e = ground arith in
        let left : x ∷ others ≡ rest = ground arith in
        let (front, back, was, now) = splice_split id es found in
        (
          x.id ∷ front,
          back,
          ap (◌∷◌ x.id) was ∙ ap (λ (y : Entry). x.id ∷ front ++ y.id ∷ back) same,
          ap ids_of (sym left) ∙ ap (◌∷◌ x.id) now,
        )
  ]
]

module _ {O E : Type 0} where
  abbrev Knows : List (String × Promise O E) → String → Type 0
  Knows results id = is_some (lookup id results) ≡ true

  -- The messages received and those queued are told apart, and have their promises in `results`.
  record Fresh (seen : List String) (m : Mailbox O E) : Type 0 where
    distinct : Distinct (seen ++ ids_of m.queue)
    known : All (Knows m.results) (seen ++ ids_of m.queue)

  abbrev Leaves : List String → Mailbox O E × List Effect → Type 0
  Leaves seen r = Fresh (seen ++ received_ids r.1) r.0

  -- A turn that does not call the receiver.
  quiet-Fresh : (seen : List String) (m : Mailbox O E) → Fresh seen m → Fresh (seen ++ []) m
  quiet-Fresh seen m f = subst (λ ids. Fresh ids m) (sym (append-nil seen)) f

  Knows-insert :
      (id key : String) (p : Promise O E) (results : List (String × Promise O E))
      → Knows results id
      → Knows (insert key p results) id
  Knows-insert id key p results k = ground (arith, lookup-insert key id p results)

  results-Fresh :
      (seen : List String) (m m' : Mailbox O E) (key : String) (p : Promise O E)
      → m'.queue ≡ m.queue
      → m'.results ≡ insert key p m.results
      → Fresh seen m
      → Fresh seen m'
  results-Fresh seen m m' key p q r f = record {
    distinct = rw q f.distinct;
    known =
        rw (q, r) (All-map (Knows m.results) _ (λ id. Knows-insert id key p m.results) _ f.known);
  }

  admit-Leaves :
      (seen : List String) (m : Mailbox O E) (id : String) (now : ℕ) (known : Option (Promise O E))
      → lookup id m.results ≡ known
      → Fresh seen m
      → Leaves seen (admit m id now known)
  unfolding admit
  admit-Leaves seen m id now (some p) h f = quiet-Fresh seen m f
  admit-Leaves seen m id now none h f =
      let e : Entry = record { id = id; sequence = m.next_sequence; enqueued_at = now } in
      let ids = ids_of m.queue in
      let place : (seen ++ ids) ++ id ∷ [] ≡ seen ++ ids_of (m.queue ++ e ∷ []) =
        append_assoc seen ids (id ∷ []) ∙ ap (◌++◌ seen) (sym (ids_of-append m.queue e)) in
      quiet-Fresh seen _ (record {
        distinct = subst Distinct place (
            Distinct-snoc id (seen ++ ids)
              (All-map (Knows m.results) (λ x. x ≢ id) (λ x k same. ground (arith, h)) (seen ++ ids)
                f.known)
              f.distinct);
        known = subst (All (Knows (insert id unsettled m.results))) place (
            All-append _ (seen ++ ids) (id ∷ [])
              (All-map (Knows m.results) _ (λ x. Knows-insert x id unsettled m.results)
                (seen ++ ids) f.known)
              (ground (arith, lookup-insert id id unsettled m.results, str_eq_refl id), tt));
      })

  remove_queued-Leaves :
      (seen : List String) (m : Mailbox O E) (reason : E) (found : Option (Entry × List Entry))
      (id : String)
      → splice id m.queue ≡ found
      → Fresh seen m
      → Fresh seen (remove_queued m reason found).0
  unfolding remove_queued
  remove_queued-Leaves seen m reason none id h f = f
  remove_queued-Leaves seen m reason (some (e, rest)) id h f =
      let (front, back, was, now) = splice_split id m.queue h in
      let before : seen ++ ids_of m.queue ≡ (seen ++ front) ++ e.id ∷ back =
        ap (◌++◌ seen) was ∙ sym (append_assoc seen front (e.id ∷ back)) in
      let behind : (seen ++ front) ++ back ≡ seen ++ ids_of rest =
        append_assoc seen front back ∙ ap (◌++◌ seen) (sym now) in
      record {
        distinct =
            subst Distinct behind
              (Distinct-without e.id (seen ++ front) back (subst Distinct before f.distinct));
        known =
            All-map (Knows m.results) _ (λ x. Knows-insert x e.id (rejected reason) m.results) _
              (subst (All (Knows m.results)) behind (
                All-without e.id (Knows m.results) (seen ++ front) back
                  (subst (All (Knows m.results)) before f.known)));
      }

  start_next-Leaves :
      (seen : List String) (m : Mailbox O E) (now : ℕ) (q : List Entry)
      → m.queue ≡ q
      → Fresh seen m
      → Leaves seen (start_next m now q)
  unfolding start_next ids_of
  start_next-Leaves seen m now [] e f = quiet-Fresh seen m f
  start_next-Leaves seen m now (x ∷ q) e f =
      let place : seen ++ ids_of m.queue ≡ (seen ++ x.id ∷ []) ++ ids_of q =
        ap (λ (es : List Entry). seen ++ ids_of es) e
        ∙ sym (append_assoc seen (x.id ∷ []) (ids_of q)) in
      record {
        distinct = subst Distinct place f.distinct;
        known = subst (All (Knows m.results)) place f.known;
      }

  drain-Leaves :
      (seen : List String) (m : Mailbox O E) (now : ℕ) → Fresh seen m → Leaves seen (drain m now)
  unfolding drain
  drain-Leaves seen m now f = elim (Bool-cases m.running) [
    | inl busy ↦ simp busy (quiet-Fresh seen m f)
    | inr free ↦ simp free (start_next-Leaves seen m now m.queue refl f)
  ]

  drain_task-Leaves :
      (seen : List String) (m : Mailbox O E) (d now : ℕ)
      → Fresh seen m
      → Leaves seen (drain_task m d now)
  unfolding drain_task
  drain_task-Leaves seen m zero now f = quiet-Fresh seen m f
  drain_task-Leaves seen m (suc d) now f =
      drain-Leaves seen (record m { drains = d }) now
        (record { distinct = f.distinct; known = f.known })

  finish-Leaves :
      (seen : List String) (m : Mailbox O E) (r : Option Run) (p : Promise O E) (now : ℕ)
      → Fresh seen m
      → Leaves seen (finish m r p now)
  unfolding finish
  finish-Leaves seen m none p now f = quiet-Fresh seen m f
  finish-Leaves seen m (some r) unsettled now f = quiet-Fresh seen m f
  finish-Leaves seen m (some r) (resolved o) now f =
      quiet-Fresh seen _ (results-Fresh seen m _ r.entry.id (resolved o) refl refl f)
  finish-Leaves seen m (some r) (rejected e) now f =
      quiet-Fresh seen _ (results-Fresh seen m _ r.entry.id (rejected e) refl refl f)

  finally_task-Leaves :
      (seen : List String) (m : Mailbox O E) (done : Bool) (now : ℕ)
      → Fresh seen m
      → Leaves seen (finally_task m done now)
  unfolding finally_task
  finally_task-Leaves seen m false now f = quiet-Fresh seen m f
  finally_task-Leaves seen m true now f =
      drain-Leaves seen (record m { finishing = false; running = false }) now
        (record { distinct = f.distinct; known = f.known })

  settle_task-Leaves :
      (seen : List String) (m : Mailbox O E) (s : ℕ) → Fresh seen m → Leaves seen (settle_task m s)
  unfolding settle_task
  settle_task-Leaves seen m zero f = quiet-Fresh seen m f
  settle_task-Leaves seen m (suc s) f =
      quiet-Fresh seen _ (record { distinct = f.distinct; known = f.known })

  turn-Leaves :
      (seen : List String) (m : Mailbox O E) (t : Turn O E) → Fresh seen m → Leaves seen (turn m t)
  unfolding turn enqueue cancel
  turn-Leaves seen m (enqueues id now) f = admit-Leaves seen m id now (lookup id m.results) refl f
  turn-Leaves seen m (cancels id reason) f =
      quiet-Fresh seen _ (remove_queued-Leaves seen m reason (splice id m.queue) id refl f)
  turn-Leaves seen m (drains_once now) f = drain_task-Leaves seen m m.drains now f
  turn-Leaves seen m (receiver_settles p now) f = finish-Leaves seen m m.active p now f
  turn-Leaves seen m (finishes now) f = finally_task-Leaves seen m m.finishing now f
  turn-Leaves seen m settles f = settle_task-Leaves seen m m.settlements f

  run-Leaves :
      (seen : List String) (m : Mailbox O E) (ts : List (Turn O E))
      → Fresh seen m
      → Leaves seen (run m ts)
  unfolding run
  run-Leaves seen m [] f = quiet-Fresh seen m f
  run-Leaves seen m (t ∷ ts) f =
      let (m', now) = turn m t in
      let later = run m' ts in
      subst (λ ids. Fresh ids later.0)
        (append_assoc seen (received_ids now) (received_ids later.1)
          ∙ ap (◌++◌ seen) (sym (received_ids-append now later.1)))
        (run-Leaves (seen ++ received_ids now) m' ts (turn-Leaves seen m t f))

  -- Over any sequence of turns the receiver is called with strictly rising sequence numbers, which is
  -- the order of the enqueues, and never twice with a message of the same id, however often that
  -- message is enqueued.
  pub received_in_order :
      (ts : List (Turn O E))
      → Increasing 0 (received (run new_mailbox ts).1)
        × Distinct (received_ids (run new_mailbox ts).1)
  unfolding new_mailbox ids_of
  received_in_order ts =
      let left = run-Leaves [] new_mailbox ts (record { distinct = tt; known = tt }) in
      (received-Increasing ts, Distinct-front _ (ids_of (run new_mailbox ts).0.queue) left.distinct)
