-- ===== src/Mailbox/Results.antt =====
-- src/mailbox.ts: the cached promises. Every message that is queued or received has its own
-- unsettled promise, and a promise that has settled keeps its outcome.
use cantelop_sdk.Prelude.{
  ℕ, zero, suc, ◌≡◌, refl, sym, ap, ◌∙◌, ◌≢◌, String, Bool, true, false, Option, none, some, List,
  [], ◌∷◌, ◌++◌, append_assoc, str_eq_refl, arith, Bool-cases, Option-cases, inl, inr, ◌⊎◌, lookup,
  insert, lookup-insert, str_eq, eq_iff, All, All-append,
}
use mathlib.Core.Path.{ap₂}
use cantelop_sdk.Mailbox.{
  observe, deduplicated, Promise, unsettled, resolved, rejected, Entry, Run, Mailbox, new_mailbox,
  splice, admit, enqueue, remove_queued, cancel, start_next, drain, drain_task, finish,
  finally_task, settle_task, settle_entry, Turn, enqueues, cancels, drains_once, receiver_settles,
  finishes, settles, turn, run,
}
use cantelop_sdk.Mailbox.Invariant.{Core, Inv, new_mailbox-Inv, turn-Inv, run_mailbox-Inv}

abbrev Differs : Entry → Entry → Type 0
Differs e f = e.id ≢ f.id

abbrev Distinct : List Entry → Type 0
Distinct [] = Unit {0}
Distinct (e ∷ es) = All (Differs e) es × Distinct es

abbrev held : Option Run → List Entry
held none = []
held (some r) = r.entry ∷ []

str_eq_ne : (s t : String) → s ≢ t → str_eq s t ≡ false
str_eq_ne s t h = ground (arith, eq_iff s t)

Distinct-snoc :
    (es : List Entry) (e : Entry)
    → All (λ f. Differs f e) es
    → Distinct es
    → Distinct (es ++ e ∷ [])
Distinct-snoc [] e a d = (tt, tt)
Distinct-snoc (x ∷ es) e a d =
    (All-append (Differs x) es (e ∷ []) d.0 (a.0, tt), Distinct-snoc es e a.1 d.1)

splice-cases :
    (id : String) (x e : Entry) (es rest : List Entry)
    → splice id (x ∷ es) ≡ some (e, rest)
    → ((e ≡ x) × (rest ≡ es))
      ⊎ ((others : List Entry) × (splice id es ≡ some (e, others)) × (rest ≡ x ∷ others))
unfolding splice
splice-cases id x e es rest h = elim (Bool-cases (str_eq x.id id)) [
  | inl hit ↦ inl (ground arith, ground arith)
  | inr miss ↦ elim (Option-cases (splice id es)) [
    | inl missing ↦ absurd (ground arith)
    | inr ((f, others), found) ↦ inr (others, ground arith, ground arith)
  ]
]

splice-All {ℓ} :
    (P : Entry → Type ℓ) (id : String) (es : List Entry) {e : Entry} {rest : List Entry}
    → splice id es ≡ some (e, rest)
    → All P es
    → P e × All P rest
unfolding splice
splice-All P id [] h a = absurd (ground arith)
splice-All P id (x ∷ es) {e} {rest} h a = elim (splice-cases id x e es rest h) [
  | inl (hit, same) ↦ rw (hit, same) a
  | inr (others, found, same) ↦ let r = splice-All P id es found a.1 in rw same (r.0, (a.0, r.1))
]

splice-Distinct :
    (id : String) (es : List Entry) {e : Entry} {rest : List Entry}
    → splice id es ≡ some (e, rest)
    → Distinct es
    → All (Differs e) rest × Distinct rest
unfolding splice
splice-Distinct id [] h d = absurd (ground arith)
splice-Distinct id (x ∷ es) {e} {rest} h d = elim (splice-cases id x e es rest h) [
  | inl (hit, same) ↦ rw (hit, same) d
  | inr (others, found, same) ↦
      let r = splice-Distinct id es found d.1 in
      let a = splice-All (Differs x) id es found d.0 in
      rw same ((λ q. a.0 (sym q), r.0), (a.1, r.1))
]

module _ {O E : Type 0} where
  abbrev outstanding : Mailbox O E → List Entry
  outstanding m = held m.active ++ m.queue

  abbrev Waits : List (String × Promise O E) → Entry → Type 0
  Waits results e = lookup e.id results ≡ some unsettled

  -- The messages under way have distinct ids, and their promises are unsettled.
  pub record Tracked (m : Mailbox O E) : Type 0 where
    pub distinct : Distinct (outstanding m)
    pub unsettled_lem : All (Waits m.results) (outstanding m)

  insert_other :
      (results : List (String × Promise O E)) (e : Entry) (p : Promise O E) (es : List Entry)
      → All (Differs e) es
      → All (Waits results) es
      → All (Waits (insert e.id p results)) es
  insert_other results e p [] d w = tt
  insert_other results e p (f ∷ es) d w = (
    lookup-insert e.id f.id p results ∙ rw (str_eq_ne e.id f.id d.0) w.0,
    insert_other results e p es d.1 w.1,
  )

  insert_fresh :
      (results : List (String × Promise O E)) (e : Entry) (es : List Entry)
      → All (λ f. Differs f e) es
      → All (Waits results) es
      → All (Waits (insert e.id unsettled results)) es
  insert_fresh results e [] d w = tt
  insert_fresh results e (f ∷ es) d w = (
    lookup-insert e.id f.id unsettled results ∙ rw (str_eq_ne e.id f.id (λ s. d.0 (sym s))) w.0,
    insert_fresh results e es d.1 w.1,
  )

  -- Nothing is known yet under a fresh id, so every message under way has another.
  fresh-Differs :
      (results : List (String × Promise O E)) (e : Entry) (es : List Entry)
      → lookup e.id results ≡ none
      → All (Waits results) es
      → All (λ f. Differs f e) es
  fresh-Differs results e [] h w = tt
  fresh-Differs results e (f ∷ es) h w = (
    λ same. let c : lookup e.id results ≡ some unsettled = rw (← same) w.0 in cc,
    fresh-Differs results e es h w.1,
  )

  abbrev pub Settled : Promise O E → Type 0
  Settled unsettled = ⊥
  Settled (resolved o) = Unit {0}
  Settled (rejected e) = Unit {0}

  abbrev Keeps : List (String × Promise O E) → List (String × Promise O E) → Type 0
  Keeps before after =
      (id : String) (p : Promise O E)
      → Settled p
      → lookup id before ≡ some p
      → lookup id after ≡ some p

  Keeps-insert :
      (results : List (String × Promise O E)) (k : String) (q : Promise O E)
      → ((p : Promise O E) → Settled p → lookup k results ≢ some p)
      → Keeps results (insert k q results)
  Keeps-insert results k q unsettled_k id p s h = elim (Bool-cases (str_eq k id)) [
    | inl same ↦ absurd (unsettled_k p s (rw ((eq_iff k id).0 same) h))
    | inr other ↦ lookup-insert k id q results ∙ rw other h
  ]

  waits_unsettled :
      (results : List (String × Promise O E)) (k : String)
      → lookup k results ≡ some unsettled
      → (p : Promise O E) → Settled p
      → lookup k results ≢ some p
  waits_unsettled results k w unsettled s e = s
  waits_unsettled results k w (resolved o) s e = cc
  waits_unsettled results k w (rejected x) s e = cc

  abbrev Steps : Mailbox O E → Mailbox O E → Type 0
  Steps m m' = Tracked m' × Keeps m.results m'.results

  admit-Steps :
      (m : Mailbox O E) (id : String) (now : ℕ) (known : Option (Promise O E))
      → lookup id m.results ≡ known
      → Tracked m
      → Steps m (admit m id now known).0
  unfolding admit
  admit-Steps m id now (some p) e t = (t, λ _ _ _ h. h)
  admit-Steps m id now none e t =
      let fresh : Entry = record { id = id; sequence = m.next_sequence; enqueued_at = now } in
      let others = fresh-Differs m.results fresh (outstanding m) e t.unsettled_lem in
      let w = insert_fresh m.results fresh (outstanding m) others t.unsettled_lem in
      let grown = append_assoc (held m.active) m.queue (fresh ∷ []) in
      (
        record {
          distinct = rw grown at (Distinct-snoc (outstanding m) fresh others t.distinct);
          unsettled_lem = rw grown at (
              All-append (Waits (insert id unsettled m.results)) (outstanding m) (fresh ∷ []) w
                (lookup-insert id id unsettled m.results ∙ rw (str_eq_refl id) refl, tt));
        },
        Keeps-insert m.results id unsettled (λ p _ h. cc),
      )

  take_queued :
      (results : List (String × Promise O E)) (q : List Entry) (id : String) (p : Promise O E)
      (active : Option Run) {e : Entry} {rest : List Entry}
      → splice id q ≡ some (e, rest)
      → Distinct (held active ++ q)
      → All (Waits results) (held active ++ q)
      → Distinct (held active ++ rest)
        × All (Waits (insert e.id p results)) (held active ++ rest)
        × Waits results e
  take_queued results q id p none {e} {rest} h d w =
      let a = splice-All (Waits results) id q h w in
      let r = splice-Distinct id q h d in (r.1, insert_other results e p rest r.0 a.1, a.0)
  take_queued results q id p (some r) {e} {rest} h d w =
      let a = splice-All (Waits results) id q h w.1 in
      let b = splice-All (Differs r.entry) id q h d.0 in
      let c = splice-Distinct id q h d.1 in
      (
        (b.1, c.1),
        insert_other results e p (r.entry ∷ rest) (λ s. b.0 (sym s), c.0) (w.0, a.1),
        a.0,
      )

  remove_queued-Steps :
      (m : Mailbox O E) (reason : E) (found : Option (Entry × List Entry)) (id : String)
      → splice id m.queue ≡ found
      → Tracked m
      → Steps m (remove_queued m reason found).0
  unfolding remove_queued
  remove_queued-Steps m reason none id h t = (t, λ _ _ _ g. g)
  remove_queued-Steps m reason (some (e, rest)) id h t =
      let r =
        take_queued m.results m.queue id (rejected reason) m.active h t.distinct t.unsettled_lem in
      (
        record { distinct = r.0; unsettled_lem = r.1 },
        Keeps-insert m.results e.id (rejected reason) (waits_unsettled m.results e.id r.2),
      )

  start_next-Steps :
      (m : Mailbox O E) (now : ℕ) (q : List Entry)
      → m.queue ≡ q
      → m.active ≡ none
      → Tracked m
      → Steps m (start_next m now q).0
  unfolding start_next
  start_next-Steps m now [] e a t = (t, λ _ _ _ h. h)
  start_next-Steps m now (x ∷ q) e a t =
      let same : outstanding m ≡ x ∷ q = ap₂ (λ r es. held r ++ es) a e in
      (
        record { distinct = rw same at t.distinct; unsettled_lem = rw same at t.unsettled_lem },
        λ _ _ _ h. h,
      )

  drain-Steps : (m : Mailbox O E) (now : ℕ) → Core m → Tracked m → Steps m (drain m now).0
  unfolding drain
  drain-Steps m now v t = elim (Bool-cases m.running) [
    | inl busy ↦ simp busy (t, λ _ _ _ h. h)
    | inr free ↦ simp free (start_next-Steps m now m.queue refl (ground arith) t)
  ]

  drain_task-Steps :
      (m : Mailbox O E) (d now : ℕ) → Core m → Tracked m → Steps m (drain_task m d now).0
  unfolding drain_task
  drain_task-Steps m zero now v t = (t, λ _ _ _ h. h)
  drain_task-Steps m (suc d) now v t =
      drain-Steps (record m { drains = d }) now (ground arith)
        (record { distinct = t.distinct; unsettled_lem = t.unsettled_lem })

  finally_task-Steps :
      (m : Mailbox O E) (f : Bool) (now : ℕ)
      → m.finishing ≡ f
      → Core m
      → Tracked m
      → Steps m (finally_task m f now).0
  unfolding finally_task
  finally_task-Steps m false now e v t = (t, λ _ _ _ h. h)
  finally_task-Steps m true now e v t =
      drain-Steps (record m { finishing = false; running = false }) now (ground arith)
        (record { distinct = t.distinct; unsettled_lem = t.unsettled_lem })

  settle_active-Steps :
      (m : Mailbox O E) (r : Run) (p : Promise O E)
      → m.active ≡ some r
      → Tracked m
      → Steps m (settle_entry m r.entry p)
  settle_active-Steps m r p e t =
      let same : outstanding m ≡ r.entry ∷ m.queue = ap (λ a. held a ++ m.queue) e in
      let d : Distinct (r.entry ∷ m.queue) = rw same at t.distinct in
      let w : All (Waits m.results) (r.entry ∷ m.queue) = rw same at t.unsettled_lem in
      (
        record { distinct = d.1; unsettled_lem = insert_other m.results r.entry p m.queue d.0 w.1 },
        Keeps-insert m.results r.entry.id p (waits_unsettled m.results r.entry.id w.0),
      )

  finish-Steps :
      (m : Mailbox O E) (r : Option Run) (p : Promise O E) (now : ℕ)
      → m.active ≡ r
      → Tracked m
      → Steps m (finish m r p now).0
  unfolding finish
  finish-Steps m none p now e t = (t, λ _ _ _ h. h)
  finish-Steps m (some r) unsettled now e t = (t, λ _ _ _ h. h)
  finish-Steps m (some r) (resolved o) now e t = settle_active-Steps m r (resolved o) e t
  finish-Steps m (some r) (rejected x) now e t = settle_active-Steps m r (rejected x) e t

  settle_task-Steps : (m : Mailbox O E) (s : ℕ) → Tracked m → Steps m (settle_task m s).0
  unfolding settle_task
  settle_task-Steps m zero t = (t, λ _ _ _ h. h)
  settle_task-Steps m (suc s) t =
      (record { distinct = t.distinct; unsettled_lem = t.unsettled_lem }, λ _ _ _ h. h)

  turn-Steps : (m : Mailbox O E) (t : Turn O E) → Core m → Tracked m → Steps m (turn m t).0
  unfolding turn enqueue cancel
  turn-Steps m (enqueues id now) v t = admit-Steps m id now (lookup id m.results) refl t
  turn-Steps m (cancels id reason) v t = remove_queued-Steps m reason (splice id m.queue) id refl t
  turn-Steps m (drains_once now) v t = drain_task-Steps m m.drains now v t
  turn-Steps m (receiver_settles p now) v t = finish-Steps m m.active p now refl t
  turn-Steps m (finishes now) v t = finally_task-Steps m m.finishing now refl v t
  turn-Steps m settles v t = settle_task-Steps m m.settlements t

  run-Steps : (m : Mailbox O E) (ts : List (Turn O E)) → Inv m → Tracked m → Steps m (run m ts).0
  unfolding run
  run-Steps m [] v t = (t, λ _ _ _ h. h)
  run-Steps m (x ∷ ts) v t =
      let first = turn-Steps m x v.core t in
      let rest = run-Steps (turn m x).0 ts (turn-Inv m x v) first.0 in
      (rest.0, λ id p s h. rest.1 id p s (first.1 id p s h))

  new_mailbox-Tracked : Tracked new_mailbox
  unfolding new_mailbox
  new_mailbox-Tracked = record { distinct = tt; unsettled_lem = tt }

  -- Once a message has an outcome, no later turn changes it: a retry of the same id gets the cached
  -- promise, with the first outcome, whatever was delivered, cancelled or retried in between.
  pub outcome_final :
      (before after : List (Turn O E)) (id : String) (p : Promise O E) (now : ℕ)
      → Settled p
      → let m = (run new_mailbox before).0 in
        lookup id m.results ≡ some p
        → let m' = (run m after).0 in
          (lookup id m'.results ≡ some p)
          × (enqueue m' id now ≡ (m', observe (deduplicated id) ∷ []))
  unfolding enqueue admit
  outcome_final before after id p now s h =
      let m = (run new_mailbox before).0 in
      let v = run_mailbox-Inv before in
      let t = (run-Steps new_mailbox before new_mailbox-Inv new_mailbox-Tracked).0 in
      let kept = (run-Steps m after v t).1 id p s h in (kept, rw kept)
