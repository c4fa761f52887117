-- ===== src/Adapter/Supervision/Shown.antt =====
-- src/session-runtime-adapter.ts: what the supervised work shows, and that it can be cancelled.
use cantelop_sdk.Prelude.{
  ℕ, ◌≤◌, ◌≡◌, refl, subst, Bool, true, false, Bool-cases, Option-cases, inl, inr, String, Option,
  none, some, is_some, any, ◌&&◌, ◌⊎◌, ◌||◌, List, [], ◌∷◌, ◌++◌, All, All-map, ltb, leb, ◌==◌,
  arith, Thrown,
}
use cantelop_sdk.Activity.{ActiveActivity}
use cantelop_sdk.Activity.Slot.{
  InMemoryActivity, activities, targets, abort_first, abort_activity, abort_flushing, abort_current,
  abort_all, snapshot as activity_snapshot, cancel as cancel_activity,
}
use cantelop_sdk.Activity.Selection.{snapshot_lem}
use cantelop_sdk.Adapter.Intake.{Runtime}
use cantelop_sdk.Adapter.Operations.{HarnessOperation, Operations, abort_once, abort_with}
use cantelop_sdk.Adapter.Supervision.{
  Work, of_activity, of_operation, sooner, earliest_operation, choose, abort_matching, behind,
  snapshot, cancel, cancel_found,
}

module _ {M : Type 0} where
  abbrev EachOperation : (HarnessOperation M → Type 0) → Operations M → Type 0
  EachOperation P [] = Unit
  EachOperation P ((key, op) ∷ ops) = P op × EachOperation P ops

  -- The operation that the loop finds has the earliest deadline, and is one that it has seen.
  earliest_operation-least :
      (ops : Operations M) (pending op : HarnessOperation M)
      → earliest_operation ops (some pending) ≡ some op
      → EachOperation (λ o. op.deadline ≤ o.deadline) ops × (op.deadline ≤ pending.deadline)
  unfolding earliest_operation sooner
  earliest_operation-least [] pending op h = (tt, ground arith)
  earliest_operation-least ((key, o) ∷ ops) pending op h =
      ground (arith, earliest_operation-least ops (sooner o (some pending)) op h)

  earliest_operation-among :
      (P : HarnessOperation M → Type 0) (ops : Operations M) (pending op : HarnessOperation M)
      → earliest_operation ops (some pending) ≡ some op
      → EachOperation P ops
      → P pending
      → P op
  unfolding earliest_operation sooner
  earliest_operation-among P [] pending op h each p = subst P (ground arith) p
  earliest_operation-among P ((key, o) ∷ ops) pending op h each p =
      elim (Bool-cases (ltb o.deadline pending.deadline)) [
        | inl less ↦ earliest_operation-among P ops o op (rw less at h) each.1 each.0
        | inr more ↦ earliest_operation-among P ops pending op (rw more at h) each.1 p
      ]

  earliest_operation-some :
      (ops : Operations M) (pending : HarnessOperation M)
      → is_some (earliest_operation ops (some pending)) ≡ true
  unfolding earliest_operation
  earliest_operation-some [] pending = refl
  earliest_operation-some ((key, o) ∷ ops) pending =
      earliest_operation-some ops (sooner o (some pending))

  EachOperation-map :
      (P Q : HarnessOperation M → Type 0)
      → ((o : HarnessOperation M) → P o → Q o)
      → (ops : Operations M) → EachOperation P ops
      → EachOperation Q ops
  EachOperation-map P Q f [] each = tt
  EachOperation-map P Q f ((key, o) ∷ ops) each = (f o each.0, EachOperation-map P Q f ops each.1)

module _ {M : Type 0} (P : Work → Type 0) where
  -- What the loop finds among the operations.
  EarliestOperation : Operations M → Option (HarnessOperation M) → Type 0
  EarliestOperation ops none = ops ≡ []
  EarliestOperation ops (some op) =
      EachOperation (λ o. op.deadline ≤ o.deadline) ops
      × (EachOperation (λ o. P (of_operation o)) ops → P (of_operation op))

  earliest_operation-Earliest :
      (ops : Operations M) → EarliestOperation ops (earliest_operation ops none)
  unfolding EarliestOperation earliest_operation sooner
  earliest_operation-Earliest [] = refl
  earliest_operation-Earliest ((key, o) ∷ ops) =
      elim (Option-cases (earliest_operation ops (some o))) [
        | inl missing ↦ let found = earliest_operation-some ops o in cc
        | inr (op, found) ↦
            let (least, before) = earliest_operation-least ops o op found in
            rw found (
              (before, least),
              λ each.
                  earliest_operation-among (λ x. P (of_operation x)) ops o op found each.1 each.0,
            )
      ]

  -- What the slot shows among its activities.
  EarliestActivity : InMemoryActivity M → Option (ActiveActivity M) → Type 0
  EarliestActivity s none = activities s ≡ []
  EarliestActivity s (some a) =
      All (λ b. a.deadline ≤ b.deadline) (activities s)
      × (All (λ b. P (of_activity b)) (activities s) → P (of_activity a))

  activity_snapshot-Earliest : (s : InMemoryActivity M) → EarliestActivity s (activity_snapshot s)
  unfolding EarliestActivity
  activity_snapshot-Earliest s = elim (Option-cases (activity_snapshot s)) [
    | inl missing ↦ rw missing ((snapshot_lem s).0 missing)
    | inr (a, found) ↦
        rw found
          (((snapshot_lem s).1 a found).0, ((snapshot_lem s).1 a found).1 (λ b. P (of_activity b)))
  ]

  -- If nothing is shown there is no operation and no activity. Shown work has what all of them have,
  -- and none of them has an earlier deadline.
  pub Shown : Operations M → InMemoryActivity M → Option Work → Type 0
  Shown ops s none = (ops ≡ []) × (activities s ≡ [])
  Shown ops s (some w) =
      EachOperation (λ o. w.deadline ≤ o.deadline) ops
      × (All (λ a. w.deadline ≤ a.deadline) (activities s))
      × (EachOperation (λ o. P (of_operation o)) ops
          → All (λ a. P (of_activity a)) (activities s)
          → P w)

  choose-Shown :
      (ops : Operations M) (s : InMemoryActivity M) (pending : Option (HarnessOperation M))
      (background : Option (ActiveActivity M))
      → EarliestOperation ops pending
      → EarliestActivity s background
      → Shown ops s (choose pending background)
  unfolding EarliestOperation EarliestActivity Shown choose
  choose-Shown ops s none none o a = (o, a)
  choose-Shown ops s none (some b) o a = (rw o tt, a.0, λ each all. a.1 all)
  choose-Shown ops s (some p) none o a = (o.0, rw a tt, λ each all. o.1 each)
  choose-Shown ops s (some p) (some b) o a = elim (Bool-cases (leb b.deadline p.deadline)) [
    | inl earlier ↦ rw earlier (
      EachOperation-map _ _ (λ x before. ground (arith, before, earlier)) ops o.0,
      a.0,
      λ each all. a.1 all,
    )
    | inr later ↦ rw later (
      o.0,
      All-map (λ x. b.deadline ≤ x.deadline) _ (λ x before. ground (arith, before, later))
          (activities s) a.0,
      λ each all. o.1 each,
    )
  ]

-- The shown work is that of an operation or an activity of the runtime (what holds of all of them
-- holds of it), no operation and no activity has an earlier deadline, and nothing is shown only when
-- the runtime has neither.
pub snapshot-Shown :
    {M V : Type 0} (P : Work → Type 0) (r : Runtime M V)
    → Shown P r.harness_operations r.activity (snapshot r)
unfolding snapshot
snapshot-Shown P r =
    choose-Shown P r.harness_operations r.activity _ _
      (earliest_operation-Earliest P r.harness_operations) (activity_snapshot-Earliest P r.activity)

or_right : (a b : Bool) → b ≡ true → (a || b) ≡ true
or_right true b h = refl
or_right false b h = h

-- Work of an id whose controller is aborted.
abbrev pub is_stopped : {M : Type 0} → ℕ → Operations M → InMemoryActivity M → Bool
is_stopped {M} id ops s =
    any (λ (entry : String × HarnessOperation M). entry.1.id == id && is_some entry.1.aborted) ops
    || any (λ (a : ActiveActivity M). a.id == id && a.aborted) (activities s)

module _ {M : Type 0} where
  abbrev stopped_operation : ℕ → String × HarnessOperation M → Bool
  stopped_operation id entry = entry.1.id == id && is_some entry.1.aborted

  abbrev stopped_activity : ℕ → ActiveActivity M → Bool
  stopped_activity id a = a.id == id && a.aborted

  module _ (reason : Thrown) (now : ℕ) where
    behind-found :
        (id : ℕ) (entry : String × HarnessOperation M) (ops : Operations M)
        → is_some (abort_matching id reason now ops) ≡ true
        → is_some (abort_matching id reason now (entry ∷ ops)) ≡ true
    unfolding abort_matching behind
    behind-found id (key, o) ops found = elim (Option-cases (abort_matching id reason now ops)) [
      | inl missing ↦ absurd (ground arith)
      | inr (left, e) ↦ rw e (ground arith)
    ]

    abort_matching-found :
        (ops : Operations M)
        → EachOperation (λ o. is_some (abort_matching o.id reason now ops) ≡ true) ops
    unfolding abort_matching behind
    abort_matching-found [] = tt
    abort_matching-found ((key, o) ∷ ops) = (
      ground arith,
      EachOperation-map _ _ (λ x found. behind-found x.id (key, o) ops found) ops
          (abort_matching-found ops),
    )

    abort_once-aborted :
        (op : HarnessOperation M) (was : Option Thrown)
        → op.aborted ≡ was
        → ((abort_once reason now op was).id ≡ op.id)
          × (is_some (abort_once reason now op was).aborted ≡ true)
    unfolding abort_once
    abort_once-aborted op none h = (refl, refl)
    abort_once-aborted op (some r) h = (refl, rw h refl)

    abort_matching-stopped :
        (id : ℕ) (ops left : Operations M)
        → abort_matching id reason now ops ≡ some left
        → any (stopped_operation id) left ≡ true
    unfolding abort_matching behind abort_with
    abort_matching-stopped id [] left h = cc h
    abort_matching-stopped id ((key, o) ∷ ops) left h = elim (Bool-cases (o.id == id)) [
      | inl hit ↦
          let same : (key, abort_with reason now o) ∷ ops ≡ left = ground arith in
          let done = abort_once-aborted o o.aborted refl in
          subst (λ (l : Operations M). any (stopped_operation id) l ≡ true) same
            (rw (done.1, done.0, hit) refl)
      | inr miss ↦ elim (Option-cases (abort_matching id reason now ops)) [
        | inl missing ↦ absurd (ground arith)
        | inr (rest, found) ↦
            let same : (key, o) ∷ rest ≡ left = ground arith in
            let stopped = abort_matching-stopped id ops rest found in
            subst (λ (l : Operations M). any (stopped_operation id) l ≡ true) same
              (rw stopped (ground arith))
      ]
    ]

  abort_first-aborted :
      (flushing : Bool) (now : ℕ) (a : ActiveActivity M) (at : Option ℕ)
      → ((abort_first flushing now a at).0.id ≡ a.id)
        × ((abort_first flushing now a at).0.aborted ≡ true)
  unfolding abort_first
  abort_first-aborted flushing now a none = (refl, refl)
  abort_first-aborted flushing now a (some t) = (refl, refl)

  abort_flushing-stopped :
      (id now : ℕ) (as' : List (ActiveActivity M))
      → any (λ (a : ActiveActivity M). a.id == id) as' ≡ true
      → any (stopped_activity id) (abort_flushing (λ a. a.id == id) now as').0 ≡ true
  unfolding abort_flushing abort_activity
  abort_flushing-stopped id now [] h = cc h
  abort_flushing-stopped id now (a ∷ as') h =
      let done = abort_first-aborted true now a a.cancelled_at in
      elim (Bool-cases (a.id == id)) [
        | inl hit ↦ rw (hit, done.1, done.0, hit) refl
        | inr miss ↦
            let later = abort_flushing-stopped id now as' (rw miss at h) in
            rw (miss, later) (ground arith)
      ]

  abort_all-stopped :
      (s : InMemoryActivity M) (id now : ℕ) (current : Option (ActiveActivity M))
      → s.current ≡ current
      → ((elim current [ none ↦ false | some a ↦ a.id == id ])
          || any (λ (a : ActiveActivity M). a.id == id) s.flushing)
        ≡ true
      → let s' = (abort_current (λ a. a.id == id) now s current).0 in
        any (stopped_activity id) (
          (elim s'.current [ none ↦ [] | some a ↦ a ∷ [] ])
          ++ (abort_flushing (λ a. a.id == id) now s'.flushing).0)
        ≡ true
  unfolding abort_current abort_activity
  abort_all-stopped s id now none e h = rw e (abort_flushing-stopped id now s.flushing h)
  abort_all-stopped s id now (some a) e h =
      let done = abort_first-aborted false now a a.cancelled_at in
      elim (Bool-cases (a.id == id)) [
        | inl hit ↦ rw (hit, done.1, done.0, hit) refl
        | inr miss ↦
            let later = abort_flushing-stopped id now s.flushing (rw miss at h) in
            rw (miss, e, miss, later) refl
      ]

  cancel-stopped :
      (s : InMemoryActivity M) (id now : ℕ)
      → targets (λ (a : ActiveActivity M). a.id == id) s ≡ true
      → any (stopped_activity id) (activities (cancel_activity s (some id) now).0) ≡ true
  unfolding cancel_activity abort_all
  cancel-stopped s id now h = abort_all-stopped s id now s.current refl h

  -- An activity of the runtime is one that a request of its id finds.
  any-found :
      (as' : List (ActiveActivity M))
      → All (λ a. any (λ (b : ActiveActivity M). b.id == a.id) as' ≡ true) as'
  any-found [] = tt
  any-found (a ∷ as') = (
    ground arith,
    All-map (λ x. any (λ (b : ActiveActivity M). b.id == x.id) as' ≡ true) _
        (λ x found. ground (arith, found)) as' (any-found as'),
  )

  current_found :
      (current : Option (ActiveActivity M)) (flushing : List (ActiveActivity M))
      → All
          (λ a.
            ((elim current [ none ↦ false | some c ↦ c.id == a.id ])
              || any (λ (b : ActiveActivity M). b.id == a.id) flushing)
            ≡ true)
          ((elim current [ none ↦ [] | some c ↦ c ∷ [] ]) ++ flushing)
  current_found none flushing = any-found flushing
  current_found (some c) flushing =
      (ground arith, All-map _ _ (λ a found. ground (arith, found)) flushing (any-found flushing))

  targets-found :
      (s : InMemoryActivity M)
      → All (λ a. targets (λ (b : ActiveActivity M). b.id == a.id) s ≡ true) (activities s)
  targets-found s = current_found s.current s.flushing

module _ {M V : Type 0} (r : Runtime M V) (reason : Thrown) (now : ℕ) where
  -- A request to cancel the work finds it, and stops work of its id.
  abbrev IsCancelled : Runtime M V × Bool → Work → Type 0
  IsCancelled (r', requested) w =
      (requested ≡ true) × (is_stopped w.id r'.harness_operations r'.activity ≡ true)

  cancel_found-stopped :
      (w : Work) (found : Option (Operations M))
      → abort_matching w.id reason now r.harness_operations ≡ found
      → (is_some found ≡ true)
        ⊎ (targets (λ (a : ActiveActivity M). a.id == w.id) r.activity ≡ true)
      → IsCancelled (cancel_found r now w.id found) w
  unfolding cancel_found cancel_activity
  cancel_found-stopped w (some ops) e h =
      (refl, rw (abort_matching-stopped reason now w.id r.harness_operations ops e) refl)
  cancel_found-stopped w none e (inl h) = cc h
  cancel_found-stopped w none e (inr h) = (h, or_right _ _ (cancel-stopped r.activity w.id now h))

-- A request to cancel the work that is shown is answered with true, and behind it an operation or an
-- activity of the id shown has its controller aborted.
pub cancel_shown :
    {M V : Type 0} (r : Runtime M V) (reason : Thrown) (now : ℕ) (w : Work)
    → snapshot r ≡ some w
    → let (r', requested) = cancel r reason (some w.id) now in
      (requested ≡ true) × (is_stopped w.id r'.harness_operations r'.activity ≡ true)
unfolding cancel Shown
cancel_shown r reason now w h =
    let found = λ (v : Work).
      cancel_found-stopped r reason now v (abort_matching v.id reason now r.harness_operations)
        refl in
    let shown =
      rw h at
        (snapshot-Shown (λ v. IsCancelled r reason now (cancel r reason (some v.id) now) v) r) in
    shown.2
      (EachOperation-map _ _ (λ o is_there. found (of_operation o) (inl is_there))
        r.harness_operations (abort_matching-found reason now r.harness_operations))
      (All-map _ _ (λ a is_there. found (of_activity a) (inr is_there)) (activities r.activity)
        (targets-found r.activity))
