-- ===== src/Activity/Selection.antt =====
-- src/activity.ts: which queued work `drain` takes, and which activity `snapshot` shows.
use cantelop_sdk.Prelude.{
  ℕ, ◌≤◌, ◌≡◌, refl, subst, ◌⊎◌, inl, inr, true, false, Option, none, some, List, [], ◌∷◌, ◌++◌,
  All, arith, is_some, leb, Option-cases, Bool-cases,
}
use cantelop_sdk.Activity.{ActiveActivity}
use cantelop_sdk.Activity.Options.{is_priority}
use cantelop_sdk.Activity.Slot.{
  InMemoryActivity, QueuedActivity, splice_priority, splice_found, splice_next, drain, launch_next,
  launch, earliest, snapshot, activities,
}
use cantelop_sdk.Activity.Invariant.{AllOf}

-- No work of the list has priority.
abbrev pub Ordinary : List QueuedActivity → Type 0
Ordinary = All λ e. is_priority e.options.priority ≡ false

-- `e` is the first work with priority, or the head where none has; `rest` are the others, in order.
pub record Picked (es : List QueuedActivity) (e : QueuedActivity) (rest : List QueuedActivity)
    : Type 0 where
  pub front : List QueuedActivity
  pub back : List QueuedActivity
  pub taken : es ≡ front ++ e ∷ back
  pub left : rest ≡ front ++ back
  pub ordinary_front : Ordinary front
  pub first : (is_priority e.options.priority ≡ true) ⊎ ((front ≡ []) × Ordinary es)

splice_priority-none : (es : List QueuedActivity) → splice_priority es ≡ none → Ordinary es
unfolding splice_priority
splice_priority-none [] h = tt
splice_priority-none (x ∷ es) h = elim (Option-cases (splice_priority es)) [
  | inl missing ↦ ground (arith, splice_priority-none es missing)
  | inr ((f, others), found) ↦ ground arith
]

-- What `splice_priority` finds.
record Prioritized (es : List QueuedActivity) (e : QueuedActivity) (rest : List QueuedActivity)
    : Type 0 where
  front : List QueuedActivity
  back : List QueuedActivity
  taken : es ≡ front ++ e ∷ back
  left : rest ≡ front ++ back
  ordinary_front : Ordinary front
  first : is_priority e.options.priority ≡ true

splice_priority-some :
    (es : List QueuedActivity) (e : QueuedActivity) (rest : List QueuedActivity)
    → splice_priority es ≡ some (e, rest)
    → Prioritized es e rest
unfolding splice_priority
splice_priority-some [] e rest h = cc
splice_priority-some (x ∷ es) e rest h = elim (Bool-cases (is_priority x.options.priority)) [
  | inl has ↦ record {
    front = [];
    back = es;
    taken = ground arith;
    left = ground arith;
    ordinary_front = tt;
    first = ground arith;
  }
  | inr ordinary ↦ elim (Option-cases (splice_priority es)) [
    | inl missing ↦ ground arith
    | inr ((f, others), found) ↦
        let p = splice_priority-some es f others found in
        record {
          front = x ∷ p.front;
          back = p.back;
          taken = ground (arith, p.taken);
          left = ground (arith, p.left);
          ordinary_front = (ordinary, p.ordinary_front);
          first = ground (arith, p.first);
        }
  ]
]

splice_found-Picked :
    (found : Option (QueuedActivity × List QueuedActivity)) (es : List QueuedActivity)
    (e : QueuedActivity) (rest : List QueuedActivity)
    → splice_priority es ≡ found
    → splice_found found es ≡ some (e, rest)
    → Picked es e rest
unfolding splice_found
splice_found-Picked (some (f, others)) es e rest k h =
    let p = splice_priority-some es f others k in
    record {
      front = p.front;
      back = p.back;
      taken = ground (arith, p.taken);
      left = ground (arith, p.left);
      ordinary_front = p.ordinary_front;
      first = inl (ground (arith, p.first));
    }
splice_found-Picked none [] e rest k h = cc
splice_found-Picked none (x ∷ es) e rest k h = record {
  front = [];
  back = es;
  taken = ground arith;
  left = ground arith;
  ordinary_front = tt;
  first = inr (refl, splice_priority-none (x ∷ es) k);
}

earliest-none : {M : Type 0} (as' : List (ActiveActivity M)) → earliest as' ≡ none → as' ≡ []
unfolding earliest
earliest-none [] h = refl
earliest-none (x ∷ as') h = elim (Option-cases (earliest as')) [
  | inl missing ↦ ground arith
  | inr (b, found) ↦ ground arith
]

All-later :
    {M : Type 0} (m n : ℕ) (as' : List (ActiveActivity M))
    → m ≤ n
    → All (λ b. n ≤ b.deadline) as'
    → All (λ b. m ≤ b.deadline) as'
All-later m n [] h v = tt
All-later m n (a ∷ as') h (v, vs) = (omega arith, All-later m n as' h vs)

earliest-least :
    {M : Type 0} (as' : List (ActiveActivity M)) (a : ActiveActivity M)
    → earliest as' ≡ some a
    → All (λ b. a.deadline ≤ b.deadline) as'
unfolding earliest
earliest-least [] a h = tt
earliest-least {M} (x ∷ as') a h = elim (Option-cases (earliest as')) [
  | inl missing ↦ ground (arith, earliest-none as' missing)
  | inr (b, found) ↦ elim (Bool-cases (leb x.deadline b.deadline)) [
    | inl sooner ↦
        let same : x ≡ a = ground arith in
        subst (λ (y : ActiveActivity M). All (λ c. y.deadline ≤ c.deadline) (x ∷ as')) same
          (
            omega arith,
            All-later x.deadline b.deadline as' (ground arith) (earliest-least as' b found),
          )
    | inr later ↦
        let same : b ≡ a = ground arith in
        subst (λ (y : ActiveActivity M). All (λ c. y.deadline ≤ c.deadline) (x ∷ as')) same
          (ground arith, earliest-least as' b found)
  ]
]

earliest-among :
    {M : Type 0} (P : ActiveActivity M → Type 0) (as' : List (ActiveActivity M))
    (a : ActiveActivity M)
    → earliest as' ≡ some a
    → All P as'
    → P a
unfolding earliest
earliest-among P [] a h v = cc
earliest-among P (x ∷ as') a h (v, vs) = elim (Option-cases (earliest as')) [
  | inl missing ↦ subst P (ground arith) v
  | inr (b, found) ↦ elim (Bool-cases (leb x.deadline b.deadline)) [
    | inl sooner ↦ subst P (ground arith) v
    | inr later ↦ subst P (ground arith) (earliest-among P as' b found vs)
  ]
]

-- `snapshot` shows an activity of the slot or of those flushing, none of which has an earlier
-- deadline, and shows nothing only when there is none.
pub snapshot_lem :
    {M : Type 0} (s : InMemoryActivity M)
    → ((snapshot s ≡ none) → activities s ≡ [])
      × ((a : ActiveActivity M)
          → snapshot s ≡ some a
          → All (λ b. a.deadline ≤ b.deadline) (activities s)
            × ((P : ActiveActivity M → Type 0) → All P (activities s) → P a))
unfolding snapshot
snapshot_lem s = (
  earliest-none (activities s),
  λ a h. (earliest-least (activities s) a h, λ P v. earliest-among P (activities s) a h v),
)

launch_next-lem :
    {M : Type 0} (s : InMemoryActivity M) (now : ℕ)
    (found : Option (QueuedActivity × List QueuedActivity)) (e : QueuedActivity)
    (rest : List QueuedActivity)
    → found ≡ some (e, rest)
    → ((launch_next s now found).0.queued ≡ rest)
      × (is_some (launch_next s now found).0.current ≡ true)
      × AllOf
          (λ a. (a.completion ≡ some e.completion) × (a.message_id ≡ e.message_id))
          (launch_next s now found).0.current
unfolding launch_next launch
launch_next-lem s now none e rest h = cc
launch_next-lem s now (some (f, others)) e rest h = ground arith

-- When the slot is free, `drain` launches the first queued work with priority, or the head of the
-- queue where none has priority, and leaves the others in their order; it leaves the slot free
-- only when nothing is queued.
pub drain-Picked :
    {M : Type 0} (s : InMemoryActivity M) (now : ℕ) (e : QueuedActivity)
    (rest : List QueuedActivity)
    → s.current ≡ none
    → splice_next s.queued ≡ some (e, rest)
    → Picked s.queued e rest
      × ((drain s now).0.queued ≡ rest)
      × (is_some (drain s now).0.current ≡ true)
      × AllOf
          (λ a. (a.completion ≡ some e.completion) × (a.message_id ≡ e.message_id))
          (drain s now).0.current
unfolding drain splice_next
drain-Picked s now e rest free h =
    let next = launch_next-lem s now (splice_next s.queued) e rest h in
    (
      splice_found-Picked (splice_priority s.queued) s.queued e rest refl h,
      simp (free) next.0,
      simp (free) next.1,
      simp (free) next.2,
    )
