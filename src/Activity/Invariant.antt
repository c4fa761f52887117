-- ===== src/Activity/Invariant.antt =====
-- src/activity.ts: what holds of the activity slot between two turns.
use cantelop_sdk.Prelude.{
  ℕ, zero, suc, ◌≤◌, ◌<◌, ◌≡◌, refl, ◌⊎◌, inl, inr, String, Bool, true, false, Option, none, some,
  List, [], ◌∷◌, length, All, arith, is_some, Bool-cases, Option-cases,
}
use cantelop_sdk.Activity.{max_queued, max_followup_bytes, ActiveActivity}
use cantelop_sdk.Activity.Options.{Options}
use cantelop_sdk.Activity.Slot.{
  InMemoryActivity, QueuedActivity, drain, splice_priority, splice_found, splice_next, abort_all,
  launch, launch_next, is_active, abort_first, abort_activity, abort_current, abort_flushing,
}
use cantelop_sdk.Activity.Turns.{drain_task}

abbrev pub AllOf {ℓ} : {A : Type ℓ} → (A → Type 0) → Option A → Type 0
AllOf P none = Unit
AllOf P (some a) = P a

length-splice_priority :
    (es : List QueuedActivity) (e : QueuedActivity) (rest : List QueuedActivity)
    → splice_priority es ≡ some (e, rest)
    → length es ≡ suc (length rest)
unfolding splice_priority
length-splice_priority [] e rest h = cc
length-splice_priority (x ∷ es) e rest h = elim (Option-cases (splice_priority es)) [
  | inl missing ↦ ground arith
  | inr ((f, others), found) ↦ ground (arith, length-splice_priority es f others found)
]

length-splice_found :
    (found : Option (QueuedActivity × List QueuedActivity)) (es : List QueuedActivity)
    (e : QueuedActivity) (rest : List QueuedActivity)
    → splice_priority es ≡ found
    → splice_found found es ≡ some (e, rest)
    → length es ≡ suc (length rest)
unfolding splice_found
length-splice_found (some (f, others)) es e rest k h =
    ground (arith, length-splice_priority es f others k)
length-splice_found none [] e rest k h = ground arith
length-splice_found none (x ∷ es) e rest k h = ground arith

splice_found-none :
    (found : Option (QueuedActivity × List QueuedActivity)) (es : List QueuedActivity)
    → splice_found found es ≡ none
    → es ≡ []
unfolding splice_found
splice_found-none (some f) es h = ground arith
splice_found-none none [] h = refl
splice_found-none none (x ∷ es) h = ground arith

module _ {M : Type 0} where
  -- An activity is cancelled exactly when its signal is aborted, and its buffers are bounded.
  pub record Sound (a : ActiveActivity M) : Type 0 where
    pub dated : a.aborted ≡ is_some a.cancelled_at
    pub steering_bounded : length a.steering ≤ max_queued
    pub messages_bounded : length a.followups.messages ≤ max_queued
    pub bytes_bounded : a.followups.bytes ≤ max_followup_bytes

  pub record Inv (s : InMemoryActivity M) : Type 0 where
    pub current_sound : AllOf Sound s.current
    pub flushing_sound : All Sound s.flushing
    pub queue_bounded : length s.queued ≤ max_queued
    -- Queued work waits behind an activity or for a drain that is owed.
    pub woken : (s.queued ≡ []) ⊎ ((is_some s.current ≡ true) ⊎ (0 < s.drains))

  pub launch-Inv :
      (s : InMemoryActivity M) (id : String) (timeout : ℕ) (o : Options) (p : Option ℕ) (now : ℕ)
      → length s.queued ≤ max_queued
      → All Sound s.flushing
      → Inv (launch s id timeout o p now).0
  unfolding launch
  launch-Inv s id timeout o p now b f = ground arith

  launch_next-Inv :
      (s : InMemoryActivity M) (now : ℕ) (found : Option (QueuedActivity × List QueuedActivity))
      → splice_next s.queued ≡ found
      → AllOf Sound s.current
      → All Sound s.flushing
      → length s.queued ≤ max_queued
      → Inv (launch_next s now found).0
  unfolding launch_next splice_next
  launch_next-Inv s now none e c f b = record {
    current_sound = c;
    flushing_sound = f;
    queue_bounded = b;
    woken = inl (splice_found-none (splice_priority s.queued) s.queued e);
  }
  launch_next-Inv s now (some (q, rest)) e c f b =
      launch-Inv (record s { queued = rest }) q.message_id q.timeout q.options (some q.completion)
        now (ground (arith, length-splice_found (splice_priority s.queued) s.queued q rest refl e))
        f

  pub drain-Inv :
      (s : InMemoryActivity M) (now : ℕ)
      → AllOf Sound s.current
      → All Sound s.flushing
      → length s.queued ≤ max_queued
      → Inv (drain s now).0
  unfolding drain
  drain-Inv s now c f b = elim (Bool-cases (is_active s)) [
    | inl busy ↦ simp busy (record {
      current_sound = c;
      flushing_sound = f;
      queue_bounded = b;
      woken = inr (inl busy);
    })
    | inr free ↦ simp free (launch_next-Inv s now (splice_next s.queued) refl c f b)
  ]

  pub drain_task-Inv : (s : InMemoryActivity M) (d now : ℕ) → Inv s → Inv (drain_task s d now).0
  unfolding drain_task
  drain_task-Inv s zero now v = v
  drain_task-Inv s (suc d) now v =
      drain-Inv (record s { drains = d }) now v.current_sound v.flushing_sound v.queue_bounded

  abort_first-Sound :
      (f : Bool) (now : ℕ) (a : ActiveActivity M) (at : Option ℕ)
      → a.cancelled_at ≡ at
      → Sound a
      → Sound (abort_first f now a at).0
  unfolding abort_first
  abort_first-Sound f now a (some at) e v = ground arith
  abort_first-Sound f now a none e v = ground arith

  pub abort_current-Inv :
      (test : ActiveActivity M → Bool) (now : ℕ) (s : InMemoryActivity M)
      (c : Option (ActiveActivity M))
      → s.current ≡ c
      → Inv s
      → Inv (abort_current test now s c).0
  unfolding abort_current abort_activity
  abort_current-Inv test now s none e v = v
  abort_current-Inv test now s (some a) e v =
      ground (arith, abort_first-Sound false now a a.cancelled_at refl)

  abort_flushing-Sound :
      (test : ActiveActivity M → Bool) (now : ℕ) (as' : List (ActiveActivity M))
      → All Sound as'
      → All Sound (abort_flushing test now as').0
  unfolding abort_flushing abort_activity
  abort_flushing-Sound test now [] v = tt
  abort_flushing-Sound test now (a ∷ as') (v, vs) = ground (
    arith,
    abort_first-Sound true now a a.cancelled_at refl v,
    abort_flushing-Sound test now as' vs,
  )

  pub abort_all-Inv :
      (test : ActiveActivity M → Bool) (now : ℕ) (s : InMemoryActivity M)
      → Inv s
      → Inv (abort_all test now s).0
  unfolding abort_all
  abort_all-Inv test now s v =
      let first = abort_current test now s s.current in
      let v' = abort_current-Inv test now s s.current refl v in
      ground (arith, abort_flushing-Sound test now first.0.flushing v'.flushing_sound)
