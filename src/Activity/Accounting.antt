-- ===== src/Activity/Accounting.antt =====
-- src/activity.ts: every completion promise of queued work is settled exactly once, or still owed.
use cantelop_sdk.Prelude.{
  Bool-cases, inl, inr, ℕ, zero, suc, ◌+◌, ◌≡◌, refl, subst, sym, inl, inr, String, Bool, true,
  false, ◌&&◌, ◌||◌, Option, none, some, List, [], ◌∷◌, ◌++◌, length, sum_by, sum_by-append,
  append-nil, append_assoc, arith, is_some, one_if, ltb, ◌==◌, if◌then◌else◌, Option-cases, Result,
  ok, err, str_eq,
}
use cantelop_sdk.Activity.{
  Effect, reports, state_changed, resolves, rejects, calls_on_cancel, calls_on_steer, sends, push,
  ActiveActivity,
}
use cantelop_sdk.Activity.Options.{Options, validate, validate_timeout}
use cantelop_sdk.Activity.Slot.{
  InMemoryActivity, QueuedActivity, new_activity, start, queue, start_valid, queue_valid, targets,
  drain, steer, cancel, splice_priority, splice_found, splice_next, cancel_message, extend,
  abort_all, is_settled, launch, launch_next, steer_current, abort_first, abort_activity,
  abort_current, abort_flushing, remove_queued, extend_current,
}
use cantelop_sdk.Activity.Turns.{
  Turn, starts, queues, steers, cancels, cancels_message, extends, drains_once, begins, pushes,
  works_end, steering_settles, late_steering_settles, steer_one, steering_flushing, hook_settles,
  timer_fires, releases, flush_continues, begin_current, end_current, push_current,
  steering_current, hook_task, timer_current, release_current, flush_one, flush_list, drain_task,
  or_same, or_self, turn, run,
}
use cantelop_sdk.Activity.Turns.{settle_completion}

-- How often effects settle promise `p`.
settles : {M : Type 0} → ℕ → Effect M → ℕ
settles p (reports _ _ _) = 0
settles p state_changed = 0
settles p (resolves q) = one_if (q == p)
settles p (rejects q) = one_if (q == p)
settles p (calls_on_cancel _) = 0
settles p (calls_on_steer _ _) = 0
settles p (sends _) = 0

owed_by : ℕ → Option ℕ → ℕ
owed_by p none = 0
owed_by p (some q) = one_if (q == p)

abbrev owed_queued : ℕ → List QueuedActivity → ℕ
owed_queued p = sum_by λ e. one_if (e.completion == p)

owed_sum-splice_priority :
    (p : ℕ) (es : List QueuedActivity) (e : QueuedActivity) (rest : List QueuedActivity)
    → splice_priority es ≡ some (e, rest)
    → owed_queued p es ≡ one_if (e.completion == p) + owed_queued p rest
unfolding splice_priority
owed_sum-splice_priority p [] e rest h = cc
owed_sum-splice_priority p (x ∷ es) e rest h = elim (Option-cases (splice_priority es)) [
  | inl missing ↦ ground arith
  | inr ((f, others), found) ↦ ground (arith, owed_sum-splice_priority p es f others found)
]

owed_sum-splice_found :
    (p : ℕ) (found : Option (QueuedActivity × List QueuedActivity)) (es : List QueuedActivity)
    (e : QueuedActivity) (rest : List QueuedActivity)
    → splice_priority es ≡ found
    → splice_found found es ≡ some (e, rest)
    → owed_queued p es ≡ one_if (e.completion == p) + owed_queued p rest
unfolding splice_found
owed_sum-splice_found p (some (f, others)) es e rest k h =
    ground (arith, owed_sum-splice_priority p es f others k)
owed_sum-splice_found p none [] e rest k h = ground arith
owed_sum-splice_found p none (x ∷ es) e rest k h = ground arith

remove_queued-owed :
    (M : Type 0) (p : ℕ) (id : String) (es : List QueuedActivity)
    → owed_queued p (remove_queued {M = M} id es).0
        + sum_by (settles p) (remove_queued {M = M} id es).1
      ≡ owed_queued p es
unfolding remove_queued settles
remove_queued-owed M p id [] = refl
remove_queued-owed M p id (e ∷ es) = ground (
  arith,
  remove_queued-owed M p id es,
  sum_by-append (settles p) (remove_queued {M = M} id es).1 (rejects e.completion ∷ []),
)

settle_completion-settles :
    (M : Type 0) (p : ℕ) (c : Option ℕ) (threw : Bool)
    → sum_by (settles p) (settle_completion {M = M} c threw) ≡ owed_by p c
unfolding settles owed_by
settle_completion-settles M p none threw = refl
settle_completion-settles M p (some q) threw = ground arith

told-settles :
    (M : Type 0) (p : ℕ) (b : Bool)
    → sum_by (settles {M = M} p) (if b then state_changed ∷ [] else []) ≡ 0
unfolding settles
told-settles M p true = refl
told-settles M p false = refl

module _ {M : Type 0} where
  owed_current : ℕ → Option (ActiveActivity M) → ℕ
  unfolding owed_by
  owed_current p none = 0
  owed_current p (some a) = if is_settled a then 0 else owed_by p a.completion

  owed : ℕ → InMemoryActivity M → ℕ
  unfolding owed_current
  owed p s = owed_current p s.current + owed_queued p s.queued

  abbrev settled : ℕ → List (Effect M) → ℕ
  settled p = sum_by (settles p)

  -- A turn that issues no promise settles what it no longer owes.
  abbrev Moves : ℕ → InMemoryActivity M → InMemoryActivity M × List (Effect M) → Type 0
  Moves p s r = (owed p r.0 + settled p r.1 ≡ owed p s) × (r.0.completions ≡ s.completions)

  launch_next-Moves :
      (p : ℕ) (s : InMemoryActivity M) (now : ℕ)
      (found : Option (QueuedActivity × List QueuedActivity))
      → splice_next s.queued ≡ found
      → s.current ≡ none
      → Moves p s (launch_next s now found)
  unfolding launch_next splice_next launch owed owed_current owed_by settles
  launch_next-Moves p s now none e c = ground arith
  launch_next-Moves p s now (some (q, rest)) e c =
      ground (arith, owed_sum-splice_found p (splice_priority s.queued) s.queued q rest refl e)

  drain-Moves : (p : ℕ) (s : InMemoryActivity M) (now : ℕ) → Moves p s (drain s now)
  unfolding drain
  drain-Moves p s now = elim (Option-cases s.current) [
    | inl free ↦ simp free (launch_next-Moves p s now (splice_next s.queued) refl free)
    | inr (a, busy) ↦ simp busy (ground arith)
  ]

  drain_task-Moves : (p : ℕ) (s : InMemoryActivity M) (d now : ℕ) → Moves p s (drain_task s d now)
  unfolding drain_task owed
  drain_task-Moves p s zero now = ground arith
  drain_task-Moves p s (suc d) now = drain-Moves p (record s { drains = d }) now

  abort_first-settles :
      (p : ℕ) (f : Bool) (now : ℕ) (a : ActiveActivity M) (at : Option ℕ)
      → settled p (abort_first f now a at).2 ≡ 0
  unfolding abort_first settles
  abort_first-settles p f now a (some at) = refl
  abort_first-settles p f now a none = ground arith

  abort_first-owed :
      (p : ℕ) (f : Bool) (now : ℕ) (a : ActiveActivity M) (at : Option ℕ)
      → owed_current p (some (abort_first f now a at).0) ≡ owed_current p (some a)
  unfolding abort_first owed_current
  abort_first-owed p f now a (some at) = refl
  abort_first-owed p f now a none = refl

  abort_current-Moves :
      (p : ℕ) (test : ActiveActivity M → Bool) (now : ℕ) (s : InMemoryActivity M)
      (c : Option (ActiveActivity M))
      → s.current ≡ c
      → Moves p s (abort_current test now s c)
  unfolding abort_current abort_activity owed
  abort_current-Moves p test now s none e = ground arith
  abort_current-Moves p test now s (some a) e = ground (
    arith,
    abort_first-settles p false now a a.cancelled_at,
    abort_first-owed p false now a a.cancelled_at,
  )

  abort_flushing-settles :
      (p : ℕ) (test : ActiveActivity M → Bool) (now : ℕ) (as' : List (ActiveActivity M))
      → settled p (abort_flushing test now as').1 ≡ 0
  unfolding abort_flushing abort_activity
  abort_flushing-settles p test now [] = refl
  abort_flushing-settles p test now (a ∷ as') = ground (
    arith,
    abort_first-settles p true now a a.cancelled_at,
    abort_flushing-settles p test now as',
    sum_by-append (settles p) (abort_first true now a a.cancelled_at).2
        (abort_flushing test now as').1,
  )

  abort_all-Moves :
      (p : ℕ) (test : ActiveActivity M → Bool) (now : ℕ) (s : InMemoryActivity M)
      → Moves p s (abort_all test now s)
  unfolding abort_all owed
  abort_all-Moves p test now s =
      let first = abort_current test now s s.current in
      ground (
        arith,
        abort_current-Moves p test now s s.current refl,
        abort_flushing-settles p test now first.0.flushing,
        sum_by-append (settles p) first.1 (abort_flushing test now first.0.flushing).1,
      )

  cancelled-Moves :
      (p : ℕ) (s : InMemoryActivity M) (removed : List QueuedActivity × List (Effect M))
      (r : InMemoryActivity M × List (Effect M)) (told : List (Effect M))
      → owed_queued p removed.0 + settled p removed.1 ≡ owed_queued p s.queued
      → settled p told ≡ 0
      → Moves p (record s { queued = removed.0 }) r
      → Moves p s (r.0, (removed.1 ++ r.1) ++ told)
  unfolding owed
  cancelled-Moves p s removed r told q t m = ground (
    arith,
    sum_by-append (settles p) removed.1 r.1,
    sum_by-append (settles p) (removed.1 ++ r.1) told,
  )

  cancel_message-Moves :
      (p : ℕ) (s : InMemoryActivity M) (id : String) (now : ℕ) → Moves p s (cancel_message s id now)
  unfolding cancel_message
  cancel_message-Moves p s id now =
      let removed = remove_queued {M = M} id s.queued in
      let test = λ (a : ActiveActivity M). str_eq a.message_id id in
      cancelled-Moves p s removed (abort_all test now (record s { queued = removed.0 })) _
        (remove_queued-owed M p id s.queued)
        (told-settles M p (ltb 0 (length removed.1) || targets test s))
        (abort_all-Moves p test now (record s { queued = removed.0 }))

  cancel-Moves :
      (p : ℕ) (s : InMemoryActivity M) (id : Option ℕ) (now : ℕ)
      → Moves p s ((cancel s id now).0, (cancel s id now).2)
  unfolding cancel
  cancel-Moves p s none now = abort_current-Moves p (λ a. true) now s s.current refl
  cancel-Moves p s (some id) now = abort_all-Moves p (λ a. a.id == id) now s

  start_valid-Moves :
      (p : ℕ) (s : InMemoryActivity M) (id : String) (o : Options) (now : ℕ) (r : Result ℕ)
      → s.current ≡ none
      → Moves p s (or_same s (start_valid s id o now r))
  unfolding start_valid launch owed owed_current owed_by settles
  start_valid-Moves p s id o now (err e) h = ground arith
  start_valid-Moves p s id o now (ok timeout) h = ground arith

  start-Moves :
      (p : ℕ) (s : InMemoryActivity M) (id : String) (f : Bool) (o : Options) (now : ℕ)
      → Moves p s (or_same s (start s id f o now))
  unfolding start
  start-Moves p s id f o now =
      let next = start_valid-Moves p s id o now (validate f o) in ground arith

  steer_current-Moves :
      (p : ℕ) (s : InMemoryActivity M) (m : M) (c : Option (ActiveActivity M))
      → s.current ≡ c
      → Moves p s (or_self s (steer_current s m c))
  unfolding steer_current owed owed_current
  steer_current-Moves p s m none e = ground arith
  steer_current-Moves p s m (some a) e = ground arith

  extend_current-Moves :
      (p : ℕ) (s : InMemoryActivity M) (r : Result ℕ) (now : ℕ) (c : Option (ActiveActivity M))
      → s.current ≡ c
      → Moves p s (or_same s (extend_current s r now c))
  unfolding extend_current owed owed_current settles
  extend_current-Moves p s (err t) now c e = ground arith
  extend_current-Moves p s (ok n) now none e = ground arith
  extend_current-Moves p s (ok n) now (some a) e = ground arith

  push_current-Moves :
      (p : ℕ) (s : InMemoryActivity M) (m : M) (size : ℕ) (c : Option (ActiveActivity M))
      → s.current ≡ c
      → Moves p s (or_self s (push_current s m size c))
  unfolding push_current push owed owed_current
  push_current-Moves p s m size none e = ground arith
  push_current-Moves p s m size (some a) e = ground arith

  begin_current-Moves :
      (p : ℕ) (s : InMemoryActivity M) (c : Option (ActiveActivity M))
      → s.current ≡ c
      → Moves p s (begin_current s c)
  unfolding begin_current owed owed_current
  begin_current-Moves p s none e = ground arith
  begin_current-Moves p s (some a) e =
      ground (arith, settle_completion-settles M p a.completion true)

  end_current-Moves :
      (p : ℕ) (s : InMemoryActivity M) (threw : Bool) (c : Option (ActiveActivity M))
      → s.current ≡ c
      → Moves p s (end_current s threw c)
  unfolding end_current owed owed_current
  end_current-Moves p s threw none e = ground arith
  end_current-Moves p s threw (some a) e = ground (
    arith,
    settle_completion-settles M p a.completion (threw || (is_some a.completion && a.aborted)),
  )

  steering_current-Moves :
      (p : ℕ) (s : InMemoryActivity M) (c : Option (ActiveActivity M))
      → s.current ≡ c
      → Moves p s (steering_current s c)
  unfolding steering_current owed owed_current settles
  steering_current-Moves p s none e = ground arith
  steering_current-Moves p s (some a) e = ground arith

  steer_one-settles :
      (p : ℕ) (a : ActiveActivity M) (ms : List M) → sum_by (settles p) (steer_one a ms).1 ≡ 0
  unfolding steer_one settles
  steer_one-settles p a [] = refl
  steer_one-settles p a (m ∷ ms) = ground arith

  steering_flushing-settles :
      (p id : ℕ) (as' : List (ActiveActivity M))
      → sum_by (settles p) (steering_flushing id as').1 ≡ 0
  unfolding steering_flushing
  steering_flushing-settles p id [] = refl
  steering_flushing-settles p id (a ∷ as') = elim (Bool-cases (a.id == id)) [
    | inl hit ↦ rw hit (steer_one-settles p a a.steering)
    | inr miss ↦ rw miss (steering_flushing-settles p id as')
  ]

  hook_task-Moves :
      (p : ℕ) (s : InMemoryActivity M) (id : ℕ) (m : String) (threw : Bool)
      → Moves p s (hook_task s id m threw)
  unfolding hook_task settles owed
  hook_task-Moves p s id m threw = ground arith

  timer_current-Moves :
      (p : ℕ) (s : InMemoryActivity M) (now : ℕ) (c : Option (ActiveActivity M))
      → Moves p s (timer_current s now c)
  unfolding timer_current
  timer_current-Moves p s now none = ground arith
  timer_current-Moves p s now (some a) =
      let aborts = abort_all-Moves p (λ b. b.id == a.id) now s in ground arith

  release_current-Moves :
      (p : ℕ) (s : InMemoryActivity M) (grace : Bool) (now : ℕ) (c : Option (ActiveActivity M))
      → s.current ≡ c
      → Moves p s (release_current s grace now c)
  unfolding release_current owed owed_current settles
  release_current-Moves p s grace now none e = ground arith
  release_current-Moves p s grace now (some a) e =
      let s' = record s { current = none; flushing = s.flushing ++ a ∷ [] } in
      ground (
        arith,
        drain-Moves p s' now,
        sum_by-append (settles p) (drain s' now).1 (state_changed ∷ []),
      )

  flush_list-settles :
      (p id : ℕ) (as' : List (ActiveActivity M)) → settled p (flush_list id as').1 ≡ 0
  unfolding flush_list flush_one settles
  flush_list-settles p id [] = refl
  flush_list-settles p id (a ∷ as') = ground (arith, flush_list-settles p id as')

  flush-Moves :
      (p : ℕ) (s : InMemoryActivity M) (id : ℕ)
      → Moves p s
          (record s { flushing = (flush_list id s.flushing).0 }, (flush_list id s.flushing).1)
  unfolding owed
  flush-Moves p s id = ground (arith, flush_list-settles p id s.flushing)

  late_steering-Moves :
      (p : ℕ) (s : InMemoryActivity M) (id : ℕ)
      → Moves p s (
        record s { flushing = (steering_flushing id s.flushing).0 },
        (steering_flushing id s.flushing).1,
      )
  unfolding owed
  late_steering-Moves p s id = ground (arith, steering_flushing-settles p id s.flushing)

  -- Promises are named in order: each of those issued is owed once, or settled once.
  pub Balanced : ℕ → InMemoryActivity M → List (Effect M) → Type 0
  unfolding owed
  Balanced p s effects = owed p s + settled p effects ≡ one_if (ltb p s.completions)

  balance :
      (p : ℕ) (s : InMemoryActivity M) (r : InMemoryActivity M × List (Effect M))
      (before : List (Effect M))
      → Moves p s r
      → Balanced p s before
      → Balanced p r.0 (before ++ r.1)
  unfolding Balanced
  balance p s r before m v = ground (arith, sum_by-append (settles p) before r.1)

  queue_valid-Balanced :
      (p : ℕ) (s : InMemoryActivity M) (id : String) (o : Options) (r : Result ℕ)
      (before : List (Effect M))
      → Balanced p s before
      → let next = or_same s (queue_valid s id o r) in Balanced p next.0 (before ++ next.1)
  unfolding queue_valid Balanced owed settles
  queue_valid-Balanced p s id o (err e) before v = ground (arith, append-nil before)
  queue_valid-Balanced p s id o (ok timeout) before v = ground (
    arith,
    sum_by-append (settles p) before (state_changed ∷ []),
    append-nil before,
    sum_by-append (λ (e : QueuedActivity). one_if (e.completion == p)) s.queued
        (record { message_id = id; completion = s.completions; timeout = timeout; options = o }
          ∷ []),
  )

  turn-Balanced :
      (p : ℕ) (s : InMemoryActivity M) (t : Turn M) (before : List (Effect M))
      → Balanced p s before
      → Balanced p (turn s t).0 (before ++ (turn s t).1)
  unfolding turn steer extend queue
  turn-Balanced p s (starts id f o now) b v = balance p s _ b (start-Moves p s id f o now) v
  turn-Balanced p s (queues id f o) b v = queue_valid-Balanced p s id o (validate f o) b v
  turn-Balanced p s (steers m) b v = balance p s _ b (steer_current-Moves p s m s.current refl) v
  turn-Balanced p s (cancels id now) b v = balance p s _ b (cancel-Moves p s id now) v
  turn-Balanced p s (cancels_message id now) b v =
      balance p s _ b (cancel_message-Moves p s id now) v
  turn-Balanced p s (extends timeout now) b v =
      balance p s _ b (extend_current-Moves p s (validate_timeout timeout) now s.current refl) v
  turn-Balanced p s (drains_once now) b v = balance p s _ b (drain_task-Moves p s s.drains now) v
  turn-Balanced p s begins b v = balance p s _ b (begin_current-Moves p s s.current refl) v
  turn-Balanced p s (pushes m size) b v =
      balance p s _ b (push_current-Moves p s m size s.current refl) v
  turn-Balanced p s (works_end threw) b v =
      balance p s _ b (end_current-Moves p s threw s.current refl) v
  turn-Balanced p s steering_settles b v =
      balance p s _ b (steering_current-Moves p s s.current refl) v
  turn-Balanced p s (late_steering_settles id) b v =
      balance p s
        (
          record s { flushing = (steering_flushing id s.flushing).0 },
          (steering_flushing id s.flushing).1,
        )
        b (late_steering-Moves p s id) v
  turn-Balanced p s (hook_settles id m threw) b v =
      balance p s _ b (hook_task-Moves p s id m threw) v
  turn-Balanced p s (timer_fires now) b v =
      balance p s _ b (timer_current-Moves p s now s.current) v
  turn-Balanced p s (releases grace now) b v =
      balance p s _ b (release_current-Moves p s grace now s.current refl) v
  turn-Balanced p s (flush_continues id) b v =
      balance p s
        (record s { flushing = (flush_list id s.flushing).0 }, (flush_list id s.flushing).1) b
        (flush-Moves p s id) v

  run-Balanced :
      (p : ℕ) (s : InMemoryActivity M) (ts : List (Turn M)) (before : List (Effect M))
      → Balanced p s before
      → Balanced p (run s ts).0 (before ++ (run s ts).1)
  unfolding run
  run-Balanced p s [] b v = subst (Balanced p s) (sym (append-nil b)) v
  run-Balanced p s (t ∷ ts) b v =
      subst (Balanced p (run (turn s t).0 ts).0)
        (append_assoc b (turn s t).1 (run (turn s t).0 ts).1)
        (run-Balanced p (turn s t).0 ts (b ++ (turn s t).1) (turn-Balanced p s t b v))

  -- In every history, the promise of each queued work has been settled exactly once, or is still
  -- owed, by the queue or by the current activity, and no other promise is ever settled.
  pub run_activity-Balanced :
      (p : ℕ) (ts : List (Turn M)) → Balanced p (run new_activity ts).0 (run new_activity ts).1
  unfolding Balanced owed owed_current
  run_activity-Balanced p ts = run-Balanced p new_activity ts [] (ground arith)
