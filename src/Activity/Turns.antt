-- ===== src/Activity/Turns.antt =====
-- src/activity.ts: the callbacks of an activity (the work's begin and end, its context, hooks,
-- timer, `settle`), and histories of turns.
use cantelop_sdk.Prelude.{
  ℕ, zero, suc, String, Bool, true, false, not, ◌&&◌, ◌||◌, Option, none, some, List, [], ◌∷◌, ◌++◌,
  leb, ◌==◌, if◌then◌else◌, filter, any, length, is_some, Number, error, Result, ok, err, ensure,
  ◌>>◌, ◌>>=◌,
}
use cantelop_sdk.Activity.{
  Outcome, completed, failed, cancelled, Effect, reports, state_changed, resolves, rejects,
  calls_on_steer, sends, push, launched, working, settling, ActiveActivity,
}
use cantelop_sdk.Activity.Options.{Options}
use cantelop_sdk.Activity.Slot.{
  InMemoryActivity, start, queue, drain, steer, cancel, cancel_message, extend, abort_all,
  is_settled,
}

pub data Turn (M : Type 0) : Type 0 where
  starts : String → Bool → Options → ℕ → Turn M
  queues : String → Bool → Options → Turn M
  steers : M → Turn M
  cancels : Option ℕ → ℕ → Turn M
  cancels_message : String → ℕ → Turn M
  extends : Number → ℕ → Turn M
  drains_once : ℕ → Turn M
  begins : Turn M
  pushes : M → ℕ → Turn M
  works_end : Bool → Turn M
  steering_settles : Turn M
  late_steering_settles : ℕ → Turn M
  hook_settles : ℕ → String → Bool → Turn M
  timer_fires : ℕ → Turn M
  releases : Bool → ℕ → Turn M
  flush_continues : ℕ → Turn M

module _ {M : Type 0} where
  abbrev pub settle_completion : Option ℕ → Bool → List (Effect M)
  settle_completion none threw = []
  settle_completion (some p) threw = (if threw then rejects p else resolves p) ∷ []

  abbrev pub settle_as :
      InMemoryActivity M → ActiveActivity M → Bool → InMemoryActivity M × List (Effect M)
  settle_as s a threw = (
    record s { current = some (record a { stage = settling threw }) },
    settle_completion a.completion threw,
  )

  -- The microtask of `launch`: an activity already aborted fails without running its work.
  unfoldable pub begin_current :
      InMemoryActivity M → Option (ActiveActivity M) → InMemoryActivity M × List (Effect M)
  begin_current s none = (s, [])
  begin_current s (some a) = elim a.stage [
    | launched ↦
        if a.aborted
        then settle_as s a true
        else (record s { current = some (record a { stage = working }) }, [])
    | working ↦ (s, [])
    | settling _ ↦ (s, [])
  ]

  -- The end of the work. Queued work that ends after an abort fails, whatever it returned.
  unfoldable pub end_current :
      InMemoryActivity M → Bool → Option (ActiveActivity M) → InMemoryActivity M × List (Effect M)
  end_current s threw none = (s, [])
  end_current s threw (some a) = elim a.stage [
    | launched ↦ (s, [])
    | working ↦ settle_as s a (threw || (is_some a.completion && a.aborted))
    | settling _ ↦ (s, [])
  ]

  -- `context.send`.
  unfoldable pub push_current :
      InMemoryActivity M → M → ℕ → Option (ActiveActivity M) → Result (InMemoryActivity M)
  unfolding push
  push_current s payload size none = err (error "Session runtime activity has already settled")
  push_current s payload size (some a) = do
    ensure (not (is_settled a)) (error "Session runtime activity has already settled")
    followups ← push a.followups payload size
    ok (record s { current = some (record a { followups = followups }) })

  -- The delivery at the head of the steering chain, from its call to its settling.
  unfoldable pub steering_current :
      InMemoryActivity M → Option (ActiveActivity M) → InMemoryActivity M × List (Effect M)
  steering_current s none = (s, [])
  steering_current s (some a) = elim a.steering [
    | [] ↦ (s, [])
    | message ∷ rest ↦ (
      record s { current = some (record a { steering = rest }) },
      (if a.aborted then [] else calls_on_steer a.id message ∷ []),
    )
  ]

  -- The same for an activity that went on to flush with its steering pending, when the grace was over.
  unfoldable pub steer_one : ActiveActivity M → List M → ActiveActivity M × List (Effect M)
  steer_one a [] = (a, [])
  steer_one a (message ∷ rest) =
      (record a { steering = rest }, (if a.aborted then [] else calls_on_steer a.id message ∷ []))

  unfoldable pub steering_flushing :
      ℕ → List (ActiveActivity M) → List (ActiveActivity M) × List (Effect M)
  unfolding steer_one
  steering_flushing id [] = ([], [])
  steering_flushing id (a ∷ as') =
      let rest = steering_flushing id as' in
      let (a', effects) = steer_one a a.steering in
      if a.id == id then (a' ∷ as', effects) else (a ∷ rest.0, rest.1)

  unfoldable pub hook_task :
      InMemoryActivity M → ℕ → String → Bool → InMemoryActivity M × List (Effect M)
  hook_task s id message_id threw =
      if any (λ (h : ℕ × String). h.0 == id) s.hooks
      then (
        record s { hooks = filter (λ (h : ℕ × String). not (h.0 == id)) s.hooks },
        (if threw then reports id message_id failed ∷ [] else []),
      )
      else (s, [])

  unfoldable pub timer_current :
      InMemoryActivity M → ℕ → Option (ActiveActivity M) → InMemoryActivity M × List (Effect M)
  unfolding abort_all
  timer_current s now none = (s, [])
  timer_current s now (some a) =
      if leb a.deadline now then abort_all (λ b. b.id == a.id) now s else (s, [])

  abbrev pub hooks_done : InMemoryActivity M → ActiveActivity M → Bool
  hooks_done s a = length a.steering == 0 && not (any (λ (h : ℕ × String). h.0 == a.id) s.hooks)

  -- `settle` after its race: the slot is released once the hooks are done or the grace is over.
  unfoldable pub release_current :
      InMemoryActivity M
      → Bool
      → ℕ
      → Option (ActiveActivity M)
      → InMemoryActivity M × List (Effect M)
  unfolding drain
  release_current s grace now none = (s, [])
  release_current s grace now (some a) =
      let (s', effects) =
        drain (record s { current = none; flushing = s.flushing ++ a ∷ [] }) now in
      if is_settled a && (grace || hooks_done s a)
      then (s', effects ++ state_changed ∷ [])
      else (s, [])

  unfoldable pub outcome_of : ActiveActivity M → Outcome
  outcome_of a = if a.aborted then cancelled else (elim a.stage [
    | launched ↦ completed
    | working ↦ completed
    | settling true ↦ failed
    | settling false ↦ completed
  ])

  -- `flush` sends the next message, or the activity leaves and its outcome is reported.
  unfoldable pub flush_one : ActiveActivity M → List M → List (ActiveActivity M) × List (Effect M)
  unfolding outcome_of
  flush_one a [] = ([], reports a.id a.message_id (outcome_of a) ∷ state_changed ∷ [])
  flush_one a (payload ∷ rest) = (
    record a { followups = record { messages = rest; bytes = a.followups.bytes } } ∷ [],
    sends payload ∷ [],
  )

  unfoldable pub flush_list :
      ℕ → List (ActiveActivity M) → List (ActiveActivity M) × List (Effect M)
  unfolding flush_one
  flush_list id [] = ([], [])
  flush_list id (a ∷ as') =
      let rest = flush_list id as' in
      let (kept, effects) = flush_one a a.followups.messages in
      if a.id == id then (kept ++ as', effects) else (a ∷ rest.0, rest.1)

  unfoldable pub drain_task : InMemoryActivity M → ℕ → ℕ → InMemoryActivity M × List (Effect M)
  unfolding drain
  drain_task s zero now = (s, [])
  drain_task s (suc d) now = drain (record s { drains = d }) now

  -- A call that throws changes nothing.
  abbrev pub or_same :
      InMemoryActivity M
      → Result (InMemoryActivity M × List (Effect M))
      → InMemoryActivity M × List (Effect M)
  or_same s (err _) = (s, [])
  or_same s (ok r) = r

  abbrev pub or_self :
      InMemoryActivity M → Result (InMemoryActivity M) → InMemoryActivity M × List (Effect M)
  or_self s (err _) = (s, [])
  or_self s (ok s') = (s', [])

  unfoldable pub turn : InMemoryActivity M → Turn M → InMemoryActivity M × List (Effect M)
  unfolding steer extend drain_task begin_current push_current end_current steering_current
      hook_task timer_current release_current flush_list steering_flushing
  turn s (starts id f o now) = or_same s (start s id f o now)
  turn s (queues id f o) = or_same s (queue s id f o)
  turn s (steers message) = or_self s (steer s message)
  turn s (cancels id now) = let (s', answer, effects) = cancel s id now in (s', effects)
  turn s (cancels_message id now) = cancel_message s id now
  turn s (extends timeout now) = or_same s (extend s timeout now)
  turn s (drains_once now) = drain_task s s.drains now
  turn s begins = begin_current s s.current
  turn s (pushes payload size) = or_self s (push_current s payload size s.current)
  turn s (works_end threw) = end_current s threw s.current
  turn s steering_settles = steering_current s s.current
  turn s (late_steering_settles id) =
      let (flushing, effects) = steering_flushing id s.flushing in
      (record s { flushing = flushing }, effects)
  turn s (hook_settles id message_id threw) = hook_task s id message_id threw
  turn s (timer_fires now) = timer_current s now s.current
  turn s (releases grace now) = release_current s grace now s.current
  turn s (flush_continues id) =
      let (flushing, effects) = flush_list id s.flushing in
      (record s { flushing = flushing }, effects)

  unfoldable pub run : InMemoryActivity M → List (Turn M) → InMemoryActivity M × List (Effect M)
  unfolding turn
  run s [] = (s, [])
  run s (t ∷ ts) = let (s', now) = turn s t in let (s'', later) = run s' ts in (s'', now ++ later)
