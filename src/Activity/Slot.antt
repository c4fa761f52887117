-- ===== src/Activity/Slot.antt =====
-- src/activity.ts: `InMemoryActivity`, its slot and its queue, and the calls from outside.
use cantelop_sdk.Prelude.{
  ℕ, suc, ◌+◌, max, String, Bool, true, false, not, ◌&&◌, ◌||◌, Option, none, some, List, [], ◌∷◌,
  ◌++◌, leb, ltb, ◌==◌, if◌then◌else◌, any, length, is_some, str_eq, Number, error, type_error,
  Result, ok, err, ensure, ◌>>◌,
}
use cantelop_sdk.Activity.{
  max_queued, started, cancellation_requested, Effect, reports, state_changed, rejects,
  calls_on_cancel, no_followups, launched, working, settling, ActiveActivity,
}
use cantelop_sdk.Activity.Options.{
  Options, is_function, is_priority, is_absent_or_boolean, validate, validate_timeout,
}

-- A queued work: its completion promise, and the options that `drain` and `launch` read.
pub record QueuedActivity : Type 0 where
  pub message_id : String
  pub completion : ℕ
  pub timeout : ℕ
  pub options : Options

pub record InMemoryActivity (M : Type 0) : Type 0 where
  pub current : Option (ActiveActivity M)
  pub flushing : List (ActiveActivity M)
  pub queued : List QueuedActivity
  pub launches : ℕ
  pub completions : ℕ
  pub hooks : List (ℕ × String)
  pub drains : ℕ

-- The first entry with priority, if there is one, and the others.
unfoldable pub splice_priority : List QueuedActivity → Option (QueuedActivity × List QueuedActivity)
splice_priority [] = none
splice_priority (e ∷ es) =
    let rest = splice_priority es in
    if is_priority e.options.priority
    then some (e, es)
    else (elim rest [ none ↦ none | some (found, others) ↦ some (found, e ∷ others) ])

unfoldable pub splice_found :
    Option (QueuedActivity × List QueuedActivity)
    → List QueuedActivity
    → Option (QueuedActivity × List QueuedActivity)
splice_found (some found) es = some found
splice_found none [] = none
splice_found none (e ∷ es) = some (e, es)

-- `splice(priority < 0 ? 0 : priority, 1)`.
unfoldable pub splice_next : List QueuedActivity → Option (QueuedActivity × List QueuedActivity)
unfolding splice_priority splice_found
splice_next es = splice_found (splice_priority es) es

module _ {M : Type 0} where
  abbrev pub new_activity : InMemoryActivity M
  new_activity = record {
    current = none;
    flushing = [];
    queued = [];
    launches = 0;
    completions = 0;
    hooks = [];
    drains = 0;
  }

  abbrev pub is_active : InMemoryActivity M → Bool
  is_active s = is_some s.current

  unfoldable pub is_idle : InMemoryActivity M → Bool
  is_idle s = not (is_active s) && (length s.queued == 0 && length s.flushing == 0)

  -- `launch` up to the microtask that begins the work.
  unfoldable pub launch :
      InMemoryActivity M
      → String
      → ℕ
      → Options
      → Option ℕ
      → ℕ
      → InMemoryActivity M × List (Effect M)
  launch s message_id timeout o completion now = (
    record s {
      current = some (record {
        id = s.launches;
        message_id = message_id;
        completion = completion;
        aborted = false;
        followups = no_followups;
        has_on_steer = is_function o.on_steer;
        has_on_cancel = is_function o.on_cancel;
        steering = [];
        stage = launched;
        deadline = now + timeout;
        cancelled_at = none;
      });
      launches = suc s.launches;
    },
    reports s.launches message_id started ∷ state_changed ∷ [],
  )

  unfoldable pub start_valid :
      InMemoryActivity M
      → String
      → Options
      → ℕ
      → Result ℕ
      → Result (InMemoryActivity M × List (Effect M))
  unfolding launch
  start_valid s message_id o now (err e) = err e
  start_valid s message_id o now (ok timeout) = ok (launch s message_id timeout o none now)

  unfoldable pub start :
      InMemoryActivity M
      → String
      → Bool
      → Options
      → ℕ
      → Result (InMemoryActivity M × List (Effect M))
  unfolding start_valid validate
  start s message_id work_is_function o now = do
    ensure (not (is_active s || ltb 0 (length s.queued)))
        (error "Session runtime activity is already active or queued")
    start_valid s message_id o now (validate work_is_function o)

  unfoldable pub queue_valid :
      InMemoryActivity M
      → String
      → Options
      → Result ℕ
      → Result (InMemoryActivity M × List (Effect M))
  queue_valid s message_id o (err e) = err e
  queue_valid s message_id o (ok timeout) = do
    ensure (is_absent_or_boolean o.priority) (type_error "Invalid activity priority")
    ensure (ltb (length s.queued) max_queued) (error "activity queue capacity")
    ok (
      record s {
        queued =
            s.queued
            ++ record {
              message_id = message_id;
              completion = s.completions;
              timeout = timeout;
              options = o;
            }
              ∷ [];
        completions = suc s.completions;
        drains = suc s.drains;
      },
      state_changed ∷ [],
    )

  unfoldable pub queue :
      InMemoryActivity M → String → Bool → Options → Result (InMemoryActivity M × List (Effect M))
  unfolding queue_valid validate
  queue s message_id work_is_function o = queue_valid s message_id o (validate work_is_function o)

  unfoldable pub launch_next :
      InMemoryActivity M
      → ℕ
      → Option (QueuedActivity × List QueuedActivity)
      → InMemoryActivity M × List (Effect M)
  unfolding launch
  launch_next s now none = (s, [])
  launch_next s now (some (e, rest)) =
      launch (record s { queued = rest }) e.message_id e.timeout e.options (some e.completion) now

  unfoldable pub drain : InMemoryActivity M → ℕ → InMemoryActivity M × List (Effect M)
  unfolding launch_next splice_next
  drain s now = if is_active s then (s, []) else launch_next s now (splice_next s.queued)

  abbrev pub is_settled : ActiveActivity M → Bool
  is_settled a = elim a.stage [ launched ↦ false | working ↦ false | settling _ ↦ true ]

  unfoldable pub steer_current :
      InMemoryActivity M → M → Option (ActiveActivity M) → Result (InMemoryActivity M)
  steer_current s message none = err (error "No steerable activity is active")
  steer_current s message (some a) = do
    ensure (not (is_settled a || a.aborted)) (error "No steerable activity is active")
    ensure a.has_on_steer (error "Active activity has no steering adapter")
    ensure (ltb (length a.steering) max_queued) (error "activity steering capacity")
    ok (record s { current = some (record a { steering = a.steering ++ message ∷ [] }) })

  unfoldable pub steer : InMemoryActivity M → M → Result (InMemoryActivity M)
  unfolding steer_current
  steer s message = steer_current s message s.current

  -- The first abort dates the cancellation and starts the hook, unless the slot is released.
  unfoldable pub abort_first :
      Bool
      → ℕ
      → ActiveActivity M
      → Option ℕ
      → ActiveActivity M × List (ℕ × String) × List (Effect M)
  abort_first flushing now a (some at) = (record a { aborted = true }, [], [])
  abort_first flushing now a none =
      let calls = not flushing && a.has_on_cancel in
      (
        record a { aborted = true; cancelled_at = some now },
        (if calls then (a.id, a.message_id) ∷ [] else []),
        (if calls then calls_on_cancel a.id ∷ [] else [])
            ++ reports a.id a.message_id cancellation_requested ∷ state_changed ∷ [],
      )

  unfoldable pub abort_activity :
      Bool → ℕ → ActiveActivity M → ActiveActivity M × List (ℕ × String) × List (Effect M)
  unfolding abort_first
  abort_activity flushing now a = abort_first flushing now a a.cancelled_at

  -- Aborts the current activity where the test holds of it.
  unfoldable pub abort_current :
      (ActiveActivity M → Bool)
      → ℕ
      → InMemoryActivity M
      → Option (ActiveActivity M)
      → InMemoryActivity M × List (Effect M)
  unfolding abort_activity
  abort_current test now s none = (s, [])
  abort_current test now s (some a) =
      let (a', hooks, effects) = abort_activity false now a in
      if test a
      then (record s { current = some a'; hooks = s.hooks ++ hooks }, effects)
      else (s, [])

  -- Aborts every flushing activity of which the test holds.
  unfoldable pub abort_flushing :
      (ActiveActivity M → Bool)
      → ℕ
      → List (ActiveActivity M)
      → List (ActiveActivity M) × List (Effect M)
  unfolding abort_activity
  abort_flushing test now [] = ([], [])
  abort_flushing test now (a ∷ as') =
      let rest = abort_flushing test now as' in
      let (a', hooks, effects) = abort_activity true now a in
      if test a then (a' ∷ rest.0, effects ++ rest.1) else (a ∷ rest.0, rest.1)

  -- Aborts all activities of which the test holds: the current one, then those flushing.
  unfoldable pub abort_all :
      (ActiveActivity M → Bool) → ℕ → InMemoryActivity M → InMemoryActivity M × List (Effect M)
  unfolding abort_current abort_flushing
  abort_all test now s =
      let (s', first) = abort_current test now s s.current in
      let (others, later) = abort_flushing test now s'.flushing in
      (record s' { flushing = others }, first ++ later)

  abbrev pub targets : (ActiveActivity M → Bool) → InMemoryActivity M → Bool
  targets test s = (elim s.current [ none ↦ false | some a ↦ test a ]) || any test s.flushing

  -- Identities are distinct, so at most one activity is aborted.
  unfoldable pub cancel :
      InMemoryActivity M → Option ℕ → ℕ → InMemoryActivity M × Bool × List (Effect M)
  unfolding abort_all abort_current
  cancel s none now =
      let (s', effects) = abort_current (λ a. true) now s s.current in (s', is_active s, effects)
  cancel s (some id) now =
      let (s', effects) = abort_all (λ a. a.id == id) now s in
      (s', targets (λ (a : ActiveActivity M). a.id == id) s, effects)

  -- From the back of the queue, as the source goes through it.
  unfoldable pub remove_queued :
      String → List QueuedActivity → List QueuedActivity × List (Effect M)
  remove_queued id [] = ([], [])
  remove_queued id (e ∷ es) =
      let rest = remove_queued id es in
      if str_eq e.message_id id
      then (rest.0, rest.1 ++ rejects e.completion ∷ [])
      else (e ∷ rest.0, rest.1)

  unfoldable pub cancel_message :
      InMemoryActivity M → String → ℕ → InMemoryActivity M × List (Effect M)
  unfolding remove_queued abort_all
  cancel_message s id now =
      let (queued, rejected) = remove_queued id s.queued in
      let test = λ (a : ActiveActivity M). str_eq a.message_id id in
      let (s', aborts) = abort_all test now (record s { queued = queued }) in
      (
        s',
        rejected
            ++ aborts
            ++ (if ltb 0 (length rejected) || targets test s then state_changed ∷ [] else []),
      )

  unfoldable pub extend_current :
      InMemoryActivity M
      → Result ℕ
      → ℕ
      → Option (ActiveActivity M)
      → Result (InMemoryActivity M × List (Effect M))
  extend_current s (err e) now target = err e
  extend_current s (ok timeout) now none = err (error "activity is not extendable")
  extend_current s (ok timeout) now (some a) = do
    ensure (not (is_settled a || a.aborted)) (error "activity is not extendable")
    ok (
      record s { current = some (record a { deadline = max a.deadline (now + timeout) }) },
      state_changed ∷ [],
    )

  unfoldable pub extend :
      InMemoryActivity M → Number → ℕ → Result (InMemoryActivity M × List (Effect M))
  unfolding extend_current validate_timeout
  extend s timeout now = extend_current s (validate_timeout timeout) now s.current

  unfoldable pub earliest : List (ActiveActivity M) → Option (ActiveActivity M)
  earliest [] = none
  earliest (a ∷ as') =
      let rest = earliest as' in
      elim rest [ none ↦ some a | some b ↦ if leb a.deadline b.deadline then some a else some b ]

  abbrev pub activities : InMemoryActivity M → List (ActiveActivity M)
  activities s = (elim s.current [ none ↦ [] | some a ↦ a ∷ [] ]) ++ s.flushing

  -- The activity whose id, deadline and cancellation `snapshot` shows.
  unfoldable pub snapshot : InMemoryActivity M → Option (ActiveActivity M)
  unfolding earliest
  snapshot s = earliest (activities s)
