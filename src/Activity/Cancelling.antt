-- ===== src/Activity/Cancelling.antt =====
-- src/activity.ts: what a cancellation does to the current activity, and what it leaves possible.
use cantelop_sdk.Prelude.{
  ℕ, ◌≤◌, ◌≡◌, refl, ◌∙◌, sym, subst, append-nil, ◌++◌, String, Bool, true, false, Option, none,
  some, List, [], ◌∷◌, arith, natural, err, error,
}
use cantelop_sdk.Activity.{Effect, rejects, launched, working, ActiveActivity}
use cantelop_sdk.Activity.Options.{max_timeout, validate_timeout}
use cantelop_sdk.Activity.Slot.{
  InMemoryActivity, abort_first, abort_activity, abort_current, cancel, steer, steer_current,
  extend, extend_current,
}
use cantelop_sdk.Activity.Turns.{turn, begins, works_end, begin_current, end_current}

module _ {M : Type 0} where
  abort_first-again :
      (f f' : Bool) (now now' : ℕ) (a : ActiveActivity M) (at : Option ℕ)
      → a.cancelled_at ≡ at
      → abort_activity f' now' (abort_first f now a at).0 ≡ ((abort_first f now a at).0, [], [])
  unfolding abort_activity abort_first
  abort_first-again f f' now now' a (some at) e = simp e refl
  abort_first-again f f' now now' a none e = refl

  -- The current activity replaced, with the hooks and effects of an abort.
  abbrev replaced :
      InMemoryActivity M
      → ActiveActivity M × List (ℕ × String) × List (Effect M)
      → InMemoryActivity M × List (Effect M)
  replaced s r = (record s { current = some r.0; hooks = s.hooks ++ r.1 }, r.2)

  replaced-same :
      (s : InMemoryActivity M) (b : ActiveActivity M)
      (r : ActiveActivity M × List (ℕ × String) × List (Effect M))
      → s.current ≡ some b
      → r ≡ (b, [], [])
      → replaced s r ≡ (s, [])
  replaced-same s b r c e =
      let base : replaced s (b, [], []) ≡ (s, []) = rw (append-nil s.hooks, sym c) refl in
      subst (λ q. replaced s q ≡ (s, [])) (sym e) base

  cancel_current-again :
      (s : InMemoryActivity M) (now now' : ℕ) (c : Option (ActiveActivity M))
      → s.current ≡ c
      → let once = abort_current (λ a. true) now s c in
        abort_current (λ a. true) now' once.0 once.0.current ≡ (once.0, [])
  unfolding abort_current abort_activity
  cancel_current-again s now now' none e = simp e refl
  cancel_current-again s now now' (some a) e =
      replaced-same (abort_current (λ a. true) now s (some a)).0
        (abort_first false now a a.cancelled_at).0
        (abort_activity false now' (abort_first false now a a.cancelled_at).0) refl
        (abort_first-again false false now now' a a.cancelled_at refl)

  -- A second cancellation of the current activity changes nothing, dates nothing, calls no hook and
  -- reports nothing; it answers as the first did.
  pub cancel-again :
      (s : InMemoryActivity M) (now now' : ℕ)
      → let once = cancel s none now in cancel once.0 none now' ≡ (once.0, once.1, [])
  unfolding cancel
  cancel-again s now now' = ground (arith, cancel_current-again s now now' s.current refl)

  -- The abort leaves the activity in the slot, aborted and where it stood.
  Stopped : ActiveActivity M → ActiveActivity M → Type 0
  Stopped a b = (b.aborted ≡ true) × ((b.stage ≡ a.stage) × (b.completion ≡ a.completion))

  abort_first-Stopped :
      (f : Bool) (now : ℕ) (a : ActiveActivity M) (at : Option ℕ)
      → Stopped a (abort_first f now a at).0
  unfolding abort_first Stopped
  abort_first-Stopped f now a (some at) = (refl, (refl, refl))
  abort_first-Stopped f now a none = (refl, (refl, refl))

  steer-Stopped :
      (s : InMemoryActivity M) (b : ActiveActivity M) (m : M)
      → b.aborted ≡ true
      → steer_current s m (some b) ≡ err (error "No steerable activity is active")
  unfolding steer_current
  steer-Stopped s b m h = ground arith

  extend-Stopped :
      (s : InMemoryActivity M) (b : ActiveActivity M) (n now : ℕ)
      → 1 ≤ n
      → n ≤ max_timeout
      → b.aborted ≡ true
      → extend_current s (validate_timeout (natural n)) now (some b)
        ≡ err (error "activity is not extendable")
  unfolding extend_current validate_timeout
  extend-Stopped s b n now low high h = ground arith

  begin-Stopped :
      (s : InMemoryActivity M) (b : ActiveActivity M) (p : ℕ)
      → b.aborted ≡ true
      → b.completion ≡ some p
      → b.stage ≡ launched
      → (begin_current s (some b)).1 ≡ rejects p ∷ []
  unfolding begin_current
  begin-Stopped s b p h c l = ground arith

  end-Stopped :
      (s : InMemoryActivity M) (b : ActiveActivity M) (p : ℕ) (threw : Bool)
      → b.aborted ≡ true
      → b.completion ≡ some p
      → b.stage ≡ working
      → (end_current s threw (some b)).1 ≡ rejects p ∷ []
  unfolding end_current
  end-Stopped s b p threw h c l = ground arith

  -- A cancelled activity takes no more steering and no more time, and where it is queued work that
  -- has not ended, its promise is rejected: without running the work where it had not begun, and
  -- even where the work then returns.
  pub cancel-Stopped :
      (s : InMemoryActivity M) (now : ℕ) (a : ActiveActivity M) (p : ℕ)
      → s.current ≡ some a
      → a.completion ≡ some p
      → let s' = (cancel s none now).0 in
        ((m : M) → steer s' m ≡ err (error "No steerable activity is active"))
        × ((n now' : ℕ)
            → 1 ≤ n
            → n ≤ max_timeout
            → extend s' (natural n) now' ≡ err (error "activity is not extendable"))
        × (a.stage ≡ launched → (turn s' begins).1 ≡ rejects p ∷ [])
        × ((threw : Bool) → a.stage ≡ working → (turn s' (works_end threw)).1 ≡ rejects p ∷ [])
  unfolding cancel abort_current steer extend turn abort_activity Stopped
  cancel-Stopped s now a p e c =
      let b = (abort_first false now a a.cancelled_at).0 in
      let s' = (abort_current (λ a. true) now s (some a)).0 in
      let stopped = abort_first-Stopped false now a a.cancelled_at in
      let ended = stopped.1.1 ∙ c in
      (
        λ m. simp (e) (steer-Stopped s' b m stopped.0),
        λ n now' low high. simp (e) (extend-Stopped s' b n now' low high stopped.0),
        λ l. simp (e) (begin-Stopped s' b p stopped.0 ended (stopped.1.0 ∙ l)),
        λ threw w. simp (e) (end-Stopped s' b p threw stopped.0 ended (stopped.1.0 ∙ w)),
      )
