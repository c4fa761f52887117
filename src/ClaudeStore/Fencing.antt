-- ===== src/ClaudeStore/Fencing.antt =====
-- src/harnesses/claude-durable-state.ts: no revision is handed to the disk twice.
use cantelop_sdk.Prelude.{
  ℕ, suc, ◌≡◌, refl, true, Option, none, some, List, [], ◌∷◌, ◌⊎◌, inl, inr, is_some, subst, arith,
  Thrown, Result, ok, err,
}
use cantelop_sdk.ClaudeStore.{
  State, Store, SessionEvent, Turn, commits, acknowledges, persist, push_publication, push_viewed,
  next_state, commit_next, commit_open, commit, acknowledge_open, acknowledge, turn, run,
}

-- The numbers after `n`, in order.
abbrev pub Consecutive : ℕ → List ℕ → Type 0
Consecutive n [] = Unit
Consecutive n (r ∷ rs) = (r ≡ suc n) × Consecutive r rs

module _ {Content V P : Type 0} where
  push_viewed-revision :
      (state : State Content V P) (content : Content) (events : List (SessionEvent P))
      (viewed : Result V) (next : State Content V P)
      → push_viewed state content events viewed ≡ ok next
      → next.revision ≡ suc state.revision
  unfolding push_viewed push_publication
  push_viewed-revision state content events (err e) next h = ground arith
  push_viewed-revision state content events (ok view) next h = ground arith

  next_state-revision :
      (claude_view : ℕ → Content → Result V) (state : State Content V P)
      (events : List (SessionEvent P)) (mutated : Result Content) (next : State Content V P)
      → next_state claude_view state events mutated ≡ ok next
      → next.revision ≡ suc state.revision
  unfolding next_state
  next_state-revision claude_view state events (err e) next h = ground arith
  next_state-revision claude_view state events (ok c) next h =
      ground (arith, push_viewed-revision state c events (claude_view (suc state.revision) c) next)

  -- A turn hands out nothing and keeps the revision, or hands out the next revision, and then moves
  -- to it or is fenced.
  abbrev Moves : Store Content V P → Store Content V P × List ℕ → Type 0
  Moves s (s', revisions) =
      ((revisions ≡ []) × (s'.current.revision ≡ s.current.revision))
      ⊎ ((revisions ≡ suc s.current.revision ∷ [])
          × ((s'.current.revision ≡ suc s.current.revision) ⊎ (is_some s'.fenced ≡ true)))

  commit_next-Moves :
      (s : Store Content V P) (r : Result (State Content V P)) (written : Option Thrown)
      → ((next : State Content V P) → r ≡ ok next → next.revision ≡ suc s.current.revision)
      → Moves s ((commit_next s r written).0, (commit_next s r written).2)
  unfolding commit_next persist
  commit_next-Moves s (err e) written h = inl (refl, refl)
  commit_next-Moves s (ok state) none h = let e = h state refl in ground arith
  commit_next-Moves s (ok state) (some reason) h = let e = h state refl in ground arith

  commit-Moves :
      (claude_view : ℕ → Content → Result V) (s : Store Content V P)
      (mutate : ℕ → Content → Result Content) (events : List (SessionEvent P))
      (written f : Option Thrown)
      → Moves s (
        (commit_open claude_view s mutate events written f).0,
        (commit_open claude_view s mutate events written f).2,
      )
  unfolding commit_open
  commit-Moves claude_view s mutate events written (some reason) = inl (refl, refl)
  commit-Moves claude_view s mutate events written none =
      let mutated = mutate s.current.revision s.current.content in
      commit_next-Moves s (next_state claude_view s.current events mutated) written
        (next_state-revision claude_view s.current events mutated)

  acknowledge-revision :
      (s : Store Content V P) (n : ℕ) (written f : Option Thrown)
      → (acknowledge_open s n written f).0.current.revision ≡ s.current.revision
  unfolding acknowledge_open persist
  acknowledge-revision s n written (some reason) = refl
  acknowledge-revision s n none none = refl
  acknowledge-revision s n (some reason) none = refl

  turn-Moves :
      (claude_view : ℕ → Content → Result V) (s : Store Content V P) (t : Turn Content P)
      → Moves s (turn claude_view s t)
  unfolding turn commit acknowledge
  turn-Moves claude_view s (commits mutate events written) =
      commit-Moves claude_view s mutate events written s.fenced
  turn-Moves claude_view s (acknowledges n written) =
      inl (refl, acknowledge-revision s n written s.fenced)

  -- A store that is fenced stays so, and hands out nothing.
  commit_open-fenced :
      (claude_view : ℕ → Content → Result V) (s : Store Content V P)
      (mutate : ℕ → Content → Result Content) (events : List (SessionEvent P))
      (written f : Option Thrown)
      → is_some f ≡ true
      → ((commit_open claude_view s mutate events written f).0 ≡ s)
        × ((commit_open claude_view s mutate events written f).2 ≡ [])
  unfolding commit_open
  commit_open-fenced claude_view s mutate events written (some reason) h = (refl, refl)
  commit_open-fenced claude_view s mutate events written none h = ground arith

  acknowledge_open-fenced :
      (s : Store Content V P) (n : ℕ) (written f : Option Thrown)
      → is_some f ≡ true
      → (acknowledge_open s n written f).0 ≡ s
  unfolding acknowledge_open
  acknowledge_open-fenced s n written (some reason) h = refl
  acknowledge_open-fenced s n written none h = ground arith

  turn-fenced :
      (claude_view : ℕ → Content → Result V) (s : Store Content V P) (t : Turn Content P)
      → is_some s.fenced ≡ true
      → ((turn claude_view s t).0 ≡ s) × ((turn claude_view s t).1 ≡ [])
  unfolding turn commit acknowledge
  turn-fenced claude_view s (commits mutate events written) h =
      commit_open-fenced claude_view s mutate events written s.fenced h
  turn-fenced claude_view s (acknowledges n written) h =
      (acknowledge_open-fenced s n written s.fenced h, refl)

  run-fenced :
      (claude_view : ℕ → Content → Result V) (s : Store Content V P) (ts : List (Turn Content P))
      → is_some s.fenced ≡ true
      → (run claude_view s ts).1 ≡ []
  unfolding run
  run-fenced claude_view s [] h = refl
  run-fenced claude_view s (t ∷ ts) h =
      let (same, nothing) = turn-fenced claude_view s t h in
      rw (nothing, same) (run-fenced claude_view s ts h)

  -- However mutations, views and durable writes fail, the revisions of the publications handed to
  -- the disk are consecutive: none is used twice, also where the write that failed had landed.
  pub run-Consecutive :
      (claude_view : ℕ → Content → Result V) (s : Store Content V P) (ts : List (Turn Content P))
      → Consecutive s.current.revision (run claude_view s ts).1
  unfolding run
  run-Consecutive claude_view s [] = tt
  run-Consecutive claude_view s (t ∷ ts) =
      let s' = (turn claude_view s t).0 in
      let later = run-Consecutive claude_view s' ts in
      elim (turn-Moves claude_view s t) [
        | inl (nothing, same) ↦
            rw (nothing) (subst (λ n. Consecutive n (run claude_view s' ts).1) same later)
        | inr (pushed, inl moved) ↦
            rw (pushed) (refl, subst (λ n. Consecutive n (run claude_view s' ts).1) moved later)
        | inr (pushed, inr fenced) ↦ rw (pushed, run-fenced claude_view s' ts fenced) (refl, tt)
      ]
