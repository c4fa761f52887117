-- ===== src/ClaudeStore.antt =====
-- src/harnesses/claude-durable-state.ts: the store of a Claude Session, from its opening on. `Content`
-- is the state but for its revision and its outbox, which no mutation of the harness touches, and
-- the view of a state is an argument. Operations run one after the other; each is told how its
-- durable write ends, and hands out the publication that the write may have put on disk.
pub mod Fencing
mod Examples
use cantelop_sdk.Prelude.{
  ℕ, zero, suc, ◌+◌, Bool, true, false, not, Option, none, some, List, [], ◌∷◌, ◌++◌, map, filter,
  length, leb, ltb, if◌then◌else◌, Thrown, error, Result, ok, err, ensure, ◌>>◌, ◌>>=◌,
  max_safe_integer,
}

abbrev pub max_publications : ℕ
max_publications = 256

pub data SessionEvent (P : Type 0) : Type 0 where
  claude : P → Option ℕ → SessionEvent P
  fragment : P → Option ℕ → SessionEvent P
  unrevised : P → SessionEvent P

pub record Publication (V P : Type 0) : Type 0 where
  pub revision : ℕ
  pub view : V
  pub events : List (SessionEvent P)

pub record State (Content V P : Type 0) : Type 0 where
  pub revision : ℕ
  pub content : Content
  pub outbox : List (Publication V P)

pub record Store (Content V P : Type 0) : Type 0 where
  pub current : State Content V P
  pub fenced : Option Thrown

abbrev pub with_revision : {P : Type 0} → ℕ → SessionEvent P → SessionEvent P
with_revision n (claude p _) = claude p (some n)
with_revision n (fragment p _) = fragment p (some n)
with_revision n (unrevised p) = unrevised p

pub data Turn (Content P : Type 0) : Type 0 where
  commits : (ℕ → Content → Result Content) → List (SessionEvent P) → Option Thrown → Turn Content P
  acknowledges : ℕ → Option Thrown → Turn Content P

module _ {Content V P : Type 0} where
  -- `persist`: what the write ends with decides between the new state and the fence.
  unfoldable pub persist :
      Store Content V P → State Content V P → Option Thrown → Store Content V P × Result (Unit {0})
  persist s state none = (record s { current = state }, ok tt)
  persist s state (some reason) = (record s { fenced = some reason }, err reason)

  push_publication : State Content V P → Content → V → List (SessionEvent P) → State Content V P
  push_publication state content view events = record {
    revision = suc state.revision;
    content = content;
    outbox =
        state.outbox
        ++ record {
          revision = suc state.revision;
          view = view;
          events = map (with_revision (suc state.revision)) events;
        }
          ∷ [];
  }

  push_viewed :
      State Content V P → Content → List (SessionEvent P) → Result V → Result (State Content V P)
  unfolding push_publication
  push_viewed state content events (err e) = err e
  push_viewed state content events (ok view) = ok (push_publication state content view events)

  -- The transaction of `commit`, before any write.
  unfoldable pub next_state :
      (ℕ → Content → Result V)
      → State Content V P
      → List (SessionEvent P)
      → Result Content
      → Result (State Content V P)
  unfolding push_viewed
  next_state claude_view state events (err e) = err e
  next_state claude_view state events (ok content) = do
    ensure (leb (suc state.revision) max_safe_integer) (error "Claude revision exhausted")
    ensure (ltb (length state.outbox) max_publications) (error "Claude publication capacity")
    push_viewed state content events (claude_view (suc state.revision) content)

  -- The store, the outcome, and the revision of a publication that was handed to the disk.
  commit_next :
      Store Content V P
      → Result (State Content V P)
      → Option Thrown
      → Store Content V P × Result (Unit {0}) × List ℕ
  unfolding persist
  commit_next s (err e) written = (s, err e, [])
  commit_next s (ok state) written =
      let (s', outcome) = persist s state written in (s', outcome, state.revision ∷ [])

  commit_open :
      (ℕ → Content → Result V)
      → Store Content V P
      → (ℕ → Content → Result Content)
      → List (SessionEvent P)
      → Option Thrown
      → Option Thrown
      → Store Content V P × Result (Unit {0}) × List ℕ
  unfolding commit_next next_state
  commit_open claude_view s mutate events written (some reason) = (s, err reason, [])
  commit_open claude_view s mutate events written none =
      commit_next s
        (next_state claude_view s.current events (mutate s.current.revision s.current.content))
        written

  unfoldable pub commit :
      (ℕ → Content → Result V)
      → Store Content V P
      → (ℕ → Content → Result Content)
      → List (SessionEvent P)
      → Option Thrown
      → Store Content V P × Result (Unit {0}) × List ℕ
  unfolding commit_open
  commit claude_view s mutate events written =
      commit_open claude_view s mutate events written s.fenced

  acknowledge_open :
      Store Content V P → ℕ → Option Thrown → Option Thrown → Store Content V P × Result (Unit {0})
  unfolding persist
  acknowledge_open s revision written (some reason) = (s, err reason)
  acknowledge_open s revision written none =
      persist s
        (record (s.current) {
          outbox = filter (λ (p : Publication V P). ltb revision p.revision) s.current.outbox;
        })
        written

  unfoldable pub acknowledge :
      Store Content V P → ℕ → Option Thrown → Store Content V P × Result (Unit {0})
  unfolding acknowledge_open
  acknowledge s revision written = acknowledge_open s revision written s.fenced

  unfoldable pub turn :
      (ℕ → Content → Result V) → Store Content V P → Turn Content P → Store Content V P × List ℕ
  unfolding commit acknowledge
  turn claude_view s (commits mutate events written) =
      let (s', outcome, revisions) = commit claude_view s mutate events written in (s', revisions)
  turn claude_view s (acknowledges revision written) =
      let (s', outcome) = acknowledge s revision written in (s', [])

  unfoldable pub run :
      (ℕ → Content → Result V)
      → Store Content V P
      → List (Turn Content P)
      → Store Content V P × List ℕ
  unfolding turn
  run claude_view s [] = (s, [])
  run claude_view s (t ∷ ts) =
      let (s', now) = turn claude_view s t in
      let (s'', later) = run claude_view s' ts in (s'', now ++ later)
