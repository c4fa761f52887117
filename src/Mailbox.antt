-- ===== src/Mailbox.antt =====
-- src/mailbox.ts: the activation-local FIFO mailbox, one turn of the event loop at a time. The state
-- also holds the callbacks that the event loop owes the mailbox: the drains queued as microtasks,
-- the run whose receiver has not settled, the `finally` of a run that ended, and the `then` of each
-- promise that has settled. A promise of `results` is `unsettled` until its one outcome.
pub mod Invariant
pub mod Order
pub mod Once
pub mod Results
pub mod Progress
mod Examples
use Prim.Native.Nat.{◌/◌}
use cantelop_sdk.Prelude.{
  ℕ, zero, suc, ◌+◌, ◌-◌, String, Bool, true, false, ◌||◌, Option, none, some, List, [], ◌∷◌, ◌++◌,
  ◌==◌, if◌then◌else◌, lookup, insert, str_eq,
}

pub data MailboxEvent : Type 0 where
  enqueued : String → ℕ → ℕ → MailboxEvent
  deduplicated : String → MailboxEvent
  handling : String → ℕ → ℕ → ℕ → MailboxEvent
  handled : String → ℕ → ℕ → MailboxEvent
  failed : String → ℕ → ℕ → MailboxEvent

-- What a turn tells the outside: an observation, or the `stateChanged` callback.
pub data Effect : Type 0 where
  observe : MailboxEvent → Effect
  state_changed : Effect

pub data Promise (O E : Type 0) : Type 0 where
  unsettled : Promise O E
  resolved : O → Promise O E
  rejected : E → Promise O E

pub record Entry : Type 0 where
  pub id : String
  pub sequence : ℕ
  pub enqueued_at : ℕ

-- A run: its entry, and when it started.
pub record Run : Type 0 where
  pub entry : Entry
  pub started_at : ℕ

pub record Mailbox (O E : Type 0) : Type 0 where
  pub results : List (String × Promise O E)
  pub running : Bool
  pub queue : List Entry
  pub pending : ℕ
  pub next_sequence : ℕ
  pub active : Option Run
  pub finishing : Bool
  pub drains : ℕ
  pub settlements : ℕ

abbrev pub microseconds_between : ℕ → ℕ → ℕ
microseconds_between start end = (end - start) / 1000

-- The first entry with the given id, taken out of the queue.
unfoldable pub splice : String → List Entry → Option (Entry × List Entry)
splice id [] = none
splice id (e ∷ es) =
    let rest = splice id es in
    if str_eq e.id id
    then some (e, es)
    else (elim rest [ none ↦ none | some (found, others) ↦ some (found, e ∷ others) ])

-- The turns: calls from outside, and callbacks that the event loop owes. A callback that is not
-- owed does not run.
pub data Turn (O E : Type 0) : Type 0 where
  enqueues : String → ℕ → Turn O E
  cancels : String → E → Turn O E
  drains_once : ℕ → Turn O E
  receiver_settles : Promise O E → ℕ → Turn O E
  finishes : ℕ → Turn O E
  settles : Turn O E

module _ {O E : Type 0} where
  unfoldable pub new_mailbox : Mailbox O E
  new_mailbox = record {
    results = [];
    running = false;
    queue = [];
    pending = 0;
    next_sequence = 1;
    active = none;
    finishing = false;
    drains = 0;
    settlements = 0;
  }

  pub is_idle : Mailbox O E → Bool
  is_idle m = m.pending == 0

  -- A new id joins the queue and owes a drain; a known one changes nothing.
  admit : Mailbox O E → String → ℕ → Option (Promise O E) → Mailbox O E × List Effect
  admit m id now (some _) = (m, observe (deduplicated id) ∷ [])
  admit m id now none = (
    record m {
      results = insert id unsettled m.results;
      queue = m.queue ++ record { id = id; sequence = m.next_sequence; enqueued_at = now } ∷ [];
      pending = suc m.pending;
      next_sequence = suc m.next_sequence;
      drains = suc m.drains;
    },
    state_changed ∷ observe (enqueued id m.next_sequence (suc m.pending)) ∷ [],
  )

  unfoldable pub enqueue : Mailbox O E → String → ℕ → Mailbox O E × List Effect
  unfolding admit
  enqueue m id now = admit m id now (lookup id m.results)

  remove_queued : Mailbox O E → E → Option (Entry × List Entry) → Mailbox O E × Bool
  remove_queued m reason none = (m, false)
  remove_queued m reason (some (e, rest)) = (
    record m {
      results = insert e.id (rejected reason) m.results;
      queue = rest;
      settlements = suc m.settlements;
    },
    true,
  )

  unfoldable pub cancel : Mailbox O E → String → E → Mailbox O E × Bool
  unfolding remove_queued splice
  cancel m id reason = remove_queued m reason (splice id m.queue)

  -- `entry.run()` up to the call of the receiver.
  start_next : Mailbox O E → ℕ → List Entry → Mailbox O E × List Effect
  start_next m now [] = (m, [])
  start_next m now (e ∷ es) = (
    record m { running = true; queue = es; active = some (record { entry = e; started_at = now }) },
    observe (handling e.id e.sequence m.pending (microseconds_between e.enqueued_at now)) ∷ [],
  )

  unfoldable pub drain : Mailbox O E → ℕ → Mailbox O E × List Effect
  unfolding start_next
  drain m now = if m.running then (m, []) else start_next m now m.queue

  abbrev settle_entry : Mailbox O E → Entry → Promise O E → Mailbox O E
  settle_entry m e p = record m {
    results = insert e.id p m.results;
    active = none;
    finishing = true;
    settlements = suc m.settlements;
  }

  -- The rest of `run`, once the receiver has settled.
  finish : Mailbox O E → Option Run → Promise O E → ℕ → Mailbox O E × List Effect
  finish m none p now = (m, [])
  finish m (some r) unsettled now = (m, [])
  finish m (some r) (resolved o) now = (
    settle_entry m r.entry (resolved o),
    observe (handled r.entry.id r.entry.sequence (microseconds_between r.started_at now)) ∷ [],
  )
  finish m (some r) (rejected e) now = (
    settle_entry m r.entry (rejected e),
    observe (failed r.entry.id r.entry.sequence (microseconds_between r.started_at now)) ∷ [],
  )

  settle : Mailbox O E → Mailbox O E × List Effect
  settle m =
      (record m { pending = m.pending - 1; settlements = m.settlements - 1 }, state_changed ∷ [])

  drain_task : Mailbox O E → ℕ → ℕ → Mailbox O E × List Effect
  unfolding drain
  drain_task m zero now = (m, [])
  drain_task m (suc d) now = drain (record m { drains = d }) now

  settle_task : Mailbox O E → ℕ → Mailbox O E × List Effect
  unfolding settle
  settle_task m zero = (m, [])
  settle_task m (suc s) = settle m

  finally_task : Mailbox O E → Bool → ℕ → Mailbox O E × List Effect
  unfolding drain
  finally_task m false now = (m, [])
  finally_task m true now = drain (record m { finishing = false; running = false }) now

  pub turn : Mailbox O E → Turn O E → Mailbox O E × List Effect
  unfolding enqueue cancel drain_task finish finally_task settle_task
  turn m (enqueues id now) = enqueue m id now
  turn m (cancels id reason) = ((cancel m id reason).0, [])
  turn m (drains_once now) = drain_task m m.drains now
  turn m (receiver_settles p now) = finish m m.active p now
  turn m (finishes now) = finally_task m m.finishing now
  turn m settles = settle_task m m.settlements

  pub run : Mailbox O E → List (Turn O E) → Mailbox O E × List Effect
  run m [] = (m, [])
  run m (t ∷ ts) =
      let (m', effects) = turn m t in let (m'', later) = run m' ts in (m'', effects ++ later)
