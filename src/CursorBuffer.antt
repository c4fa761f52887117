-- ===== src/CursorBuffer.antt =====
-- src/cursor-buffer.ts: the bounded, cursor-addressed handoff from runtime code to a poller.
-- Parked promises are named by numbers; `settle` is the number of the producer that the entry's
-- callback settles. An operation returns the new buffer, and what it settles and wakes.
pub mod Invariant
pub mod Log
pub mod History
pub mod Reading
mod Examples
use Prim.Native.String.{◌++◌ as str_append}
use cantelop_sdk.Prelude.{
  ℕ, suc, ◌+◌, ◌-◌, max, String, Bool, true, false, ◌&&◌, ◌||◌, not, Option, none, some, List, [],
  ◌∷◌, ◌++◌, map, ltb, leb, ◌==◌, if◌then◌else◌, length, take, drop, filter, Number, natural,
  negative, other, is_safe_natural, Thrown, type_error, range_error, Result, ok, err, ◌>>=◌, ◌>>◌,
  ensure,
}

pub record Limits : Type 0 where
  pub max_pending : ℕ
  pub max_pending_bytes : ℕ
  pub max_batch : ℕ

pub record Metadata : Type 0 where
  pub acknowledged : ℕ
  pub earliest : ℕ
  pub latest : ℕ

pub record Entry {ℓ} (A : Type ℓ) : Type ℓ where
  pub cursor : ℕ
  pub value : A
  pub bytes : ℕ
  pub settle : ℕ

pub record Buffer {ℓ} (A : Type ℓ) : Type ℓ where
  pub limits : Limits
  pub label : String
  pub entries : List (Entry A)
  pub readers : List ℕ
  pub capacity_waiters : List ℕ
  pub next_cursor : ℕ
  pub acknowledged : ℕ
  pub delivered : ℕ
  pub pending_bytes : ℕ

-- How a read ends for now: with a batch, with an error, or parked until `append` wakes it.
pub data Outcome {ℓ} (A : Type ℓ) : Type ℓ where
  batch : List A → Outcome A
  failed : Thrown → Outcome A
  parked : Outcome A

-- What `acknowledge` does besides the new buffer.
pub record Acknowledged {ℓ} (A : Type ℓ) : Type ℓ where
  pub buffer : Buffer A
  pub settled : List ℕ
  pub woken : List ℕ

pub record Read {ℓ} (A : Type ℓ) : Type ℓ where
  pub buffer : Buffer A
  pub settled : List ℕ
  pub woken : List ℕ
  pub outcome : Outcome A

abbrev pub without : ℕ → List ℕ → List ℕ
without n = filter λ m. not (m == n)

module _ {ℓ} {A : Type ℓ} where
  unfoldable pub empty : Limits → String → Buffer A
  empty l name = record {
    limits = l;
    label = name;
    entries = [];
    readers = [];
    capacity_waiters = [];
    next_cursor = 1;
    acknowledged = 0;
    delivered = 0;
    pending_bytes = 0;
  }

  unfoldable pub has_capacity : Buffer A → ℕ → Bool
  has_capacity b bytes =
      ltb (length b.entries) b.limits.max_pending
      && leb (b.pending_bytes + bytes) b.limits.max_pending_bytes

  park_waiter : Buffer A → Option Thrown → ℕ → Buffer A × Option (Outcome A)
  park_waiter b (some reason) waiter = (b, some (failed reason))
  park_waiter b none waiter =
      (record b { capacity_waiters = b.capacity_waiters ++ waiter ∷ [] }, some parked)

  -- One round of the loop in `waitForCapacity`; `none` means that the caller may go on.
  unfoldable pub wait_for_capacity :
      Buffer A → ℕ → Option Thrown → ℕ → Buffer A × Option (Outcome A)
  unfolding park_waiter
  wait_for_capacity b bytes aborted waiter =
      if has_capacity b bytes then (b, none) else park_waiter b aborted waiter

  -- The `abort` listener of a parked `waitForCapacity`.
  unfoldable pub abort_capacity_waiter : Buffer A → ℕ → Buffer A
  abort_capacity_waiter b waiter = record b { capacity_waiters = without waiter b.capacity_waiters }

  -- Returns the readers woken: `ready` takes each out of the set.
  unfoldable pub append : Buffer A → (ℕ → A) → ℕ → ℕ → Buffer A × List ℕ
  append b make bytes settle = (
    record b {
      entries =
          b.entries
          ++ record {
            cursor = b.next_cursor;
            value = make b.next_cursor;
            bytes = bytes;
            settle = settle;
          }
            ∷ [];
      next_cursor = suc b.next_cursor;
      pending_bytes = b.pending_bytes + bytes;
      readers = [];
    },
    b.readers,
  )

  -- The loop of `acknowledge`: entries leave from the head, and settle their producers in order.
  unfoldable pub shift_through : ℕ → List (Entry A) → List (Entry A) × List ℕ × ℕ
  shift_through after [] = ([], [], 0)
  shift_through after (e ∷ es) =
      let rest = shift_through after es in
      if leb e.cursor after then (rest.0, e.settle ∷ rest.1, e.bytes + rest.2) else (e ∷ es, [], 0)

  wake_if_removed : Buffer A → List ℕ → Acknowledged A
  wake_if_removed b [] = record { buffer = b; settled = []; woken = [] }
  wake_if_removed b (s ∷ ss) = record {
    buffer = record b { capacity_waiters = [] };
    settled = s ∷ ss;
    woken = b.capacity_waiters;
  }

  unfoldable pub acknowledge_natural : Buffer A → ℕ → Acknowledged A
  unfolding shift_through wake_if_removed
  acknowledge_natural b after =
      let (entries, settled, bytes) = shift_through after b.entries in
      wake_if_removed
        (record b {
          acknowledged = max b.acknowledged after;
          entries = entries;
          pending_bytes = b.pending_bytes - bytes;
        })
        settled

  unfoldable pub acknowledge : Buffer A → Number → Result (Acknowledged A)
  unfolding acknowledge_natural
  acknowledge b (natural n) = do
    ensure (is_safe_natural (natural n) && leb n b.delivered) (range_error "invalid_acknowledgment")
    ok (acknowledge_natural b n)
  acknowledge b (negative _) = err (range_error "invalid_acknowledgment")
  acknowledge b other = err (range_error "invalid_acknowledgment")

  last_cursor : ℕ → List (Entry A) → ℕ
  last_cursor d [] = d
  last_cursor d (e ∷ es) = last_cursor e.cursor es

  start_offset : List (Entry A) → ℕ → ℕ
  start_offset [] after = 0
  start_offset (first ∷ _) after = after + 1 - first.cursor

  deliver : Buffer A → Bool → ℕ → List (Entry A) → Buffer A × Outcome A
  deliver b true reader [] = (record b { readers = b.readers ++ reader ∷ [] }, parked)
  deliver b false reader [] = (b, batch [])
  deliver b wait reader (e ∷ es) = (
    record b { delivered = max b.delivered (last_cursor 0 (e ∷ es)) },
    batch (map (λ (x : Entry A). x.value) (e ∷ es)),
  )

  -- One round of the loop in `read`: run at the call, and again by a reader that was woken.
  unfoldable pub poll : Buffer A → ℕ → Option Thrown → Bool → ℕ → Buffer A × Outcome A
  unfolding start_offset deliver last_cursor
  poll b after (some reason) wait reader = (b, failed reason)
  poll b after none wait reader =
      deliver b wait reader
        (take b.limits.max_batch (drop (start_offset b.entries after) b.entries))

  pub with_poll : Acknowledged A → ℕ → Option Thrown → Bool → ℕ → Read A
  with_poll a after aborted wait reader =
      let (buffer, outcome) = poll a.buffer after aborted wait reader in
      record { buffer = buffer; settled = a.settled; woken = a.woken; outcome = outcome }

  invalid_cursor : Buffer A → Thrown
  invalid_cursor b = type_error (str_append b.label " cursor must be a non-negative integer")

  -- The guards of `read`, in the source's order.
  unfoldable pub check_cursor : Buffer A → Number → Result ℕ
  unfolding invalid_cursor
  check_cursor b (natural n) = do
    ensure (is_safe_natural (natural n)) (invalid_cursor b)
    ensure (leb n (b.next_cursor - 1)) (range_error "cursor_ahead")
    ensure (leb b.acknowledged n) (range_error "cursor_expired")
    ok n
  check_cursor b (negative _) = err (invalid_cursor b)
  check_cursor b other = err (invalid_cursor b)

  pub read : Buffer A → Number → Option Thrown → Bool → Bool → ℕ → Result (Read A)
  read b after aborted wait acknowledges reader = do
    n ← check_cursor b after
    a ←
        if acknowledges
        then acknowledge b (natural n)
        else ok (record { buffer = b; settled = []; woken = [] })
    ok (with_poll a n aborted wait reader)

  -- The `abort` listener of a parked read.
  unfoldable pub abort_reader : Buffer A → ℕ → Buffer A
  abort_reader b reader = record b { readers = without reader b.readers }

  earliest_cursor : ℕ → List (Entry A) → ℕ
  earliest_cursor next [] = next
  earliest_cursor next (e ∷ _) = e.cursor

  unfoldable pub metadata : Buffer A → Metadata
  unfolding earliest_cursor
  metadata b = record {
    acknowledged = b.acknowledged;
    earliest = earliest_cursor b.next_cursor b.entries;
    latest = b.next_cursor - 1;
  }
