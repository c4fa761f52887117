-- ===== src/Messages.antt =====
-- src/runtime-messages.ts: the reservations and outcomes of a sandbox's messages. Instants are
-- milliseconds (the source keeps them as ISO texts, whose order is that of the instants); the digest
-- and the size of the canonical text are parameters. Each callback of a delivery is a turn of its
-- own: `outcome` when its promise settles, `close` for the `finally` behind it.
pub mod Canonical
pub mod Queries
pub mod Invariant
pub mod Turns
pub mod Lifecycle
pub mod Admission
pub mod Work
pub mod Generations
mod Examples
use cantelop_sdk.Prelude.{
  Number, natural, is_safe_natural, error, ℕ, suc, ◌+◌, ◌-◌, ◌*◌, String, Bool, true, false, ◌&&◌,
  ◌||◌, not, Option, none, some, List, [], ◌∷◌, ◌++◌, map, ltb, leb, ◌==◌, if◌then◌else◌, length,
  lookup, str_eq, Thrown, protocol_error, Result, ok, err, ◌>>=◌, ◌>>◌, ensure, Number, natural,
  negative, other, is_safe_natural,
}
use cantelop_sdk.Protocol.Patterns.{is_prefixed}
use Canonical.{Json, Format, canonical}

pub data State : Type 0 where
  queued running cancelling succeeded failed timed_out : State

pub record Receipt : Type 0 where
  pub sandbox_id : String
  pub message_id : String
  pub attempt_id : Option String
  pub sequence : ℕ
  pub generation : ℕ
  pub accepted_at : ℕ
  pub deadline : ℕ
  pub state : State
  pub cancellation_requested_at : Option ℕ
  pub error_code : Option String
  pub started_at : Option ℕ
  pub settled_at : Option ℕ

-- Where the callbacks of a delivery are: its promise is unsettled, its outcome is written, or the
-- `finally` has run too.
pub data Phase : Type 0 where
  delivering settling closed : Phase

-- `aborted` is the state of the controller; `bytes` is what the callbacks close over.
pub record Reservation (V : Type 0) : Type 0 where
  pub fingerprint : String
  pub receipt : Receipt
  pub aborted : Bool
  pub bytes : ℕ
  pub phase : Phase
  pub reply : Option V

-- What the `enqueue` argument returns, and whether it called `started` before it returned.
pub record Delivery (V : Type 0) : Type 0 where
  pub generation : ℕ
  pub reply : Option V
  pub started : Option ℕ

pub data Deadline : Type 0 where
  absent : Deadline
  unparsable : Deadline
  instant : ℕ → Deadline

pub record Messages (V : Type 0) : Type 0 where
  pub sandbox_id : String
  pub timeout_ms : ℕ
  pub max_messages : ℕ
  pub pending_bytes : ℕ
  pub completion_generation : ℕ
  pub completion_waiters : List ℕ
  pub records : List (String × Reservation V)
  pub unsettled : List String

abbrev pub max_pending_bytes : ℕ
max_pending_bytes = 8 * 1024 * 1024

abbrev pub max_timeout_ms : ℕ
max_timeout_ms = 604800000

abbrev pub deadline_skew_ms : ℕ
deadline_skew_ms = 30000

-- How the canonical text is measured and digested.
pub record Digest : Type 0 where
  pub format : Format
  pub byte_length : String → ℕ
  pub sha256 : String → String

-- `receipt.started_at = …`, with the state unless the controller was aborted.
abbrev pub start_receipt : Bool → ℕ → Receipt → Receipt
start_receipt aborted now r =
    if aborted
    then record r { started_at = some now }
    else record r { started_at = some now; state = running }

abbrev pub start_early : Option ℕ → Receipt → Receipt
start_early none r = r
start_early (some now) r = start_receipt false now r

-- `/^sbx-[0-9a-f]{32}$/`.
abbrev pub is_sandbox_id : String → Bool
is_sandbox_id = is_prefixed "sbx-" 32

pub expires_at : ℕ → ℕ → Deadline → Option ℕ
expires_at now timeout absent = some (now + timeout)
expires_at now timeout unparsable = none
expires_at now timeout (instant t) = some t

pub is_timed_out : Option String → Bool
is_timed_out none = false
is_timed_out (some code) = str_eq code "message_timed_out"

-- The state that a fulfilled promise leaves, and the one that a rejected promise leaves.
unfoldable pub fulfilled_state : Bool → Option String → State
unfolding is_timed_out
fulfilled_state aborted code =
    if not aborted then succeeded else if is_timed_out code then timed_out else failed

unfoldable pub rejected_state : Bool → Option String → State
unfolding is_timed_out
rejected_state aborted code = if aborted && is_timed_out code then timed_out else failed

pub is_cancellable : State → Bool
is_cancellable queued = true
is_cancellable running = true
is_cancellable _ = false

-- The set loses one id.
abbrev pub delete : String → List String → List String
delete id [] = []
delete id (i ∷ is) = let rest = delete id is in if str_eq i id then is else i ∷ rest

module _ {V : Type 0} where
  -- A write through the shared record under an id.
  pub modify :
      String
      → (Reservation V → Reservation V)
      → List (String × Reservation V)
      → List (String × Reservation V)
  modify id f [] = []
  modify id f ((j, r) ∷ rs) =
      let rest = modify id f rs in if str_eq j id then (j, f r) ∷ rs else (j, r) ∷ rest

  unfoldable pub new_messages : String → ℕ → ℕ → Messages V
  new_messages sandbox_id timeout_ms max_messages = record {
    sandbox_id = sandbox_id;
    timeout_ms = timeout_ms;
    max_messages = max_messages;
    pending_bytes = 0;
    completion_generation = 0;
    completion_waiters = [];
    records = [];
    unsettled = [];
  }

  -- The constructor, which throws unless the id and the timeout are valid.
  unfoldable pub create_messages : String → Number → ℕ → Result (Messages V)
  create_messages sandbox_id (natural timeout_ms) max_messages = do
    ensure (is_sandbox_id sandbox_id) (error "CANTELOP_SANDBOX_ID must identify this sandbox")
    ensure
        (is_safe_natural (natural timeout_ms) && leb 1 timeout_ms && leb timeout_ms max_timeout_ms)
        (error "invalid message execution timeout")
    ok (new_messages sandbox_id timeout_ms max_messages)
  create_messages sandbox_id _ max_messages = do
    ensure (is_sandbox_id sandbox_id) (error "CANTELOP_SANDBOX_ID must identify this sandbox")
    err (error "invalid message execution timeout")

  capacity : Messages V → ℕ → Bool
  capacity m bytes =
      ltb (length m.records) m.max_messages && leb (m.pending_bytes + bytes) max_pending_bytes

  check_deadline : Messages V → ℕ → Option ℕ → Result ℕ
  check_deadline m now none = err (protocol_error 400 "invalid_execution_deadline")
  check_deadline m now (some expires) = do
    ensure (ltb now expires && leb expires (now + m.timeout_ms + deadline_skew_ms))
        (protocol_error 400 "invalid_execution_deadline")
    ok expires

  new_receipt : Messages V → String → Option String → ℕ → ℕ → Receipt
  new_receipt m id attempt now expires = record {
    sandbox_id = m.sandbox_id;
    message_id = id;
    attempt_id = attempt;
    sequence = suc (length m.records);
    generation = 0;
    accepted_at = now;
    deadline = expires;
    state = queued;
    cancellation_requested_at = none;
    error_code = none;
    started_at = none;
    settled_at = none;
  }

  reserve : Messages V → String → String → ℕ → Receipt → Delivery V → Messages V × Receipt
  reserve m id fingerprint bytes receipt d =
      let r = record (start_early d.started receipt) { generation = d.generation } in
      (
        record m {
          pending_bytes = m.pending_bytes + bytes;
          unsettled = m.unsettled ++ id ∷ [];
          records =
              m.records
              ++ (
                id,
                record {
                  fingerprint = fingerprint;
                  receipt = r;
                  aborted = false;
                  bytes = bytes;
                  phase = delivering;
                  reply = d.reply;
                },
              )
                ∷ [];
        },
        r,
      )

  -- `admit` after the look-up. `enqueue` is the delivery that the callback would make.
  admit_known :
      Messages V
      → String
      → String
      → ℕ
      → Option (Reservation V)
      → ℕ
      → Deadline
      → Option String
      → Result (Delivery V)
      → Result (Messages V × Receipt)
  admit_known m id fingerprint bytes (some existing) now deadline attempt enqueue = do
    ensure (str_eq existing.fingerprint fingerprint) (protocol_error 409 "message_conflict")
    ok (m, existing.receipt)
  admit_known m id fingerprint bytes none now deadline attempt enqueue = do
    ensure (capacity m bytes) (protocol_error 429 "mailbox_capacity")
    expires ← check_deadline m now (expires_at now m.timeout_ms deadline)
    delivery ← enqueue
    ok (reserve m id fingerprint bytes (new_receipt m id attempt now expires) delivery)

  unfoldable pub admit :
      Digest
      → Messages V
      → String
      → Json
      → ℕ
      → Deadline
      → Option String
      → Result (Delivery V)
      → Result (Messages V × Receipt)
  unfolding admit_known capacity check_deadline new_receipt reserve expires_at
  admit h m id envelope now deadline attempt enqueue =
      admit_known m id (h.sha256 (canonical h.format envelope))
        (h.byte_length (canonical h.format envelope)) (lookup id m.records) now deadline attempt
        enqueue

  -- `started`, called later than `admit`.
  unfoldable pub started : Messages V → String → ℕ → Messages V
  started m id now = record m {
    records =
        modify id (λ r. record r { receipt = start_receipt r.aborted now r.receipt }) m.records;
  }

  set_state : State → Reservation V → Reservation V
  set_state s r = record r { receipt = record (r.receipt) { state = s }; phase = settling }

  write_outcome : Bool → Reservation V → Reservation V
  unfolding set_state
  write_outcome fulfilled r = elim r.phase [
    | delivering ↦
        if fulfilled
        then set_state (fulfilled_state r.aborted r.receipt.error_code) r
        else set_state (rejected_state r.aborted r.receipt.error_code) r
    | _ ↦ r
  ]

  -- The `then` of the delivery's promise.
  unfoldable pub outcome : Messages V → String → Bool → Messages V
  unfolding write_outcome
  outcome m id fulfilled = record m { records = modify id (write_outcome fulfilled) m.records }

  close_reservation : ℕ → Reservation V → Reservation V
  close_reservation now r = record r {
    receipt = record (r.receipt) { settled_at = some now };
    phase = closed;
  }

  close_known : Messages V → String → ℕ → Reservation V → Phase → Messages V × List ℕ
  close_known m id now r settling = (
    record m {
      records = modify id (close_reservation now) m.records;
      unsettled = delete id m.unsettled;
      pending_bytes = m.pending_bytes - r.bytes;
      completion_generation = suc m.completion_generation;
      completion_waiters = [];
    },
    m.completion_waiters,
  )
  close_known m id now r _ = (m, [])

  close_found : Messages V → String → ℕ → Option (Reservation V) → Messages V × List ℕ
  close_found m id now none = (m, [])
  close_found m id now (some r) = close_known m id now r r.phase

  -- The `finally` behind it: returns the waiters woken.
  unfoldable pub close : Messages V → String → ℕ → Messages V × List ℕ
  unfolding close_found close_known close_reservation
  close m id now = close_found m id now (lookup id m.records)

  request_cancellation : String → ℕ → Reservation V → Reservation V
  request_cancellation code now r = record r {
    receipt = record (r.receipt) {
      state = cancelling;
      error_code = some code;
      cancellation_requested_at = some now;
    };
    aborted = true;
  }

  cancel_found :
      Messages V
      → String
      → String
      → ℕ
      → Option (Reservation V)
      → Result (Messages V × Receipt × Bool)
  cancel_found m id code now none = err (protocol_error 404 "message_not_found")
  cancel_found m id code now (some r) =
      if is_cancellable r.receipt.state
      then ok (
        record m { records = modify id (request_cancellation code now) m.records },
        (request_cancellation code now r).receipt,
        true,
      )
      else ok (m, r.receipt, false)

  -- The last part of the result says whether `onCancel` was called.
  unfoldable pub cancel : Messages V → String → String → ℕ → Result (Messages V × Receipt × Bool)
  unfolding cancel_found is_cancellable request_cancellation
  cancel m id code now = cancel_found m id code now (lookup id m.records)
