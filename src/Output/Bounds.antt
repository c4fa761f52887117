-- ===== src/Output/Bounds.antt =====
-- src/output.ts: the buffer of Session output stays within its limits in every history.
use cantelop_sdk.Prelude.{
  ℕ, ◌≤◌, ◌++◌, suc, ◌≡◌, refl, ◌∙◌, String, Bool, true, Option, none, some, List, [], ◌∷◌, ltb,
  length, arith, Number, Thrown, Result, ok, err, Bool-cases, inl, inr,
}
use cantelop_sdk.CursorBuffer
use cantelop_sdk.CursorBuffer.{
  Limits, Entry, Buffer, Outcome, failed, parked, Acknowledged, Read, acknowledge,
  acknowledge_natural, poll, abort_reader, abort_capacity_waiter, has_capacity, wait_for_capacity,
  append,
}
use cantelop_sdk.CursorBuffer.Invariant.{
  IsBounded, append-IsBounded, acknowledge-IsBounded, poll-SameContents,
}
use cantelop_sdk.CursorBuffer.History.{acknowledge-cases}
use cantelop_sdk.CursorBuffer.Log.{Represents, append-Represents}
use cantelop_sdk.Output.{
  Json, OutputEvent, max_event_bytes, output_limits, published, new_output, output_event,
  append_if_room, as_publication, publish_encoded, publish_text, publish,
}

-- What the runtime and the collector do with the buffer, one turn of the event loop each.
pub data Call (V : Type 0) : Type 0 where
  publishes : String → V → Option Thrown → Bool → ℕ → Call V
  polls : ℕ → Option Thrown → Bool → ℕ → Call V
  acknowledges : Number → Call V
  aborts_read : ℕ → Call V
  aborts_publish : ℕ → Call V

append-limits :
    {A : Type 0} (b : Buffer A) (make : ℕ → A) (bytes producer : ℕ)
    → (append b make bytes producer).0.limits ≡ b.limits
unfolding append
append-limits b make bytes producer = refl

acknowledge-limits :
    {A : Type 0} (b : Buffer A) (n : ℕ) → (acknowledge_natural b n).buffer.limits ≡ b.limits
unfolding acknowledge_natural
acknowledge-limits b n = ground arith

module _ {V : Type 0} (json : Json V) where
  after_acknowledge :
      Buffer (OutputEvent V) → Result (Acknowledged (OutputEvent V)) → Buffer (OutputEvent V)
  after_acknowledge b (err e) = b
  after_acknowledge b (ok a) = a.buffer

  pub step : Buffer (OutputEvent V) → Call V → Buffer (OutputEvent V)
  unfolding after_acknowledge
  step b (publishes id event aborted projection producer) =
      (publish json b id event aborted projection producer).0
  step b (polls after aborted wait reader) = (poll b after aborted wait reader).0
  step b (acknowledges after) = after_acknowledge b (acknowledge b after)
  step b (aborts_read reader) = abort_reader b reader
  step b (aborts_publish waiter) = abort_capacity_waiter b waiter

  pub run : Buffer (OutputEvent V) → List (Call V) → Buffer (OutputEvent V)
  run b [] = b
  run b (c ∷ cs) = run (step b c) cs

  pub record Within (b : Buffer (OutputEvent V)) : Type 0 where
    pub limited : b.limits ≡ output_limits
    pub bounded : IsBounded b

  append_if_room-Within :
      (b : Buffer (OutputEvent V)) (make : ℕ → OutputEvent V) (bytes producer : ℕ)
      (aborted : Option Thrown)
      → has_capacity b bytes ≡ true
      → Within b
      → Within (append_if_room json b make bytes aborted producer).0
  unfolding append_if_room
  append_if_room-Within b make bytes producer (some e) h w = w
  append_if_room-Within b make bytes producer none h w = record {
    limited = append-limits b make bytes producer ∙ w.limited;
    bounded = append-IsBounded b make bytes producer h;
  }

  waits-Within :
      (b : Buffer (OutputEvent V)) (bytes producer : ℕ) (aborted : Option Thrown)
      → Within b
      → Within (as_publication json (wait_for_capacity b bytes aborted producer)).0
  unfolding as_publication wait_for_capacity
  waits-Within b bytes producer none w = ground arith
  waits-Within b bytes producer (some e) w = ground arith

  publish_encoded-Within :
      (b : Buffer (OutputEvent V)) (make : ℕ → OutputEvent V) (bytes producer : ℕ)
      (aborted : Option Thrown)
      → Within b
      → Within (publish_encoded json b make bytes aborted producer).0
  unfolding publish_encoded
  publish_encoded-Within b make bytes producer aborted w =
      elim (Bool-cases (has_capacity b bytes)) [
        | inl room ↦ rw room (append_if_room-Within b make bytes producer aborted room w)
        | inr full ↦ rw full (waits-Within b bytes producer aborted w)
      ]

  publish-Within :
      (b : Buffer (OutputEvent V)) (id : String) (text : Option String) (aborted : Option Thrown)
      (projection : Bool) (producer : ℕ)
      → Within b
      → Within (publish_text json b id text aborted projection producer).0
  unfolding publish_text
  publish-Within b id none aborted projection producer w = w
  publish-Within b id (some t) aborted projection producer w =
      elim (Bool-cases (ltb max_event_bytes (json.byte_length t))) [
        | inl large ↦ rw large w
        | inr fits ↦ rw fits (
            publish_encoded-Within b (output_event json id projection t) (json.byte_length t)
              producer aborted w)
      ]

  poll-Within :
      (b : Buffer (OutputEvent V)) (after reader : ℕ) (aborted : Option Thrown) (wait : Bool)
      → Within b
      → Within (poll b after aborted wait reader).0
  poll-Within b after reader aborted wait w =
      ground (arith, poll-SameContents b after reader aborted wait)

  acknowledge-Within :
      (b : Buffer (OutputEvent V)) (x : Number)
      → Within b
      → Within (after_acknowledge b (acknowledge b x))
  unfolding after_acknowledge
  acknowledge-Within b x w = elim (acknowledge-cases b x) [
    | inl (e, refused) ↦ rw refused w
    | inr (n, _, done) ↦ rw done (record {
      limited = acknowledge-limits b n ∙ w.limited;
      bounded = acknowledge-IsBounded b n w.bounded;
    })
  ]

  step-Within : (b : Buffer (OutputEvent V)) (c : Call V) → Within b → Within (step b c)
  unfolding step publish abort_reader abort_capacity_waiter
  step-Within b (publishes id event aborted projection producer) w =
      publish-Within b id (json.encode event) aborted projection producer w
  step-Within b (polls after aborted wait reader) w = poll-Within b after reader aborted wait w
  step-Within b (acknowledges after) w = acknowledge-Within b after w
  step-Within b (aborts_read reader) w = ground arith
  step-Within b (aborts_publish waiter) w = ground arith

  run_from-Within : (b : Buffer (OutputEvent V)) (cs : List (Call V)) → Within b → Within (run b cs)
  unfolding run
  run_from-Within b [] w = w
  run_from-Within b (c ∷ cs) w = run_from-Within (step b c) cs (step-Within b c w)

  new_output-Within : Within (new_output json)
  unfolding new_output CursorBuffer.empty
  new_output-Within = ground arith

  -- Whatever the publishers and the collector do, and in whatever order, the buffer holds at most
  -- 256 events of at most 1 MiB together: every append follows a check in the same turn.
  pub run-Within :
      (cs : List (Call V))
      → (length (run (new_output json) cs).entries ≤ 256)
        × ((run (new_output json) cs).pending_bytes ≤ 1048576)
  run-Within cs =
      let w = run_from-Within (new_output json) cs new_output-Within in ground (arith, w)

  published_encoded :
      (b : Buffer (OutputEvent V)) (log : List (OutputEvent V)) (make : ℕ → OutputEvent V)
      (bytes producer : ℕ) (aborted : Option Thrown) (woken : List ℕ)
      → Represents b log
      → (publish_encoded json b make bytes aborted producer).1 ≡ published woken
      → Represents
          (publish_encoded json b make bytes aborted producer).0
          (log ++ make (suc (length log)) ∷ [])
  unfolding publish_encoded append_if_room as_publication wait_for_capacity
  published_encoded b log make bytes producer (some e) woken r p =
      elim (Bool-cases (has_capacity b bytes)) [
        | inl room ↦ absurd (ground arith)
        | inr full ↦ absurd (ground arith)
      ]
  published_encoded b log make bytes producer none woken r p =
      elim (Bool-cases (has_capacity b bytes)) [
        | inl room ↦ rw room (append-Represents b log make bytes producer r)
        | inr full ↦ absurd (ground arith)
      ]

  published_text :
      (b : Buffer (OutputEvent V)) (log : List (OutputEvent V)) (id : String) (text : Option String)
      (aborted : Option Thrown) (projection : Bool) (producer : ℕ) (woken : List ℕ)
      → Represents b log
      → (publish_text json b id text aborted projection producer).1 ≡ published woken
      → (t : String) × (text ≡ some t)
        × (json.byte_length t ≤ max_event_bytes)
        × Represents
            (publish_text json b id text aborted projection producer).0
            (log ++ output_event json id projection t (suc (length log)) ∷ [])
  unfolding publish_text
  published_text b log id none aborted projection producer woken r p = cc
  published_text b log id (some t) aborted projection producer woken r p =
      elim (Bool-cases (ltb max_event_bytes (json.byte_length t))) [
        | inl large ↦ absurd (ground arith)
        | inr fits ↦ rw fits (
          t,
          refl,
          ground arith,
          published_encoded b log (output_event json id projection t) (json.byte_length t) producer
              aborted woken r (ground arith),
        )
      ]

  -- A published event was serializable and at most 64 KiB, and stands at the end of the log, under
  -- the next cursor, as the value that its text parses to.
  pub publish-Represents :
      (b : Buffer (OutputEvent V)) (log : List (OutputEvent V)) (id : String) (v : V)
      (aborted : Option Thrown) (projection : Bool) (producer : ℕ) (woken : List ℕ)
      → Represents b log
      → (publish json b id v aborted projection producer).1 ≡ published woken
      → (t : String) × (json.encode v ≡ some t)
        × (json.byte_length t ≤ max_event_bytes)
        × Represents
            (publish json b id v aborted projection producer).0
            (log ++ output_event json id projection t (suc (length log)) ∷ [])
  unfolding publish
  publish-Represents b log id v aborted projection producer woken r p =
      published_text b log id (json.encode v) aborted projection producer woken r p

  -- Nothing but the abort signal keeps a serializable event of at most 64 KiB from an empty buffer:
  -- no event is too large to be ever sent.
  pub publish-empty :
      (b : Buffer (OutputEvent V)) (id t : String) (v : V) (projection : Bool) (producer : ℕ)
      → b.limits ≡ output_limits
      → b.entries ≡ []
      → b.pending_bytes ≡ 0
      → json.encode v ≡ some t
      → json.byte_length t ≤ max_event_bytes
      → (publish json b id v none projection producer).1 ≡ published b.readers
  unfolding publish publish_text publish_encoded has_capacity append_if_room append
  publish-empty b id t v projection producer l e z j s = rw (j, publish_text) (ground arith)
