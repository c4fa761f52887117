-- ===== src/Observations.antt =====
-- src/observability.ts: the observations of a runtime, over a cursor buffer of their own. Bodies and
-- names are lists of UTF-16 code units. What JSON encodes, and how large the text is, is the parameter
-- `json`; random ids and instants come with each call.
pub mod Spans
mod Examples
use cantelop_sdk.Prelude.{
  codes, ℕ, suc, ◌+◌, ◌*◌, String, Bool, true, false, not, ◌&&◌, ◌||◌, Option, none, some, List, [],
  ◌∷◌, ◌++◌, length, any, leb, ltb, ◌==◌, if◌then◌else◌, is_some, Thrown, type_error, Result, ok,
  err, ensure, ◌>>◌, ◌>>=◌,
}
use cantelop_sdk.CursorBuffer
use cantelop_sdk.CursorBuffer.{Limits, Buffer}
use cantelop_sdk.Activity.{Outcome, started, completed, failed, cancellation_requested, cancelled}
use cantelop_sdk.Output.{Json}
use cantelop_sdk.Protocol.Envelopes.{TraceContext}

abbrev pub Units : Type 0
Units = List ℕ

abbrev pub max_observation_bytes : ℕ
max_observation_bytes = 64 * 1024

pub data LogSeverity : Type 0 where
  debug info warn error : LogSeverity

pub data LogSource : Type 0 where
  console stdout stderr : LogSource

pub data SpanStatus : Type 0 where
  ok_status error_status : SpanStatus

pub data LogAttributes : Type 0 where
  automatic : LogSource → LogAttributes
  of_activity : String → String → Outcome → LogAttributes

-- The fields in the source's order; `none` is an absent field.
pub data RuntimeObservation : Type 0 where
  span_started :
      String → Option String → Units → String → List (String × String) → RuntimeObservation
  span_completed : String → SpanStatus → String → RuntimeObservation
  log_recorded :
      String → Option String → LogSeverity → Units → String → LogAttributes → RuntimeObservation

pub record BufferedObservation : Type 0 where
  pub cursor : ℕ
  pub message_id : Option String
  pub observation : RuntimeObservation

pub record ObservationBuffer : Type 0 where
  pub buffer : Buffer BufferedObservation
  pub dropped : ℕ

pub record RuntimeObserver : Type 0 where
  pub message_id : String
  pub trace : Option TraceContext

-- A log record's random id and its instant.
pub record Stamp : Type 0 where
  pub log_id : String
  pub occurred_at : String

pub record SpanStamp : Type 0 where
  pub span_id : String
  pub started_at : String
  pub finished_at : String

abbrev pub observation_limits : Limits
observation_limits = record { max_pending = 256; max_pending_bytes = 1024 * 1024; max_batch = 64 }

abbrev pub new_observations : ObservationBuffer
new_observations = record {
  buffer = CursorBuffer.empty observation_limits "Runtime observation";
  dropped = 0;
}

unserializable : Thrown
unserializable = type_error "Runtime observation must be JSON serializable"

-- `this.trace === undefined ? undefined : this.messageId`.
traced_message : RuntimeObserver → Option String
traced_message o = elim o.trace [ none ↦ none | some trace ↦ some o.message_id ]

-- `/[\0\r\n]/`.
abbrev is_name_break : ℕ → Bool
is_name_break c = c == 0 || c == 13 || c == 10

unfoldable pub validate_name : Units → Result (Unit {0})
validate_name name =
    ensure (leb 1 (length name) && leb (length name) 256 && not (any is_name_break name))
      (type_error "Runtime span name must contain 1-256 characters")

outcome_severity : Outcome → LogSeverity
outcome_severity failed = error
outcome_severity _ = info

outcome_text : Outcome → String
outcome_text started = "started"
outcome_text completed = "completed"
outcome_text failed = "failed"
outcome_text cancellation_requested = "cancellation_requested"
outcome_text cancelled = "cancelled"

module _ {R : Type 0} where
  -- A publication that throws in the `finally` takes the place of the work's outcome.
  finish_outcome : Result Bool → Result R → Result R
  finish_outcome (err e) outcome = err e
  finish_outcome (ok _) outcome = outcome

  status_of : Result R → SpanStatus
  status_of (err e) = error_status
  status_of (ok r) = ok_status

  validated :
      Result (Unit {0})
      → ObservationBuffer × Result R
      → ObservationBuffer
      → ObservationBuffer × Result R
  validated (err e) rest b = (b, err e)
  validated (ok _) rest b = rest

module _ (json : Json RuntimeObservation) where
  unfoldable pub publish_text :
      ObservationBuffer → Option String → Option String → ObservationBuffer × Result Bool
  unfolding unserializable
  publish_text b message_id none = (b, err unserializable)
  publish_text b message_id (some encoded) =
      let bytes = json.byte_length encoded in
      if ltb max_observation_bytes bytes || not (CursorBuffer.has_capacity b.buffer bytes)
      then (record b { dropped = suc b.dropped }, ok false)
      else (
        record b {
          buffer =
              (CursorBuffer.append b.buffer
                (λ cursor. record {
                  cursor = cursor;
                  message_id = message_id;
                  observation = json.parse encoded;
                })
                bytes 0).0;
        },
        ok true,
      )

  unfoldable pub publish_best_effort :
      ObservationBuffer → Option String → RuntimeObservation → ObservationBuffer × Result Bool
  unfolding publish_text
  publish_best_effort b message_id observation = publish_text b message_id (json.encode observation)

  -- `publishRuntimeLog`.
  unfoldable pub publish_runtime_log :
      ObservationBuffer
      → Option String
      → Option String
      → Units
      → LogSeverity
      → LogSource
      → Stamp
      → ObservationBuffer × Result Bool
  publish_runtime_log b message_id span_id body severity source stamp =
      publish_best_effort b message_id
        (log_recorded stamp.log_id span_id severity body stamp.occurred_at (automatic source))

  -- `active_span` is the span of the asynchronous context.
  unfoldable pub record_runtime_log :
      RuntimeObserver
      → Option String
      → ObservationBuffer
      → Units
      → LogSeverity
      → LogSource
      → Stamp
      → ObservationBuffer × Result Bool
  unfolding publish_runtime_log traced_message
  record_runtime_log o active_span b body severity source stamp =
      publish_runtime_log b (traced_message o) (if is_some o.trace then active_span else none) body
        severity source stamp

  pub record_activity :
      RuntimeObserver
      → ObservationBuffer
      → String
      → String
      → Outcome
      → Stamp
      → ObservationBuffer × Result Bool
  unfolding publish_best_effort traced_message outcome_severity outcome_text
  record_activity o b activity_id message_id outcome stamp =
      publish_best_effort b (traced_message o) (
        log_recorded stamp.log_id none (outcome_severity outcome)
          (codes "Activity " ++ codes (outcome_text outcome)) stamp.occurred_at
          (of_activity activity_id message_id outcome))

  module _ {R : Type 0} where
    finish_span :
        RuntimeObserver → SpanStamp → ObservationBuffer × Result R → ObservationBuffer × Result R
    unfolding finish_outcome status_of
    finish_span o stamp (b, outcome) =
        let (b', told) =
          publish_best_effort b (some o.message_id)
            (span_completed stamp.span_id (status_of outcome) stamp.finished_at) in
        (b', finish_outcome told outcome)

    run_started :
        RuntimeObserver
        → SpanStamp
        → (Option String → ObservationBuffer → ObservationBuffer × Result R)
        → ObservationBuffer × Result Bool
        → ObservationBuffer × Result R
    unfolding finish_span
    run_started o stamp work (b, err e) = (b, err e)
    run_started o stamp work (b, ok _) = finish_span o stamp (work (some stamp.span_id) b)

    run_traced :
        RuntimeObserver
        → Option TraceContext
        → Option String
        → Units
        → List (String × String)
        → SpanStamp
        → (Option String → ObservationBuffer → ObservationBuffer × Result R)
        → ObservationBuffer
        → ObservationBuffer × Result R
    unfolding run_started
    run_traced o none active name attributes stamp work b = work active b
    run_traced o (some trace) active name attributes stamp work b = run_started o stamp work (
        publish_best_effort b (some o.message_id)
          (span_started stamp.span_id active name stamp.started_at attributes))

    -- The work is given the active span and the buffer, and hands the buffer back.
    unfoldable pub span :
        RuntimeObserver
        → Option String
        → Units
        → List (String × String)
        → SpanStamp
        → (Option String → ObservationBuffer → ObservationBuffer × Result R)
        → ObservationBuffer
        → ObservationBuffer × Result R
    unfolding validated run_traced
    span o active name attributes stamp work b =
        validated (validate_name name) (run_traced o o.trace active name attributes stamp work b) b
