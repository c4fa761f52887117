-- ===== src/LogCapture.antt =====
-- src/runtime-log-capture.ts: what is captured of the console and of the standard streams. Text is a
-- list of UTF-16 code units. A capture is seen from one target, an observer or a buffer, with the
-- number of its records that were dropped; `parse` is `JSON.parse`, with `none` where it throws.
pub mod Lines
pub mod Accounting
mod Examples
use cantelop_sdk.Prelude.{
  starts_with, codes, ℕ, zero, suc, ◌+◌, Bool, true, false, not, ◌&&◌, ◌||◌, Option, none, some,
  List, [], ◌∷◌, ◌++◌, length, take, drop, ltb, ◌==◌, if◌then◌else◌, String, Result, ok, err,
}
use cantelop_sdk.Output.{Json}
use cantelop_sdk.Stream.Decimal.{decimal}
use cantelop_sdk.Protocol.Values.{Value, Members, get, as_record, equals}
use cantelop_sdk.Observations.{
  Units, LogSeverity, LogSource, stderr, RuntimeObservation, ObservationBuffer, RuntimeObserver,
  Stamp, publish_runtime_log, record_runtime_log,
}

abbrev pub max_log_body : ℕ
max_log_body = 16384

-- An observer, with the span of the asynchronous context, or a buffer.
pub data Target : Type 0 where
  observer : RuntimeObserver → Option String → Target
  unscoped : Target

pub record Capture : Type 0 where
  pub observations : ObservationBuffer
  pub dropped : ℕ

-- What a record has put into the buffer: its line, or a notice of so many records dropped.
pub data Published : Type 0 where
  line : Units → Published
  notice : ℕ → Published

pub data ConsoleMethod : Type 0 where
  debug log info warn error : ConsoleMethod

-- The table of `patchConsole`, and the severities of `installRuntimeLogCapture`.
unfoldable pub console_severity : ConsoleMethod → LogSeverity
console_severity ConsoleMethod.debug = LogSeverity.debug
console_severity ConsoleMethod.log = LogSeverity.info
console_severity ConsoleMethod.info = LogSeverity.info
console_severity ConsoleMethod.warn = LogSeverity.warn
console_severity ConsoleMethod.error = LogSeverity.error

cons_first : ℕ → List Units → List Units
cons_first c [] = (c ∷ []) ∷ []
cons_first c (l ∷ ls) = (c ∷ l) ∷ ls

-- `body.split(/\n/)`.
unfoldable pub split_lines : Units → List Units
unfolding cons_first
split_lines [] = [] ∷ []
split_lines (c ∷ cs) = let rest = split_lines cs in if c == 10 then [] ∷ rest else cons_first c rest

-- A carriage return at the end leaves.
unfoldable pub strip_return : Units → Units
strip_return [] = []
strip_return (c ∷ []) = if c == 13 then [] else c ∷ []
strip_return (c ∷ d ∷ cs) = c ∷ strip_return (d ∷ cs)

-- The loop over the offsets of a line; its length is fuel enough.
unfoldable pub slices : ℕ → ℕ → Units → List Units
slices zero offset l = []
slices (suc fuel) offset l =
    let rest = slices fuel (offset + max_log_body) l in
    if ltb offset (length l) then take max_log_body (drop offset l) ∷ rest else []

unfoldable pub slice_lines : List Units → List Units
slice_lines [] = []
slice_lines (raw ∷ raws) = let l = strip_return raw in slices (length l) 0 l ++ slice_lines raws

-- An empty line has no slices.
unfoldable pub normalized_lines : Units → List Units
normalized_lines body = slice_lines (split_lines body)

includes : Units → Units → Bool
includes needle [] = starts_with needle []
includes needle (c ∷ cs) = starts_with needle (c ∷ cs) || includes needle cs

is_sdk_event : Option Members → Bool
is_sdk_event none = false
is_sdk_event (some event) =
    equals "cantelop.sdk" (get "component" event)
    && (equals "message_lifecycle" (get "event" event)
        || equals "session_runtime_startup_stage" (get "event" event))

is_stderr : LogSource → Bool
is_stderr stderr = true
is_stderr _ = false

unfoldable pub classify_severity :
    (Units → Option Value) → Units → LogSeverity → LogSource → LogSeverity
unfolding includes is_sdk_event is_stderr
classify_severity parse body fallback source =
    if is_stderr source
      && starts_with (codes "{") body
      && includes (codes "\"cantelop.sdk\"") body
      && is_sdk_event (as_record (parse body))
    then LogSeverity.info
    else fallback

unfoldable pub notice_body : ℕ → Units
notice_body dropped =
    codes "Cantelop dropped "
    ++ decimal dropped
    ++ codes " runtime log record"
    ++ (if dropped == 1 then [] else codes "s")
    ++ codes " because the observation buffer was full"

module _ (json : Json RuntimeObservation) where
  to_target :
      Target
      → ObservationBuffer
      → Units
      → LogSeverity
      → LogSource
      → Stamp
      → ObservationBuffer × Result Bool
  to_target (observer o active_span) b body severity source stamp =
      record_runtime_log json o active_span b body severity source stamp
  to_target unscoped b body severity source stamp =
      publish_runtime_log json b none none body severity source stamp

  -- `try … catch { return false; }`.
  caught : ObservationBuffer × Result Bool → ObservationBuffer × Bool
  caught (b, ok published) = (b, published)
  caught (b, err e) = (b, false)

  unfoldable pub publish :
      Target
      → ObservationBuffer
      → Units
      → LogSeverity
      → LogSource
      → Stamp
      → ObservationBuffer × Bool
  unfolding to_target caught
  publish target b body severity source stamp =
      caught (to_target target b body severity source stamp)

  -- The line behind the notice.
  line_result :
      Capture → Units → List Published → ObservationBuffer × Bool → Capture × List Published
  line_result c body before (b, true) = (record c { observations = b }, before ++ line body ∷ [])
  line_result c body before (b, false) =
      (record { observations = b; dropped = suc c.dropped }, before)

  record_line :
      Target
      → Capture
      → Units
      → LogSeverity
      → LogSource
      → Stamp
      → List Published
      → Capture × List Published
  unfolding line_result
  record_line target c body severity source stamp before =
      line_result c body before (publish target c.observations body severity source stamp)

  after_notice :
      Target
      → Capture
      → Units
      → LogSeverity
      → LogSource
      → Stamp
      → ObservationBuffer × Bool
      → Capture × List Published
  unfolding record_line
  after_notice target c body severity source stamp (b, true) =
      record_line target (record { observations = b; dropped = 0 }) body severity source stamp
        (notice c.dropped ∷ [])
  after_notice target c body severity source stamp (b, false) =
      (record { observations = b; dropped = suc c.dropped }, [])

  unfoldable pub record_log :
      Target → Capture → Units → LogSeverity → LogSource → Stamp × Stamp → Capture × List Published
  unfolding record_line after_notice
  record_log target c body severity source (notice_stamp, line_stamp) =
      if ltb 0 c.dropped
      then after_notice target c body severity source line_stamp (
          publish target c.observations (notice_body c.dropped) LogSeverity.warn source
            notice_stamp)
      else record_line target c body severity source line_stamp []

  unfoldable pub record_lines :
      (Units → Option Value)
      → Target
      → Capture
      → List Units
      → LogSeverity
      → LogSource
      → (ℕ → Stamp × Stamp)
      → Capture × List Published
  record_lines parse target c [] severity source stamps = (c, [])
  record_lines parse target c (body ∷ bodies) severity source stamps =
      let (c', now) =
        record_log target c body (classify_severity parse body severity source) source
          (stamps (length bodies)) in
      let (c'', later) = record_lines parse target c' bodies severity source stamps in
      (c'', now ++ later)

  -- `capture` for a target that is there, and its early return.
  unfoldable pub capture :
      (Units → Option Value)
      → Bool
      → Target
      → Capture
      → Units
      → LogSeverity
      → LogSource
      → (ℕ → Stamp × Stamp)
      → Capture × List Published
  capture parse suppressed target c raw_body severity source stamps =
      if suppressed
      then (c, [])
      else record_lines parse target c (normalized_lines raw_body) severity source stamps

-- `activeObserver.getStore() ?? soleRuntimeBuffer()`, a buffer by its place in the list.
unfoldable pub choose_target :
    Option (RuntimeObserver × Option String) → List ObservationBuffer → Option Target
choose_target (some (o, span)) buffers = some (observer o span)
choose_target none (b ∷ []) = some unscoped
choose_target none _ = none
