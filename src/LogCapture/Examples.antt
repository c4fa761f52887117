-- ===== src/LogCapture/Examples.antt =====
-- src/runtime-log-capture.ts: lines that meet a full buffer, and a notice when there is room again.
use cantelop_sdk.Prelude.{
  codes, ℕ, ◌≡◌, refl, String, false, none, some, List, [], ◌∷◌, All, Option,
}
use cantelop_sdk.Output.{Json}
use cantelop_sdk.CursorBuffer
use cantelop_sdk.Protocol.Values.{Value}
use cantelop_sdk.Observations.{
  Units, RuntimeObservation, log_recorded, automatic, LogSeverity, LogSource, ObservationBuffer,
  Stamp, new_observations, publish_runtime_log, publish_best_effort,
}
use cantelop_sdk.LogCapture.{
  unscoped, Capture, line, notice, normalized_lines, split_lines, slice_lines, slices, strip_return,
  capture, record_lines, record_log, publish, classify_severity,
}
use cantelop_sdk.LogCapture.Lines.{concat, without_breaks, IsSlice, normalized_lines_lem}
use cantelop_sdk.LogCapture.Accounting.{Turn, captures, elsewhere, run}

abbrev as_json : Json RuntimeObservation
as_json = record {
  encode = λ o. some "{}";
  byte_length = λ s. 400;
  parse = λ s.
      log_recorded "log_1" none LogSeverity.info (codes "hi") "now" (automatic LogSource.console);
}

abbrev parse : Units → Option Value
parse body = none

abbrev stamps : ℕ → Stamp × Stamp
stamps n = (
  record { log_id = "log_1"; occurred_at = "now" },
  record { log_id = "log_2"; occurred_at = "now" },
)

abbrev begun : Capture
begun = record { observations = new_observations; dropped = 0 }

-- The rest of the runtime lets the buffer run full, and a poller empties it.
abbrev fill : ObservationBuffer → ObservationBuffer
fill b = record b { buffer = record (b.buffer) { pending_bytes = 1048576 } }

abbrev clear : ObservationBuffer → ObservationBuffer
clear b = record b { buffer = record (b.buffer) { pending_bytes = 0 } }

abbrev said : String → Turn as_json parse unscoped LogSource.console
said s = captures false (codes s) LogSeverity.info stamps

abbrev history : List (Turn as_json parse unscoped LogSource.console)
history = said "one\n" ∷ elsewhere fill ∷ said "two\nthree\n" ∷ elsewhere clear ∷ said "four" ∷ []

two_are_told_of :
    (run as_json parse unscoped LogSource.console begun history).1
    ≡ line (codes "one") ∷ notice 2 ∷ line (codes "four") ∷ []
unfolding run capture normalized_lines split_lines slice_lines slices strip_return record_lines
    record_log publish publish_runtime_log publish_best_effort classify_severity
    CursorBuffer.has_capacity CursorBuffer.append CursorBuffer.empty
two_are_told_of = refl

normalized_lines_lem_example :
    (concat (normalized_lines (codes "a\r\n\nb")) ≡ without_breaks (codes "a\r\n\nb"))
    × All IsSlice (normalized_lines (codes "a\r\n\nb"))
normalized_lines_lem_example = normalized_lines_lem (codes "a\r\n\nb")
