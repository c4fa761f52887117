-- ===== src/Observations/Examples.antt =====
-- src/observability.ts: a traced span around one log record.
use cantelop_sdk.Prelude.{
  codes, ◌+◌, ◌≡◌, refl, String, Bool, Option, none, some, [], arith, Result,
}
use cantelop_sdk.Output.{Json}
use cantelop_sdk.CursorBuffer
use cantelop_sdk.Observations.{
  RuntimeObservation, log_recorded, automatic, LogSeverity, LogSource, ObservationBuffer,
  RuntimeObserver, SpanStamp, new_observations, publish_best_effort, validate_name, span,
}
use cantelop_sdk.Observations.Spans.{Serializable, Tells, told, publish-told, span-told}

abbrev logged : RuntimeObservation
logged = log_recorded "log_1" none LogSeverity.info (codes "hi") "now" (automatic LogSource.console)

abbrev as_json : Json RuntimeObservation
as_json = record { encode = λ o. some "{}"; byte_length = λ s. 400; parse = λ s. logged }

all_serializable : Serializable as_json
all_serializable o = ("{}", refl)

abbrev observer : RuntimeObserver
observer = record {
  message_id = "m1";
  trace = some (record {
    attempt_id = "a1";
    attempt = 1;
    request_id = none;
    parent = record { trace_id = "t1"; span_id = "s0" };
  });
}

abbrev stamp : SpanStamp
stamp = record { span_id = "s1"; started_at = "then"; finished_at = "now" }

logs_once : Option String → ObservationBuffer → ObservationBuffer × Result Bool
logs_once active b = publish_best_effort as_json b (some "m1") logged

logs_once-Tells : Tells as_json all_serializable {R = Bool} observer stamp 1 logs_once
unfolding logs_once
logs_once-Tells active b =
    let (counted, _, _) = publish-told as_json all_serializable b (some "m1") logged in
    omega (arith, counted)

three_told :
    told (span as_json observer none (codes "work") [] stamp logs_once new_observations).0 ≡ 4
unfolding span logs_once publish_best_effort CursorBuffer.has_capacity CursorBuffer.append
    CursorBuffer.empty validate_name
three_told = refl

greeting_told :
    (told (span as_json observer none (codes "work") [] stamp logs_once new_observations).0
      ≡ told new_observations + 1 + 2)
    × (id : Option String) × (b' : ObservationBuffer) × (id ≡ some "s1")
    × (told b' ≡ told new_observations + 1)
    × ((span as_json observer none (codes "work") [] stamp logs_once new_observations).1
        ≡ (logs_once id b').1)
greeting_told =
    span-told as_json all_serializable observer stamp 1 none (codes "work") [] logs_once
      new_observations logs_once-Tells (unfold validate_name in refl)
