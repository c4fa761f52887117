-- ===== src/Observations/Spans.antt =====
-- src/observability.ts: how many observations are told, and what becomes of each.
use cantelop_sdk.Prelude.{
  ℕ, suc, ◌+◌, ◌≡◌, refl, String, Bool, true, false, not, ◌||◌, Option, some, List, ltb, arith,
  Bool-cases, Option-cases, inl, inr, is_some, Result, ok, err, if◌then◌else◌,
}
use cantelop_sdk.CursorBuffer
use cantelop_sdk.Output.{Json}
use cantelop_sdk.Observations.{
  Units, RuntimeObservation, ObservationBuffer, RuntimeObserver, SpanStamp, max_observation_bytes,
  validate_name, publish_text, publish_best_effort, span, run_started, finish_span, finish_outcome,
  status_of, span_completed, span_started,
}

-- Every observation so far, counted where it is appended or dropped.
abbrev pub told : ObservationBuffer → ℕ
told b = b.buffer.next_cursor + b.dropped

-- JSON can represent every observation.
abbrev pub Serializable : Json RuntimeObservation → Type 0
Serializable json = (o : RuntimeObservation) → (text : String) × (json.encode o ≡ some text)

module _ (json : Json RuntimeObservation) (serializable : Serializable json) where
  publish_text-told :
      (b : ObservationBuffer) (message_id : Option String) (text : String)
      → (told (publish_text json b message_id (some text)).0 ≡ suc (told b))
        × (stored : Bool) × ((publish_text json b message_id (some text)).1 ≡ ok stored)
  unfolding publish_text CursorBuffer.append
  publish_text-told b message_id text =
      elim (Bool-cases (
        ltb max_observation_bytes (json.byte_length text)
        || not (CursorBuffer.has_capacity b.buffer (json.byte_length text)))) [
          | inl e ↦ rw e (omega arith, false, refl)
          | inr e ↦ rw e (omega arith, true, refl)
        ]

  pub publish-told :
      (b : ObservationBuffer) (message_id : Option String) (o : RuntimeObservation)
      → (told (publish_best_effort json b message_id o).0 ≡ suc (told b))
        × (stored : Bool) × ((publish_best_effort json b message_id o).1 ≡ ok stored)
  unfolding publish_best_effort
  publish-told b message_id o =
      let (text, e) = serializable o in rw e (publish_text-told b message_id text)

  module _ {R : Type 0} (o : RuntimeObserver) (stamp : SpanStamp) where
    finish_span-told :
        (w : ObservationBuffer × Result R)
        → (told (finish_span json o stamp w).0 ≡ suc (told w.0))
          × ((finish_span json o stamp w).1 ≡ w.1)
    unfolding finish_span finish_outcome
    finish_span-told (b, outcome) =
        let end = span_completed stamp.span_id (status_of outcome) stamp.finished_at in
        let (counted, stored, e) = publish-told b (some o.message_id) end in (counted, rw e)

    -- Work that tells so many observations, wherever it runs.
    abbrev pub Tells :
        ℕ → (Option String → ObservationBuffer → ObservationBuffer × Result R) → Type 0
    Tells n work =
        (active : Option String) (b : ObservationBuffer) → told (work active b).0 ≡ told b + n

    run_started-told :
        (n : ℕ) (work : Option String → ObservationBuffer → ObservationBuffer × Result R)
        → Tells n work
        → (p : ObservationBuffer × Result Bool) (stored : Bool) → p.1 ≡ ok stored
        → (told (run_started json o stamp work p).0 ≡ told p.0 + n + 1)
          × ((run_started json o stamp work p).1 ≡ (work (some stamp.span_id) p.0).1)
    unfolding run_started
    run_started-told n work tells (b, err e) stored h = cc
    run_started-told n work tells (b, ok _) stored h =
        let (counted, e) = finish_span-told (work (some stamp.span_id) b) in
        (omega (arith, counted, tells (some stamp.span_id) b), e)

    -- A span whose name is valid runs its work with its own id as the active span, behind one observation
    -- and before another, and ends as the work does; without a trace it is just the work.
    pub span-told :
        (n : ℕ) (active : Option String) (name : Units) (attributes : List (String × String))
        (work : Option String → ObservationBuffer → ObservationBuffer × Result R)
        (b : ObservationBuffer)
        → Tells n work
        → validate_name name ≡ ok tt
        → (told (span json o active name attributes stamp work b).0
            ≡ told b + n + (if is_some o.trace then 2 else 0))
          × (id : Option String) × (b' : ObservationBuffer) × (id
              ≡ (if is_some o.trace then some stamp.span_id else active))
          × (told b' ≡ told b + (if is_some o.trace then 1 else 0))
          × ((span json o active name attributes stamp work b).1 ≡ (work id b').1)
    unfolding span
    span-told n active name attributes work b tells valid = elim (Option-cases o.trace) [
      | inl e ↦ rw (valid, e) (omega (arith, tells active b), active, b, refl, omega arith, refl)
      | inr (trace, e) ↦
          let begin =
            publish_best_effort json b (some o.message_id)
              (span_started stamp.span_id active name stamp.started_at attributes) in
          let (counted, stored, kept) =
            publish-told b (some o.message_id)
              (span_started stamp.span_id active name stamp.started_at attributes) in
          let (after, same) = run_started-told n work tells begin stored kept in
          rw (valid, e)
            (
              omega (arith, after, counted),
              some stamp.span_id,
              begin.0,
              refl,
              omega (arith, counted),
              same,
            )
    ]
