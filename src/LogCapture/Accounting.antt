-- ===== src/LogCapture/Accounting.antt =====
-- src/runtime-log-capture.ts: no captured line goes missing without being counted.
use cantelop_sdk.Prelude.{
  ℕ, ◌+◌, ◌-◌, ◌≡◌, Bool, Option, List, [], ◌∷◌, ◌++◌, length, sum_by, one_if, if◌then◌else◌,
}
use cantelop_sdk.CursorBuffer
use cantelop_sdk.Output.{Json}
use cantelop_sdk.Protocol.Values.{Value}
use cantelop_sdk.Observations.{
  Units, LogSeverity, LogSource, RuntimeObservation, ObservationBuffer, Stamp,
}
use cantelop_sdk.LogCapture.{Target, Capture, Published, line, notice, normalized_lines, capture}

-- How many lines a published record answers for.
abbrev pub answers_for : Published → ℕ
answers_for (line _) = 1
answers_for (notice n) = n

-- The lines told, those told as dropped and those still to be told are all there were; and what was
-- published stands in the buffer, under a cursor of its own.
pub record IsAccounted (lines : ℕ) (c c' : Capture) (told : List Published) : Type 0 where
  pub lines_counted : c'.dropped + sum_by answers_for told ≡ c.dropped + lines
  pub records_appended :
      length c'.observations.buffer.entries ≡ length c.observations.buffer.entries + length told

module _ (json : Json RuntimeObservation) where
  abbrev Stores : ObservationBuffer → ObservationBuffer × Bool → Type 0
  Stores b p = length p.0.buffer.entries ≡ length b.buffer.entries + one_if p.1

  module _ (parse : Units → Option Value) (target : Target) (source : LogSource) where
    -- A text that is captured, or what the rest of the runtime does to the buffer in between.
    pub data Turn : Type 0 where
      captures : Bool → Units → LogSeverity → (ℕ → Stamp × Stamp) → Turn
      elsewhere : (ObservationBuffer → ObservationBuffer) → Turn

    abbrev pub lines_of : Turn → ℕ
    lines_of (captures suppressed body severity stamps) =
        if suppressed then 0 else length (normalized_lines body)
    lines_of (elsewhere change) = 0

    turn : Capture → Turn → Capture × List Published
    turn c (captures suppressed body severity stamps) =
        capture json parse suppressed target c body severity source stamps
    turn c (elsewhere change) = (record c { observations = change c.observations }, [])

    unfoldable pub run : Capture → List Turn → Capture × List Published
    unfolding turn
    run c [] = (c, [])
    run c (t ∷ ts) = let (c', now) = turn c t in let (c'', later) = run c' ts in (c'', now ++ later)

    -- How many records the captures of a history have put into the buffer.
    abbrev pub grown : Turn → Capture → Capture → ℕ
    grown (captures suppressed body severity stamps) c c' =
        length c'.observations.buffer.entries - length c.observations.buffer.entries
    grown (elsewhere change) c c' = 0

    unfoldable pub stored : Capture → List Turn → ℕ
    unfolding turn
    stored c [] = 0
    stored c (t ∷ ts) = grown t c (turn c t).0 + stored (turn c t).0 ts

    -- A turn tells as many records as it stores, and accounts for the lines captured.
    record Told (t : Turn) (c : Capture) (out : Capture × List Published) : Type 0 where
      counted : out.0.dropped + sum_by answers_for out.1 ≡ c.dropped + lines_of t
      kept : grown t c out.0 ≡ length out.1
