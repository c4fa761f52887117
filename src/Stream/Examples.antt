-- ===== src/Stream/Examples.antt =====
-- src/stream.ts: the theorems at concrete streams. The parser answers one document for every text.
use cantelop_sdk.Prelude.{
  ℕ, zero, suc, ◌≡◌, refl, ◌++◌, true, false, Option, none, some, [], ◌∷◌, All, natural,
}
use cantelop_sdk.Stream.{Text}
use cantelop_sdk.Stream.Lines.{Reader, new_reader, scan, read_lines}
use cantelop_sdk.Stream.Chunks.{concat, decoded, read_lines-concat}
use cantelop_sdk.Stream.Normal.{IsLine, unlines, normalize, scan_lem}
use cantelop_sdk.Stream.Frames.{Cursor, Document, Json, object, stream_events}
use cantelop_sdk.Stream.Ordered.{Ordered, stream_events-Ordered}

-- "ab", CR | LF, "c".
abbrev first : Text
first = 97 ∷ 98 ∷ 13 ∷ []

abbrev second : Text
second = 10 ∷ 99 ∷ []

abbrev end : Reader
end = record { pending = 99 ∷ []; pending_bytes = 1; skip_lf = false }

two_lines :
    read_lines (decoded (first ∷ second ∷ []))
    ≡ (record { text = 97 ∷ 98 ∷ []; bytes = 2 } ∷ record { text = 99 ∷ []; bytes = 1 } ∷ [], true)
unfolding read_lines
two_lines = refl

read_lines-concat_example :
    read_lines (decoded (first ∷ second ∷ []))
    ≡ read_lines (decoded (concat (first ∷ second ∷ []) ∷ []))
read_lines-concat_example = read_lines-concat first (second ∷ [])

scan_lem_example :
    All IsLine (scan new_reader [] (first ++ second)).lines
    × (unlines (scan new_reader [] (first ++ second)).lines ++ end.pending
        ≡ normalize false (first ++ second))
unfolding scan
scan_lem_example = scan_lem (first ++ second) end refl

abbrev zeros : ℕ → Text
zeros zero = []
zeros (suc n) = 48 ∷ zeros n

abbrev stream : Text
stream = zeros 32

abbrev document : Document ℕ
document = record {
  stream_id = some stream;
  sequence = some (natural 7);
  session_id = some (115 ∷ []);
  message_id = some (109 ∷ 115 ∷ 103 ∷ 95 ∷ stream);
  created_at = some [];
  event_data = some 5;
  code = none;
}

abbrev parse : Text → Option (Json ℕ)
parse t = some (object document)

-- "id:", the cursor, LF, "data:x", LF, LF.
abbrev event_chunk : Text
event_chunk =
    105 ∷ 100 ∷ 58 ∷ (stream ++ 58 ∷ 55 ∷ 10 ∷ 100 ∷ 97 ∷ 116 ∷ 97 ∷ 58 ∷ 120 ∷ 10 ∷ 10 ∷ [])

abbrev before : Cursor
before = record { stream_id = stream; sequence = 6 }

one_event :
    (stream_events (λ t. true) parse (λ t. "") (115 ∷ []) (some before) (some event_chunk ∷ [])) ≡ (
      record {
        cursor = record { stream_id = stream; sequence = 7 };
        session_id = 115 ∷ [];
        message_id = 109 ∷ 115 ∷ 103 ∷ 95 ∷ stream;
        created_at = [];
        event_data = 5;
      }
          ∷ [],
      none,
    )
unfolding stream_events read_lines cantelop_sdk.Stream.text_eq
one_event = refl

stream_events-Ordered_example :
    Ordered
      (λ t. true)
      (115 ∷ [])
      (some before)
      (stream_events (λ t. true) parse (λ t. "") (115 ∷ []) (some before) (some event_chunk ∷ [])).0
stream_events-Ordered_example =
    stream_events-Ordered (λ t. true) parse (λ t. "") (115 ∷ []) (some before)
      (some event_chunk ∷ [])
