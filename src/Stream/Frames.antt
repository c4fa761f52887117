-- ===== src/Stream/Frames.antt =====
-- src/stream.ts: the frames of an event stream, `readEvent`, and the refusal of a subscription. The
-- JSON parser and the date parser are parameters; a document is what the code asks of a JSON value.
use cantelop_sdk.Prelude.{
  ℕ, ◌+◌, Bool, not, ◌&&◌, ◌||◌, Option, none, some, List, [], ◌∷◌, ◌++◌, String, ltb, leb, ◌==◌,
  if◌then◌else◌, any, length, take, drop, Number, natural, is_safe_natural, Thrown, remote_error,
  Result, ok, err, ensure, ◌>>◌,
}
use cantelop_sdk.Stream.{Text, max_frame_bytes, line_feed, invalid_stream, text_eq}
use cantelop_sdk.Stream.Decimal.{decimal}
use cantelop_sdk.Stream.Lines.{Line, read_lines}

pub record Cursor : Type 0 where
  pub stream_id : Text
  pub sequence : ℕ

-- The fields of a JSON object; `none` where the field is missing or of another type.
pub record Document (D : Type 0) : Type 0 where
  pub stream_id : Option Text
  pub sequence : Option Number
  pub session_id : Option Text
  pub message_id : Option Text
  pub created_at : Option Text
  pub event_data : Option D
  pub code : Option Text

pub data Json (D : Type 0) : Type 0 where
  object : Document D → Json D
  no_object : Json D

pub record SessionEvent (D : Type 0) : Type 0 where
  pub cursor : Cursor
  pub session_id : Text
  pub message_id : Text
  pub created_at : Text
  pub event_data : D

pub record Frame : Type 0 where
  pub id : Text
  pub event_type : Text
  pub data_lines : List Text
  pub frame_bytes : ℕ
  pub previous : Option Cursor

abbrev is_hex : ℕ → Bool
is_hex c = leb 48 c && leb c 57 || leb 97 c && leb c 102

-- /^[0-9a-f]{32}$/.
abbrev pub is_hex32 : Text → Bool
is_hex32 t = length t == 32 && not (any (λ c. not (is_hex c)) t)

-- MESSAGE_ID_PATTERN.
abbrev pub is_message_id : Text → Bool
is_message_id t = text_eq (take 4 t) (109 ∷ 115 ∷ 103 ∷ 95 ∷ []) && is_hex32 (drop 4 t)

-- `${stream_id}:${sequence}`.
pub cursor_text : Text → ℕ → Text
unfolding decimal
cursor_text stream_id sequence = stream_id ++ 58 ∷ decimal sequence

-- The field before the first colon, and the value behind it without one leading space.
unfoldable pub split_field : Text → Text × Text
split_field [] = ([], [])
split_field (c ∷ cs) =
    let (field, value) = split_field cs in if c == 58 then ([], cs) else (c ∷ field, value)

unfoldable pub strip_space : Text → Text
strip_space [] = []
strip_space (c ∷ cs) = if c == 32 then cs else c ∷ cs

unfoldable pub join_lines : List Text → Text
join_lines [] = []
join_lines (t ∷ ts) = elim ts [ [] ↦ t | u ∷ us ↦ t ++ line_feed ∷ join_lines ts ]

abbrev pub new_frame : Option Cursor → Frame
new_frame previous = record {
  id = [];
  event_type = [];
  data_lines = [];
  frame_bytes = 0;
  previous = previous;
}

abbrev pub event_stream_reset : Thrown
event_stream_reset = remote_error "event_stream_reset" 200

-- An event must follow the one before it, in the same stream.
unfoldable pub check_previous : Option Cursor → Cursor → Result (Unit {0})
check_previous none c = ok tt
check_previous (some p) c = do
  ensure (text_eq p.stream_id c.stream_id) event_stream_reset
  ensure (ltb p.sequence c.sequence) invalid_stream

unfoldable pub comment_or_field : Frame → ℕ → Text → Text → Result Frame
comment_or_field f bytes field value =
    let total = f.frame_bytes + bytes in
    if not (
      text_eq field (105 ∷ 100 ∷ [])
      || text_eq field (101 ∷ 118 ∷ 101 ∷ 110 ∷ 116 ∷ [])
      || text_eq field (100 ∷ 97 ∷ 116 ∷ 97 ∷ []))
    then ok f
    else if ltb max_frame_bytes total
    then err invalid_stream
    else if text_eq field (100 ∷ 97 ∷ 116 ∷ 97 ∷ [])
    then ok (record f { data_lines = f.data_lines ++ value ∷ []; frame_bytes = total })
    else if text_eq field (101 ∷ 118 ∷ 101 ∷ 110 ∷ 116 ∷ [])
    then ok (record f { event_type = value; frame_bytes = total })
    else if any (λ c. c == 0) value
    then ok (record f { frame_bytes = total })
    else ok (record f { id = value; frame_bytes = total })

-- A line that does not end the frame.
unfoldable pub field_line : Frame → Line → Result Frame
unfolding comment_or_field split_field strip_space
field_line f l =
    let (field, value) = split_field l.text in
    elim l.text [
      | [] ↦ ok f
      | c ∷ cs ↦ if c == 58 then ok f else comment_or_field f l.bytes field (strip_space value)
    ]

-- The code of an error document, or the fallback.
unfoldable pub error_code : String → (Text → String) → Option Text → String
error_code fallback show none = fallback
error_code fallback show (some []) = fallback
error_code fallback show (some (c ∷ cs)) = show (c ∷ cs)

module _ {D : Type 0} (valid_date : Text → Bool) where
  unfoldable pub read_fields :
      Option Text
      → Option Number
      → Option Text
      → Option Text
      → Option Text
      → Option D
      → Text
      → Text
      → Result (SessionEvent D)
  unfolding cursor_text
  read_fields (some stream) (some (natural n)) (some session) (some message) (some date) (some d) id
        session_id =
      do
        ensure (is_hex32 stream) invalid_stream
        ensure (is_safe_natural (natural n) && leb 1 n) invalid_stream
        ensure (text_eq session session_id) invalid_stream
        ensure (is_message_id message) invalid_stream
        ensure (text_eq id (cursor_text stream n)) invalid_stream
        ensure (valid_date date) invalid_stream
        ok (record {
          cursor = record { stream_id = stream; sequence = n };
          session_id = session_id;
          message_id = message;
          created_at = date;
          event_data = d;
        })
  read_fields _ _ _ _ _ _ id session_id = err invalid_stream

  unfoldable pub read_event : Json D → Text → Text → Result (SessionEvent D)
  unfolding read_fields
  read_event (object v) id session_id =
      read_fields v.stream_id v.sequence v.session_id v.message_id v.created_at v.event_data id
        session_id
  read_event no_object id session_id = err invalid_stream

  unfoldable pub error_event : (Text → String) → Json D → Thrown
  unfolding error_code
  error_event show (object v) = remote_error (error_code "event_stream_failed" show v.code) 200
  error_event show no_object = remote_error "event_stream_failed" 200

  unfoldable pub delivered : Frame → SessionEvent D → Result (Frame × Option (SessionEvent D))
  unfolding check_previous
  delivered f e = do check_previous f.previous e.cursor; ok (new_frame (some e.cursor), some e)

  unfoldable pub deliver_read :
      Frame → Result (SessionEvent D) → Result (Frame × Option (SessionEvent D))
  unfolding delivered
  deliver_read f (err e) = err e
  deliver_read f (ok e) = delivered f e

  -- The empty line behind a frame that has data.
  unfoldable pub dispatch :
      (Text → String) → Text → Frame → Option (Json D) → Result (Frame × Option (SessionEvent D))
  unfolding read_event deliver_read error_event
  dispatch show session_id f none = err invalid_stream
  dispatch show session_id f (some document) =
      if text_eq f.event_type (101 ∷ 114 ∷ 114 ∷ 111 ∷ 114 ∷ [])
      then err (error_event show document)
      else if not (
          text_eq f.event_type []
          || text_eq f.event_type (109 ∷ 101 ∷ 115 ∷ 115 ∷ 97 ∷ 103 ∷ 101 ∷ []))
      then err invalid_stream
      else deliver_read f (read_event document f.id session_id)

  unfoldable pub without_event : Result Frame → Result (Frame × Option (SessionEvent D))
  without_event (err e) = err e
  without_event (ok f) = ok (f, none)

  unfoldable pub end_frame :
      (Text → Option (Json D))
      → (Text → String)
      → Text
      → Frame
      → List Text
      → Result (Frame × Option (SessionEvent D))
  unfolding dispatch join_lines
  end_frame parse show session_id f [] = ok (new_frame f.previous, none)
  end_frame parse show session_id f (d ∷ ds) =
      dispatch show session_id f (parse (join_lines (d ∷ ds)))

  unfoldable pub frame_text :
      (Text → Option (Json D))
      → (Text → String)
      → Text
      → Frame
      → Line
      → Text
      → Result (Frame × Option (SessionEvent D))
  unfolding end_frame without_event field_line
  frame_text parse show session_id f l [] = end_frame parse show session_id f f.data_lines
  frame_text parse show session_id f l (c ∷ cs) = without_event (field_line f l)

  -- One round of the loop over the lines.
  unfoldable pub frame_line :
      (Text → Option (Json D))
      → (Text → String)
      → Text
      → Frame
      → Line
      → Result (Frame × Option (SessionEvent D))
  unfolding frame_text
  frame_line parse show session_id f l = frame_text parse show session_id f l l.text

  -- The events yielded, and what was thrown after them.
  unfoldable pub yielded :
      Option (SessionEvent D)
      → List (SessionEvent D) × Option Thrown
      → List (SessionEvent D) × Option Thrown
  yielded none rest = rest
  yielded (some e) (es, thrown) = (e ∷ es, thrown)

  unfoldable pub read_frames :
      (Text → Option (Json D))
      → (Text → String)
      → Text
      → Option Thrown
      → Result (Frame × Option (SessionEvent D))
      → List Line
      → List (SessionEvent D) × Option Thrown
  unfolding yielded frame_line
  read_frames parse show session_id end (err e) ls = ([], some e)
  read_frames parse show session_id end (ok (f, event)) [] = yielded event ([], end)
  read_frames parse show session_id end (ok (f, event)) (l ∷ ls) =
      yielded event
        (read_frames parse show session_id end (frame_line parse show session_id f l) ls)

  -- The events of a subscription that was accepted; a partial frame at the end is dropped.
  unfoldable pub stream_events :
      (Text → Option (Json D))
      → (Text → String)
      → Text
      → Option Cursor
      → List (Option Text)
      → List (SessionEvent D) × Option Thrown
  unfolding read_frames
  stream_events parse show session_id after chunks =
      let (lines, whole) = read_lines chunks in
      read_frames parse show session_id (if whole then none else some invalid_stream)
        (ok (new_frame after, none)) lines
