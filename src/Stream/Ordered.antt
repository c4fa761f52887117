-- ===== src/Stream/Ordered.antt =====
-- src/stream.ts: the events of a subscription follow each other in one stream.
use cantelop_sdk.Prelude.{
  ℕ, ◌≤◌, ◌<◌, ◌≡◌, ◌⊎◌, refl, subst, String, Bool, true, Option, none, some, List, [], ◌∷◌,
  if◌then◌else◌, arith, Thrown, Result, ok, err, Number, natural, inl, inr,
}
use cantelop_sdk.Stream.{Text, text_eq, invalid_stream}
use cantelop_sdk.Stream.Lines.{Line, read_lines}
use cantelop_sdk.Stream.Frames.{
  Cursor, Json, object, no_object, SessionEvent, Frame, new_frame, check_previous, field_line,
  read_fields, read_event, delivered, deliver_read, dispatch, end_frame, frame_text, without_event,
  frame_line, read_frames, stream_events, is_hex32, is_message_id, comment_or_field, split_field,
  strip_space, join_lines,
}

list-cases : {A : Type 0} (xs : List A) → (xs ≡ []) ⊎ ((x : A) × (rest : List A) × (xs ≡ x ∷ rest))
list-cases [] = inl refl
list-cases (x ∷ xs) = inr (x, xs, refl)

-- A cursor after another: in the same stream, and later.
abbrev pub Follows : Option Cursor → Cursor → Type 0
Follows none c = Unit
Follows (some p) c = (text_eq p.stream_id c.stream_id ≡ true) × (p.sequence < c.sequence)

comment_or_field-previous :
    (f : Frame) (bytes : ℕ) (field value : Text) (f' : Frame)
    → comment_or_field f bytes field value ≡ ok f'
    → f'.previous ≡ f.previous
unfolding comment_or_field
comment_or_field-previous f bytes field value f' h = ground arith

field_line-previous :
    (f : Frame) (l : Line) (f' : Frame) → field_line f l ≡ ok f' → f'.previous ≡ f.previous
unfolding field_line
field_line-previous f l f' h =
    let (field, value) = split_field l.text in
    let moved = comment_or_field-previous f l.bytes field (strip_space value) f' in
    elim (list-cases l.text) [ inl empty ↦ ground arith | inr (c, cs, e) ↦ ground arith ]

module _ {D : Type 0} (valid_date : Text → Bool) where
  -- What is checked of each event.
  pub record Valid (session_id : Text) (e : SessionEvent D) : Type 0 where
    pub own : e.session_id ≡ session_id
    pub positive : 1 ≤ e.cursor.sequence
    pub stream_form : is_hex32 e.cursor.stream_id ≡ true
    pub message_form : is_message_id e.message_id ≡ true
    pub dated : valid_date e.created_at ≡ true

  -- Each event follows the one before it, the first one the given cursor.
  abbrev pub Ordered : Text → Option Cursor → List (SessionEvent D) → Type 0
  Ordered session_id previous [] = Unit
  Ordered session_id previous (e ∷ es) =
      Follows previous e.cursor × (Valid session_id e × Ordered session_id (some e.cursor) es)

  read_fields-Valid :
      (a : Option Text) (b : Option Number) (c d e : Option Text) (x : Option D)
      (id session_id : Text) (event : SessionEvent D)
      → read_fields valid_date a b c d e x id session_id ≡ ok event
      → Valid session_id event
  unfolding read_fields
  read_fields-Valid (some a) (some (natural n)) (some c) (some d) (some e) (some x) id session_id
        event h =
      ground arith
  read_fields-Valid _ _ _ _ _ _ id session_id event h = ground arith

  read_event-Valid :
      (v : Json D) (id session_id : Text) (event : SessionEvent D)
      → read_event valid_date v id session_id ≡ ok event
      → Valid session_id event
  unfolding read_event
  read_event-Valid (object v) id session_id event h =
      read_fields-Valid v.stream_id v.sequence v.session_id v.message_id v.created_at v.event_data
        id session_id event h
  read_event-Valid no_object id session_id event h = ground arith

  -- What a round of the loop leaves, by the cursor before it.
  Good : Text → Option Cursor → Result (Frame × Option (SessionEvent D)) → Type 0
  Good session_id previous (err e) = Unit
  Good session_id previous (ok (f, none)) = f.previous ≡ previous
  Good session_id previous (ok (f, some e)) =
      Follows previous e.cursor × (Valid session_id e × (f.previous ≡ some e.cursor))

  delivered-Good :
      (session_id : Text) (f : Frame) (e : SessionEvent D) (p : Option Cursor)
      → f.previous ≡ p
      → Valid session_id e
      → Good session_id p (delivered valid_date f e)
  unfolding Good delivered check_previous
  delivered-Good session_id f e none h v = ground arith
  delivered-Good session_id f e (some p) h v = ground arith

  deliver_read-Good :
      (session_id : Text) (f : Frame) (r : Result (SessionEvent D)) (v : Json D)
      → read_event valid_date v f.id session_id ≡ r
      → Good session_id f.previous (deliver_read valid_date f r)
  unfolding Good deliver_read
  deliver_read-Good session_id f (err e) v h = tt
  deliver_read-Good session_id f (ok e) v h =
      delivered-Good session_id f e f.previous refl (read_event-Valid v f.id session_id e h)

  dispatch-Good :
      (show : Text → String) (session_id : Text) (f : Frame) (document : Option (Json D))
      → Good session_id f.previous (dispatch valid_date show session_id f document)
  unfolding Good dispatch
  dispatch-Good show session_id f none = tt
  dispatch-Good show session_id f (some v) =
      let read = deliver_read-Good session_id f (read_event valid_date v f.id session_id) v refl in
      ground arith

  end_frame-Good :
      (parse : Text → Option (Json D)) (show : Text → String) (session_id : Text) (f : Frame)
      (ds : List Text)
      → Good session_id f.previous (end_frame valid_date parse show session_id f ds)
  unfolding Good end_frame
  end_frame-Good parse show session_id f [] = refl
  end_frame-Good parse show session_id f (d ∷ ds) =
      dispatch-Good show session_id f (parse (join_lines (d ∷ ds)))

  -- A line that ends no frame, by what became of it.
  fields-Good :
      (parse : Text → Option (Json D)) (session_id : Text) (f : Frame) (r : Result Frame)
      → ((f' : Frame) → r ≡ ok f' → f'.previous ≡ f.previous)
      → Good session_id f.previous (without_event {D = D} valid_date r)
  unfolding Good without_event
  fields-Good parse session_id f (err e) h = tt
  fields-Good parse session_id f (ok f') h = h f' refl

  frame_text-Good :
      (parse : Text → Option (Json D)) (show : Text → String) (session_id : Text) (f : Frame)
      (l : Line) (t : Text)
      → Good session_id f.previous (frame_text valid_date parse show session_id f l t)
  unfolding frame_text
  frame_text-Good parse show session_id f l [] = end_frame-Good parse show session_id f f.data_lines
  frame_text-Good parse show session_id f l (c ∷ cs) =
      fields-Good parse session_id f (field_line f l) (field_line-previous f l)

  frame_line-Good :
      (parse : Text → Option (Json D)) (show : Text → String) (session_id : Text) (f : Frame)
      (l : Line)
      → Good session_id f.previous (frame_line valid_date parse show session_id f l)
  unfolding Good frame_line
  frame_line-Good parse show session_id f l = frame_text-Good parse show session_id f l l.text

  read_frames-Ordered :
      (parse : Text → Option (Json D)) (show : Text → String) (session_id : Text)
      (end : Option Thrown) (previous : Option Cursor)
      (r : Result (Frame × Option (SessionEvent D))) (ls : List Line)
      → Good session_id previous r
      → Ordered session_id previous (read_frames valid_date parse show session_id end r ls).0
  unfolding Good read_frames
  read_frames-Ordered parse show session_id end previous (err e) ls g = tt
  read_frames-Ordered parse show session_id end previous (ok (f, none)) [] g = tt
  read_frames-Ordered parse show session_id end previous (ok (f, some e)) [] g = (g.0, (g.1.0, tt))
  read_frames-Ordered parse show session_id end previous (ok (f, none)) (l ∷ ls) g =
      subst
        (λ p.
          Ordered session_id p
            (read_frames valid_date parse show session_id end
              (frame_line valid_date parse show session_id f l) ls).0)
        g
        (read_frames-Ordered parse show session_id end f.previous
          (frame_line valid_date parse show session_id f l) ls
          (frame_line-Good parse show session_id f l))
  read_frames-Ordered parse show session_id end previous (ok (f, some e)) (l ∷ ls) g = (
    g.0,
    (
      g.1.0,
      subst
          (λ p.
            Ordered session_id p
              (read_frames valid_date parse show session_id end
                (frame_line valid_date parse show session_id f l) ls).0)
          g.1.1
          (read_frames-Ordered parse show session_id end f.previous
            (frame_line valid_date parse show session_id f l) ls
            (frame_line-Good parse show session_id f l)),
    ),
  )

  -- Whatever the server sends, the events that a subscription yields are of the Session asked for,
  -- well formed, of one stream and of rising sequence, and go on after the cursor given.
  pub stream_events-Ordered :
      (parse : Text → Option (Json D)) (show : Text → String) (session_id : Text)
      (after : Option Cursor) (chunks : List (Option Text))
      → Ordered session_id after (stream_events valid_date parse show session_id after chunks).0
  unfolding Good stream_events
  stream_events-Ordered parse show session_id after chunks =
      let (lines, whole) = read_lines chunks in
      read_frames-Ordered parse show session_id (if whole then none else some invalid_stream) after
        (ok (new_frame after, none)) lines refl
