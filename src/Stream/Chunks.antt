-- ===== src/Stream/Chunks.antt =====
-- src/stream.ts: the lines of a stream do not depend on where its chunks are cut.
use cantelop_sdk.Prelude.{
  ℕ, ◌+◌, ◌<◌, ◌≡◌, refl, sym, ap, ◌∙◌, Bool, true, false, ◌||◌, Option, none, some, List, [], ◌∷◌,
  ◌++◌, ◌==◌, if◌then◌else◌, arith, append_assoc, append-nil, sum_by-append, map,
}
use cantelop_sdk.Stream.{Text, max_frame_bytes, line_feed, carriage_return, byte_length, utf8_size}
use cantelop_sdk.Stream.Lines.{
  Reader, new_reader, Fed, scan, keep_piece, end_line, after_line, after, feed, read_chunks,
  read_lines, last_line, refused,
}

-- Reading goes on from a reader, unless the stream was refused.
abbrev and_then : Fed → Text → Fed
and_then f cs = after f.lines (feed f.reader (some cs))

abbrev at : Text → ℕ → Bool → Reader
at p b skip = record { pending = p; pending_bytes = b; skip_lf = skip }

keep_piece-shift :
    (p q piece : Text) (b : ℕ) (skip : Bool)
    → keep_piece (at (p ++ q) (b + byte_length q) skip) piece
      ≡ keep_piece (at p b skip) (q ++ piece)
unfolding keep_piece
keep_piece-shift p q piece b skip =
    ground (arith, append_assoc p q piece, sum_by-append utf8_size q piece)

end_line-shift :
    (p q piece : Text) (b : ℕ) (skip : Bool) (rest : Fed)
    → end_line (at (p ++ q) (b + byte_length q) skip) piece rest
      ≡ end_line (at p b skip) (q ++ piece) rest
unfolding end_line
end_line-shift p q piece b skip rest =
    ground (arith, append_assoc p q piece, sum_by-append utf8_size q piece)

scan-step :
    (p piece : Text) (b c : ℕ) (cs : Text)
    → scan (at p b false) piece (c ∷ cs) ≡ (
        if c == carriage_return || c == line_feed
        then end_line (at p b false) piece (scan (after_line c) [] cs)
        else scan (at p b false) (piece ++ c ∷ []) cs)
unfolding scan
scan-step p piece b c cs = refl

-- What was kept of an earlier chunk is as good as the front of the piece.
scan-shift :
    (p q piece : Text) (b : ℕ) (ys : Text)
    → scan (at (p ++ q) (b + byte_length q) false) piece ys ≡ scan (at p b false) (q ++ piece) ys
unfolding scan
scan-shift p q piece b [] = keep_piece-shift p q piece b false
scan-shift p q piece b (c ∷ cs) = ground (
  arith,
  scan-shift p q (piece ++ c ∷ []) b cs,
  end_line-shift p q piece b false (scan (after_line c) [] cs),
  append_assoc q piece (c ∷ []),
)

end_line_long :
    (p piece : Text) (b : ℕ) (rest : Fed)
    → max_frame_bytes < b + byte_length piece
    → end_line (at p b false) piece rest ≡ refused
unfolding end_line
end_line_long p piece b rest l = ground arith

-- A piece that is already too long is refused, wherever its chunk ends.
scan_long :
    (p piece : Text) (b : ℕ) (ys : Text)
    → max_frame_bytes < b + byte_length piece
    → scan (at p b false) piece ys ≡ refused
unfolding scan keep_piece
scan_long p piece b [] l = ground arith
scan_long p piece b (c ∷ cs) l = ground (
  arith,
  end_line_long p piece b (scan (after_line c) [] cs) l,
  scan_long p (piece ++ c ∷ []) b cs,
  sum_by-append utf8_size piece (c ∷ []),
)

and_then-end_line :
    (p piece : Text) (b : ℕ) (skip : Bool) (rest : Fed) (ys : Text)
    → end_line (at p b skip) piece (and_then rest ys)
      ≡ and_then (end_line (at p b skip) piece rest) ys
unfolding end_line after feed
and_then-end_line p piece b skip rest ys = ground arith

-- After the pending text was kept, the rest is read as if the chunk went on.
and_then-keep_piece :
    (p piece : Text) (b : ℕ) (ys : Text)
    → scan (at p b false) piece ys ≡ and_then (keep_piece (at p b false) piece) ys
unfolding keep_piece after feed
and_then-keep_piece p piece b ys =
    ground (arith, scan_long p piece b ys, scan-shift p piece [] b ys, append-nil piece)

-- Between two lines nothing is pending.
abbrev pub Fresh : Bool → Text → ℕ → Text → Type 0
Fresh skip p b piece = skip ≡ true → (p ≡ []) × ((b ≡ 0) × (piece ≡ []))

pub never : (p : Text) (b : ℕ) (piece : Text) → Fresh false p b piece
never p b piece e = ground arith

scan-append :
    (skip : Bool) (p : Text) (b : ℕ) (piece xs ys : Text)
    → Fresh skip p b piece
    → scan (at p b skip) piece (xs ++ ys) ≡ and_then (scan (at p b skip) piece xs) ys
unfolding scan keep_piece after feed
scan-append false p b piece [] ys f = and_then-keep_piece p piece b ys
scan-append true p b piece [] ys f = let (p0, (b0, piece0)) = f refl in ground arith
scan-append skip p b piece (c ∷ xs) ys f = ground (
  arith,
  scan-append false p b [] xs ys (never p b []),
  scan-append false p b (piece ++ c ∷ []) xs ys (never p b (piece ++ c ∷ [])),
  scan-append (c == carriage_return) [] 0 [] xs ys (λ e. (refl, (refl, refl))),
  and_then-end_line p piece b skip (scan (after_line c) [] xs) ys,
)

abbrev pub FreshReader : Option Reader → Type 0
FreshReader none = Unit
FreshReader (some r) = Fresh r.skip_lf r.pending r.pending_bytes []

keep_piece-Fresh :
    (p : Text) (b : ℕ) (skip : Bool) (piece : Text)
    → Fresh skip p b piece
    → FreshReader (keep_piece (at p b skip) piece).reader
unfolding keep_piece
keep_piece-Fresh p b false piece f = ground arith
keep_piece-Fresh p b true piece f = let (p0, (b0, piece0)) = f refl in ground arith

end_line-Fresh :
    (r : Reader) (piece : Text) (rest : Fed)
    → FreshReader rest.reader
    → FreshReader (end_line r piece rest).reader
unfolding end_line
end_line-Fresh r piece rest f = ground arith

scan-Fresh :
    (skip : Bool) (p : Text) (b : ℕ) (piece xs : Text)
    → Fresh skip p b piece
    → FreshReader (scan (at p b skip) piece xs).reader
unfolding scan
scan-Fresh skip p b piece [] f = keep_piece-Fresh p b skip piece f
scan-Fresh skip p b piece (c ∷ xs) f =
    let ended = scan-Fresh (c == carriage_return) [] 0 [] xs (λ e. (refl, (refl, refl))) in
    ground (
      arith,
      scan-Fresh false p b [] xs (never p b []),
      scan-Fresh false p b (piece ++ c ∷ []) xs (never p b (piece ++ c ∷ [])),
      end_line-Fresh (at p b skip) piece (scan (after_line c) [] xs) ended,
    )

abbrev pub concat : List Text → Text
concat [] = []
concat (x ∷ xs) = x ++ concat xs

abbrev pub decoded : List Text → List (Option Text)
decoded = map λ x. some x

read_chunks-none : (chunks : List (Option Text)) → read_chunks none chunks ≡ refused
unfolding read_chunks feed after
read_chunks-none [] = refl
read_chunks-none (c ∷ cs) = ground (arith, read_chunks-none cs)

after-end : (f : Fed) → after f.lines (record { lines = []; reader = f.reader }) ≡ f
unfolding after
after-end f = ground (arith, append-nil f.lines)

read_chunks-concat :
    (r : Option Reader) (x : Text) (xs : List Text)
    → FreshReader r
    → read_chunks r (decoded (x ∷ xs)) ≡ feed r (some (concat (x ∷ xs)))
unfolding read_chunks
read_chunks-concat none x xs f = read_chunks-none (decoded (x ∷ xs))
read_chunks-concat (some r) x [] f = rw (append-nil x) (after-end (scan r [] x))
read_chunks-concat (some r) x (y ∷ ys) f =
    let first = scan r [] x in
    let rest =
      read_chunks-concat first.reader y ys
        (scan-Fresh r.skip_lf r.pending r.pending_bytes [] x f) in
    ap (after first.lines) rest
    ∙ sym (scan-append r.skip_lf r.pending r.pending_bytes [] x (concat (y ∷ ys)) f)

-- A stream has the same lines, and the same end, wherever it is cut into chunks: also within
-- CR LF, and also where a line is too long.
pub read_lines-concat :
    (x : Text) (xs : List Text)
    → read_lines (decoded (x ∷ xs)) ≡ read_lines (decoded (concat (x ∷ xs) ∷ []))
unfolding read_lines
read_lines-concat x xs =
    let whole = concat (x ∷ xs) in
    let fresh : FreshReader (some new_reader) = λ e. (refl, (refl, refl)) in
    let cut = read_chunks-concat (some new_reader) x xs fresh in
    let uncut = read_chunks-concat (some new_reader) whole [] fresh in
    let same =
      cut ∙ (ap (λ t. feed (some new_reader) (some t)) (sym (append-nil whole)) ∙ sym uncut) in
    ap
      (λ (f : Fed).
        (f.lines ++ last_line f.reader, (elim f.reader [ none ↦ false | some r ↦ true ])))
      same
