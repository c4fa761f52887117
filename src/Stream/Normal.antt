-- ===== src/Stream/Normal.antt =====
-- src/stream.ts: what the lines of a stream are, by an independent description of it: the text in
-- which every terminator is a line feed.
use cantelop_sdk.Prelude.{
  ◌≤◌, ◌≡◌, refl, Bool, false, ◌&&◌, ◌||◌, Option, none, some, List, [], ◌∷◌, ◌++◌, ◌==◌,
  if◌then◌else◌, arith, append_assoc, append-nil, sum_by-append, Bool-cases, inl, inr, All,
  All-append,
}
use cantelop_sdk.Stream.{Text, max_frame_bytes, line_feed, carriage_return, byte_length, utf8_size}
use cantelop_sdk.Stream.Lines.{
  Line, Reader, new_reader, Fed, scan, keep_piece, end_line, after_line,
}
use cantelop_sdk.Stream.Chunks.{Fresh, never}

-- `after_cr`: the code point before was a carriage return, so a line feed here is the rest of it.
unfoldable pub normalize : Bool → Text → Text
normalize after_cr [] = []
normalize after_cr (c ∷ cs) =
    let skipped = normalize false cs in
    let ended = normalize (c == carriage_return) cs in
    if after_cr && c == line_feed
    then skipped
    else if c == carriage_return || c == line_feed
    then line_feed ∷ ended
    else c ∷ skipped

-- The texts of the lines, a line feed behind each.
unfoldable pub unlines : List Line → Text
unlines [] = []
unlines (l ∷ ls) = l.text ++ line_feed ∷ unlines ls

abbrev pub pending_of : Option Reader → Text
pending_of none = []
pending_of (some r) = r.pending

abbrev pub Plain : Text → Type 0
Plain = All λ c. (c == line_feed || c == carriage_return) ≡ false

-- A line holds no terminator, its size is told exactly, and is within the bound.
abbrev pub IsLine : Line → Type 0
IsLine l = Plain l.text × ((l.bytes ≡ byte_length l.text) × (l.bytes ≤ max_frame_bytes))

end_line-Line :
    (r : Reader) (piece : Text) (rest : Fed)
    → Plain r.pending
    → Plain piece
    → r.pending_bytes ≡ byte_length r.pending
    → All IsLine rest.lines
    → All IsLine (end_line r piece rest).lines
unfolding end_line
end_line-Line r piece rest p q b v =
    let plain =
      All-append (λ c. (c == line_feed || c == carriage_return) ≡ false) r.pending piece p q in
    let size = sum_by-append utf8_size r.pending piece in ground arith

keep_piece-Line : (r : Reader) (piece : Text) → All IsLine (keep_piece r piece).lines
unfolding keep_piece
keep_piece-Line r piece = ground arith

scan-Line :
    (r : Reader) (piece xs : Text)
    → Plain r.pending
    → Plain piece
    → r.pending_bytes ≡ byte_length r.pending
    → All IsLine (scan r piece xs).lines
unfolding scan
scan-Line r piece [] p q b = keep_piece-Line r piece
scan-Line r piece (c ∷ cs) p q b =
    let no_skip = record r { skip_lf = false } in
    let ended = scan-Line (after_line c) [] cs tt tt refl in
    elim (Bool-cases (c == carriage_return || c == line_feed)) [
      | inl terminator ↦ ground (
        arith,
        scan-Line no_skip [] cs p tt b,
        end_line-Line r piece (scan (after_line c) [] cs) p q b ended,
      )
      | inr plain ↦
          let longer =
            scan-Line no_skip (piece ++ c ∷ []) cs p
              (All-append (λ d. (d == line_feed || d == carriage_return) ≡ false) piece (c ∷ []) q
                (ground arith, tt))
              b in
          ground (arith, scan-Line no_skip [] cs p tt b)
    ]

end_line-unlines :
    (r : Reader) (piece : Text) (rest : Fed) (r' : Reader)
    → (end_line r piece rest).reader ≡ some r'
    → (rest.reader ≡ some r')
      × (unlines (end_line r piece rest).lines
          ≡ (r.pending ++ piece) ++ line_feed ∷ unlines rest.lines)
unfolding end_line unlines
end_line-unlines r piece rest r' h = ground arith

keep_piece-unlines :
    (r : Reader) (piece : Text) (r' : Reader)
    → (keep_piece r piece).reader ≡ some r'
    → unlines (keep_piece r piece).lines ++ r'.pending ≡ (r.pending ++ piece) ++ []
unfolding keep_piece unlines
keep_piece-unlines r piece r' h = ground (arith, append-nil (r.pending ++ piece))

scan-normalize :
    (r : Reader) (piece xs : Text) (r' : Reader)
    → Fresh r.skip_lf r.pending r.pending_bytes piece
    → (scan r piece xs).reader ≡ some r'
    → unlines (scan r piece xs).lines ++ r'.pending ≡ (r.pending ++ piece) ++ normalize r.skip_lf xs
unfolding scan normalize
scan-normalize r piece [] r' f h = keep_piece-unlines r piece r' h
scan-normalize r piece (c ∷ cs) r' f h =
    let no_skip = record r { skip_lf = false } in
    let fed = scan (after_line c) [] cs in
    ground (
      arith,
      f,
      scan-normalize no_skip [] cs r' (never r.pending r.pending_bytes []),
      scan-normalize no_skip (piece ++ c ∷ []) cs r'
          (never r.pending r.pending_bytes (piece ++ c ∷ [])),
      scan-normalize (after_line c) [] cs r' (λ e. (refl, (refl, refl))),
      end_line-unlines r piece fed r',
      append_assoc (r.pending ++ piece) (line_feed ∷ unlines fed.lines) r'.pending,
      append_assoc (r.pending ++ piece) (c ∷ []) (normalize false cs),
      append_assoc r.pending piece (c ∷ []),
      append-nil r.pending,
    )

-- The lines of a text, where it is not refused: each is without a terminator, tells its size and
-- is within the bound; with a line feed behind each and with what is pending they are the text in
-- which every terminator is a line feed.
pub scan_lem :
    (xs : Text) (r' : Reader)
    → (scan new_reader [] xs).reader ≡ some r'
    → All IsLine (scan new_reader [] xs).lines
      × (unlines (scan new_reader [] xs).lines ++ r'.pending ≡ normalize false xs)
scan_lem xs r' h =
    (scan-Line new_reader [] xs tt tt refl, scan-normalize new_reader [] xs r' (never [] 0 []) h)
