-- ===== src/Stream/Lines.antt =====
-- src/stream.ts: `readLines`. A line ends at LF, CR or CR LF, also where the pair is split between
-- two chunks.
use cantelop_sdk.Prelude.{
  ℕ, ◌+◌, Bool, true, false, ◌&&◌, ◌||◌, Option, none, some, List, [], ◌∷◌, ◌++◌, ltb, ◌==◌,
  if◌then◌else◌,
}
use cantelop_sdk.Stream.{Text, max_frame_bytes, line_feed, carriage_return, byte_length}

pub record Line : Type 0 where
  pub text : Text
  pub bytes : ℕ

pub record Reader : Type 0 where
  pub pending : Text
  pub pending_bytes : ℕ
  pub skip_lf : Bool

abbrev pub new_reader : Reader
new_reader = record { pending = []; pending_bytes = 0; skip_lf = false }

-- The lines yielded, and the reader after them; no reader where the stream was refused.
pub record Fed : Type 0 where
  pub lines : List Line
  pub reader : Option Reader

abbrev pub refused : Fed
refused = record { lines = []; reader = none }

abbrev pub prepend : Line → Fed → Fed
prepend l f = record { lines = l ∷ f.lines; reader = f.reader }

-- The end of a chunk: the piece after the last terminator is kept.
unfoldable pub keep_piece : Reader → Text → Fed
keep_piece r piece =
    let bytes = r.pending_bytes + byte_length piece in
    if ltb max_frame_bytes bytes then refused else record {
      lines = [];
      reader =
          some
            (record { pending = r.pending ++ piece; pending_bytes = bytes; skip_lf = r.skip_lf });
    }

-- A terminator: the line is yielded, where it is not too long, before the rest is read.
unfoldable pub end_line : Reader → Text → Fed → Fed
end_line r piece rest =
    let bytes = r.pending_bytes + byte_length piece in
    if ltb max_frame_bytes bytes
    then refused
    else prepend (record { text = r.pending ++ piece; bytes = bytes }) rest

abbrev pub after_line : ℕ → Reader
after_line c = record { pending = []; pending_bytes = 0; skip_lf = c == carriage_return }

-- The loop over a chunk; `piece` is `chunk.slice(start, i)`.
unfoldable pub scan : Reader → Text → Text → Fed
unfolding keep_piece end_line
scan r piece [] = keep_piece r piece
scan r piece (c ∷ cs) =
    let no_skip = record r { skip_lf = false } in
    let skipped = scan no_skip [] cs in
    let longer = scan no_skip (piece ++ c ∷ []) cs in
    let ended = scan (after_line c) [] cs in
    if r.skip_lf && c == line_feed
    then skipped
    else if c == carriage_return || c == line_feed
    then end_line r piece ended
    else longer

unfoldable pub after : List Line → Fed → Fed
after ls f = record { lines = ls ++ f.lines; reader = f.reader }

-- The end of the stream: what is pending is the last line.
unfoldable pub last_line : Option Reader → List Line
last_line none = []
last_line (some r) = elim r.pending [
  | [] ↦ []
  | c ∷ cs ↦ record { text = c ∷ cs; bytes = r.pending_bytes } ∷ []
]

unfoldable pub feed : Option Reader → Option Text → Fed
unfolding scan
feed none chunk = refused
feed (some r) none = refused
feed (some r) (some chunk) = scan r [] chunk

-- Reads all chunks.
unfoldable pub read_chunks : Option Reader → List (Option Text) → Fed
unfolding feed after
read_chunks r [] = record { lines = []; reader = r }
read_chunks r (chunk ∷ chunks) = let f = feed r chunk in after f.lines (read_chunks f.reader chunks)

-- The lines of a stream, and whether it was read to its end.
unfoldable pub read_lines : List (Option Text) → List Line × Bool
unfolding read_chunks last_line
read_lines chunks =
    let f = read_chunks (some new_reader) chunks in
    (f.lines ++ last_line f.reader, (elim f.reader [ none ↦ false | some r ↦ true ]))
