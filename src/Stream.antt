-- ===== src/Stream.antt =====
-- src/stream.ts: one subscription to the events of a Session. A text is the list of its code
-- points; chunks are those that the UTF-8 decoder gave, and a chunk that it refused is `none`.
pub mod Lines
pub mod Decimal
pub mod Frames
pub mod Chunks
pub mod Normal
pub mod Ordered
mod Examples
use cantelop_sdk.Prelude.{
  ℕ, ◌≡◌, refl, arith, List, [], ◌∷◌, ◌++◌, Bool, true, false, ◌&&◌, ◌||◌, ltb, leb, ◌==◌,
  if◌then◌else◌, sum_by, Thrown, remote_error,
}

abbrev pub Text : Type 0
Text = List ℕ

abbrev pub max_frame_bytes : ℕ
max_frame_bytes = 1048576

abbrev pub line_feed : ℕ
line_feed = 10

abbrev pub carriage_return : ℕ
carriage_return = 13

-- The UTF-8 size of a code point.
abbrev pub utf8_size : ℕ → ℕ
utf8_size c = if ltb c 128 then 1 else if ltb c 2048 then 2 else if ltb c 65536 then 3 else 4

abbrev pub byte_length : Text → ℕ
byte_length = sum_by utf8_size

abbrev pub invalid_stream : Thrown
invalid_stream = remote_error "invalid_event_stream" 0

unfoldable pub text_eq : Text → Text → Bool
text_eq [] [] = true
text_eq [] (d ∷ ds) = false
text_eq (c ∷ cs) [] = false
text_eq (c ∷ cs) (d ∷ ds) = c == d && text_eq cs ds

pub text_eq→eq : (a b : Text) → text_eq a b ≡ true → a ≡ b
unfolding text_eq
text_eq→eq [] [] h = refl
text_eq→eq [] (d ∷ ds) h = cc
text_eq→eq (c ∷ cs) [] h = cc
text_eq→eq (c ∷ cs) (d ∷ ds) h = ground (arith, text_eq→eq cs ds)

pub text_eq_refl : (a : Text) → text_eq a a ≡ true
unfolding text_eq
text_eq_refl [] = refl
text_eq_refl (c ∷ cs) = ground (arith, text_eq_refl cs)
