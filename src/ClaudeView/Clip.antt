-- ===== src/ClaudeView/Clip.antt =====
-- src/harnesses/claude-view.ts: what is left of a text that is clipped.
use cantelop_sdk.Prelude.{
  ℕ, ◌+◌, ◌≤◌, ◌<◌, ◌≡◌, refl, ap, sym, subst, inl, inr, [], ◌∷◌, ◌++◌, leb, ltb, append-nil, arith,
  Bool-cases,
}
use cantelop_sdk.Stream.{Text, byte_length, utf8_size}
use cantelop_sdk.ClaudeView.{clip, clip_from}

-- `rest` is empty, or its first character is one too many behind `size` bytes.
abbrev pub Overflows : ℕ → ℕ → Text → Type 0
Overflows bytes size [] = Unit
Overflows bytes size (c ∷ cs) = bytes < size + utf8_size c

-- `kept` is a front of the text that fits, and no longer front of whole characters does.
pub record IsClipped (bytes size : ℕ) (text kept : Text) : Type 0 where
  pub rest : Text
  pub split : text ≡ kept ++ rest
  pub fits : size + byte_length kept ≤ bytes
  pub maximal : Overflows bytes (size + byte_length kept) rest

clip_from-cons :
    (bytes size c : ℕ) (cs : Text) {kept : Text}
    → IsClipped bytes (size + utf8_size c) cs kept
    → IsClipped bytes size (c ∷ cs) (c ∷ kept)
clip_from-cons bytes size c cs {kept} r =
    let e : size + utf8_size c + byte_length kept ≡ size + byte_length (c ∷ kept) = omega arith in
    record {
      rest = r.rest;
      split = ap (◌∷◌ c) r.split;
      fits = subst (λ n. n ≤ bytes) e r.fits;
      maximal = subst (λ n. Overflows bytes n r.rest) e r.maximal;
    }

clip_from-IsClipped :
    (bytes size : ℕ) (text : Text)
    → size ≤ bytes
    → IsClipped bytes size text (clip_from bytes size text)
unfolding clip_from
clip_from-IsClipped bytes size [] h = record {
  rest = [];
  split = refl;
  fits = omega arith;
  maximal = tt;
}
clip_from-IsClipped bytes size (c ∷ cs) h = elim (Bool-cases (ltb bytes (size + utf8_size c))) [
  | inl over ↦
      rw over (record { rest = c ∷ cs; split = refl; fits = omega arith; maximal = ground arith })
  | inr within ↦ rw within (
      clip_from-cons bytes size c cs
        (clip_from-IsClipped bytes (size + utf8_size c) cs (ground arith)))
]

-- A clipped text is the longest front of whole characters that fits, and a text that fits is left
-- as it is.
pub clip-IsClipped : (text : Text) (bytes : ℕ) → IsClipped bytes 0 text (clip text bytes)
unfolding clip
clip-IsClipped text bytes = elim (Bool-cases (leb (byte_length text) bytes)) [
  | inl fits ↦
      rw fits
        (record { rest = []; split = sym (append-nil text); fits = ground arith; maximal = tt })
  | inr over ↦ rw over (clip_from-IsClipped bytes 0 text (omega arith))
]

pub clip_whole : (text : Text) (bytes : ℕ) → byte_length text ≤ bytes → clip text bytes ≡ text
unfolding clip
clip_whole text bytes h = ground arith
