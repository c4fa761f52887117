-- ===== src/LogCapture/Lines.antt =====
-- src/runtime-log-capture.ts: what `normalizedLines` makes of a text.
use cantelop_sdk.Prelude.{
  ℕ, zero, suc, ◌+◌, ◌≤◌, ◌<◌, ◌≡◌, refl, ap, sym, ◌∙◌, inl, inr, Bool, true, false, ◌&&◌, List, [],
  ◌∷◌, ◌++◌, append_assoc, length, take, drop, length-take, length-drop, take-append-drop,
  drop-drop, drop_all, All, All-append, ltb, ◌==◌, if◌then◌else◌, arith, Bool-cases,
}
use cantelop_sdk.Observations.{Units}
use cantelop_sdk.LogCapture.{
  max_log_body, split_lines, cons_first, strip_return, slices, slice_lines, normalized_lines,
}

abbrev pub concat : List Units → Units
concat [] = []
concat (l ∷ ls) = l ++ concat ls

concat-append : (xs ys : List Units) → concat (xs ++ ys) ≡ concat xs ++ concat ys
concat-append [] ys = refl
concat-append (x ∷ xs) ys =
    ap (◌++◌ x) (concat-append xs ys) ∙ sym (append_assoc x (concat xs) (concat ys))

-- A line break, or the end of the text.
abbrev pub at_end : Units → Bool
at_end [] = true
at_end (c ∷ cs) = c == 10

-- The text without its line feeds, and without each carriage return before one or at the end.
unfoldable pub without_breaks : Units → Units
without_breaks [] = []
without_breaks (c ∷ cs) =
    let rest = without_breaks cs in
    if c == 10 then rest else if c == 13 && at_end cs then rest else c ∷ rest

-- A slice has something in it, and at most as much as one log record may hold.
abbrev pub IsSlice : Units → Type 0
IsSlice l = (0 < length l) × (length l ≤ max_log_body)

slices-concat :
    (fuel offset : ℕ) (l : Units)
    → length l ≤ offset + fuel
    → concat (slices fuel offset l) ≡ drop offset l
unfolding slices
slices-concat zero offset l h = sym (drop_all offset l (omega arith))
slices-concat (suc fuel) offset l h = elim (Bool-cases (ltb offset (length l))) [
  | inl more ↦ rw more (
      ap (◌++◌ (take max_log_body (drop offset l))) (
        slices-concat fuel (offset + max_log_body) l (omega arith)
        ∙ sym (drop-drop max_log_body offset l))
      ∙ take-append-drop max_log_body (drop offset l))
  | inr done ↦ rw done (sym (drop_all offset l (ground arith)))
]

slices-IsSlice : (fuel offset : ℕ) (l : Units) → All IsSlice (slices fuel offset l)
unfolding slices
slices-IsSlice zero offset l = tt
slices-IsSlice (suc fuel) offset l = elim (Bool-cases (ltb offset (length l))) [
  | inl more ↦
      let taken = length-take max_log_body (drop offset l) in
      let left = length-drop offset l in
      let below : offset < length l = ground arith in
      rw more (
        (omega (arith, taken, left), omega (arith, taken, left)),
        slices-IsSlice fuel (offset + max_log_body) l,
      )
  | inr done ↦ rw done tt
]

-- The first line is empty just where the text is at an end.
split_first :
    (cs : Units)
    → (l : Units) × (ls : List Units) × (split_lines cs ≡ l ∷ ls)
      × (at_end cs ≡ true → l ≡ [])
      × (at_end cs ≡ false → (d : ℕ) × (r : Units) × (l ≡ d ∷ r))
unfolding split_lines cons_first
split_first [] = ([], [], refl, λ h. refl, λ h. cc h)
split_first (c ∷ cs) = elim (Bool-cases (c == 10)) [
  | inl e ↦ ([], split_lines cs, rw e, λ h. refl, λ h. cc (e, h))
  | inr e ↦
      let (l, ls, split, _, _) = split_first cs in
      (c ∷ l, ls, rw (e, split), λ h. cc (e, h), λ h. (c, l, refl))
]

stripped : List Units → Units
stripped [] = []
stripped (raw ∷ raws) = strip_return raw ++ stripped raws

strip_last :
    (c : ℕ) (rest : Units)
    → strip_return (c ∷ []) ++ rest ≡ (if c == 13 && true then rest else c ∷ rest)
unfolding strip_return
strip_last c rest = elim (Bool-cases (c == 13)) [ inl e ↦ rw e | inr e ↦ rw e ]

never_both : (b : Bool) (x y : Units) → (if b && false then x else y) ≡ y
never_both true x y = refl
never_both false x y = refl

stripped-split : (cs : Units) → stripped (split_lines cs) ≡ without_breaks cs
unfolding stripped split_lines without_breaks strip_return cons_first
stripped-split [] = refl
stripped-split (c ∷ cs) = elim (Bool-cases (c == 10)) [
  | inl e ↦ rw e (stripped-split cs)
  | inr e ↦
      let (l, ls, split, empty, nonempty) = split_first cs in
      let ih = rw split at (stripped-split cs) in
      elim (Bool-cases (at_end cs)) [
        | inl ended ↦
            let kept : stripped ls ≡ without_breaks cs = rw (empty ended) at ih in
            rw (e, split, ended, empty ended)
              (strip_last c (stripped ls) ∙ ap (λ w. if c == 13 && true then w else c ∷ w) kept)
        | inr going ↦
            let (d, r, more) = nonempty going in
            rw (e, split, going, more)
              (ap (◌∷◌ c) (rw more at ih)
                ∙ sym (never_both (c == 13) (without_breaks cs) (c ∷ without_breaks cs)))
      ]
]

slice_lines-concat : (raws : List Units) → concat (slice_lines raws) ≡ stripped raws
unfolding slice_lines stripped
slice_lines-concat [] = refl
slice_lines-concat (raw ∷ raws) =
    let l = strip_return raw in
    concat-append (slices (length l) 0 l) (slice_lines raws)
    ∙ ap (λ x. x ++ concat (slice_lines raws)) (slices-concat (length l) 0 l (omega arith))
    ∙ ap (◌++◌ l) (slice_lines-concat raws)

slice_lines-IsSlice : (raws : List Units) → All IsSlice (slice_lines raws)
unfolding slice_lines
slice_lines-IsSlice [] = tt
slice_lines-IsSlice (raw ∷ raws) =
    let l = strip_return raw in
    All-append IsSlice (slices (length l) 0 l) (slice_lines raws) (slices-IsSlice (length l) 0 l)
      (slice_lines-IsSlice raws)

-- Of a text, the log keeps all but the line breaks, in order, in records that are neither empty nor
-- longer than 16384 code units.
pub normalized_lines_lem :
    (body : Units)
    → (concat (normalized_lines body) ≡ without_breaks body) × All IsSlice (normalized_lines body)
unfolding normalized_lines
normalized_lines_lem body = (
  slice_lines-concat (split_lines body) ∙ stripped-split body,
  slice_lines-IsSlice (split_lines body),
)
