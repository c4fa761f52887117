-- ===== src/ClaudeView/Observe/Slots.antt =====
-- src/harnesses/claude-view.ts: the loop of `observeClaude` that looks for a free entry id.
use cantelop_sdk.Prelude.{
  ℕ, zero, suc, ◌+◌, ◌≤◌, ◌<◌, ◌≡◌, refl, ap, ◌∙◌, ◌⊎◌, inl, inr, true, false, some, List, [], ◌∷◌,
  filter, not, length, length-filter-le, arith, Bool-cases, max_safe_integer,
}
use cantelop_sdk.Stream.{Text, text_eq, text_eq→eq}
use cantelop_sdk.Stream.Decimal.{decimal_inj}
use cantelop_sdk.ClaudeView.Observe.{has, slot, free_index}

-- The ids without one.
abbrev without : Text → List Text → List Text
without id = filter λ i. not (text_eq i id)

length-without :
    (id : Text) (ids : List Text) → has ids id ≡ true → length (without id ids) < length ids
length-without id [] h = cc
length-without id (i ∷ ids) h = elim (Bool-cases (text_eq i id)) [
  | inl e ↦ rw e (omega (arith, length-filter-le (λ j. not (text_eq j id)) ids))
  | inr e ↦ rw e (omega (arith, length-without id ids (rw e at h)))
]

has-without :
    (id other : Text) (ids : List Text)
    → text_eq id other ≡ false
    → has ids other ≡ has (without id ids) other
has-without id other [] h = refl
has-without id other (i ∷ ids) h = elim (Bool-cases (text_eq i id)) [
  | inl e ↦
      let differs : text_eq i other ≡ false = ap (λ j. text_eq j other) (text_eq→eq i id e) ∙ h in
      rw (e, differs) (has-without id other ids h)
  | inr e ↦ rw (e, has-without id other ids h)
]

slot-inj :
    (prefix : Text) (m n : ℕ)
    → m ≤ max_safe_integer
    → n ≤ max_safe_integer
    → slot prefix m ≡ slot prefix n
    → m ≡ n
unfolding slot
slot-inj [] m n hm hn e = decimal_inj m n hm hn (cc)
slot-inj (p ∷ prefix) m n hm hn e = slot-inj prefix m n hm hn (cc)

slot_differs :
    (prefix : Text) (m n : ℕ)
    → m < n
    → n ≤ max_safe_integer
    → text_eq (slot prefix m) (slot prefix n) ≡ false
slot_differs prefix m n lt h = elim (Bool-cases (text_eq (slot prefix m) (slot prefix n))) [
  | inl e ↦
      let same : m ≡ n =
        slot-inj prefix m n (omega arith) h (text_eq→eq (slot prefix m) (slot prefix n) e) in
      absurd (omega arith)
  | inr e ↦ e
]

-- The two lists hold the same of the slots that the loop may look at.
abbrev Agree : ℕ → ℕ → Text → List Text → List Text → Type 0
Agree fuel index prefix ids ids' =
    (n : ℕ) → index ≤ n → n < index + fuel → has ids (slot prefix n) ≡ has ids' (slot prefix n)

free_index_cong :
    (fuel : ℕ) (ids ids' : List Text) (prefix : Text) (index : ℕ)
    → Agree fuel index prefix ids ids'
    → free_index fuel ids prefix index ≡ free_index fuel ids' prefix index
unfolding free_index
free_index_cong zero ids ids' prefix index h = refl
free_index_cong (suc fuel) ids ids' prefix index h =
    let rest =
      free_index_cong fuel ids ids' prefix (suc index)
        (λ n ge lt. h n (omega arith) (omega arith)) in
    rw (h index (omega arith) (omega arith), rest)

-- What the loop finds.
pub record IsFree (ids : List Text) (prefix : Text) (index limit found : ℕ) : Type 0 where
  pub onward : index ≤ found
  pub within : found < limit
  pub free : has ids (slot prefix found) ≡ false
  pub first : (n : ℕ) → index ≤ n → n < found → has ids (slot prefix n) ≡ true

without-Agree :
    (fuel index : ℕ) (prefix : Text) (ids : List Text)
    → index + suc fuel ≤ max_safe_integer
    → Agree fuel (suc index) prefix ids (without (slot prefix index) ids)
without-Agree fuel index prefix ids h n ge lt =
    has-without (slot prefix index) (slot prefix n) ids
      (slot_differs prefix index n (omega arith) (omega arith))

here_or_on : (index n : ℕ) → index ≤ n → (index ≡ n) ⊎ (suc index ≤ n)
here_or_on zero zero h = inl refl
here_or_on zero (suc n) h = inr (omega arith)
here_or_on (suc index) zero h = absurd (omega arith)
here_or_on (suc index) (suc n) h = elim (here_or_on index n (omega arith)) [
  | inl e ↦ inl (ap suc e)
  | inr more ↦ inr (omega arith)
]

-- With more fuel than there are ids, the loop ends at a slot that is free.
pub free_index_total :
    (fuel : ℕ) (ids : List Text) (prefix : Text) (index : ℕ)
    → length ids < fuel
    → index + fuel ≤ max_safe_integer
    → (found : ℕ) × (free_index fuel ids prefix index ≡ some found)
      × IsFree ids prefix index (index + fuel) found
unfolding free_index
free_index_total zero ids prefix index h k = absurd (omega arith)
free_index_total (suc fuel) ids prefix index h k = elim (Bool-cases (has ids (slot prefix index))) [
  | inr free ↦ (
    index,
    rw free,
    record {
      onward = omega arith;
      within = omega arith;
      free = free;
      first = λ n ge lt. absurd (omega arith);
    },
  )
  | inl taken ↦
      let others = without (slot prefix index) ids in
      let agree = without-Agree fuel index prefix ids k in
      let (found, e, is_free) =
        free_index_total fuel others prefix (suc index)
          (omega (arith, length-without (slot prefix index) ids taken)) (omega arith) in
      (
        found,
        rw (taken, free_index_cong fuel ids others prefix (suc index) agree) e,
        record {
          onward = omega arith;
          within = omega arith;
          free = agree found is_free.onward is_free.within ∙ is_free.free;
          first = λ n ge lt. elim (here_or_on index n ge) [
            | inl e ↦ rw (← e) taken
            | inr more ↦ agree n more (omega (arith, is_free.within)) ∙ is_free.first n more lt
          ];
        },
      )
]
