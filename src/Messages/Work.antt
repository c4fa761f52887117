-- ===== src/Messages/Work.antt =====
-- src/runtime-messages.ts, `work`: the deadline by which the platform has to look again.
use cantelop_sdk.Prelude.{
  ℕ, ◌≤◌, ◌≡◌, refl, subst, true, false, Option, none, some, List, [], ◌∷◌, String, map, arith, ltb,
  lookup, All, Bool-cases, inl, inr, ◌≢◌,
}
use cantelop_sdk.Messages.{Reservation, Messages}
use cantelop_sdk.Messages.Queries.{is_live, work, scan_work, as_work, earlier, earlier_request}

abbrev From : ℕ → Option ℕ → Type 0
From best none = Unit
From best (some t) = best ≤ t

earlier-From : (best t : ℕ) (d : Option ℕ) → From best (earlier t d) → (best ≤ t) × From best d
unfolding earlier
earlier-From best t none h = (h, tt)
earlier-From best t (some b) h = elim (Bool-cases (ltb t b)) [
  | inl less ↦ let k : best ≤ t = rw less at h in (k, ground arith)
  | inr more ↦ let k : best ≤ b = rw more at h in (ground arith, k)
]

earlier-some : (t : ℕ) (d : Option ℕ) → earlier t d ≢ none
unfolding earlier
earlier-some t d h = ground arith

as_work-From :
    (s : Option ℕ × Option ℕ) (best : ℕ) (requested : Option ℕ)
    → as_work s ≡ some (best, requested)
    → From best s.0
unfolding as_work
as_work-From (none, q) best requested h = tt
as_work-From (some d, q) best requested h = ground arith

as_work-none : (s : Option ℕ × Option ℕ) → as_work s ≡ none → s.0 ≡ none
unfolding as_work
as_work-none (none, q) h = refl
as_work-none (some d, q) h = cc

module _ {V : Type 0} where
  -- No live message under this look-up is due before `best`.
  abbrev pub DueFrom : ℕ → Option (Reservation V) → Type 0
  DueFrom best none = Unit
  DueFrom best (some r) = is_live r.receipt.state ≡ true → best ≤ r.receipt.deadline

  abbrev pub NotLive : Option (Reservation V) → Type 0
  NotLive none = Unit
  NotLive (some r) = is_live r.receipt.state ≡ false

  scan_work-From :
      (best : ℕ) (rs : List (Option (Reservation V))) (d q : Option ℕ)
      → From best (scan_work rs d q).0
      → All (DueFrom best) rs × From best d
  unfolding scan_work
  scan_work-From best [] d q h = (tt, h)
  scan_work-From best (none ∷ rs) d q h = let r = scan_work-From best rs d q h in ((tt, r.0), r.1)
  scan_work-From best (some x ∷ rs) d q h = elim (Bool-cases (is_live x.receipt.state)) [
    | inr dead ↦
        let e : scan_work (some x ∷ rs) d q ≡ scan_work rs d q = rw dead in
        let r = scan_work-From best rs d q (subst (λ t. From best t.0) e h) in
        ((λ live. cc, r.0), r.1)
    | inl live ↦
        let d' = earlier x.receipt.deadline d in
        let q' = earlier_request x.receipt.cancellation_requested_at q in
        let e : scan_work (some x ∷ rs) d q ≡ scan_work rs d' q' = rw live in
        let r = scan_work-From best rs d' q' (subst (λ t. From best t.0) e h) in
        let s = earlier-From best x.receipt.deadline d r.1 in ((λ _. s.0, r.0), s.1)
  ]

  scan_work-none :
      (rs : List (Option (Reservation V))) (d q : Option ℕ)
      → (scan_work rs d q).0 ≡ none
      → All NotLive rs × (d ≡ none)
  unfolding scan_work
  scan_work-none [] d q h = (tt, h)
  scan_work-none (none ∷ rs) d q h = let r = scan_work-none rs d q h in ((tt, r.0), r.1)
  scan_work-none (some x ∷ rs) d q h = elim (Bool-cases (is_live x.receipt.state)) [
    | inr dead ↦
        let e : scan_work (some x ∷ rs) d q ≡ scan_work rs d q = rw dead in
        let r = scan_work-none rs d q (subst (λ t. t.0 ≡ none) e h) in ((dead, r.0), r.1)
    | inl live ↦
        let d' = earlier x.receipt.deadline d in
        let q' = earlier_request x.receipt.cancellation_requested_at q in
        let e : scan_work (some x ∷ rs) d q ≡ scan_work rs d' q' = rw live in
        let r = scan_work-none rs d' q' (subst (λ t. t.0 ≡ none) e h) in
        absurd (earlier-some x.receipt.deadline d r.1)
  ]

  -- `work` reports a deadline that no live unsettled message precedes, and reports nothing only
  -- where no unsettled message is live.
  pub work_lem :
      (m : Messages V)
      → ((best : ℕ)
          → (requested : Option ℕ) → work m ≡ some (best, requested)
          → All (DueFrom best) (map (λ (id : String). lookup id m.records) m.unsettled))
        × (work m ≡ none → All NotLive (map (λ (id : String). lookup id m.records) m.unsettled))
  unfolding work
  work_lem m = (
    λ best requested h. (scan_work-From best _ none none (as_work-From _ best requested h)).0,
    λ h. (scan_work-none _ none none (as_work-none _ h)).0,
  )
