-- ===== src/Messages/Invariant.antt =====
-- src/runtime-messages.ts: what holds of the reservations between two turns.
use cantelop_sdk.Prelude.{
  ℕ, suc, ◌≤◌, ◌≡◌, refl, sym, ◌∙◌, ◌≢◌, String, Bool, true, false, some, List, [], ◌∷◌, arith,
  length, lookup, str_eq, if◌then◌else◌, All, sum_by, Bool-cases, inl, inr,
}
use cantelop_sdk.Messages.{
  State, queued, running, cancelling, succeeded, failed, timed_out, Phase, delivering, settling,
  closed, Reservation, Messages, max_pending_bytes, modify,
}

-- The states that each phase allows, with the controller aborted or not.
abbrev pub consistent : Phase → State → Bool → Bool
consistent delivering queued false = true
consistent delivering running false = true
consistent delivering cancelling true = true
consistent settling succeeded false = true
consistent settling failed aborted = true
consistent settling timed_out true = true
consistent closed succeeded false = true
consistent closed failed aborted = true
consistent closed timed_out true = true
consistent _ _ _ = false

abbrev pub is_open : Phase → Bool
is_open closed = false
is_open _ = true

abbrev pub open_bytes : {V : Type 0} → String × Reservation V → ℕ
open_bytes (id, r) = if is_open r.phase then r.bytes else 0

abbrev pub open_ids : {V : Type 0} → List (String × Reservation V) → List String
open_ids [] = []
open_ids ((id, r) ∷ rs) = let rest = open_ids rs in if is_open r.phase then id ∷ rest else rest

abbrev pub IsConsistent : {V : Type 0} → String × Reservation V → Type 0
IsConsistent (id, r) = consistent r.phase r.receipt.state r.aborted ≡ true

-- Every record stands under its own id, with its place in the order of admission.
abbrev pub Numbered : {V : Type 0} → ℕ → List (String × Reservation V) → Type 0
Numbered n [] = Unit
Numbered n ((id, r) ∷ rs) =
    (r.receipt.sequence ≡ n) × (r.receipt.message_id ≡ id) × Numbered (suc n) rs

abbrev pub Other : {V : Type 0} → String → String × Reservation V → Type 0
Other id (j, r) = j ≢ id

abbrev pub DistinctIds : {V : Type 0} → List (String × Reservation V) → Type 0
DistinctIds [] = Unit
DistinctIds ((id, r) ∷ rs) = All (Other id) rs × DistinctIds rs

module _ {V : Type 0} where
  pub record Inv (m : Messages V) : Type 0 where
    pub bytes_counted : m.pending_bytes ≡ sum_by open_bytes m.records
    pub bytes_bounded : m.pending_bytes ≤ max_pending_bytes
    pub records_bounded : length m.records ≤ m.max_messages
    pub unsettled_open : m.unsettled ≡ open_ids m.records
    pub all_consistent : All IsConsistent m.records
    pub numbered : Numbered 1 m.records
    pub distinct : DistinctIds m.records

  -- A write that keeps what the receipt is known by.
  pub record Gentle (f : Reservation V → Reservation V) : Type 0 where
    pub same_sequence : (r : Reservation V) → (f r).receipt.sequence ≡ r.receipt.sequence
    pub same_id : (r : Reservation V) → (f r).receipt.message_id ≡ r.receipt.message_id

  -- … and that closes nothing.
  pub record Quiet (f : Reservation V → Reservation V) : Type 0 where
    pub gentle : Gentle f
    pub same_open : (r : Reservation V) → is_open (f r).phase ≡ is_open r.phase
    pub same_bytes : (r : Reservation V) → (f r).bytes ≡ r.bytes

  module _ (id : String) (f : Reservation V → Reservation V) where
    pub length-modify : (rs : List (String × Reservation V)) → length (modify id f rs) ≡ length rs
    unfolding modify
    length-modify [] = refl
    length-modify ((j, r) ∷ rs) = ground (arith, length-modify rs)

    pub modify-Numbered :
        (n : ℕ) (rs : List (String × Reservation V))
        → Gentle f
        → Numbered n rs
        → Numbered n (modify id f rs)
    unfolding modify
    modify-Numbered n [] g h = tt
    modify-Numbered n ((j, r) ∷ rs) g h =
        ground (arith, g.same_sequence r, g.same_id r, modify-Numbered (suc n) rs g h.2)

    modify-Other :
        (k : String) (rs : List (String × Reservation V))
        → All (Other k) rs
        → All (Other k) (modify id f rs)
    unfolding modify
    modify-Other k [] h = tt
    modify-Other k ((j, r) ∷ rs) h = elim (Bool-cases (str_eq j id)) [
      | inl hit ↦ rw hit h
      | inr miss ↦ rw miss (h.0, modify-Other k rs h.1)
    ]

    pub modify-DistinctIds :
        (rs : List (String × Reservation V)) → DistinctIds rs → DistinctIds (modify id f rs)
    unfolding modify
    modify-DistinctIds [] h = tt
    modify-DistinctIds ((j, r) ∷ rs) h = elim (Bool-cases (str_eq j id)) [
      | inl hit ↦ rw hit h
      | inr miss ↦ rw miss (modify-Other j rs h.0, modify-DistinctIds rs h.1)
    ]

    pub modify-IsConsistent :
        (rs : List (String × Reservation V))
        → ((r : Reservation V)
            → lookup id rs ≡ some r
            → IsConsistent (id, r)
            → IsConsistent (id, f r))
        → All IsConsistent rs
        → All IsConsistent (modify id f rs)
    unfolding modify
    modify-IsConsistent [] g h = tt
    modify-IsConsistent ((j, r) ∷ rs) g h = elim (Bool-cases (str_eq j id)) [
      | inl hit ↦ rw hit (g r (rw hit) h.0, h.1)
      | inr miss ↦ rw miss (h.0, modify-IsConsistent rs (λ x e. g x (rw miss e)) h.1)
    ]

    modify-open_bytes :
        (rs : List (String × Reservation V))
        → Quiet f
        → sum_by open_bytes (modify id f rs) ≡ sum_by open_bytes rs
    unfolding modify
    modify-open_bytes [] q = refl
    modify-open_bytes ((j, r) ∷ rs) q =
        ground (arith, q.same_open r, q.same_bytes r, modify-open_bytes rs q)

    modify-open_ids :
        (rs : List (String × Reservation V)) → Quiet f → open_ids (modify id f rs) ≡ open_ids rs
    unfolding modify
    modify-open_ids [] q = refl
    modify-open_ids ((j, r) ∷ rs) q = ground (arith, q.same_open r, modify-open_ids rs q)

    -- Any write under an id that keeps the bookkeeping keeps the invariant.
    pub modify-Inv :
        (m : Messages V)
        → Quiet f
        → ((r : Reservation V)
            → lookup id m.records ≡ some r
            → IsConsistent (id, r)
            → IsConsistent (id, f r))
        → Inv m
        → Inv (record m { records = modify id f m.records })
    modify-Inv m q c v = record {
      bytes_counted = v.bytes_counted ∙ sym (modify-open_bytes m.records q);
      bytes_bounded = v.bytes_bounded;
      records_bounded = omega (arith, length-modify m.records, v.records_bounded);
      unsettled_open = v.unsettled_open ∙ sym (modify-open_ids m.records q);
      all_consistent = modify-IsConsistent m.records c v.all_consistent;
      numbered = modify-Numbered 1 m.records q.gentle v.numbered;
      distinct = modify-DistinctIds m.records v.distinct;
    }
