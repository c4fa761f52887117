-- ===== src/Messages/Lifecycle.antt =====
-- src/runtime-messages.ts: the life of one receipt. It moves forward only, and an outcome is final.
use cantelop_sdk.Prelude.{
  ℕ, ◌≤◌, ◌≡◌, refl, sym, subst, ◌∙◌, String, Bool, true, Option, none, some, List, [], ◌∷◌, ◌++◌,
  arith, lookup, str_eq, eq_iff, if◌then◌else◌, All, Bool-cases, inl, inr, Result, ok, err, ◌>>=◌,
}
use mathlib.Core.Option
use cantelop_sdk.Messages.{
  State, queued, running, cancelling, Receipt, Phase, delivering, settling, closed, Reservation,
  Delivery, Deadline, Messages, modify, admit, admit_known, reserve, new_receipt, capacity,
  check_deadline, started, outcome, write_outcome, close, close_found, close_known,
  close_reservation, cancel, cancel_found, request_cancellation, is_cancellable, start_receipt,
  expires_at, set_state, fulfilled_state, rejected_state,
}
use cantelop_sdk.Messages.Invariant.{consistent, IsConsistent, Inv}
use cantelop_sdk.Messages.Turns.{
  Turn, admits, starts, delivers, closes, cancels, step, run, after_admit, after_cancel,
  is_delivering, delivering-phase, step-Inv,
}

abbrev pub rank : State → ℕ
rank queued = 0
rank running = 1
rank cancelling = 2
rank _ = 3

module _ {V : Type 0} where
  -- What stays and what moves between two looks at a reservation.
  pub record Later (r r' : Reservation V) : Type 0 where
    pub same_fingerprint : r'.fingerprint ≡ r.fingerprint
    pub same_sequence : r'.receipt.sequence ≡ r.receipt.sequence
    pub forward : rank r.receipt.state ≤ rank r'.receipt.state
    pub final : 3 ≤ rank r.receipt.state → r'.receipt.state ≡ r.receipt.state

  Later-refl : (r : Reservation V) → Later r r
  Later-refl r = ground arith

  Later-trans : {r s t : Reservation V} → Later r s → Later s t → Later r t
  Later-trans {r} {s} {t} a b = record {
    same_fingerprint = b.same_fingerprint ∙ a.same_fingerprint;
    same_sequence = b.same_sequence ∙ a.same_sequence;
    forward = omega (arith, a.forward, b.forward);
    final = λ h.
        let e : s.receipt.state ≡ r.receipt.state = a.final h in
        b.final (subst (λ q. 3 ≤ rank q) (sym e) h) ∙ e;
  }

  lookup-modify :
      (k id : String) (f : Reservation V → Reservation V) (rs : List (String × Reservation V))
      → lookup k (modify id f rs)
        ≡ (if str_eq id k then Option.map f (lookup k rs) else lookup k rs)
  unfolding modify
  lookup-modify k id f [] = ground arith
  lookup-modify k id f ((j, r) ∷ rs) =
      ground (arith, eq_iff j id, eq_iff j k, eq_iff id k, lookup-modify k id f rs)

  lookup-consistent :
      (k : String) (rs : List (String × Reservation V)) (r : Reservation V)
      → lookup k rs ≡ some r
      → All IsConsistent rs
      → consistent r.phase r.receipt.state r.aborted ≡ true
  lookup-consistent k [] r e a = cc
  lookup-consistent k ((j, x) ∷ rs) r e a = ground (arith, lookup-consistent k rs r)

  abbrev Follows : String → Reservation V → Messages V → Type 0
  Follows k r m = (r' : Reservation V) × (lookup k m.records ≡ some r') × Later r r'

  -- A write through the record under some id.
  modify-Follows :
      (m : Messages V) (k id : String) (f : Reservation V → Reservation V) (r : Reservation V)
      → lookup k m.records ≡ some r
      → (lookup id m.records ≡ some r → Later r (f r))
      → Follows k r (record m { records = modify id f m.records })
  modify-Follows m k id f r e l = elim (Bool-cases (str_eq id k)) [
    | inl same ↦
        let p : id ≡ k = (eq_iff id k).0 same in
        (f r, lookup-modify k id f m.records ∙ rw (same, e) refl, l (rw p e))
    | inr other ↦ (r, lookup-modify k id f m.records ∙ rw (other, e) refl, Later-refl r)
  ]

  lookup-snoc :
      (k id : String) (x r : Reservation V) (rs : List (String × Reservation V))
      → lookup k rs ≡ some r
      → lookup k (rs ++ (id, x) ∷ []) ≡ some r
  lookup-snoc k id x r [] e = cc
  lookup-snoc k id x r ((j, y) ∷ rs) e = ground (arith, lookup-snoc k id x r rs)

  reserved-lookup :
      (m : Messages V) (k id fingerprint : String) (bytes : ℕ) (receipt : Receipt) (d : Delivery V)
      (r : Reservation V)
      → lookup k m.records ≡ some r
      → lookup k (reserve m id fingerprint bytes receipt d).0.records ≡ some r
  unfolding reserve
  reserved-lookup m k id fingerprint bytes receipt d r e = lookup-snoc k id _ r m.records e

  admit_known-Follows :
      (m : Messages V) (k id fingerprint : String) (bytes now : ℕ) (known : Option (Reservation V))
      (deadline : Deadline) (attempt : Option String) (enqueue : Result (Delivery V))
      (r : Reservation V)
      → lookup k m.records ≡ some r
      → Follows k r
          (after_admit m (admit_known m id fingerprint bytes known now deadline attempt enqueue))
  unfolding admit_known after_admit
  admit_known-Follows m k id fingerprint bytes now (some x) deadline attempt enqueue r e =
      elim (Bool-cases (str_eq x.fingerprint fingerprint)) [
        | inl same ↦ rw same (r, e, Later-refl r)
        | inr differs ↦ rw differs (r, e, Later-refl r)
      ]
  admit_known-Follows m k id fingerprint bytes now none deadline attempt enqueue r e =
      elim (Bool-cases (capacity m bytes)) [
        | inr full ↦ rw full (r, e, Later-refl r)
        | inl room ↦
            rw room (admitted (check_deadline m now (expires_at now m.timeout_ms deadline)) enqueue)
      ]
    where
      admitted :
          (expiry : Result ℕ) (q : Result (Delivery V))
          → Follows k r (
              after_admit m (
                expiry >>= λ expires. q >>= λ delivery.
                ok
                  (reserve m id fingerprint bytes (new_receipt m id attempt now expires) delivery)))
      admitted (err x) q = (r, e, Later-refl r)
      admitted (ok expires) (err x) = (r, e, Later-refl r)
      admitted (ok expires) (ok d) = (
        r,
        reserved-lookup m k id fingerprint bytes (new_receipt m id attempt now expires) d r e,
        Later-refl r,
      )

  write_outcome-Later :
      (r : Reservation V) (fulfilled : Bool)
      → consistent r.phase r.receipt.state r.aborted ≡ true
      → Later r (write_outcome fulfilled r)
  unfolding write_outcome set_state fulfilled_state rejected_state
  write_outcome-Later r fulfilled c = ground arith

  start-Later :
      (r : Reservation V) (now : ℕ)
      → r.phase ≡ delivering
      → consistent r.phase r.receipt.state r.aborted ≡ true
      → Later r (record r { receipt = start_receipt r.aborted now r.receipt })
  start-Later r now p c = ground arith

  cancel-Later :
      (r : Reservation V) (code : String) (now : ℕ)
      → is_cancellable r.receipt.state ≡ true
      → Later r (request_cancellation code now r)
  unfolding request_cancellation is_cancellable
  cancel-Later r code now c = ground arith

  close_known-Follows :
      (m : Messages V) (k id : String) (now : ℕ) (x r : Reservation V) (p : Phase)
      → lookup k m.records ≡ some r
      → Follows k r (close_known m id now x p).0
  unfolding close_known close_reservation
  close_known-Follows m k id now x r delivering e = (r, e, Later-refl r)
  close_known-Follows m k id now x r closed e = (r, e, Later-refl r)
  close_known-Follows m k id now x r settling e =
      modify-Follows m k id (close_reservation now) r e (λ _. ground arith)

  close_found-Follows :
      (m : Messages V) (k id : String) (now : ℕ) (found : Option (Reservation V))
      (r : Reservation V)
      → lookup k m.records ≡ some r
      → Follows k r (close_found m id now found).0
  unfolding close_found
  close_found-Follows m k id now none r e = (r, e, Later-refl r)
  close_found-Follows m k id now (some x) r e = close_known-Follows m k id now x r x.phase e

  cancel_found-Follows :
      (m : Messages V) (k id code : String) (now : ℕ) (found : Option (Reservation V))
      (r : Reservation V)
      → lookup id m.records ≡ found
      → lookup k m.records ≡ some r
      → Follows k r (after_cancel m (cancel_found m id code now found))
  unfolding cancel_found after_cancel
  cancel_found-Follows m k id code now none r h e = (r, e, Later-refl r)
  cancel_found-Follows m k id code now (some x) r h e =
      elim (Bool-cases (is_cancellable x.receipt.state)) [
        | inr late ↦ rw late (r, e, Later-refl r)
        | inl early ↦ rw early (
            modify-Follows m k id (request_cancellation code now) r e (λ f.
              let c : is_cancellable r.receipt.state ≡ true = cc in cancel-Later r code now c))
      ]

  step-Follows :
      (m : Messages V) (t : Turn V) (k : String) (r : Reservation V)
      → Inv m
      → lookup k m.records ≡ some r
      → Follows k r (step m t)
  unfolding step admit close cancel started outcome
  step-Follows m (admits h id envelope now deadline attempt enqueue) k r v e =
      admit_known-Follows m k id _ _ now (lookup id m.records) deadline attempt enqueue r e
  step-Follows m (starts id now) k r v e = elim (Bool-cases (is_delivering (lookup id m.records))) [
    | inr late ↦ rw late (r, e, Later-refl r)
    | inl early ↦ rw early (
        modify-Follows m k id _ r e (λ f.
          start-Later r now (delivering-phase _ r f early)
            (lookup-consistent k m.records r e v.all_consistent)))
  ]
  step-Follows m (delivers id fulfilled) k r v e =
      modify-Follows m k id (write_outcome fulfilled) r e
        (λ _. write_outcome-Later r fulfilled (lookup-consistent k m.records r e v.all_consistent))
  step-Follows m (closes id now) k r v e = close_found-Follows m k id now (lookup id m.records) r e
  step-Follows m (cancels id code now) k r v e =
      cancel_found-Follows m k id code now (lookup id m.records) r refl e

  -- From any consistent state and over any turns, a reservation is never dropped, keeps its
  -- fingerprint and its number, moves only forward through queued, running, cancelling and an
  -- outcome, and keeps its outcome.
  pub run-Later :
      (m : Messages V) (ts : List (Turn V)) (k : String) (r : Reservation V)
      → Inv m
      → lookup k m.records ≡ some r
      → (r' : Reservation V) × (lookup k (run m ts).records ≡ some r') × Later r r'
  unfolding run
  run-Later m [] k r v e = (r, e, Later-refl r)
  run-Later m (t ∷ ts) k r v e =
      let (s, f, l) = step-Follows m t k r v e in
      let (q, g, n) = run-Later (step m t) ts k s (step-Inv m t v) f in (q, g, Later-trans l n)
