-- ===== src/Messages/Admission.antt =====
-- src/runtime-messages.ts: what `admit` promises to a caller that retries, and what `work` reports.
use cantelop_sdk.Prelude.{
  ℕ, suc, ◌+◌, ◌≤◌, ◌<◌, ◌≡◌, refl, ap, subst, ◌∙◌, String, false, Option, none, some, List, [],
  ◌∷◌, ◌++◌, arith, length, lookup, str_eq, str_eq_refl, Bool-cases, inl, inr, Result, ok, err,
  ◌>>=◌, protocol_error,
}
use cantelop_sdk.Messages.{
  Receipt, Reservation, Delivery, Deadline, Digest, Messages, admit, admit_known, reserve,
  new_receipt, capacity, check_deadline, expires_at, deadline_skew_ms, start_early,
}
use cantelop_sdk.Messages.Canonical.{Json, canonical}
use cantelop_sdk.Messages.Invariant.{Inv}
use cantelop_sdk.Messages.Turns.{Turn, admits, step, run, after_admit, step-Inv}
use cantelop_sdk.Messages.Lifecycle.{run-Later}

start_early-deadline : (s : Option ℕ) (r : Receipt) → (start_early s r).deadline ≡ r.deadline
start_early-deadline none r = refl
start_early-deadline (some now) r = refl

start_early-sequence : (s : Option ℕ) (r : Receipt) → (start_early s r).sequence ≡ r.sequence
start_early-sequence none r = refl
start_early-sequence (some now) r = refl

module _ {V : Type 0} where
  lookup-reserved :
      (id : String) (r : Reservation V) (rs : List (String × Reservation V))
      → lookup id rs ≡ none
      → lookup id (rs ++ (id, r) ∷ []) ≡ some r
  lookup-reserved id r [] h = rw (str_eq_refl id)
  lookup-reserved id r ((j, x) ∷ rs) h = ground (arith, lookup-reserved id r rs)

  -- What a successful admission of an unknown id leaves.
  record Admitted (m m' : Messages V) (id fingerprint : String) (now : ℕ) (receipt : Receipt)
      : Type 0 where
    recorded :
        (r : Reservation V) × (lookup id m'.records ≡ some r)
        × (r.fingerprint ≡ fingerprint)
        × (r.receipt ≡ receipt)
    next_number : receipt.sequence ≡ suc (length m.records)
    deadline_after : now < receipt.deadline
    deadline_before : receipt.deadline ≤ now + m.timeout_ms + deadline_skew_ms

  check_deadline-ok :
      (m : Messages V) (now : ℕ) (expiry : Option ℕ) (expires : ℕ)
      → check_deadline m now expiry ≡ ok expires
      → (now < expires) × (expires ≤ now + m.timeout_ms + deadline_skew_ms)
  unfolding check_deadline
  check_deadline-ok m now none expires h = cc
  check_deadline-ok m now (some t) expires h = (ground arith, ground arith)

  reserve-Admitted :
      (m : Messages V) (id fingerprint : String) (bytes now expires : ℕ) (attempt : Option String)
      (d : Delivery V)
      → lookup id m.records ≡ none
      → (now < expires) × (expires ≤ now + m.timeout_ms + deadline_skew_ms)
      → let (m', receipt) =
          reserve m id fingerprint bytes (new_receipt m id attempt now expires) d in
        Admitted m m' id fingerprint now receipt
  unfolding reserve new_receipt
  reserve-Admitted m id fingerprint bytes now expires attempt d fresh (after, before) =
      let e = start_early-deadline d.started (new_receipt m id attempt now expires) in
      record {
        recorded = (_, lookup-reserved id _ m.records fresh, refl, refl);
        next_number = start_early-sequence d.started (new_receipt m id attempt now expires);
        deadline_after = rw e after;
        deadline_before = rw e before;
      }

  admit_known-Admitted :
      (m m' : Messages V) (id fingerprint : String) (bytes now : ℕ) (deadline : Deadline)
      (attempt : Option String) (enqueue : Result (Delivery V)) (receipt : Receipt)
      → lookup id m.records ≡ none
      → admit_known m id fingerprint bytes none now deadline attempt enqueue ≡ ok (m', receipt)
      → Admitted m m' id fingerprint now receipt
  unfolding admit_known
  admit_known-Admitted m m' id fingerprint bytes now deadline attempt enqueue receipt fresh h =
      elim (Bool-cases (capacity m bytes)) [
        | inr full ↦ let refused = rw full at h in cc
        | inl room ↦
            admitted (check_deadline m now (expires_at now m.timeout_ms deadline)) refl enqueue
              (rw room at h)
      ]
    where
      admitted :
          (expiry : Result ℕ)
          → check_deadline m now (expires_at now m.timeout_ms deadline) ≡ expiry
          → (q : Result (Delivery V))
          → (expiry >>= λ expires. q >>= λ delivery.
              ok (reserve m id fingerprint bytes (new_receipt m id attempt now expires) delivery))
            ≡ ok (m', receipt)
          → Admitted m m' id fingerprint now receipt
      admitted (err x) c q g = cc
      admitted (ok expires) c (err x) g = cc
      admitted (ok expires) c (ok d) g =
          let e : reserve m id fingerprint bytes (new_receipt m id attempt now expires) d
              ≡ (m', receipt) =
            cc in
          subst (λ (p : Messages V × Receipt). Admitted m p.0 id fingerprint now p.1) e
            (reserve-Admitted m id fingerprint bytes now expires attempt d fresh
              (check_deadline-ok m now (expires_at now m.timeout_ms deadline) expires c))

  module _ (h : Digest) where
    admit-Admitted :
        (m m' : Messages V) (id : String) (envelope : Json) (now : ℕ) (deadline : Deadline)
        (attempt : Option String) (enqueue : Result (Delivery V)) (receipt : Receipt)
        → lookup id m.records ≡ none
        → admit h m id envelope now deadline attempt enqueue ≡ ok (m', receipt)
        → Admitted m m' id (h.sha256 (canonical h.format envelope)) now receipt
    unfolding admit
    admit-Admitted m m' id envelope now deadline attempt enqueue receipt fresh e =
        admit_known-Admitted m m' id _ _ now deadline attempt enqueue receipt fresh (
          subst
            (λ k.
              admit_known m id (h.sha256 (canonical h.format envelope))
                (h.byte_length (canonical h.format envelope)) k now deadline attempt enqueue
              ≡ ok (m', receipt))
            fresh e)

    admitted-Inv :
        (m m' : Messages V) (id : String) (envelope : Json) (now : ℕ) (deadline : Deadline)
        (attempt : Option String) (enqueue : Result (Delivery V)) (receipt : Receipt)
        → Inv m
        → admit h m id envelope now deadline attempt enqueue ≡ ok (m', receipt)
        → Inv m'
    unfolding step after_admit
    admitted-Inv m m' id envelope now deadline attempt enqueue receipt v e =
        subst (λ r. Inv (after_admit m r)) e
          (step-Inv m (admits h id envelope now deadline attempt enqueue) v)

    -- A message admitted under a fresh id gets the next sequence number and a deadline in the
    -- future, past the message timeout by the allowed clock skew at most.
    pub admit_fresh :
        (m m' : Messages V) (id : String) (envelope : Json) (now : ℕ) (deadline : Deadline)
        (attempt : Option String) (enqueue : Result (Delivery V)) (receipt : Receipt)
        → lookup id m.records ≡ none
        → admit h m id envelope now deadline attempt enqueue ≡ ok (m', receipt)
        → (receipt.sequence ≡ suc (length m.records))
          × (now < receipt.deadline)
          × (receipt.deadline ≤ now + m.timeout_ms + 30000)
    admit_fresh m m' id envelope now deadline attempt enqueue receipt fresh e =
        let a = admit-Admitted m m' id envelope now deadline attempt enqueue receipt fresh e in
        (a.next_number, a.deadline_after, a.deadline_before)

    -- A retry of an admitted message, after any turns: the same canonical text gets the receipt that
    -- the records hold by then, unchanged, which has the number of that admission, and reserves
    -- nothing; a text with another digest under the same id is refused as a conflict.
    pub admit_again :
        (m m' : Messages V) (id : String) (envelope again : Json) (now later : ℕ)
        (deadline deadline' : Deadline) (attempt attempt' : Option String)
        (enqueue enqueue' : Result (Delivery V)) (receipt : Receipt) (ts : List (Turn V))
        → Inv m
        → lookup id m.records ≡ none
        → admit h m id envelope now deadline attempt enqueue ≡ ok (m', receipt)
        → (canonical h.format again ≡ canonical h.format envelope
            → (standing : Reservation V) × (lookup id (run m' ts).records ≡ some standing)
              × (admit h (run m' ts) id again later deadline' attempt' enqueue'
                  ≡ ok (run m' ts, standing.receipt))
              × (standing.receipt.sequence ≡ receipt.sequence))
          × (str_eq (h.sha256 (canonical h.format envelope)) (h.sha256 (canonical h.format again))
                ≡ false
              → admit h (run m' ts) id again later deadline' attempt' enqueue'
                ≡ err (protocol_error 409 "message_conflict"))
    unfolding admit admit_known
    admit_again m m' id envelope again now later deadline deadline' attempt attempt' enqueue
          enqueue' receipt ts v fresh e =
        let a = admit-Admitted m m' id envelope now deadline attempt enqueue receipt fresh e in
        let (r, found, print, same) = a.recorded in
        let v' = admitted-Inv m m' id envelope now deadline attempt enqueue receipt v e in
        let (q, kept, l) = run-Later m' ts id r v' found in
        let p : q.fingerprint ≡ h.sha256 (canonical h.format envelope) =
          l.same_fingerprint ∙ print in
        (
          λ c. (
            q,
            kept,
            rw (kept, p, c, str_eq_refl (h.sha256 (canonical h.format envelope))) refl,
            l.same_sequence ∙ ap (λ (x : Receipt). x.sequence) same,
          ),
          λ d. rw (kept, p, d) refl,
        )
