-- ===== src/Messages/Turns.antt =====
-- src/runtime-messages.ts: histories of the reservations, and that they keep the invariant.
use cantelop_sdk.Prelude.{
  ℕ, suc, ◌+◌, ◌≡◌, refl, sym, ap, subst, ◌∙◌, ◌≢◌, String, Bool, true, false, Option, none, some,
  List, [], ◌∷◌, ◌++◌, arith, length, length-append, lookup, str_eq, eq_iff, if◌then◌else◌, All,
  All-append, sum_by, sum_by-append, Bool-cases, inl, inr, Result, ok, err, ◌>>=◌,
}
use cantelop_sdk.Messages.{
  State, queued, cancelling, Receipt, Phase, delivering, settling, closed, Reservation, Delivery,
  Deadline, Digest, Messages, delete, modify, new_messages, admit, admit_known, reserve,
  new_receipt, capacity, check_deadline, started, outcome, write_outcome, close, close_found,
  close_known, close_reservation, cancel, cancel_found, request_cancellation, is_cancellable,
  start_early, start_receipt, expires_at, fulfilled_state, rejected_state,
}
use cantelop_sdk.Messages.Canonical.{Json}
use cantelop_sdk.Messages.Invariant.{
  consistent, is_open, open_bytes, open_ids, IsConsistent, Numbered, Other, DistinctIds, Inv,
  modify-Inv, length-modify, modify-Numbered, modify-DistinctIds, modify-IsConsistent,
}

-- One turn: a call from outside, or a callback. A delivery starts only before it settles.
pub data Turn (V : Type 0) : Type 0 where
  admits : Digest → String → Json → ℕ → Deadline → Option String → Result (Delivery V) → Turn V
  starts : String → ℕ → Turn V
  delivers : String → Bool → Turn V
  closes : String → ℕ → Turn V
  cancels : String → String → ℕ → Turn V

start_early-keeps :
    (s : Option ℕ) (r : Receipt)
    → r.state ≡ queued
    → ((start_early s r).sequence ≡ r.sequence)
      × ((start_early s r).message_id ≡ r.message_id)
      × (consistent delivering (start_early s r).state false ≡ true)
start_early-keeps none r q = (refl, refl, rw q)
start_early-keeps (some now) r q = (refl, refl, refl)

consistent_closed :
    (s : State) (aborted : Bool)
    → consistent settling s aborted ≡ true
    → consistent closed s aborted ≡ true
consistent_closed s aborted h = ground arith

consistent_cancelling :
    (p : Phase) (s : State) (aborted : Bool)
    → is_cancellable s ≡ true
    → consistent p s aborted ≡ true
    → consistent p cancelling true ≡ true
unfolding is_cancellable
consistent_cancelling p s aborted k h = ground arith

consistent_started :
    (now : ℕ) (r : Receipt) (aborted : Bool)
    → consistent delivering r.state aborted ≡ true
    → consistent delivering (start_receipt aborted now r).state aborted ≡ true
consistent_started now r aborted h = ground arith

module _ {V : Type 0} where
  unfoldable pub after_admit : Messages V → Result (Messages V × Receipt) → Messages V
  after_admit m (err e) = m
  after_admit m (ok (m', receipt)) = m'

  unfoldable pub after_cancel : Messages V → Result (Messages V × Receipt × Bool) → Messages V
  after_cancel m (err e) = m
  after_cancel m (ok (m', receipt, notified)) = m'

  unfoldable pub is_delivering : Option (Reservation V) → Bool
  is_delivering none = false
  is_delivering (some r) = elim r.phase [ delivering ↦ true | _ ↦ false ]

  unfoldable pub step : Messages V → Turn V → Messages V
  unfolding after_admit after_cancel is_delivering
  step m (admits h id envelope now deadline attempt enqueue) =
      after_admit m (admit h m id envelope now deadline attempt enqueue)
  step m (starts id now) = if is_delivering (lookup id m.records) then started m id now else m
  step m (delivers id fulfilled) = outcome m id fulfilled
  step m (closes id now) = (close m id now).0
  step m (cancels id code now) = after_cancel m (cancel m id code now)

  unfoldable pub run : Messages V → List (Turn V) → Messages V
  run m [] = m
  run m (t ∷ ts) = run (step m t) ts

  Numbered-snoc :
      (n : ℕ) (rs : List (String × Reservation V)) (id : String) (r : Reservation V)
      → r.receipt.sequence ≡ n + length rs
      → r.receipt.message_id ≡ id
      → Numbered n rs
      → Numbered n (rs ++ (id, r) ∷ [])
  Numbered-snoc n [] id r s i h = (omega arith, i, tt)
  Numbered-snoc n ((j, x) ∷ rs) id r s i h =
      (h.0, h.1, Numbered-snoc (suc n) rs id r (omega arith) i h.2)

  open_ids-snoc :
      (rs : List (String × Reservation V)) (id : String) (r : Reservation V)
      → is_open r.phase ≡ true
      → open_ids (rs ++ (id, r) ∷ []) ≡ open_ids rs ++ id ∷ []
  open_ids-snoc [] id r o = rw o
  open_ids-snoc ((j, x) ∷ rs) id r o = ground (arith, open_ids-snoc rs id r o)

  -- An id that is not found is no record's.
  missing-Other :
      (id : String) (rs : List (String × Reservation V))
      → lookup id rs ≡ none
      → All (λ (x : String × Reservation V). x.0 ≢ id) rs
  missing-Other id [] h = tt
  missing-Other id ((j, r) ∷ rs) h = elim (Bool-cases (str_eq j id)) [
    | inl hit ↦ absurd (ground arith)
    | inr miss ↦ ((λ e. ground (arith, eq_iff j id)), missing-Other id rs (ground arith))
  ]

  DistinctIds-snoc :
      (rs : List (String × Reservation V)) (id : String) (r : Reservation V)
      → All (λ (x : String × Reservation V). x.0 ≢ id) rs
      → DistinctIds rs
      → DistinctIds (rs ++ (id, r) ∷ [])
  DistinctIds-snoc [] id r m d = (tt, tt)
  DistinctIds-snoc ((j, x) ∷ rs) id r m d = (
    All-append (Other j) rs ((id, r) ∷ []) d.0 ((λ e. m.0 (sym e)), tt),
    DistinctIds-snoc rs id r m.1 d.1,
  )

  -- A new reservation, behind the guard on capacity.
  reserve-Inv :
      (m : Messages V) (id fingerprint : String) (bytes now expires : ℕ) (attempt : Option String)
      (d : Delivery V)
      → capacity m bytes ≡ true
      → lookup id m.records ≡ none
      → Inv m
      → Inv (reserve m id fingerprint bytes (new_receipt m id attempt now expires) d).0
  unfolding reserve capacity new_receipt
  reserve-Inv m id fingerprint bytes now expires attempt d room fresh v =
      let receipt : Receipt = new_receipt m id attempt now expires in
      let keeps = start_early-keeps d.started receipt refl in
      let r : Reservation V = record {
        fingerprint = fingerprint;
        receipt = record (start_early d.started receipt) { generation = d.generation };
        aborted = false;
        bytes = bytes;
        phase = delivering;
        reply = d.reply;
      } in
      record {
        bytes_counted =
            omega (arith, sum_by-append open_bytes m.records ((id, r) ∷ []), v.bytes_counted);
        bytes_bounded = ground arith;
        records_bounded = ground (arith, length-append m.records ((id, r) ∷ []));
        unsettled_open =
            ap (λ (u : List String). u ++ id ∷ []) v.unsettled_open
            ∙ sym (open_ids-snoc m.records id r refl);
        all_consistent =
            All-append IsConsistent m.records ((id, r) ∷ []) v.all_consistent (keeps.2, tt);
        numbered = Numbered-snoc 1 m.records id r (keeps.0 ∙ omega arith) keeps.1 v.numbered;
        distinct = DistinctIds-snoc m.records id r (missing-Other id m.records fresh) v.distinct;
      }

  admit-Inv :
      (m : Messages V) (id fingerprint : String) (bytes now : ℕ) (known : Option (Reservation V))
      (deadline : Deadline) (attempt : Option String) (enqueue : Result (Delivery V))
      → lookup id m.records ≡ known
      → Inv m
      → Inv (after_admit m (admit_known m id fingerprint bytes known now deadline attempt enqueue))
  unfolding admit_known after_admit
  admit-Inv m id fingerprint bytes now (some existing) deadline attempt enqueue e v =
      elim (Bool-cases (str_eq existing.fingerprint fingerprint)) [
        | inl same ↦ rw same v
        | inr differs ↦ rw differs v
      ]
  admit-Inv m id fingerprint bytes now none deadline attempt enqueue e v =
      elim (Bool-cases (capacity m bytes)) [
        | inr full ↦ rw full v
        | inl room ↦
            rw room
              (admitted room (check_deadline m now (expires_at now m.timeout_ms deadline)) enqueue)
      ]
    where
      admitted :
          capacity m bytes ≡ true
          → (expiry : Result ℕ) (q : Result (Delivery V))
          → Inv (
              after_admit m (
                expiry >>= λ expires. q >>= λ delivery.
                ok
                  (reserve m id fingerprint bytes (new_receipt m id attempt now expires) delivery)))
      admitted room (err x) q = v
      admitted room (ok expires) (err x) = v
      admitted room (ok expires) (ok d) =
          reserve-Inv m id fingerprint bytes now expires attempt d room e v

  pub delivering-phase :
      (found : Option (Reservation V)) (r : Reservation V)
      → found ≡ some r
      → is_delivering found ≡ true
      → r.phase ≡ delivering
  unfolding is_delivering
  delivering-phase found r e d = ground arith

  started-Inv :
      (m : Messages V) (id : String) (now : ℕ)
      → is_delivering (lookup id m.records) ≡ true
      → Inv m
      → Inv (started m id now)
  unfolding started is_delivering
  started-Inv m id now d v =
      modify-Inv id (λ r. record r { receipt = start_receipt r.aborted now r.receipt }) m
        (record {
          gentle = record { same_sequence = λ r. ground arith; same_id = λ r. ground arith };
          same_open = λ r. refl;
          same_bytes = λ r. refl;
        })
        (λ r e c.
          let p : r.phase ≡ delivering = delivering-phase _ r e d in
          rw p (
            consistent_started now r.receipt r.aborted
              (subst (λ q. consistent q r.receipt.state r.aborted ≡ true) p c)))
        v

  outcome-Inv :
      (m : Messages V) (id : String) (fulfilled : Bool) → Inv m → Inv (outcome m id fulfilled)
  unfolding outcome fulfilled_state rejected_state
  outcome-Inv m id fulfilled v =
      modify-Inv id (write_outcome fulfilled) m
        (record {
          gentle = record { same_sequence = λ r. ground arith; same_id = λ r. ground arith };
          same_open = λ r. ground arith;
          same_bytes = λ r. ground arith;
        })
        (λ r e c. ground arith) v

  close-sum :
      (id : String) (now : ℕ) (rs : List (String × Reservation V)) (r : Reservation V)
      → lookup id rs ≡ some r
      → is_open r.phase ≡ true
      → sum_by open_bytes (modify id (close_reservation now) rs) + r.bytes ≡ sum_by open_bytes rs
  unfolding modify close_reservation
  close-sum id now [] r e o = cc
  close-sum id now ((j, x) ∷ rs) r e o = ground (arith, close-sum id now rs r)

  close-ids :
      (id : String) (now : ℕ) (rs : List (String × Reservation V)) (r : Reservation V)
      → lookup id rs ≡ some r
      → is_open r.phase ≡ true
      → open_ids (modify id (close_reservation now) rs) ≡ delete id (open_ids rs)
  unfolding modify close_reservation
  close-ids id now [] r e o = cc
  close-ids id now ((j, x) ∷ rs) r e o = ground (arith, close-ids id now rs r)

  close-Inv :
      (m : Messages V) (id : String) (now : ℕ) (r : Reservation V)
      → lookup id m.records ≡ some r
      → (p : Phase) → r.phase ≡ p
      → Inv m
      → Inv (close_known m id now r p).0
  unfolding close_known close_reservation
  close-Inv m id now r e delivering h v = v
  close-Inv m id now r e closed h v = v
  close-Inv m id now r e settling h v =
      let o : is_open r.phase ≡ true = rw h in
      let s = close-sum id now m.records r e o in
      record {
        bytes_counted = omega (arith, s, v.bytes_counted);
        bytes_bounded = omega (arith, v.bytes_bounded);
        records_bounded =
            omega (arith, length-modify id (close_reservation now) m.records, v.records_bounded);
        unsettled_open = ap (delete id) v.unsettled_open ∙ sym (close-ids id now m.records r e o);
        all_consistent =
            modify-IsConsistent id (close_reservation now) m.records
              (λ x f c.
                let p : x.phase ≡ settling = cc in
                consistent_closed x.receipt.state x.aborted
                  (subst (λ q. consistent q x.receipt.state x.aborted ≡ true) p c))
              v.all_consistent;
        numbered =
            modify-Numbered id (close_reservation now) 1 m.records
              (record { same_sequence = λ x. refl; same_id = λ x. refl }) v.numbered;
        distinct = modify-DistinctIds id (close_reservation now) m.records v.distinct;
      }

  close_found-Inv :
      (m : Messages V) (id : String) (now : ℕ) (found : Option (Reservation V))
      → lookup id m.records ≡ found
      → Inv m
      → Inv (close_found m id now found).0
  unfolding close_found
  close_found-Inv m id now none e v = v
  close_found-Inv m id now (some r) e v = close-Inv m id now r e r.phase refl v

  cancel-Inv :
      (m : Messages V) (id code : String) (now : ℕ) (found : Option (Reservation V))
      → lookup id m.records ≡ found
      → Inv m
      → Inv (after_cancel m (cancel_found m id code now found))
  unfolding cancel_found after_cancel request_cancellation
  cancel-Inv m id code now none e v = v
  cancel-Inv m id code now (some r) e v = elim (Bool-cases (is_cancellable r.receipt.state)) [
    | inr late ↦ rw late v
    | inl early ↦ rw early (
        modify-Inv id (request_cancellation code now) m
          (record {
            gentle = record { same_sequence = λ x. refl; same_id = λ x. refl };
            same_open = λ x. refl;
            same_bytes = λ x. refl;
          })
          (λ x f c.
            let k : is_cancellable x.receipt.state ≡ true = cc in
            consistent_cancelling x.phase x.receipt.state x.aborted k c)
          v)
  ]

  pub step-Inv : (m : Messages V) (t : Turn V) → Inv m → Inv (step m t)
  unfolding step admit close cancel
  step-Inv m (admits h id envelope now deadline attempt enqueue) v =
      admit-Inv m id _ _ now (lookup id m.records) deadline attempt enqueue refl v
  step-Inv m (starts id now) v = elim (Bool-cases (is_delivering (lookup id m.records))) [
    | inl early ↦ rw early (started-Inv m id now early v)
    | inr late ↦ rw late v
  ]
  step-Inv m (delivers id fulfilled) v = outcome-Inv m id fulfilled v
  step-Inv m (closes id now) v = close_found-Inv m id now (lookup id m.records) refl v
  step-Inv m (cancels id code now) v = cancel-Inv m id code now (lookup id m.records) refl v

  pub run_from-Inv : (m : Messages V) (ts : List (Turn V)) → Inv m → Inv (run m ts)
  unfolding run
  run_from-Inv m [] v = v
  run_from-Inv m (t ∷ ts) v = run_from-Inv (step m t) ts (step-Inv m t v)

  -- After any history, `pendingBytes` is the size of the reservations that are not closed and stays
  -- within 8 MiB, there are no more records than allowed, the set of unsettled receipts is that of
  -- the reservations that are not closed, in order of admission, every record has its place in that
  -- order and a state that fits its phase, and no id is recorded twice.
  pub run_messages-Inv :
      (sandbox_id : String) (timeout_ms max_messages : ℕ) (ts : List (Turn V))
      → Inv (run (new_messages sandbox_id timeout_ms max_messages) ts)
  unfolding new_messages
  run_messages-Inv sandbox_id timeout_ms max_messages ts =
      run_from-Inv (new_messages sandbox_id timeout_ms max_messages) ts (record {
        bytes_counted = refl;
        bytes_bounded = omega arith;
        records_bounded = omega arith;
        unsettled_open = refl;
        all_consistent = tt;
        numbered = tt;
        distinct = tt;
      })
