-- ===== src/Messages/Generations.antt =====
-- src/runtime-messages.ts: the generations of the reservations, which no later call changes.
use cantelop_sdk.Prelude.{
  ℕ, ◌≡◌, refl, ap, subst, inl, inr, String, Bool, true, false, Option, none, some, List, [], ◌∷◌,
  ◌++◌, map, map-append, lookup, str_eq, is_some, Bool-cases, if◌then◌else◌, bind-eq-ok, ok_inj,
  Result, ok, ensure,
}
use cantelop_sdk.Messages.{
  Messages, Reservation, Receipt, Delivery, Deadline, Digest, Phase, delivering, settling, modify,
  admit, admit_known, capacity, check_deadline, expires_at, start_receipt, started, outcome,
  write_outcome, set_state, fulfilled_state, rejected_state, close, close_found, close_known,
  close_reservation, cancel, cancel_found, request_cancellation, is_cancellable,
}
use cantelop_sdk.Messages.Canonical.{Json}

start_receipt-generation :
    (aborted : Bool) (now : ℕ) (r : Receipt)
    → (start_receipt aborted now r).generation ≡ r.generation
start_receipt-generation true now r = refl
start_receipt-generation false now r = refl

module _ {V : Type 0} where
  abbrev pub generation_of : String × Reservation V → String × ℕ
  generation_of entry = (entry.0, entry.1.receipt.generation)

  abbrev pub generations : Messages V → List (String × ℕ)
  generations m = map generation_of m.records

  modify-generations :
      (id : String) (f : Reservation V → Reservation V) (records : List (String × Reservation V))
      → ((r : Reservation V) → (f r).receipt.generation ≡ r.receipt.generation)
      → map generation_of (modify id f records) ≡ map generation_of records
  unfolding modify
  modify-generations id f [] h = refl
  modify-generations id f ((key, r) ∷ records) h = elim (Bool-cases (str_eq key id)) [
    | inl e ↦ rw e (ap (λ (g : ℕ). (key, g) ∷ map generation_of records) (h r))
    | inr e ↦ rw e (ap (◌∷◌ (key, r.receipt.generation)) (modify-generations id f records h))
  ]

  pub started-generations :
      (m : Messages V) (id : String) (now : ℕ) → generations (started m id now) ≡ generations m
  unfolding started
  started-generations m id now =
      modify-generations id _ m.records (λ r. start_receipt-generation r.aborted now r.receipt)

  -- What a call that succeeded leaves has the generations of its value.
  succeeded-generations :
      {A : Type 0} (left : A → Messages V) (value out : A) (expected : List (String × ℕ))
      → generations (left value) ≡ expected
      → ok value ≡ ok out
      → generations (left out) ≡ expected
  succeeded-generations left value out expected kept h =
      subst (λ o. generations (left o) ≡ expected) (ok_inj value out h) kept

  set_written-generation :
      (fulfilled : Bool) (phase : Phase) (r : Reservation V)
      → (elim phase as (λ p. Reservation V) [
        | delivering ↦
            if fulfilled
            then set_state (fulfilled_state r.aborted r.receipt.error_code) r
            else set_state (rejected_state r.aborted r.receipt.error_code) r
        | _ ↦ r
      ]).receipt.generation
        ≡ r.receipt.generation
  unfolding set_state
  set_written-generation true delivering r = refl
  set_written-generation false delivering r = refl
  set_written-generation fulfilled _ r = refl

  write_outcome-generation :
      (fulfilled : Bool) (r : Reservation V)
      → (write_outcome fulfilled r).receipt.generation ≡ r.receipt.generation
  unfolding write_outcome set_state
  write_outcome-generation fulfilled r = set_written-generation fulfilled r.phase r

  pub outcome-generations :
      (m : Messages V) (id : String) (fulfilled : Bool)
      → generations (outcome m id fulfilled) ≡ generations m
  unfolding outcome
  outcome-generations m id fulfilled =
      modify-generations id (write_outcome fulfilled) m.records (write_outcome-generation fulfilled)

  close_known-generations :
      (m : Messages V) (id : String) (now : ℕ) (r : Reservation V) (p : Phase)
      → generations (close_known m id now r p).0 ≡ generations m
  unfolding close_known close_reservation
  close_known-generations m id now r settling =
      modify-generations id (close_reservation now) m.records (λ s. refl)
  close_known-generations m id now r _ = refl

  close_found-generations :
      (m : Messages V) (id : String) (now : ℕ) (found : Option (Reservation V))
      → generations (close_found m id now found).0 ≡ generations m
  unfolding close_found
  close_found-generations m id now none = refl
  close_found-generations m id now (some r) = close_known-generations m id now r r.phase

  pub close-generations :
      (m : Messages V) (id : String) (now : ℕ) → generations (close m id now).0 ≡ generations m
  unfolding close
  close-generations m id now = close_found-generations m id now (lookup id m.records)

  cancel_found-generations :
      (m : Messages V) (id code : String) (now : ℕ) (found : Option (Reservation V))
      (out : Messages V × Receipt × Bool)
      → cancel_found m id code now found ≡ ok out
      → generations out.0 ≡ generations m
  unfolding cancel_found request_cancellation
  cancel_found-generations m id code now none out h = cc h
  cancel_found-generations m id code now (some r) out h =
      elim (Bool-cases (is_cancellable r.receipt.state)) [
        | inl e ↦
            succeeded-generations (λ (o : Messages V × Receipt × Bool). o.0) _ out (generations m)
              (modify-generations id (request_cancellation code now) m.records (λ s. refl))
              (rw e at h)
        | inr e ↦
            succeeded-generations (λ (o : Messages V × Receipt × Bool). o.0) _ out (generations m)
              refl (rw e at h)
      ]

  pub cancel-generations :
      (m : Messages V) (id code : String) (now : ℕ) (out : Messages V × Receipt × Bool)
      → cancel m id code now ≡ ok out
      → generations out.0 ≡ generations m
  unfolding cancel
  cancel-generations m id code now out h =
      cancel_found-generations m id code now (lookup id m.records) out h

  -- An admission of a new id appends its reservation, with the generation of its delivery.
  pub admit-generations :
      (h : Digest) (m : Messages V) (id : String) (envelope : Json) (now : ℕ) (deadline : Deadline)
      (attempt : Option String) (d : Delivery V) (out : Messages V × Receipt)
      → lookup id m.records ≡ none
      → admit h m id envelope now deadline attempt (ok d) ≡ ok out
      → generations out.0 ≡ generations m ++ (id, d.generation) ∷ []
  unfolding admit admit_known
  admit-generations h m id envelope now deadline attempt d out fresh e =
      let admitted = rw fresh at e in
      let (_, room, next) = bind-eq-ok (ensure (capacity m _) _) _ admitted in
      let (expires, dated, next') =
        bind-eq-ok (check_deadline m now (expires_at now m.timeout_ms deadline)) _ next in
      succeeded-generations (λ (o : Messages V × Receipt). o.0) _ out _
        (map-append generation_of m.records _) next'

  admit_known-same :
      (m : Messages V) (id fingerprint : String) (bytes : ℕ) (found : Option (Reservation V))
      (now : ℕ) (deadline : Deadline) (attempt : Option String) (delivery : Result (Delivery V))
      (out : Messages V × Receipt)
      → is_some found ≡ true
      → admit_known m id fingerprint bytes found now deadline attempt delivery ≡ ok out
      → out.0 ≡ m
  unfolding admit_known
  admit_known-same m id fingerprint bytes none now deadline attempt delivery out known e = cc known
  admit_known-same m id fingerprint bytes (some existing) now deadline attempt delivery out known
        e =
      let (_, same, next) = bind-eq-ok (ensure (str_eq existing.fingerprint fingerprint) _) _ e in
      cc next

  -- An admission of a known id changes nothing.
  pub admit-known :
      (h : Digest) (m : Messages V) (id : String) (envelope : Json) (now : ℕ) (deadline : Deadline)
      (attempt : Option String) (delivery : Result (Delivery V)) (out : Messages V × Receipt)
      → is_some (lookup id m.records) ≡ true
      → admit h m id envelope now deadline attempt delivery ≡ ok out
      → out.0 ≡ m
  unfolding admit admit_known
  admit-known h m id envelope now deadline attempt delivery out known e =
      admit_known-same m id _ _ (lookup id m.records) now deadline attempt delivery out known e
