-- ===== src/Adapter/Intake/Generations.antt =====
-- src/session-runtime-adapter.ts: the generations and the numbers of what a runtime has taken in.
use cantelop_sdk.Prelude.{
  ℕ, suc, ◌≡◌, refl, ap, sym, subst, ◌∙◌, String, Bool, some, List, [], ◌∷◌, length, length-append,
  lookup, insert, str_eq, All, All-append, All-map, inl, inr, Bool-cases, arith,
}
use cantelop_sdk.Adapter.Intake.{Runtime, RuntimeRecovery}
use cantelop_sdk.Adapter.Intake.Changes.{
  Same, Reserved, Resumed, Change, same, bound_to, reserved, resumed, turn-Change,
}
use cantelop_sdk.Adapter.Intake.Turns.{Turn, new_runtime, turn, run}
use cantelop_sdk.Messages.{new_messages}
use cantelop_sdk.Messages.Generations.{generations}
use cantelop_sdk.Quiescence.{Quiescence, observe_message}
use cantelop_sdk.Quiescence.Generations.{
  Kept, observe_message-Kept, observe_message-answer, observe_message-Inv, new_quiescence-Inv,
}
use cantelop_sdk.Quiescence.Generations as Observed

-- An observation of the message `entry.0` answers `entry.1`.
abbrev pub Known : Quiescence → String × ℕ → Type 0
Known q entry = lookup entry.0 q.message_generations ≡ some entry.1

abbrev pub KnownRecovery : Quiescence → String × RuntimeRecovery → Type 0
KnownRecovery q (id, recovery) =
    lookup recovery.interrupted_message_id q.message_generations ≡ some recovery.generation

insert-All :
    {V : Type 0} (P : String × V → Type 0) (key : String) (new : V) (map : List (String × V))
    → ((k : String) → P (k, new))
    → All P map
    → All P (insert key new map)
insert-All P key new [] h v = (h key, tt)
insert-All P key new ((k, old) ∷ map) h v = elim (Bool-cases (str_eq k key)) [
  | inl e ↦ rw e (h k, v.1)
  | inr e ↦ rw e (v.0, insert-All P key new map h v.1)
]

module _ {M V : Type 0} where
  -- The reservations and the recoveries have the generations that observations of their messages
  -- answer, and the intake has numbered each reservation.
  pub record Inv (r : Runtime M V) : Type 0 where
    pub observations : Observed.Inv r.quiescence
    pub reservations_known : All (Known r.quiescence) (generations r.messages)
    pub recoveries_known : All (KnownRecovery r.quiescence) r.recoveries
    pub numbered : r.next_intake_sequence ≡ suc (length (generations r.messages))

  Same-Inv : (r r' : Runtime M V) → Same r r' → Inv r → Inv r'
  Same-Inv r r' s v = record {
    observations = rw s.observed v.observations;
    reservations_known = rw s.observed (rw s.numbers v.reservations_known);
    recoveries_known = rw s.observed (rw s.known v.recoveries_known);
    numbered =
        s.next ∙ v.numbered ∙ ap (λ (ms : List (String × ℕ)). suc (length ms)) (sym s.numbers);
  }

  -- What was known before an observation is known behind it.
  module _ (r : Runtime M V) (id : String) (v : Inv r) where
    reservations_kept : All (Known (observe_message r.quiescence id).0) (generations r.messages)
    reservations_kept =
        All-map (Known r.quiescence) _
          (λ entry. observe_message-Kept r.quiescence id entry.0 entry.1) _ v.reservations_known

    recoveries_kept : All (KnownRecovery (observe_message r.quiescence id).0) r.recoveries
    recoveries_kept =
        All-map (KnownRecovery r.quiescence) _ (λ entry. observe_message-Kept r.quiescence id _ _) _
          v.recoveries_known

  Reserved-Inv : (id : String) (r r' : Runtime M V) → Reserved id r r' → Inv r → Inv r'
  Reserved-Inv id r r' s v = record {
    observations = rw s.observed (observe_message-Inv r.quiescence id v.observations);
    reservations_known = rw s.observed (
        rw s.numbers (
          All-append (Known (observe_message r.quiescence id).0) (generations r.messages) _
            (reservations_kept r id v) (observe_message-answer r.quiescence id, tt)));
    recoveries_known = rw s.observed (rw s.known (recoveries_kept r id v));
    numbered =
        let appended =
          length-append (generations r.messages) ((id, (observe_message r.quiescence id).1) ∷ []) in
        rw s.numbers (omega (arith, s.next, v.numbered, appended));
  }

  Resumed-Inv :
      (id : String) (recovery : RuntimeRecovery) (r r' : Runtime M V)
      → Resumed id recovery r r'
      → Inv r
      → Inv r'
  Resumed-Inv id recovery r r' s v =
      let interrupted = recovery.interrupted_message_id in
      record {
        observations = rw s.observed (observe_message-Inv r.quiescence interrupted v.observations);
        reservations_known = rw s.observed (rw s.numbers (reservations_kept r interrupted v));
        recoveries_known = rw s.observed (
            rw s.known (
              insert-All (KnownRecovery (observe_message r.quiescence interrupted).0) id recovery
                r.recoveries
                (λ k. observe_message-answer r.quiescence interrupted ∙ ap some (sym s.given))
                (recoveries_kept r interrupted v)));
        numbered =
            s.next ∙ v.numbered ∙ ap (λ (ms : List (String × ℕ)). suc (length ms)) (sym s.numbers);
      }

  Change-Inv : (r r' : Runtime M V) → Change r r' → Inv r → Inv r'
  Change-Inv r r' (same s) v = Same-Inv r r' s v
  Change-Inv r r' (bound_to session free e) v = subst Inv (sym e) (record {
    observations = v.observations;
    reservations_known = v.reservations_known;
    recoveries_known = v.recoveries_known;
    numbered = v.numbered;
  })
  Change-Inv r r' (reserved id s) v = Reserved-Inv id r r' s v
  Change-Inv r r' (resumed id recovery s) v = Resumed-Inv id recovery r r' s v

  run-Inv : (r : Runtime M V) (ts : List (Turn M V)) → Inv r → Inv (run r ts)
  unfolding run
  run-Inv r [] v = v
  run-Inv r (t ∷ ts) v = run-Inv (turn r t) ts (Change-Inv r (turn r t) (turn-Change r t) v)

  -- After any history of a runtime, its reservations and recoveries have the generations that
  -- observations of their messages answer, and the next message that it takes in has the number
  -- behind that of the last reservation.
  pub run_runtime-Inv :
      (sandbox_id : String) (timeout_ms max_messages : ℕ) (harness_mode can_recover : Bool)
      (ts : List (Turn M V))
      → Inv (run (new_runtime sandbox_id timeout_ms max_messages harness_mode can_recover) ts)
  unfolding new_messages
  run_runtime-Inv sandbox_id timeout_ms max_messages harness_mode can_recover ts =
      run-Inv (new_runtime sandbox_id timeout_ms max_messages harness_mode can_recover) ts (record {
        observations = new_quiescence-Inv;
        reservations_known = tt;
        recoveries_known = tt;
        numbered = refl;
      })
