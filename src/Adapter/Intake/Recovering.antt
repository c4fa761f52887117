-- ===== src/Adapter/Intake/Recovering.antt =====
-- src/session-runtime-adapter.ts: the Session that a runtime is bound to, and its recoveries, never
-- change.
use cantelop_sdk.Prelude.{
  ℕ, ◌≡◌, refl, ap, sym, ◌∙◌, subst, String, Bool, true, ◌&&◌, ◌==◌, Option, none, some, List, [],
  ◌∷◌, lookup, lookup-insert, insert, str_eq, str_eq_refl, eq_iff, inl, inr, Bool-cases,
  if◌then◌else◌, arith, bind-eq-ok, ensure-eq-ok, ok_inj, protocol_error, ok, err, ensure,
}
use cantelop_sdk.Adapter.Intake.{
  Runtime, RuntimeRecovery, bind_session, bind_to, same_session, recover, recover_known, fits,
}
use cantelop_sdk.Adapter.Intake.Changes.{Change, same, bound_to, reserved, resumed, turn-Change}
use cantelop_sdk.Adapter.Intake.Turns.{Turn, turn, run}
use cantelop_sdk.Protocol.Envelopes.{SessionIdentity}

lookup-other :
    (id fresh : String) (new recovery : RuntimeRecovery) (known : List (String × RuntimeRecovery))
    → lookup fresh known ≡ none
    → lookup id known ≡ some recovery
    → lookup id (insert fresh new known) ≡ some recovery
lookup-other id fresh new recovery known f h =
    ground (arith, lookup-insert fresh id new known, eq_iff fresh id)

lookup-recorded :
    (id : String) (new : RuntimeRecovery) (known : List (String × RuntimeRecovery))
    → lookup id (insert id new known) ≡ some new
lookup-recorded id new known = ground (arith, lookup-insert id id new known, str_eq_refl id)

same_session-alike :
    (a b other : SessionIdentity)
    → a.id ≡ b.id
    → a.workspace_id ≡ b.workspace_id
    → same_session a other ≡ same_session b other
same_session-alike a b other ids workspaces =
    ap (λ i. str_eq i other.id && str_eq a.workspace_id other.workspace_id) ids
    ∙ ap (λ w. str_eq b.id other.id && str_eq w other.workspace_id) workspaces

same_session-true :
    (a b : SessionIdentity)
    → same_session a b ≡ true
    → (a.id ≡ b.id) × (a.workspace_id ≡ b.workspace_id)
same_session-true a b h =
    (ground (arith, eq_iff a.id b.id), ground (arith, eq_iff a.workspace_id b.workspace_id))

-- Whether two requests of a recovery are of the same message and Session.
abbrev pub asks_same : String → SessionIdentity → String → SessionIdentity → Bool
asks_same interrupted session interrupted' session' =
    str_eq interrupted interrupted'
    && same_session session session'
    && session.keep_alive_seconds == session'.keep_alive_seconds

-- A recovery that fits one request fits just those that ask the same.
fits-alike :
    (existing : RuntimeRecovery) (interrupted : String) (session : SessionIdentity)
    → fits existing interrupted session ≡ true
    → (interrupted' : String) (session' : SessionIdentity)
    → fits existing interrupted' session' ≡ asks_same interrupted session interrupted' session'
unfolding fits
fits-alike existing interrupted session h interrupted' session' =
    let message : existing.interrupted_message_id ≡ interrupted =
      ground (arith, eq_iff existing.interrupted_message_id interrupted) in
    let alike : same_session existing.session session ≡ true = ground arith in
    let (ids, workspaces) = same_session-true existing.session session alike in
    let kept : existing.session.keep_alive_seconds ≡ session.keep_alive_seconds = ground arith in
    let sessions = same_session-alike existing.session session session' ids workspaces in
    ap
      (λ i.
        str_eq i interrupted'
        && same_session existing.session session'
        && existing.session.keep_alive_seconds == session'.keep_alive_seconds)
      message
    ∙ ap
        (λ (s : Bool).
          str_eq interrupted interrupted'
          && s
          && existing.session.keep_alive_seconds == session'.keep_alive_seconds)
        sessions
    ∙ ap
        (λ (k : ℕ).
          str_eq interrupted interrupted'
          && same_session session session'
          && k == session'.keep_alive_seconds)
        kept

module _ {M V : Type 0} where
  -- What is bound or recorded once stays.
  record Kept (r r' : Runtime M V) : Type 0 where
    session_kept :
        (bound : SessionIdentity) → r.bound_session ≡ some bound → r'.bound_session ≡ some bound
    recovery_kept :
        (id : String) (recovery : RuntimeRecovery)
        → lookup id r.recoveries ≡ some recovery
        → lookup id r'.recoveries ≡ some recovery

  Change-Kept : (r r' : Runtime M V) → Change r r' → Kept r r'
  Change-Kept r r' (same s) = record {
    session_kept = λ bound h. s.bound ∙ h;
    recovery_kept = λ id recovery h. rw s.known h;
  }
  Change-Kept r r' (bound_to session free e) =
      subst (Kept r) (sym e)
        (record { session_kept = λ bound h. cc (free, h); recovery_kept = λ id recovery h. h })
  Change-Kept r r' (reserved id s) = record {
    session_kept = λ bound h. s.bound ∙ h;
    recovery_kept = λ id recovery h. rw s.known h;
  }
  Change-Kept r r' (resumed fresh new s) = record {
    session_kept = λ bound h. s.bound ∙ h;
    recovery_kept =
        λ id recovery h. rw s.known (lookup-other id fresh new recovery r.recoveries s.fresh h);
  }

  run-Kept : (r : Runtime M V) (ts : List (Turn M V)) → Kept r (run r ts)
  unfolding run
  run-Kept r [] = record { session_kept = λ bound h. h; recovery_kept = λ id recovery h. h }
  run-Kept r (t ∷ ts) =
      let now = Change-Kept r (turn r t) (turn-Change r t) in
      let later = run-Kept (turn r t) ts in
      record {
        session_kept = λ bound h. later.session_kept bound (now.session_kept bound h);
        recovery_kept =
            λ id recovery h. later.recovery_kept id recovery (now.recovery_kept id recovery h);
      }

  -- A binding that succeeds binds the Session, or finds the one of that id and Workspace bound.
  bind_to-bound :
      (r r' : Runtime M V) (session : SessionIdentity) (was : Option SessionIdentity)
      → r.bound_session ≡ was
      → bind_to r session was ≡ ok r'
      → (bound : SessionIdentity) × (r'.bound_session ≡ some bound)
        × (bound.id ≡ session.id)
        × (bound.workspace_id ≡ session.workspace_id)
  unfolding bind_to
  bind_to-bound r r' session none h e = (session, cc e, refl, refl)
  bind_to-bound r r' session (some b) h e =
      let (_, alike, left) =
        bind-eq-ok (ensure (same_session b session) (protocol_error 409 "session_mismatch")) _ e in
      let (ids, workspaces) = same_session-true b session (ensure-eq-ok _ _ _ alike) in
      let unchanged : r ≡ r' = cc left in
      (b, subst (λ (o : Runtime M V). o.bound_session ≡ some b) unchanged h, ids, workspaces)

  bind_to_again :
      (r : Runtime M V) (session other : SessionIdentity)
      → bind_to r other (some session)
        ≡ (if same_session session other then ok r else err (protocol_error 409 "session_mismatch"))
  unfolding bind_to
  bind_to_again r session other = elim (Bool-cases (same_session session other)) [
    | inl e ↦ rw e refl
    | inr e ↦ rw e refl
  ]

  recover_known_again :
      (r : Runtime M V) (id interrupted : String) (session : SessionIdentity) (now : ℕ)
      (existing : RuntimeRecovery)
      → recover_known r id interrupted session now (some existing) ≡ (
          if fits existing interrupted session
          then ok (r, existing)
          else err (protocol_error 409 "recovery_conflict"))
  unfolding recover_known
  recover_known_again r id interrupted session now existing =
      elim (Bool-cases (fits existing interrupted session)) [
        | inl e ↦ rw e refl
        | inr e ↦ rw e refl
      ]

  recover_known-recorded :
      (r r' : Runtime M V) (id interrupted : String) (session : SessionIdentity) (now : ℕ)
      (found : Option RuntimeRecovery) (recovery : RuntimeRecovery)
      → lookup id r.recoveries ≡ found
      → recover_known r id interrupted session now found ≡ ok (r', recovery)
      → lookup id r'.recoveries ≡ some recovery
  unfolding recover_known
  recover_known-recorded r r' id interrupted session now (some existing) recovery h e =
      let (_, alike, left) = bind-eq-ok (ensure (fits existing interrupted session) _) _ e in
      let same_runtime : r ≡ r' = cc left in
      let same_recovery : existing ≡ recovery = cc left in
      subst (λ (o : Runtime M V). lookup id o.recoveries ≡ some recovery) same_runtime
        (h ∙ ap some same_recovery)
  recover_known-recorded r r' id interrupted session now none recovery h e =
      let (_, supported, left) = bind-eq-ok (ensure r.recovers _) _ e in
      subst (λ (o : Runtime M V × RuntimeRecovery). lookup id o.0.recoveries ≡ some o.1)
        (ok_inj _ _ left) (lookup-recorded id _ r.recoveries)

  recover_known-fits :
      (r r' : Runtime M V) (id interrupted : String) (session : SessionIdentity) (now : ℕ)
      (found : Option RuntimeRecovery) (recovery : RuntimeRecovery)
      → recover_known r id interrupted session now found ≡ ok (r', recovery)
      → fits recovery interrupted session ≡ true
  unfolding recover_known fits
  recover_known-fits r r' id interrupted session now (some existing) recovery e =
      let (_, alike, left) = bind-eq-ok (ensure (fits existing interrupted session) _) _ e in
      subst (λ (o : Runtime M V × RuntimeRecovery). fits o.1 interrupted session ≡ true)
        (ok_inj _ _ left) (ensure-eq-ok _ _ _ alike)
  recover_known-fits r r' id interrupted session now none recovery e =
      let (_, supported, left) = bind-eq-ok (ensure r.recovers _) _ e in
      subst (λ (o : Runtime M V × RuntimeRecovery). fits o.1 interrupted session ≡ true)
        (ok_inj _ _ left)
        (ground (
          arith,
          str_eq_refl interrupted,
          str_eq_refl session.id,
          str_eq_refl session.workspace_id,
        ))

  -- Once a Session has been bound, after any history another binding changes nothing: it
  -- succeeds for a Session of the same id and Workspace, and is refused as a mismatch for any other.
  pub bind_session-again :
      (r r' : Runtime M V) (session : SessionIdentity) (ts : List (Turn M V))
      (other : SessionIdentity)
      → bind_session r session ≡ ok r'
      → let later = run r' ts in
        bind_session later other ≡ (
          if same_session session other
          then ok later
          else err (protocol_error 409 "session_mismatch"))
  unfolding bind_session bind_to
  bind_session-again r r' session ts other e =
      let later = run r' ts in
      let (bound, was, ids, workspaces) = bind_to-bound r r' session r.bound_session refl e in
      let kept = (run-Kept r' ts).session_kept bound was in
      ap (bind_to later other) kept
      ∙ bind_to_again later bound other
      ∙ ap (λ (test : Bool). if test then ok later else err (protocol_error 409 "session_mismatch"))
          (same_session-alike bound session other ids workspaces)

  -- A recovery that was answered to a request is, after any history, answered to each request of its
  -- id that asks for the same message and Session, and nothing changes; a request of that id for
  -- another message or Session is a conflict.
  pub recover-again :
      (r r' : Runtime M V) (id interrupted : String) (session : SessionIdentity) (now : ℕ)
      (recovery : RuntimeRecovery) (ts : List (Turn M V)) (interrupted' : String)
      (session' : SessionIdentity) (now' : ℕ)
      → recover r id interrupted session now ≡ ok (r', recovery)
      → let later = run r' ts in
        recover later id interrupted' session' now' ≡ (
          if asks_same interrupted session interrupted' session'
          then ok (later, recovery)
          else err (protocol_error 409 "recovery_conflict"))
  unfolding recover recover_known
  recover-again r r' id interrupted session now recovery ts interrupted' session' now' e =
      let later = run r' ts in
      let recorded =
        recover_known-recorded r r' id interrupted session now (lookup id r.recoveries) recovery
          refl e in
      let kept = (run-Kept r' ts).recovery_kept id recovery recorded in
      ap (recover_known later id interrupted' session' now') kept
      ∙ recover_known_again later id interrupted' session' now' recovery
      ∙ ap
          (λ (test : Bool).
            if test then ok (later, recovery) else err (protocol_error 409 "recovery_conflict"))
          (fits-alike recovery interrupted session
            (recover_known-fits r r' id interrupted session now (lookup id r.recoveries) recovery e)
            interrupted' session')
