-- ===== src/Adapter/Intake/Changes.antt =====
-- src/session-runtime-adapter.ts: what one turn of a runtime can do to the Session it is bound to, the
-- generations, the intake's numbers and the recoveries.
use cantelop_sdk.Prelude.{
  ℕ, suc, ◌≡◌, refl, ap, ◌∙◌, inl, inr, not, ◌&&◌, subst, String, Bool, true, false, Option, none,
  some, [], ◌∷◌, ◌++◌, lookup, insert, is_some, Bool-cases, bind-eq-ok, ok_inj, Thrown, Result, ok,
  err, ensure,
}
use cantelop_sdk.Adapter.Intake.{
  Command, Runtime, RuntimeRecovery, Intake, dispatch, cancel, same_session, is_auth, bind_session,
  bind_to, receive, receive_command, control_settled, admit, admit_new, admit_retry, send_message,
  send_bound, recover, fits, recover_known, cancel_message, cancelled, on_cancel,
}
use cantelop_sdk.Adapter.Intake.Turns.{
  Turn, binds, admits, sends, resumes, control_ends, cancels, message_starts, message_settles,
  message_closes, mailbox_turn, activity_turn, operation_turn, after, after_bind, turn,
}
use cantelop_sdk.Messages
use cantelop_sdk.Messages.{Messages, Receipt, Deadline, Digest}
use cantelop_sdk.Messages.Canonical.{Json}
use cantelop_sdk.Messages.Generations.{
  generations, started-generations, outcome-generations, close-generations, cancel-generations,
  admit-generations, admit-known,
}
use cantelop_sdk.Protocol.Envelopes.{SessionIdentity}
use cantelop_sdk.Protocol.AuthSessions.{is_reserved_auth_session_id}
use cantelop_sdk.Quiescence.{observe_message}

is_some-none : {A : Type 0} (found : Option A) → is_some found ≡ false → found ≡ none
is_some-none none h = refl
is_some-none (some a) h = cc h

module _ {M V : Type 0} where
  -- What a turn leaves that concerns none of these.
  pub record Same (r r' : Runtime M V) : Type 0 where
    pub bound : r'.bound_session ≡ r.bound_session
    pub observed : r'.quiescence ≡ r.quiescence
    pub numbers : generations r'.messages ≡ generations r.messages
    pub next : r'.next_intake_sequence ≡ r.next_intake_sequence
    pub known : r'.recoveries ≡ r.recoveries

  -- An admission of the message `id`, which had no reservation.
  pub record Reserved (id : String) (r r' : Runtime M V) : Type 0 where
    pub bound : r'.bound_session ≡ r.bound_session
    pub observed : r'.quiescence ≡ (observe_message r.quiescence id).0
    pub numbers :
        generations r'.messages
        ≡ generations r.messages ++ (id, (observe_message r.quiescence id).1) ∷ []
    pub next : r'.next_intake_sequence ≡ suc r.next_intake_sequence
    pub known : r'.recoveries ≡ r.recoveries

  -- The start of the recovery `id`, which was not known.
  pub record Resumed (id : String) (recovery : RuntimeRecovery) (r r' : Runtime M V) : Type 0 where
    pub bound : r'.bound_session ≡ r.bound_session
    pub observed : r'.quiescence ≡ (observe_message r.quiescence recovery.interrupted_message_id).0
    pub given :
        recovery.generation ≡ (observe_message r.quiescence recovery.interrupted_message_id).1
    pub numbers : generations r'.messages ≡ generations r.messages
    pub next : r'.next_intake_sequence ≡ r.next_intake_sequence
    pub fresh : lookup id r.recoveries ≡ none
    pub known : r'.recoveries ≡ insert id recovery r.recoveries

  pub data Change (r r' : Runtime M V) : Type 0 where
    same : Same r r' → Change r r'
    bound_to :
        (session : SessionIdentity)
        → r.bound_session ≡ none
        → r' ≡ record r { bound_session = some session }
        → Change r r'
    reserved : (id : String) → Reserved id r r' → Change r r'
    resumed : (id : String) (recovery : RuntimeRecovery) → Resumed id recovery r r' → Change r r'

  unchanged : (r : Runtime M V) → Change r r
  unchanged r =
      same (record { bound = refl; observed = refl; numbers = refl; next = refl; known = refl })

  bind_to-Change :
      (r : Runtime M V) (session : SessionIdentity) (bound : Option SessionIdentity)
      → r.bound_session ≡ bound
      → Change r (after_bind r (bind_to r session bound))
  unfolding bind_to
  bind_to-Change r session none h = bound_to session h refl
  bind_to-Change r session (some b) h = elim (Bool-cases (same_session b session)) [
    | inl e ↦ rw e (unchanged r)
    | inr e ↦ rw e (unchanged r)
  ]

  -- A turn that only replaces the reservations, with the same generations.
  messages-Change :
      (r : Runtime M V) (m : Messages V)
      → generations m ≡ generations r.messages
      → Change r (record r { messages = m })
  messages-Change r m h =
      same (record { bound = refl; observed = refl; numbers = h; next = refl; known = refl })

  module _ {A : Type 0} (r : Runtime M V) where
    after-Change :
        (result : Result (Runtime M V × A))
        → ((out : Runtime M V × A) → result ≡ ok out → Change r out.0)
        → Change r (after r result)
    after-Change (err thrown) h = unchanged r
    after-Change (ok out) h = h out refl

    succeeded-Change :
        (value out : Runtime M V × A) → Change r value.0 → ok value ≡ ok out → Change r out.0
    succeeded-Change value out c h =
        subst (λ (o : Runtime M V × A). Change r o.0) (ok_inj value out h) c

  -- What `receive` does besides the delivery itself.
  record Received (id : String) (r : Runtime M V) (out : Runtime M V × ℕ × Intake) : Type 0 where
    bound : out.0.bound_session ≡ r.bound_session
    observed : out.0.quiescence ≡ (observe_message r.quiescence id).0
    given : out.1 ≡ (observe_message r.quiescence id).1
    next : out.0.next_intake_sequence ≡ suc r.next_intake_sequence
    known : out.0.recoveries ≡ r.recoveries

  record Unaffected (r r' : Runtime M V) : Type 0 where
    bound : r'.bound_session ≡ r.bound_session
    observed : r'.quiescence ≡ r.quiescence
    next : r'.next_intake_sequence ≡ r.next_intake_sequence
    known : r'.recoveries ≡ r.recoveries

  receive_command-Unaffected :
      (r : Runtime M V) (id : String) (command : Command) (now : ℕ)
      → Unaffected r (receive_command r id command now).0
  unfolding receive_command
  receive_command-Unaffected r id cancel now = elim (Bool-cases r.harness_mode) [
    | inl e ↦ rw e (record { bound = refl; observed = refl; next = refl; known = refl })
    | inr e ↦ rw e (record { bound = refl; observed = refl; next = refl; known = refl })
  ]
  receive_command-Unaffected r id _ now = record {
    bound = refl;
    observed = refl;
    next = refl;
    known = refl;
  }

  receive-Received :
      (r : Runtime M V) (id : String) (session : SessionIdentity) (command : Command) (now : ℕ)
      → Received id r (receive r id session command now)
  unfolding receive
  receive-Received r id session command now =
      let (quiescence, generation) = observe_message r.quiescence id in
      let u =
        receive_command-Unaffected
          (record r { quiescence = quiescence; next_intake_sequence = suc r.next_intake_sequence })
          id command now in
      elim (Bool-cases (is_reserved_auth_session_id session.id && not (is_auth command))) [
        | inl e ↦
            rw e (record { bound = refl; observed = refl; given = refl; next = refl; known = refl })
        | inr e ↦ rw e (record {
          bound = u.bound;
          observed = u.observed;
          given = refl;
          next = u.next;
          known = u.known;
        })
      ]

  admit-Change :
      (h : Digest) (r : Runtime M V) (id : String) (envelope : Json) (session : SessionIdentity)
      (command : Command) (now : ℕ) (deadline : Deadline) (attempt : Option String)
      (reply : Option V) (out : Runtime M V × Receipt)
      → admit h r id envelope session command now deadline attempt reply ≡ ok out
      → Change r out.0
  unfolding admit admit_retry admit_new
  admit-Change h r id envelope session command now deadline attempt reply out e =
      elim (Bool-cases (is_some (lookup id r.messages.records))) [
        | inl old ↦
            let (p, admitted, left) =
              bind-eq-ok (Messages.admit h r.messages id envelope now deadline attempt _) _
                (rw old at e) in
            succeeded-Change r _ out
              (messages-Change r p.0 (
                ap generations
                  (admit-known h r.messages id envelope now deadline attempt _ p old admitted)))
              left
        | inr new ↦
            let (p, admitted, left) =
              bind-eq-ok (Messages.admit h r.messages id envelope now deadline attempt _) _
                (rw new at e) in
            let v = receive-Received r id session command now in
            let numbers =
              admit-generations h r.messages id envelope now deadline attempt _ p
                (is_some-none (lookup id r.messages.records) new) admitted in
            succeeded-Change r _ out
              (reserved id (record {
                bound = v.bound;
                observed = v.observed;
                numbers = numbers ∙ ap (λ (g : ℕ). generations r.messages ++ (id, g) ∷ []) v.given;
                next = v.next;
                known = v.known;
              }))
              left
      ]

  send_bound-Change :
      (h : Digest) (r : Runtime M V) (id : String) (envelope : Json) (now : ℕ)
      (bound : Option SessionIdentity) (out : Runtime M V × Receipt)
      → send_bound h r id envelope now bound ≡ ok out
      → Change r out.0
  unfolding send_bound
  send_bound-Change h r id envelope now none out e = cc e
  send_bound-Change h r id envelope now (some session) out e =
      admit-Change h r id envelope session dispatch now Deadline.absent none none out e

  recover_known-Change :
      (r : Runtime M V) (id interrupted : String) (session : SessionIdentity) (now : ℕ)
      (found : Option RuntimeRecovery)
      → lookup id r.recoveries ≡ found
      → (out : Runtime M V × RuntimeRecovery)
      → recover_known r id interrupted session now found ≡ ok out
      → Change r out.0
  unfolding recover_known
  recover_known-Change r id interrupted session now (some existing) h out e =
      let (_, fits, left) = bind-eq-ok (ensure (fits existing interrupted session) _) _ e in
      succeeded-Change r _ out (unchanged r) left
  recover_known-Change r id interrupted session now none h out e =
      let (_, supported, left) = bind-eq-ok (ensure r.recovers _) _ e in
      succeeded-Change r _ out
        (resumed id _ (record {
          bound = refl;
          observed = refl;
          given = refl;
          numbers = refl;
          next = refl;
          fresh = h;
          known = refl;
        }))
        left

  cancelled-Change :
      (r : Runtime M V) (id : String) (reason : Thrown) (now : ℕ) (m : Messages V)
      (receipt : Receipt) (called : Bool)
      → generations m ≡ generations r.messages
      → Change r (cancelled r id reason now (m, receipt, called)).0
  unfolding cancelled on_cancel
  cancelled-Change r id reason now m receipt true h =
      same (record { bound = refl; observed = refl; numbers = h; next = refl; known = refl })
  cancelled-Change r id reason now m receipt false h = messages-Change r m h

  cancel_message-Change :
      (r : Runtime M V) (id code : String) (reason : Thrown) (now : ℕ) (out : Runtime M V × Receipt)
      → cancel_message r id code reason now ≡ ok out
      → Change r out.0
  unfolding cancel_message
  cancel_message-Change r id code reason now out e =
      let (p, requested, left) = bind-eq-ok (Messages.cancel r.messages id code now) _ e in
      succeeded-Change r _ out
        (cancelled-Change r id reason now p.0 p.1 p.2
          (cancel-generations r.messages id code now p requested))
        left

  pub turn-Change : (r : Runtime M V) (t : Turn M V) → Change r (turn r t)
  unfolding turn bind_session recover control_settled send_message
  turn-Change r (binds session) = bind_to-Change r session r.bound_session refl
  turn-Change r (admits h id envelope session command now deadline attempt reply) =
      after-Change r _ (admit-Change h r id envelope session command now deadline attempt reply)
  turn-Change r (sends h id envelope now) =
      after-Change r _ (send_bound-Change h r id envelope now r.bound_session)
  turn-Change r (resumes id interrupted session now) =
      after-Change r _
        (recover_known-Change r id interrupted session now (lookup id r.recoveries) refl)
  turn-Change r control_ends =
      same (record { bound = refl; observed = refl; numbers = refl; next = refl; known = refl })
  turn-Change r (cancels id code reason now) =
      after-Change r _ (cancel_message-Change r id code reason now)
  turn-Change r (message_starts id now) =
      messages-Change r _ (started-generations r.messages id now)
  turn-Change r (message_settles id fulfilled) =
      messages-Change r _ (outcome-generations r.messages id fulfilled)
  turn-Change r (message_closes id now) = messages-Change r _ (close-generations r.messages id now)
  turn-Change r (mailbox_turn t) =
      same (record { bound = refl; observed = refl; numbers = refl; next = refl; known = refl })
  turn-Change r (activity_turn t) =
      same (record { bound = refl; observed = refl; numbers = refl; next = refl; known = refl })
  turn-Change r (operation_turn json t) =
      same (record { bound = refl; observed = refl; numbers = refl; next = refl; known = refl })
