-- ===== src/Protocol/Received.antt =====
-- src/session-runtime-protocol.ts: what an envelope that was accepted is known to be.
use cantelop_sdk.Prelude.{
  ◌≡◌, ◌≤◌, refl, subst, true, Option, none, some, [], ◌∷◌, arith, ok, err, Result, ◌>>=◌, natural,
  length, ◌==◌,
}
use cantelop_sdk.Protocol.Values.{Value, object, number, string, get, keys}
use cantelop_sdk.Protocol.Patterns.{is_message_id, is_workspace_id, is_session_id, is_attempt_id}
use cantelop_sdk.Protocol.Envelopes.{
  SessionIdentity, RuntimeMessage, TraceContext, Parent, MessageEnvelope, session_fields,
  read_session, message_fields, read_message, trace_fields, read_observability,
  read_message_envelope, max_keep_alive, has_message_envelope_shape, parent_of, exact_keys,
}
use cantelop_sdk.Protocol.Checked.{passed}

pub record ValidSession (s : SessionIdentity) : Type 0 where
  pub id_form : is_session_id s.id ≡ true
  pub workspace_form : is_workspace_id s.workspace_id ≡ true
  pub keep_alive_bounded : s.keep_alive_seconds ≤ max_keep_alive

abbrev pub ValidTrace : Option TraceContext → Type 0
ValidTrace none = Unit
ValidTrace (some t) = (is_attempt_id t.attempt_id ≡ true) × ((1 ≤ t.attempt) × (t.attempt ≤ 100))

session_fields-Valid :
    (a b c : Option Value) (s : SessionIdentity) → session_fields a b c ≡ ok s → ValidSession s
unfolding session_fields
session_fields-Valid (some (string id)) (some (string w)) (some (number (natural n))) s h =
    ground arith
session_fields-Valid _ _ _ s h = ground arith

read_session-Valid :
    (v : Option Value) (s : SessionIdentity) → read_session v ≡ ok s → ValidSession s
unfolding read_session
read_session-Valid (some (object m)) s h =
    let (three, h1) = passed (length (keys m) == 3) _ _ s h in
    session_fields-Valid (get "id" m) (get "workspace_id" m) (get "keep_alive_seconds" m) s h1
read_session-Valid _ s h = ground arith

message_fields-Valid :
    (a b : Option Value) (m : RuntimeMessage)
    → message_fields a b ≡ ok m
    → is_message_id m.id ≡ true
unfolding message_fields
message_fields-Valid (some (string id)) (some p) m h = ground arith
message_fields-Valid _ _ m h = ground arith

read_message-Valid :
    (v : Option Value) (m : RuntimeMessage) → read_message v ≡ ok m → is_message_id m.id ≡ true
unfolding read_message
read_message-Valid (some (object v)) m h =
    let (two, h1) = passed (length (keys v) == 2) _ _ m h in
    message_fields-Valid (get "id" v) (get "payload" v) m h1
read_message-Valid _ m h = ground arith

ok_eq : {A : Type 0} {a b : A} → ok a ≡ ok b → a ≡ b
ok_eq {A} {a} {b} h = ground arith

-- A step that gave a value.
stepped :
    {A B : Type 0} (r : Result A) (next : A → Result B) (b : B)
    → r >>= next ≡ ok b
    → (a : A) × (r ≡ ok a) × (next a ≡ ok b)
stepped (err e) next b h = ground arith
stepped (ok a) next b h = (a, refl, h)

trace_fields-Valid :
    (a b : Option Value) (p : Option Parent) (r : Option Value) (t : Option TraceContext)
    → trace_fields a b p r ≡ ok t
    → ValidTrace t
unfolding trace_fields
trace_fields-Valid (some (string id)) (some (number (natural n))) (some p) r t h = ground arith
trace_fields-Valid _ _ _ r t h = ground arith

read_observability-Valid :
    (v : Option Value) (t : Option TraceContext) → read_observability v ≡ ok t → ValidTrace t
unfolding read_observability
read_observability-Valid none t h = ground arith
read_observability-Valid (some (object v)) t h =
    let (exact, h1) =
      passed (exact_keys v ("attempt_id" ∷ "attempt" ∷ "traceparent" ∷ []) ("request_id" ∷ [])) _ _
        t h in
    trace_fields-Valid (get "attempt_id" v) (get "attempt" v) (parent_of (get "traceparent" v))
      (get "request_id" v) t h1
read_observability-Valid (some _) t h = ground arith

-- An envelope that is accepted names its message, Session and Workspace in the right form, keeps
-- the Sandbox for at most 604800 seconds, and is of one of the attempts 1 to 100 where it says of which
-- (an envelope without observability does not).
pub read_message_envelope-Valid :
    (v : Value) (e : MessageEnvelope)
    → read_message_envelope v ≡ ok e
    → (is_message_id e.message.id ≡ true) × (ValidSession e.session × ValidTrace e.trace)
unfolding read_message_envelope
read_message_envelope-Valid (object v) e h =
    let (shape, h1) = passed (has_message_envelope_shape v) _ _ e h in
    let (m, hm, h2) = stepped (read_message (get "message" v)) _ e h1 in
    let (s, hs, h3) = stepped (read_session (get "session" v)) _ e h2 in
    let (t, ht, h4) = stepped (read_observability (get "observability" v)) _ e h3 in
    let mv = read_message-Valid (get "message" v) m hm in
    let sv = read_session-Valid (get "session" v) s hs in
    let tv = read_observability-Valid (get "observability" v) t ht in
    subst
      (λ (x : MessageEnvelope).
        (is_message_id x.message.id ≡ true) × (ValidSession x.session × ValidTrace x.trace))
      (ok_eq h4) (mv, (sv, tv))
read_message_envelope-Valid _ e h = ground arith
