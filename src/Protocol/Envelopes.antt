-- ===== src/Protocol/Envelopes.antt =====
-- src/session-runtime-protocol.ts: the envelopes that the platform sends to a runtime.
use Prim.Native.String.{slice, len, ◌++◌ as str_append}
use cantelop_sdk.Prelude.{
  ℕ, Bool, true, false, not, ◌&&◌, ◌||◌, Option, none, some, List, [], ◌∷◌, leb, ◌==◌, String,
  length, any, if◌then◌else◌, natural, Thrown, protocol_error, Result, ok, err, ensure, ◌>>◌, ◌>>=◌,
  str_eq,
}
use cantelop_sdk.Protocol.Values.{
  Value, number, string, object, boolean, Members, get, keys, only_keys, is_boolean, is_optional,
  is_string, as_record, includes,
}
use cantelop_sdk.Protocol.Patterns.{
  all_codes, is_hex, is_message_id, is_workspace_id, is_session_id, is_attempt_id, is_request_id,
  is_recovery_id,
}

abbrev pub max_keep_alive : ℕ
max_keep_alive = 604800

pub record SessionIdentity : Type 0 where
  pub id : String
  pub workspace_id : String
  pub keep_alive_seconds : ℕ

pub record RuntimeMessage : Type 0 where
  pub id : String
  pub payload : Value

-- The trace and span of a `traceparent`, as TRACE_PARENT_PATTERN takes it apart.
pub record Parent : Type 0 where
  pub trace_id : String
  pub span_id : String

pub record TraceContext : Type 0 where
  pub attempt_id : String
  pub attempt : ℕ
  pub request_id : Option String
  pub parent : Parent

pub record MessageEnvelope : Type 0 where
  pub message : RuntimeMessage
  pub session : SessionIdentity
  pub trace : Option TraceContext
  pub reply : Bool
  pub deadline : Option String

pub record RecoveryRequest : Type 0 where
  pub recovery_id : String
  pub message_id : String
  pub session : SessionIdentity

abbrev pub invalid_message_request : Thrown
invalid_message_request = protocol_error 400 "invalid_message_request"

abbrev pub invalid_recovery_request : Thrown
invalid_recovery_request = protocol_error 400 "invalid_recovery_request"

unfoldable pub session_fields : Option Value → Option Value → Option Value → Result SessionIdentity
session_fields (some (string id)) (some (string workspace)) (some (number (natural seconds))) = do
  ensure (is_session_id id && is_workspace_id workspace && leb seconds max_keep_alive)
      invalid_message_request
  ok (record { id = id; workspace_id = workspace; keep_alive_seconds = seconds })
session_fields _ _ _ = err invalid_message_request

-- `readSession`.
unfoldable pub read_session : Option Value → Result SessionIdentity
unfolding session_fields
read_session (some (object s)) = do
  ensure (length (keys s) == 3) invalid_message_request
  session_fields (get "id" s) (get "workspace_id" s) (get "keep_alive_seconds" s)
read_session _ = err invalid_message_request

unfoldable pub message_fields : Option Value → Option Value → Result RuntimeMessage
message_fields (some (string id)) (some payload) = do
  ensure (is_message_id id) invalid_message_request
  ok (record { id = id; payload = payload })
message_fields _ _ = err invalid_message_request

-- `readMessage`.
unfoldable pub read_message : Option Value → Result RuntimeMessage
unfolding message_fields
read_message (some (object m)) = do
  ensure (length (keys m) == 2) invalid_message_request
  message_fields (get "id" m) (get "payload" m)
read_message _ = err invalid_message_request

unfoldable pub recovery_fields :
    Option Value → Option Value → Result SessionIdentity → Result RecoveryRequest
recovery_fields (some (string recovery)) (some (string message)) session = do
  ensure (is_recovery_id recovery && is_message_id message) invalid_recovery_request
  s ← session
  ok (record { recovery_id = recovery; message_id = message; session = s })
recovery_fields _ _ session = err invalid_recovery_request

unfoldable pub read_recovery_request : Value → Result RecoveryRequest
unfolding recovery_fields read_session
read_recovery_request (object r) = do
  ensure (length (keys r) == 3) invalid_recovery_request
  recovery_fields (get "recovery_id" r) (get "message_id" r) (read_session (get "session" r))
read_recovery_request _ = err invalid_recovery_request

-- `exactKeys`.
abbrev pub exact_keys : Members → List String → List String → Bool
exact_keys v required optional =
    not (any (λ k. not (includes (keys v) k)) required)
    && not (any (λ k. not (includes required k || includes optional k)) (keys v))

-- `hasMessageEnvelopeShape`.
unfoldable pub has_message_envelope_shape : Members → Bool
has_message_envelope_shape v =
    only_keys ("session" ∷ "message" ∷ "observability" ∷ "deadline" ∷ "reply" ∷ []) v
    && is_optional is_string (get "deadline" v)
    && is_optional is_boolean (get "reply" v)
    && (elim (as_record (get "session" v)) [ none ↦ false | some s ↦ true ])
    && (elim (as_record (get "message" v)) [ none ↦ false | some m ↦ true ])

abbrev pub is_true : Option Value → Bool
is_true (some (boolean b)) = b
is_true _ = false

abbrev pub as_text : Option Value → Option String
as_text (some (string s)) = some s
as_text _ = none

-- `requestId.slice(4)`.
abbrev pub without_prefix : String → String
without_prefix s = slice s 4 (len s)

-- TRACE_PARENT_PATTERN and its two groups: neither is all zeros.
unfoldable pub parse_parent : String → Option Parent
unfolding all_codes is_hex
parse_parent t =
    let trace = slice t 3 35 in
    let span = slice t 36 52 in
    let zeros = all_codes (λ c. c == 48) in
    if str_eq t (str_append "00-" (str_append trace (str_append "-" (str_append span "-01"))))
      && (is_hex 32 trace && not (zeros trace))
      && (is_hex 16 span && not (zeros span))
    then some (record { trace_id = trace; span_id = span })
    else none

unfoldable pub request_matches : Option Value → Parent → Bool
request_matches none p = true
request_matches (some (string r)) p = is_request_id r && str_eq p.trace_id (without_prefix r)
request_matches (some _) p = false

unfoldable pub trace_fields :
    Option Value → Option Value → Option Parent → Option Value → Result (Option TraceContext)
unfolding request_matches
trace_fields (some (string id)) (some (number (natural n))) (some p) request = do
  ensure (is_attempt_id id && leb 1 n && leb n 100) invalid_message_request
  ensure (request_matches request p) invalid_message_request
  ok (some (record { attempt_id = id; attempt = n; request_id = as_text request; parent = p }))
trace_fields _ _ _ request = err invalid_message_request

unfoldable pub parent_of : Option Value → Option Parent
unfolding parse_parent
parent_of (some (string t)) = parse_parent t
parent_of _ = none

-- `readObservabilityContext`.
unfoldable pub read_observability : Option Value → Result (Option TraceContext)
unfolding trace_fields parent_of
read_observability none = ok none
read_observability (some (object v)) = do
  ensure (exact_keys v ("attempt_id" ∷ "attempt" ∷ "traceparent" ∷ []) ("request_id" ∷ []))
      invalid_message_request
  trace_fields (get "attempt_id" v) (get "attempt" v) (parent_of (get "traceparent" v))
      (get "request_id" v)
read_observability (some _) = err invalid_message_request

unfoldable pub read_message_envelope : Value → Result MessageEnvelope
unfolding has_message_envelope_shape read_message read_session read_observability
read_message_envelope (object v) = do
  ensure (has_message_envelope_shape v) invalid_message_request
  message ← read_message (get "message" v)
  session ← read_session (get "session" v)
  trace ← read_observability (get "observability" v)
  ok (record {
    message = message;
    session = session;
    trace = trace;
    reply = is_true (get "reply" v);
    deadline = as_text (get "deadline" v);
  })
read_message_envelope _ = err invalid_message_request
