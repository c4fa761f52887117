-- ===== src/Protocol/Examples.antt =====
-- The theorems on the wire formats at concrete values.
use cantelop_sdk.Prelude.{◌≡◌, refl, true, false, none, some, String, ok, natural}
use cantelop_sdk.Protocol.Values.{
  null, boolean, number, string, object, Members, no_members, member, get, keys,
}
use cantelop_sdk.Protocol.Patterns.{is_message_id, is_session_id, is_prefixed, is_hex, all_codes}
use cantelop_sdk.Protocol.RuntimeCommands.{
  auth, encode_runtime_command, decode_runtime_command, is_auth_members,
}
use cantelop_sdk.Protocol.Decoding.{decode-encode}
use cantelop_sdk.Protocol.Envelopes.{MessageEnvelope, TraceContext, read_message_envelope}
use cantelop_sdk.Protocol.Received.{ValidSession, ValidTrace, read_message_envelope-Valid}

abbrev login : Members
login = member "type" (string "login") (member "force" (boolean true) no_members)

decode-encode_example :
    decode_runtime_command (encode_runtime_command (auth login)) ≡ ok (auth login)
unfolding is_auth_members get keys
decode-encode_example = decode-encode (auth login) refl

abbrev id : String
id = "msg_0123456789abcdef0123456789abcdef"

abbrev command : Members
command =
    member "type" (string "request")
      (member "message" null (member "timeoutMs" (number (natural 500)) no_members))

abbrev session : Members
session = member "id" (string "user-1") no_members

abbrev envelope : Members
envelope = member "protocolVersion" (number (natural 2)) (
    member "id" (string id) (
      member "workspace" (object (member "slug" (string "team-a") no_members))
        (member "session" (object session) (member "command" (object command) no_members))))

abbrev received : Members
received = member "message" (object (member "id" (string id) (member "payload" null no_members))) (
    member "session"
      (object (
        member "id" (string "user-1") (
          member "workspace_id" (string "wsp_0123456789abcdef0123456789abcdef")
            (member "keep_alive_seconds" (number (natural 60)) no_members))))
      (member "observability"
        (object (
          member "attempt_id" (string "att_0123456789abcdef0123456789abcdef") (
            member "attempt" (number (natural 3)) (
              member "traceparent"
                (string "00-0123456789abcdef0123456789abcdef-0123456789abcdef-01") no_members))))
        no_members))

abbrev traced : TraceContext
traced = record {
  attempt_id = "att_0123456789abcdef0123456789abcdef";
  attempt = 3;
  request_id = none;
  parent = record { trace_id = "0123456789abcdef0123456789abcdef"; span_id = "0123456789abcdef" };
}

abbrev accepted : MessageEnvelope
accepted = record {
  message = record { id = id; payload = null };
  session = record {
    id = "user-1";
    workspace_id = "wsp_0123456789abcdef0123456789abcdef";
    keep_alive_seconds = 60;
  };
  trace = some traced;
  reply = false;
  deadline = none;
}

read_message_envelope-Valid_example :
    (is_message_id id ≡ true) × (ValidSession accepted.session × ValidTrace (some traced))
unfolding read_message_envelope get keys is_prefixed is_session_id is_hex all_codes
read_message_envelope-Valid_example = read_message_envelope-Valid (object received) accepted refl
