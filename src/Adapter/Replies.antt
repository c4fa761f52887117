-- ===== src/Adapter/Replies.antt =====
-- src/session-runtime-protocol.ts: `encodeReply`, the copy of a reply through JSON. The encoding and its
-- size are parameters.
use cantelop_sdk.Prelude.{
  ℕ, String, Option, none, some, ltb, if◌then◌else◌, Thrown, error, Result, ok, err,
}
use cantelop_sdk.Output.{Json}

abbrev pub max_reply_bytes : ℕ
max_reply_bytes = 65536

invalid_reply : Thrown
invalid_reply = error "Session request reply must be JSON and at most 65536 bytes"

reply_text : {V : Type 0} → Json V → Option String → Result V
unfolding invalid_reply
reply_text json none = err invalid_reply
reply_text json (some encoded) =
    if ltb max_reply_bytes (json.byte_length encoded)
    then err invalid_reply
    else ok (json.parse encoded)

-- The reply is a copy through JSON.
unfoldable pub encode_reply : {V : Type 0} → Json V → V → Result V
unfolding reply_text
encode_reply json value = reply_text json (json.encode value)
