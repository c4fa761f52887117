-- ===== src/Protocol/Decoding.antt =====
-- src/runtime-command.ts: decoding undoes encoding.
use cantelop_sdk.Prelude.{◌≡◌, refl, true, ok}
use cantelop_sdk.Protocol.Values.{get, keys}
use cantelop_sdk.Protocol.RuntimeCommands.{
  RuntimeCommand, dispatch, steer, cancel, auth, is_auth_members, encode_runtime_command,
  decode_runtime_command,
}

-- A command that `isAuthCommand` would refuse is not sent.
abbrev pub IsSendable : RuntimeCommand → Type 0
IsSendable (auth c) = is_auth_members c ≡ true
IsSendable _ = Unit

-- Every command that may be sent is decoded as itself, whatever its message.
pub decode-encode :
    (c : RuntimeCommand) → IsSendable c → decode_runtime_command (encode_runtime_command c) ≡ ok c
unfolding decode_runtime_command encode_runtime_command get keys
decode-encode (dispatch m) h = refl
decode-encode (steer m) h = refl
decode-encode cancel h = refl
decode-encode (auth c) h = rw (h) refl
