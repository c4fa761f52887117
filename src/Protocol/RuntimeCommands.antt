-- ===== src/Protocol/RuntimeCommands.antt =====
-- src/runtime-command.ts and src/environment-command.ts: the commands inside a message.
use Prim.Native.String.{len}
use cantelop_sdk.Prelude.{
  Bool, false, not, ◌&&◌, ◌||◌, Option, none, some, List, [], ◌∷◌, leb, ◌==◌, String, if◌then◌else◌,
  natural, Thrown, type_error, Result, ok, err, ensure, ◌>>◌,
}
use cantelop_sdk.Protocol.Values.{
  Value, number, string, object, Members, no_members, member, get, has, only_keys, is_match, equals,
  is_boolean, is_optional, is_safe,
}
use cantelop_sdk.Protocol.Patterns.{
  all_codes, utf16_length, is_login_id, is_terminal_id, is_environment_name,
}

pub data RuntimeCommand : Type 0 where
  dispatch : Value → RuntimeCommand
  steer : Value → RuntimeCommand
  cancel : RuntimeCommand
  auth : Members → RuntimeCommand

abbrev pub marker : String
marker = "__cantelop_command"

abbrev pub tagged : String → Members → Value
tagged type rest = object (member marker (number (natural 2)) (member "type" (string type) rest))

unfoldable pub encode_runtime_command : RuntimeCommand → Value
encode_runtime_command (dispatch m) = tagged "dispatch" (member "message" m no_members)
encode_runtime_command (steer m) = tagged "steer" (member "message" m no_members)
encode_runtime_command cancel = tagged "cancel" no_members
encode_runtime_command (auth c) = tagged "auth" (member "auth" (object c) no_members)

unfoldable pub auth_keys : Option Value → List String
auth_keys type =
    if equals "close" type
    then "type" ∷ "terminalId" ∷ []
    else if equals "login" type
    then "type" ∷ "force" ∷ []
    else if equals "code" type
    then "type" ∷ "attemptId" ∷ "code" ∷ []
    else if equals "cancel" type
    then "type" ∷ "attemptId" ∷ []
    else "type" ∷ []

-- No control character, and at most 2048 characters.
unfoldable pub is_login_code : String → Bool
unfolding all_codes utf16_length
is_login_code s =
    leb 1 (utf16_length s)
    && leb (utf16_length s) 2048
    && all_codes (λ c. leb 32 c && not (leb 127 c && leb c 127)) s

unfoldable pub is_auth_members : Members → Bool
unfolding auth_keys is_login_code
is_auth_members c =
    let type = get "type" c in
    only_keys (auth_keys type) c
    && (if equals "login" type
        then is_optional is_boolean (get "force" c)
        else if equals "code" type || equals "cancel" type
        then is_match is_login_id (get "attemptId" c)
          && (equals "cancel" type || is_match is_login_code (get "code" c))
        else (equals "status" type || equals "logout" type || equals "terminal" type)
          || equals "close" type && is_match is_terminal_id (get "terminalId" c))

unfoldable pub is_auth_command : Option Value → Bool
unfolding is_auth_members
is_auth_command (some (object c)) = is_auth_members c
is_auth_command _ = false

abbrev pub invalid_runtime_command : Thrown
invalid_runtime_command = type_error "Invalid SDK runtime command"

unfoldable pub command_keys : Option Value → List String
command_keys type =
    if equals "cancel" type
    then marker ∷ "type" ∷ []
    else if equals "auth" type
    then marker ∷ "type" ∷ "auth" ∷ []
    else marker ∷ "type" ∷ "message" ∷ []

abbrev pub is_two : Option Value → Bool
is_two (some (number (natural n))) = n == 2
is_two _ = false

unfoldable pub decode_auth : Option Value → Result RuntimeCommand
unfolding is_auth_command
decode_auth (some (object c)) =
    if is_auth_members c then ok (auth c) else err invalid_runtime_command
decode_auth _ = err invalid_runtime_command

unfoldable pub decode_message : (Value → RuntimeCommand) → Option Value → Result RuntimeCommand
decode_message make (some m) = ok (make m)
decode_message make none = err invalid_runtime_command

unfoldable pub decode_tagged : Members → Result RuntimeCommand
unfolding command_keys decode_auth decode_message
decode_tagged c =
    let type = get "type" c in
    if not (is_two (get marker c) && only_keys (command_keys type) c)
    then err invalid_runtime_command
    else if equals "cancel" type
    then ok cancel
    else if equals "auth" type
    then decode_auth (get "auth" c)
    else if equals "dispatch" type
    then decode_message dispatch (get "message" c)
    else if equals "steer" type
    then decode_message steer (get "message" c)
    else err invalid_runtime_command

-- A value without the marker is the message of a dispatch.
unfoldable pub decode_runtime_command : Value → Result RuntimeCommand
unfolding decode_tagged
decode_runtime_command (object c) =
    if has marker c then decode_tagged c else ok (dispatch (object c))
decode_runtime_command v = ok (dispatch v)

-- `validateEnvironmentCommand`.
unfoldable pub validate_environment_command : Members → Result (Unit {0})
unfolding all_codes is_environment_name
validate_environment_command c =
    if equals "app.environment.status" (get "type" c)
    then ensure (is_safe (get "revision" c)) (type_error "Invalid environment revision")
    else do
      ensure (is_match is_environment_name (get "name" c) && is_boolean (get "secret" c))
          (type_error "Invalid environment name or kind")
      ensure
          (not (equals "app.environment.set" (get "type" c))
            || is_match (λ s. all_codes (λ d. not (leb d 0)) s && leb (len s) 65536)
                (get "value" c))
          (type_error "Invalid environment value")
