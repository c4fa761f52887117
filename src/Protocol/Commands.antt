-- ===== src/Protocol/Commands.antt =====
-- src/integration-protocol.ts: the commands that a backend sends, checked before any routing.
use Prim.Native.String.{slice, len}
use cantelop_sdk.Prelude.{
  ℕ, Bool, true, false, not, ◌&&◌, ◌||◌, Option, none, some, List, [], ◌∷◌, ◌++◌, leb, ◌==◌, String,
  length, if◌then◌else◌, natural, type_error, Result, ok, err, ensure, ◌>>◌, str_eq,
}
use cantelop_sdk.Protocol.Values.{
  Value, number, string, object, Members, get, keys, has, only_keys, is_match, equals, is_optional,
  is_safe, is_within, is_null, is_string, as_record, includes,
}
use cantelop_sdk.Protocol.Patterns.{is_message_id, is_workspace_id, is_session_id, is_slug, is_hex}
use cantelop_sdk.Protocol.RuntimeCommands.{is_auth_command, validate_environment_command}

abbrev pub max_keep_alive_seconds : ℕ
max_keep_alive_seconds = 604800

abbrev pub max_request_timeout_ms : ℕ
max_request_timeout_ms = 300000

abbrev pub max_command_bytes : ℕ
max_command_bytes = 1048576

abbrev pub auth_session_id : String
auth_session_id = "cantelop-native-auth"

abbrev pub environment_command_types : List String
environment_command_types =
    "app.environment.set" ∷ "app.environment.unset" ∷ "app.environment.status" ∷ []

abbrev pub workspace_command_types : List String
workspace_command_types =
    "workspace.resolve" ∷ "workspace.database" ∷ "workspace.inspect" ∷ "workspace.delete" ∷ []

abbrev pub is_one_of : List String → Option Value → Bool
is_one_of names = is_match (includes names)

pub data WorkspaceSelector : Type 0 where
  by_id : String → WorkspaceSelector
  by_slug : String → WorkspaceSelector

abbrev pub is_by_id : WorkspaceSelector → Bool
is_by_id (by_id _) = true
is_by_id (by_slug _) = false

abbrev pub invalid : {A : Type 0} → String → Result A
invalid message = err (type_error message)

unfoldable pub workspace_id : Option Value → Result WorkspaceSelector
workspace_id (some (string s)) =
    if is_workspace_id s then ok (by_id s) else invalid "Invalid Cantelop Workspace ID"
workspace_id _ = invalid "Invalid Cantelop Workspace ID"

unfoldable pub workspace_slug : Option Value → Result WorkspaceSelector
workspace_slug (some (string s)) =
    if is_slug s then ok (by_slug s) else invalid "Invalid Cantelop Workspace slug"
workspace_slug _ = invalid "Invalid Cantelop Workspace slug"

abbrev pub one_selector : String
one_selector = "A Workspace requires exactly one ID or slug"

unfoldable pub workspace_selector : Option Value → Result WorkspaceSelector
unfolding workspace_id workspace_slug
workspace_selector (some (object w)) =
    if has "id" w
    then if has "slug" w then invalid one_selector else workspace_id (get "id" w)
    else if has "slug" w
    then workspace_slug (get "slug" w)
    else invalid one_selector
workspace_selector _ = invalid one_selector

abbrev pub is_keep_alive : Option Value → Bool
is_keep_alive = is_optional (is_within 0 max_keep_alive_seconds)

abbrev pub is_timeout : Option Value → Bool
is_timeout = is_within 1 max_request_timeout_ms

-- `assertCursor`.
unfoldable pub is_cursor : Option Value → Bool
unfolding is_hex
is_cursor (some (object c)) =
    is_match (is_hex 32) (get "streamId" c)
    && is_safe (get "sequence" c)
    && only_keys ("streamId" ∷ "sequence" ∷ []) c
is_cursor _ = false

abbrev pub keep_alive_message : String
keep_alive_message = "keepAliveSeconds must be an integer between 0 and 604800"

unfoldable pub message_command_keys : Option Value → Members → Result (List String)
message_command_keys type c = do
  ensure (has "message" c) (type_error "A message is required")
  ensure (is_keep_alive (get "keepAliveSeconds" c)) (type_error keep_alive_message)
  ensure (not (equals "request" type) || is_timeout (get "timeoutMs" c))
      (type_error "Invalid timeoutMs")
  ok (
      "type"
      ∷ "message"
      ∷ "keepAliveSeconds"
      ∷ (if equals "request" type then "timeoutMs" ∷ [] else []))

unfoldable pub auth_command_keys : Option Value → Members → Result (List String)
unfolding is_auth_command
auth_command_keys session_id c = do
  ensure (equals auth_session_id session_id) (type_error "Auth requires the reserved Session")
  ensure (is_auth_command (get "auth" c)) (type_error "Invalid auth command")
  ensure (is_timeout (get "timeoutMs" c)) (type_error "Invalid timeoutMs")
  ensure (is_keep_alive (get "keepAliveSeconds" c)) (type_error keep_alive_message)
  ok ("type" ∷ "auth" ∷ "timeoutMs" ∷ "keepAliveSeconds" ∷ [])

unfoldable pub cancel_command_keys : Members → Result (List String)
cancel_command_keys c = do
  ensure (is_keep_alive (get "keepAliveSeconds" c)) (type_error keep_alive_message)
  ok ("type" ∷ "keepAliveSeconds" ∷ [])

unfoldable pub status_command_keys : Members → Result (List String)
status_command_keys c = do
  ensure (is_match is_message_id (get "messageId" c)) (type_error "Invalid Cantelop Message ID")
  ok ("type" ∷ "messageId" ∷ [])

unfoldable pub stream_command_keys : Members → Result (List String)
unfolding is_cursor
stream_command_keys c = do
  ensure (is_optional is_cursor (get "after" c)) (type_error "Invalid event cursor")
  ok ("type" ∷ "after" ∷ [])

-- The checks of a command of a Session, and the keys that it may have.
unfoldable pub session_command_keys : Option Value → Members → Result (List String)
unfolding message_command_keys auth_command_keys cancel_command_keys status_command_keys
    stream_command_keys
session_command_keys session_id c =
    let type = get "type" c in
    if is_one_of ("dispatch" ∷ "steer" ∷ "request" ∷ []) type
    then message_command_keys type c
    else if equals "auth" type
    then auth_command_keys session_id c
    else if equals "cancel" type
    then cancel_command_keys c
    else if equals "status" type
    then status_command_keys c
    else if is_one_of ("view" ∷ "stop" ∷ []) type
    then ok ("type" ∷ [])
    else if equals "stream" type
    then stream_command_keys c
    else invalid "Unknown command"

unfoldable pub session_keys : Option Value → Members → Result (List String)
unfolding session_command_keys
session_keys (some (object s)) c = do
  ensure (length (keys s) == 1) (type_error "Invalid Session")
  ensure (is_match is_session_id (get "id" s)) (type_error "Invalid Cantelop Session ID")
  session_command_keys (get "id" s) c
session_keys _ c = invalid "Invalid Session"

unfoldable pub workspace_command_keys :
    WorkspaceSelector → Option Value → Members → Result (List String)
workspace_command_keys workspace session c = do
  ensure (is_null session) (type_error "Workspace command requires a null Session")
  ensure (not (equals "workspace.delete" (get "type" c)) || is_by_id workspace)
      (type_error "Workspace deletion requires a canonical ID")
  ok ("type" ∷ [])

unfoldable pub allowed_keys : WorkspaceSelector → Option Value → Members → Result (List String)
unfolding workspace_command_keys session_keys
allowed_keys workspace session c =
    if is_one_of workspace_command_types (get "type" c)
    then workspace_command_keys workspace session c
    else session_keys session c

pub data Envelope : Type 0 where
  app_environment : Members → Envelope
  app_command : Members → WorkspaceSelector → Envelope

abbrev pub environment_keys : Option Value → List String
environment_keys type =
    if equals "app.environment.set" type
    then "type" ∷ "name" ∷ "value" ∷ "secret" ∷ []
    else if equals "app.environment.unset" type
    then "type" ∷ "name" ∷ "secret" ∷ []
    else "type" ∷ "revision" ∷ []

unfoldable pub environment_envelope : Members → Members → Result Envelope
unfolding validate_environment_command
environment_envelope v c = do
  ensure (is_null (get "workspace" v) && is_null (get "session" v))
      (type_error "App environment commands require null Workspace and Session")
  let allowed = environment_keys (get "type" c)
  ensure (length (keys c) == length allowed && only_keys allowed c)
      (type_error "Invalid environment command fields")
  validate_environment_command c
  ok (app_environment v)

-- The keys of the command against those that it may have.
unfoldable pub checked_keys :
    Members → Members → WorkspaceSelector → Result (List String) → Result Envelope
checked_keys v c workspace (err e) = err e
checked_keys v c workspace (ok allowed) = do
  ensure (only_keys allowed c) (type_error "Invalid command fields")
  ok (app_command v workspace)

abbrev pub has_one_selector : Members → Bool
has_one_selector v = elim (as_record (get "workspace" v)) [
  | none ↦ false
  | some w ↦ length (keys w) == 1
]

unfoldable pub app_envelope : Members → Option Value → Result WorkspaceSelector → Result Envelope
unfolding allowed_keys checked_keys
app_envelope v command (err e) = err e
app_envelope v (some (object c)) (ok workspace) = do
  ensure (has_one_selector v) (type_error "Invalid Workspace selector")
  ensure (is_string (get "type" c)) (type_error "Invalid command")
  checked_keys v c workspace (allowed_keys workspace (get "session" v) c)
app_envelope v _ (ok workspace) = do
  ensure (has_one_selector v) (type_error "Invalid Workspace selector")
  invalid "Invalid command"

abbrev pub is_version : ℕ → Option Value → Bool
is_version n (some (number (natural m))) = m == n
is_version n _ = false

unfoldable pub route_command : Members → Option Members → Result Envelope
unfolding environment_envelope app_envelope workspace_selector
route_command v none = app_envelope v (get "command" v) (workspace_selector (get "workspace" v))
route_command v (some c) =
    if is_one_of environment_command_types (get "type" c)
    then environment_envelope v c
    else app_envelope v (some (object c)) (workspace_selector (get "workspace" v))

abbrev pub is_envelope : Members → Bool
is_envelope v =
    is_version 2 (get "protocolVersion" v)
    && only_keys ("protocolVersion" ∷ "id" ∷ "workspace" ∷ "session" ∷ "command" ∷ []) v

unfoldable pub validate_members : Members → Result Envelope
unfolding route_command
validate_members v = do
  ensure (is_envelope v) (type_error "Invalid command envelope")
  ensure (is_match is_message_id (get "id" v)) (type_error "Invalid Cantelop Message ID")
  route_command v (as_record (get "command" v))

unfoldable pub validate_command : Value → Result Envelope
unfolding validate_members
validate_command (object v) = validate_members v
validate_command _ = invalid "Invalid command envelope"

abbrev app_command_types : List String
app_command_types =
    environment_command_types
    ++ workspace_command_types
    ++ "dispatch" ∷ "steer" ∷ "request" ∷ "auth" ∷ "cancel" ∷ "status" ∷ "view" ∷ "stop" ∷ "stream"
      ∷ []

-- `appCommandType`: the type that a path addresses.
unfoldable pub app_command_type : String → Option String
app_command_type path =
    let type = slice path 10 (len path) in
    if str_eq (slice path 0 10) "/commands/" && includes app_command_types type
    then some type
    else none

abbrev envelope_type : Envelope → Option Value
envelope_type (app_environment v) = elim (as_record (get "command" v)) [
  | none ↦ none
  | some c ↦ get "type" c
]
envelope_type (app_command v _) = elim (as_record (get "command" v)) [
  | none ↦ none
  | some c ↦ get "type" c
]

addressed : String → Result Envelope → Result Envelope
addressed type (err e) = err e
addressed type (ok e) = do
  ensure (equals type (envelope_type e)) (type_error "Command type does not match its path")
  ok e

request_body : String → ℕ → Option Value → Result Envelope
unfolding addressed validate_command
request_body type bytes body = do
  ensure (leb bytes max_command_bytes) (type_error "Command exceeds 1 MiB")
  elim body [ none ↦ invalid "Invalid command JSON" | some v ↦ addressed type (validate_command v) ]

-- `validateCommandRequest`; the body is its size and its JSON value, if it is one.
unfoldable pub validate_command_request :
    String → String → String → ℕ → Option Value → Result Envelope
unfolding app_command_type request_body
validate_command_request method path search bytes body = elim (app_command_type path) [
  | none ↦ invalid "Invalid command route"
  | some type ↦
      if str_eq method "POST" && str_eq search ""
      then request_body type bytes body
      else invalid "Invalid command route"
]
