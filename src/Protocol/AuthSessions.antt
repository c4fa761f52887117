-- ===== src/Protocol/AuthSessions.antt =====
-- src/native-auth.ts: the Session ids that are kept for auth.
use cantelop_sdk.Prelude.{
  codes, starts_with, ℕ, zero, suc, String, Bool, true, ◌&&◌, ◌||◌, Option, none, some, [], ◌∷◌,
  ◌++◌, length, str_eq,
}
use cantelop_sdk.Protocol.Patterns.{is_workspace_id}
use cantelop_sdk.Protocol.Commands.{auth_session_id}

-- `slice(count)`.
string_drop : ℕ → String → String
string_drop zero s = s
string_drop (suc n) String.[] = String.[]
string_drop (suc n) (String.◌∷◌ c s) = string_drop n s

is_auth_actor : String → (String → Bool) → Bool
unfolding string_drop
is_auth_actor id is_owner =
    let suffix = string_drop (suc (length (codes auth_session_id))) id in
    starts_with (codes auth_session_id ++ 45 ∷ []) (codes id)
    && (is_workspace_id suffix && is_owner suffix)

-- `isAuthSessionID`, with the Workspace that it must belong to, where one is given.
unfoldable pub is_auth_session_id : String → Option String → Bool
unfolding is_auth_actor
is_auth_session_id id none = is_auth_actor id (λ suffix. true)
is_auth_session_id id (some workspace_id) = is_auth_actor id (λ suffix. str_eq suffix workspace_id)

unfoldable pub is_reserved_auth_session_id : String → Bool
is_reserved_auth_session_id id = str_eq id auth_session_id || is_auth_session_id id none
