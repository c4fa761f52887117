-- ===== src/Protocol/Patterns.antt =====
-- The identifier patterns of src/shared.ts, src/native-auth.ts, src/integration-protocol.ts,
-- src/environment-command.ts and src/session-runtime-protocol.ts, as tests of a text's characters.
use Prim.Native.Char.{code}
use Prim.Native.String.{[], ◌∷◌, count}
use cantelop_sdk.Prelude.{
  ℕ, ◌+◌, Bool, true, false, not, ◌&&◌, ◌||◌, leb, ◌==◌, if◌then◌else◌, String,
}

-- Every character, by its code point.
unfoldable pub all_codes : (ℕ → Bool) → String → Bool
all_codes p [] = true
all_codes p (c ∷ s) = p (code c) && all_codes p s

-- `length`: a character beyond the basic plane counts twice.
unfoldable pub utf16_length : String → ℕ
utf16_length [] = 0
utf16_length (c ∷ s) = (if leb 65536 (code c) then 2 else 1) + utf16_length s

abbrev pub is_digit : ℕ → Bool
is_digit c = leb 48 c && leb c 57

abbrev pub is_lower : ℕ → Bool
is_lower c = leb 97 c && leb c 122

abbrev pub is_upper : ℕ → Bool
is_upper c = leb 65 c && leb c 90

abbrev pub is_hex_digit : ℕ → Bool
is_hex_digit c = is_digit c || leb 97 c && leb c 102

unfoldable pub is_hex : ℕ → String → Bool
unfolding all_codes
is_hex n s = count s == n && all_codes is_hex_digit s

-- The prefix, then so many hexadecimal digits.
unfoldable pub is_prefixed : String → ℕ → String → Bool
unfolding is_hex
is_prefixed [] n s = is_hex n s
is_prefixed (c ∷ p) n [] = false
is_prefixed (c ∷ p) n (d ∷ s) = code c == code d && is_prefixed p n s

abbrev pub is_message_id : String → Bool
is_message_id = is_prefixed "msg_" 32

abbrev pub is_workspace_id : String → Bool
is_workspace_id = is_prefixed "wsp_" 32

abbrev pub is_attempt_id : String → Bool
is_attempt_id = is_prefixed "att_" 32

abbrev pub is_request_id : String → Bool
is_request_id = is_prefixed "req_" 32

abbrev pub is_recovery_id : String → Bool
is_recovery_id = is_prefixed "rcv_" 32

abbrev pub is_login_id : String → Bool
is_login_id = is_prefixed "lgn_" 32

abbrev pub is_terminal_id : String → Bool
is_terminal_id = is_prefixed "trm_" 32

abbrev pub is_alphanumeric : ℕ → Bool
is_alphanumeric c = is_digit c || is_lower c || is_upper c

-- An alphanumeric character, then at most 127 of `[A-Za-z0-9._:-]`.
unfoldable pub is_session_id : String → Bool
unfolding all_codes
is_session_id [] = false
is_session_id (c ∷ s) =
    is_alphanumeric (code c)
    && leb (count s) 127
    && all_codes (λ d. is_alphanumeric d || d == 46 || d == 95 || d == 58 || d == 45) s

-- No hyphen at the end, none behind another, and otherwise `[a-z0-9-]`; `hyphen` is whether the
-- character before was one.
is_slug_rest : Bool → String → Bool
is_slug_rest hyphen [] = not hyphen
is_slug_rest hyphen (c ∷ s) =
    let d = code c in
    (is_digit d || is_lower d || not hyphen && d == 45) && is_slug_rest (d == 45) s

-- SLUG_PATTERN: at most 63 characters.
unfoldable pub is_slug : String → Bool
unfolding is_slug_rest
is_slug s = leb 1 (count s) && leb (count s) 63 && is_slug_rest true s

-- Not CANTELOP_, and a name of at most 128 characters.
starts_with : String → String → Bool
starts_with [] s = true
starts_with (c ∷ p) [] = false
starts_with (c ∷ p) (d ∷ s) = code c == code d && starts_with p s

abbrev is_name_code : ℕ → Bool
is_name_code c = is_alphanumeric c || c == 95

unfoldable pub is_environment_name : String → Bool
unfolding starts_with all_codes
is_environment_name [] = false
is_environment_name (c ∷ s) =
    not (starts_with "CANTELOP_" (c ∷ s))
    && not (is_digit (code c))
    && leb (count s) 127
    && all_codes is_name_code (c ∷ s)
