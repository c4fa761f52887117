-- ===== src/Activity/Options.antt =====
-- src/activity.ts: the options of an activity, and what `validate` demands of them.
use cantelop_sdk.Prelude.{
  ℕ, Bool, true, false, ◌&&◌, Option, none, some, leb, Number, natural, negative, other,
  is_safe_natural, Thrown, error, type_error, Result, ok, err, ensure, ◌>>◌, ◌>>=◌,
}

abbrev pub default_timeout : ℕ
default_timeout = 1800000

abbrev pub max_timeout : ℕ
max_timeout = 86400000

-- An option that must be a function, or a Boolean, where it is given.
pub data Hook : Type 0 where
  no_hook : Hook
  function : Hook
  not_function : Hook

pub data Flag : Type 0 where
  no_flag : Flag
  flag : Bool → Flag
  not_boolean : Flag

pub record Options : Type 0 where
  pub timeout_ms : Option Number
  pub on_cancel : Hook
  pub on_steer : Hook
  pub priority : Flag

abbrev pub is_function : Hook → Bool
is_function no_hook = false
is_function function = true
is_function not_function = false

abbrev pub is_absent_or_function : Hook → Bool
is_absent_or_function no_hook = true
is_absent_or_function function = true
is_absent_or_function not_function = false

abbrev pub is_absent_or_boolean : Flag → Bool
is_absent_or_boolean no_flag = true
is_absent_or_boolean (flag _) = true
is_absent_or_boolean not_boolean = false

abbrev pub is_priority : Flag → Bool
is_priority no_flag = false
is_priority (flag b) = b
is_priority not_boolean = false

abbrev pub invalid_timeout : Thrown
invalid_timeout = error "activity timeout must be between 1ms and 24h"

unfoldable pub validate_timeout : Number → Result ℕ
validate_timeout (natural n) = do
  ensure (is_safe_natural (natural n) && (leb 1 n && leb n max_timeout)) invalid_timeout
  ok n
validate_timeout (negative _) = err invalid_timeout
validate_timeout other = err invalid_timeout

abbrev pub timeout_or_default : Option Number → Number
timeout_or_default none = natural default_timeout
timeout_or_default (some n) = n

-- Answers with the timeout.
unfoldable pub validate : Bool → Options → Result ℕ
unfolding validate_timeout
validate work_is_function o = do
  ensure work_is_function (type_error "Activity work must be a function")
  timeout ← validate_timeout (timeout_or_default o.timeout_ms)
  ensure (is_absent_or_function o.on_cancel) (type_error "Activity onCancel must be a function")
  ensure (is_absent_or_function o.on_steer) (type_error "Activity onSteer must be a function")
  ok timeout
