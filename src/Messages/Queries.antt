-- ===== src/Messages/Queries.antt =====
-- src/runtime-messages.ts: what callers ask of the reservations: `get`, `reply`, `work` and `completions`.
use cantelop_sdk.Prelude.{
  ℕ, String, Bool, true, false, ◌&&◌, Option, none, some, List, [], ◌∷◌, ◌++◌, map, ltb, leb, ◌==◌,
  if◌then◌else◌, lookup, Thrown, protocol_error, Result, ok, err, ◌>>◌, ensure, Number, natural,
  negative, other, is_safe_natural,
}
use cantelop_sdk.Messages.{
  State, queued, running, cancelling, succeeded, Receipt, Reservation, Messages,
}

unfoldable pub is_live : State → Bool
is_live queued = true
is_live running = true
is_live cancelling = true
is_live _ = false

unfoldable pub is_succeeded : State → Bool
is_succeeded succeeded = true
is_succeeded _ = false

unfoldable pub earlier : ℕ → Option ℕ → Option ℕ
earlier t none = some t
earlier t (some best) = if ltb t best then some t else some best

unfoldable pub earlier_request : Option ℕ → Option ℕ → Option ℕ
unfolding earlier
earlier_request none best = best
earlier_request (some t) best = earlier t best

unfoldable pub as_work : Option ℕ × Option ℕ → Option (ℕ × Option ℕ)
as_work (none, _) = none
as_work (some deadline, requested) = some (deadline, requested)

module _ {V : Type 0} where
  get_found : Option (Reservation V) → Result Receipt
  get_found none = err (protocol_error 404 "message_not_found")
  get_found (some r) = ok r.receipt

  unfoldable pub get : Messages V → String → Result Receipt
  unfolding get_found
  get m id = get_found (lookup id m.records)

  unfoldable pub reply_value : Option V → Result V
  reply_value none = err (protocol_error 409 "reply_unavailable")
  reply_value (some v) = ok v

  unfoldable pub reply_found : Option (Reservation V) → Result V
  reply_found none = err (protocol_error 404 "message_not_found")
  reply_found (some r) = do
    ensure (is_succeeded r.receipt.state) (protocol_error 409 "reply_not_ready")
    reply_value r.reply

  unfoldable pub reply : Messages V → String → Result V
  unfolding reply_found reply_value is_succeeded
  reply m id = reply_found (lookup id m.records)

  -- The loop of `work`: the earliest deadline of a live receipt, and the earliest request to cancel.
  unfoldable pub scan_work :
      List (Option (Reservation V)) → Option ℕ → Option ℕ → Option ℕ × Option ℕ
  unfolding earlier earlier_request is_live
  scan_work [] deadline requested = (deadline, requested)
  scan_work (none ∷ rs) deadline requested = scan_work rs deadline requested
  scan_work (some r ∷ rs) deadline requested =
      let live = is_live r.receipt.state in
      scan_work rs (if live then earlier r.receipt.deadline deadline else deadline)
        (if live then earlier_request r.receipt.cancellation_requested_at requested else requested)

  unfoldable pub work : Messages V → Option (ℕ × Option ℕ)
  unfolding scan_work as_work
  work m = as_work (scan_work (map (λ id. lookup id m.records) m.unsettled) none none)

  wait_completion : Messages V → ℕ → ℕ → Messages V × Option ℕ
  wait_completion m after waiter =
      if after == m.completion_generation
      then (record m { completion_waiters = m.completion_waiters ++ waiter ∷ [] }, none)
      else (m, some m.completion_generation)

  -- A call of `completions`: `none` means that it is parked until a completion wakes it.
  unfoldable pub completions :
      Messages V → Number → Option Thrown → ℕ → Result (Messages V × Option ℕ)
  unfolding wait_completion
  completions m after (some reason) waiter = err reason
  completions m (natural n) none waiter = do
    ensure (is_safe_natural (natural n) && leb n m.completion_generation)
        (protocol_error 409 "invalid_completion_generation")
    ok (wait_completion m n waiter)
  completions m (negative _) none waiter = err (protocol_error 409 "invalid_completion_generation")
  completions m other none waiter = err (protocol_error 409 "invalid_completion_generation")
