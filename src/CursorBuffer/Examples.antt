-- ===== src/CursorBuffer/Examples.antt =====
-- Runs of src/cursor-buffer.ts: two values are appended under cursors 1 and 2, then read.
use cantelop_sdk.Prelude.{
  max_safe_integer, ℕ, ◌+◌, ◌≤◌, ◌≡◌, refl, true, none, List, [], ◌∷◌, arith, natural, ok, length,
}
use cantelop_sdk.CursorBuffer.{
  Limits, Buffer, batch, Read, empty, append, read, poll, metadata, has_capacity,
}
use cantelop_sdk.CursorBuffer.Invariant.{IsBounded, append-IsBounded}
use cantelop_sdk.CursorBuffer.Log.{Represents, empty-Represents, append-Represents, poll-due}
use cantelop_sdk.CursorBuffer.Reading.{read-due, IsDue, read_accepts, metadata_lem}
use cantelop_sdk.CursorBuffer.History.{Call, appends, reads, acknowledges, Inv, begin, run, run-Inv}

abbrev small : Limits
small = record { max_pending = 3; max_pending_bytes = 100; max_batch = 1 }

abbrev one : Buffer ℕ
one = (append (empty small "Session output") (λ c. c + 10) 5 0).0

abbrev two : Buffer ℕ
two = (append one (λ c. c + 10) 5 1).0

two-Represents : Represents two (11 ∷ 12 ∷ [])
two-Represents =
    append-Represents one (11 ∷ []) (λ c. c + 10) 5 1
      (append-Represents (empty small "Session output") [] (λ c. c + 10) 5 0
        (empty-Represents small "Session output"))

poll-due_example : (poll two 0 none true 7).1 ≡ batch (11 ∷ [])
unfolding append empty
poll-due_example = poll-due two (11 ∷ 12 ∷ []) 0 7 true two-Represents

abbrev seen : Buffer ℕ
seen = (poll two 0 none true 7).0

append-IsBounded_example : IsBounded two
append-IsBounded_example =
    append-IsBounded one (λ c. c + 10) 5 1 (unfold append empty has_capacity in refl)

read-due_example :
    (r : Read ℕ) × (read two (natural 0) none true true 7 ≡ ok r)
    × (r.outcome ≡ batch (11 ∷ []))
    × (r.buffer.acknowledged ≡ 0)
    × Represents r.buffer (11 ∷ 12 ∷ [])
unfolding append empty
read-due_example =
    read-due two (11 ∷ 12 ∷ []) 0 7 true two-Represents (omega arith) (omega arith) (omega arith)

read_accepts_example :
    ((r : Read ℕ) → read two (natural 1) none true true 7 ≡ ok r → IsDue two (natural 1) r)
    × ((n : ℕ)
        → natural 1 ≡ natural n
        → n ≤ max_safe_integer
        → two.acknowledged ≤ n
        → n ≤ two.delivered
        → (r : Read ℕ) × (read two (natural 1) none true true 7 ≡ ok r))
read_accepts_example = read_accepts two (natural 1) 7 none true two-Represents.valid

metadata_of_two :
    ((metadata two).earliest ≡ 1)
    × ((metadata two).latest ≡ 2)
    × ((metadata two).acknowledged + length two.entries ≡ (metadata two).latest)
unfolding append empty
metadata_of_two = metadata_lem two (11 ∷ 12 ∷ []) two-Represents

abbrev calls : List (Call ℕ)
calls =
    appends (λ c. c) 4 0
    ∷ reads (natural 0) none true true 9
    ∷ appends (λ c. c) 4 1
    ∷ acknowledges (natural 1)
    ∷ []

run-Inv_example : Inv (run (begin small "Session output") calls)
run-Inv_example = run-Inv small "Session output" calls
