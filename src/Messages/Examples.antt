-- ===== src/Messages/Examples.antt =====
-- Runs of src/runtime-messages.ts, with the text itself as its digest and keys in the order of their
-- characters.
use Prim.Native.Char.{Char, code}
use text.Mathlib.TextEquality.{codes_equal}
use mathlib.Core.Path.{ap₂}
use cantelop_sdk.Prelude.{
  ℕ, suc, ◌+◌, ◌≤◌, ◌<◌, ◌≡◌, refl, String, Bool, true, false, Option, none, some, List, [], ◌∷◌,
  arith, ltb, ◌==◌, if◌then◌else◌, length, lookup, str_eq, eq_iff, Result, ok, err, protocol_error,
  map, All,
}
use cantelop_sdk.Messages.{
  State, Receipt, Reservation, Delivery, absent, Digest, Messages, new_messages, admit, started,
}
use cantelop_sdk.Messages.Queries.{reply, work}
use cantelop_sdk.Messages.Canonical.{
  Json, quoted, leaf, object, field, end, Format, IsOrder, canonical, swap, canonical-Reorders,
}
use cantelop_sdk.Messages.Invariant.{Inv}
use cantelop_sdk.Messages.Turns.{
  Turn, admits, starts, delivers, closes, step, run, run_messages-Inv, after_admit,
}
use cantelop_sdk.Messages.Lifecycle.{Later, run-Later}
use cantelop_sdk.Messages.Admission.{admit_fresh, admit_again}
use cantelop_sdk.Messages.Work.{DueFrom, NotLive, work_lem}

char_eq : Char → Char → Bool
char_eq c d = code c == code d

text_leb : String → String → Bool
text_leb String.[] t = true
text_leb (String.◌∷◌ c s) String.[] = false
text_leb (String.◌∷◌ c s) (String.◌∷◌ d t) =
    let rest = text_leb s t in
    if ltb (code c) (code d) then true else if code c == code d then rest else false

text_leb_total : (s t : String) → text_leb s t ≡ false → text_leb t s ≡ true
unfolding text_leb
text_leb_total String.[] t h = cc
text_leb_total (String.◌∷◌ c s) String.[] h = refl
text_leb_total (String.◌∷◌ c s) (String.◌∷◌ d t) h = ground (arith, text_leb_total s t)

text_leb_antisym : (s t : String) → text_leb s t ≡ true → text_leb t s ≡ true → s ≡ t
unfolding text_leb
text_leb_antisym String.[] String.[] h k = refl
text_leb_antisym String.[] (String.◌∷◌ d t) h k = cc
text_leb_antisym (String.◌∷◌ c s) String.[] h k = cc
text_leb_antisym (String.◌∷◌ c s) (String.◌∷◌ d t) h k =
    ap₂ String.◌∷◌ (codes_equal c d (ground arith))
      (text_leb_antisym s t (ground arith) (ground arith))

text_leb_trans : (s t u : String) → text_leb s t ≡ true → text_leb t u ≡ true → text_leb s u ≡ true
unfolding text_leb
text_leb_trans String.[] t u h k = refl
text_leb_trans (String.◌∷◌ c s) String.[] u h k = cc
text_leb_trans (String.◌∷◌ c s) (String.◌∷◌ d t) String.[] h k = cc
text_leb_trans (String.◌∷◌ c s) (String.◌∷◌ d t) (String.◌∷◌ e u) h k =
    ground (arith, text_leb_trans s t u)

abbrev plain : Format
plain = record { precedes = text_leb; quote = λ s. s }

plain-IsOrder : IsOrder plain
plain-IsOrder = record {
  total = text_leb_total;
  antisym = text_leb_antisym;
  trans = text_leb_trans;
}

canonical-Reorders_example :
    canonical plain (object (field "b" (leaf "1") (field "a" (quoted "x") end)))
    ≡ canonical plain (object (field "a" (quoted "x") (field "b" (leaf "1") end)))
canonical-Reorders_example =
    canonical-Reorders plain plain-IsOrder (swap (λ e. ground (arith, eq_iff "b" "a")))

abbrev identity : Digest
identity = record { format = plain; byte_length = λ s. 10; sha256 = λ s. s }

abbrev handed_over : Result (Delivery String)
handed_over = ok (record { generation = 1; reply = some "pong"; started = none })

abbrev fresh : Messages String
fresh = new_messages "sbx-1" 300000 4096

abbrev ping : Json
ping = quoted "ping"

abbrev admission : Turn String
admission = admits identity "m1" ping 1000 absent none handed_over

abbrev first : Receipt
first = record {
  sandbox_id = "sbx-1";
  message_id = "m1";
  attempt_id = none;
  sequence = 1;
  generation = 1;
  accepted_at = 1000;
  deadline = 301000;
  state = State.queued;
  cancellation_requested_at = none;
  error_code = none;
  started_at = none;
  settled_at = none;
}

abbrev after_first : Messages String
after_first = run fresh (admission ∷ [])

fresh-Inv : Inv fresh
unfolding run
fresh-Inv = run_messages-Inv "sbx-1" 300000 4096 []

admitted_first :
    admit identity fresh "m1" ping 1000 absent none handed_over ≡ ok (after_first, first)
unfolding admit new_messages run step after_admit
admitted_first = refl

run_messages-Inv_example : Inv (run fresh (admission ∷ closes "m1" 5 ∷ []))
run_messages-Inv_example = run_messages-Inv "sbx-1" 300000 4096 (admission ∷ closes "m1" 5 ∷ [])

admit_fresh_example :
    (first.sequence ≡ suc (length fresh.records))
    × (1000 < first.deadline)
    × (first.deadline ≤ 1000 + fresh.timeout_ms + 30000)
admit_fresh_example =
    admit_fresh identity fresh after_first "m1" ping 1000 absent none handed_over first
      (unfold new_messages in refl) admitted_first

abbrev finished : List (Turn String)
finished = starts "m1" 1200 ∷ delivers "m1" true ∷ closes "m1" 2000 ∷ []

admit_again_example :
    (canonical plain ping ≡ canonical plain ping
      → (standing : Reservation String) × (lookup "m1" (run after_first finished).records
          ≡ some standing)
        × (admit identity (run after_first finished) "m1" ping 9000 absent none handed_over
            ≡ ok (run after_first finished, standing.receipt))
        × (standing.receipt.sequence ≡ 1))
    × (str_eq (canonical plain ping) (canonical plain ping) ≡ false
        → admit identity (run after_first finished) "m1" ping 9000 absent none handed_over
          ≡ err (protocol_error 409 "message_conflict"))
admit_again_example =
    admit_again identity fresh after_first "m1" ping ping 1000 9000 absent absent none none
      handed_over handed_over first finished fresh-Inv (unfold new_messages in refl) admitted_first

found_first : (r : Reservation String) × (lookup "m1" after_first.records ≡ some r)
unfolding admit new_messages run step after_admit
found_first = (_, refl)

after_first-Inv : Inv after_first
after_first-Inv = run_messages-Inv "sbx-1" 300000 4096 (admission ∷ [])

run-Later_example :
    (r' : Reservation String) × (lookup "m1" (run after_first finished).records ≡ some r')
    × Later found_first.0 r'
run-Later_example = run-Later after_first finished "m1" found_first.0 after_first-Inv found_first.1

abbrev replied : Messages String
replied = run fresh (admission ∷ finished)

live_after_first :
    ((best : ℕ)
      → (requested : Option ℕ) → work after_first ≡ some (best, requested)
      → All
          (DueFrom best)
          (map (λ (id : String). lookup id after_first.records) after_first.unsettled))
    × (work after_first ≡ none
        → All NotLive (map (λ (id : String). lookup id after_first.records) after_first.unsettled))
live_after_first = work_lem after_first
