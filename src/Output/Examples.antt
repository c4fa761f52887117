-- ===== src/Output/Examples.antt =====
-- Runs of src/output.ts, with texts as the JSON values.
use cantelop_sdk.Prelude.{
  ◌≤◌, ◌≡◌, refl, String, true, false, none, some, List, [], ◌∷◌, ◌++◌, length, arith, natural,
}
use cantelop_sdk.CursorBuffer
use cantelop_sdk.CursorBuffer.{Buffer}
use cantelop_sdk.CursorBuffer.Log.{Represents, empty-Represents}
use cantelop_sdk.Output.{
  Json, OutputEvent, output_limits, max_event_bytes, published, new_output, output_event, publish,
}
use cantelop_sdk.Output.Bounds.{
  Call, publishes, polls, acknowledges, run, run-Within, publish-Represents, publish-empty,
}

abbrev texts : Json String
texts = record { encode = λ s. some s; byte_length = λ s. 12; parse = λ s. s }

abbrev fresh : Buffer (OutputEvent String)
fresh = CursorBuffer.empty output_limits "Session output"

abbrev calls : List (Call String)
calls = publishes "m1" "hello" none false 1 ∷ polls 0 none true 2 ∷ acknowledges (natural 1) ∷ []

run-Within_example :
    (length (run texts (new_output texts) calls).entries ≤ 256)
    × ((run texts (new_output texts) calls).pending_bytes ≤ 1048576)
run-Within_example = run-Within texts calls

hello_published : (publish texts fresh "m1" "hello" none false 1).1 ≡ published []
unfolding CursorBuffer.empty
hello_published =
    publish-empty texts fresh "m1" "hello" "hello" false 1 refl refl refl refl (omega arith)

publish-Represents_example :
    (t : String) × (◌≡◌ {A = _} (some "hello") (some t))
    × (12 ≤ max_event_bytes)
    × Represents
        (publish texts fresh "m1" "hello" none false 1).0
        ([] ++ output_event texts "m1" false t 1 ∷ [])
unfolding CursorBuffer.empty
publish-Represents_example =
    publish-Represents texts fresh [] "m1" "hello" none false 1 []
      (empty-Represents output_limits "Session output") hello_published
