-- ===== src/ClaudeView/Examples.antt =====
-- src/harnesses/claude-view.ts: a state with one entry more than a view shows, and events of one message.
use cantelop_sdk.Prelude.{
  codes, ℕ, zero, suc, ◌≡◌, refl, true, false, none, some, List, [], ◌∷◌, length, ok, arith, String,
}
use cantelop_sdk.Stream.{Text, text_eq}
use cantelop_sdk.Stream.Decimal.{decimal}
use cantelop_sdk.Protocol.Values.{
  string, array, object, no_elements, element, Members, no_members, member, get,
}
use cantelop_sdk.ClaudeView.{
  ConversationEntry, Role, EntryStatus, ViewInput, InputStatus, SessionView, ViewedState, full_view,
  view_json, input_json, entry_json, run_json, claude_view, clip,
}
use cantelop_sdk.ClaudeView.Json.{comma_join, boolean_text}
use cantelop_sdk.ClaudeView.Eviction.{reserialise, claude_view-eq-reserialise}
use cantelop_sdk.ClaudeView.Complete.{IsView, claude_view-IsView}
use cantelop_sdk.ClaudeView.Observe.{
  Format, Observed, keep_latest, find, change_first, put, slot, free_index,
}
use cantelop_sdk.ClaudeView.Observe.Events.{observe, observe_all}
use cantelop_sdk.ClaudeView.Observe.Slots.{IsFree, free_index_total}
use cantelop_sdk.ClaudeView.Observe.History.{IsConversation, observe_all-IsConversation}

abbrev answer : String → EntryStatus → Text → ConversationEntry
answer id status text = record {
  id = codes id;
  run_id = codes "r1";
  role = Role.assistant;
  text = text;
  tool_name = none;
  status = status;
}

abbrev answers : ℕ → List ConversationEntry
answers zero = []
answers (suc n) = answer "a" EntryStatus.completed (codes "ok") ∷ answers n

abbrev input : ViewInput
input = record {
  id = codes "i1";
  run_id = codes "r1";
  text = codes "hello";
  status = InputStatus.running;
  reason = none;
}

abbrev state : ViewedState Text
state = record {
  revision = 7;
  conversation_id = codes "c1";
  messages = input ∷ [];
  run = none;
  entries = answers 33;
  usage = none;
  truncated = false;
}

abbrev as_text : Text → Text
as_text t = t

abbrev view : SessionView Text
view = record (full_view as_text state) { entries = answers 32; truncated = true }

input_text :
    input_json input
    ≡ codes "{\"id\":\"i1\",\"runId\":\"r1\",\"text\":\"hello\",\"status\":\"running\"}"
unfolding input_json comma_join
input_text = refl

last_entries_shown : claude_view as_text state ≡ ok view
unfolding claude_view view_json input_json entry_json run_json decimal comma_join boolean_text
last_entries_shown = refl

claude_view-eq-reserialise_example :
    claude_view as_text state
    ≡ (let v = full_view as_text state in reserialise as_text v v.entries v.inputs v.truncated)
claude_view-eq-reserialise_example = claude_view-eq-reserialise as_text state

claude_view-IsView_example : IsView as_text state view
claude_view-IsView_example = claude_view-IsView as_text state last_entries_shown

abbrev taken : List Text
taken = slot (codes "m") 0 ∷ slot (codes "m") 1 ∷ []

free_index_total_example :
    (found : ℕ) × (free_index 3 taken (codes "m") 0 ≡ some found)
    × IsFree taken (codes "m") 0 3 found
free_index_total_example = free_index_total 3 taken (codes "m") 0 (omega arith) (omega arith)

abbrev text_of : Format Text
text_of = record { to_text = λ v. codes "m"; stringify = λ v. codes "{}"; usage_of = λ ms. [] }

abbrev block : Members
block = member "type" (string "text") (member "text" (string "hi") no_members)

abbrev said : Members
said = member "type" (string "assistant") (
    member "message"
      (object (
        member "content" (array (element (object block) (element (object block) no_elements)))
          no_members))
      no_members)

abbrev begun : Observed Text
begun = record {
  run_id = codes "r1";
  entries = [];
  assistant_id = none;
  usage = none;
  truncated = false;
}

-- The second block holds the same text, and is taken for the first.
said_once : length (observe_all text_of begun (said ∷ [])).entries ≡ 1
unfolding observe_all observe keep_latest get find free_index put text_eq slot decimal clip
    change_first
said_once = refl

observe_all-IsConversation_example :
    IsConversation (observe_all text_of begun (said ∷ said ∷ [])).entries
observe_all-IsConversation_example =
    observe_all-IsConversation text_of begun (said ∷ said ∷ [])
      (record { few = omega arith; kept = record { fit = tt; distinct = tt } })
