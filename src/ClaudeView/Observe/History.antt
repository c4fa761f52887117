-- ===== src/ClaudeView/Observe/History.antt =====
-- src/harnesses/claude-view.ts: the entries of a conversation after any events.
use cantelop_sdk.Prelude.{
  codes, ℕ, suc, ◌-◌, ◌≤◌, refl, inl, inr, Bool, true, false, ◌&&◌, Option, none, some, List, [],
  ◌∷◌, any, length, length-drop, ltb, arith, Bool-cases, if◌then◌else◌,
}
use cantelop_sdk.Stream.{Text, text_eq}
use cantelop_sdk.Protocol.Values.{
  Value, string, array, Elements, no_elements, element, Members, get, as_record, equals,
}
use cantelop_sdk.ClaudeView.{ConversationEntry}
use cantelop_sdk.ClaudeView.Observe.{
  Format, Observed, max_entries, put, keep_latest, is_assistant, text_or, or_else, coalesce,
}
use cantelop_sdk.ClaudeView.Observe.Blocks.{
  put_slot, put_matched, text_block, tool_use, tool_result, content_block, content_blocks, content,
}
use cantelop_sdk.ClaudeView.Observe.Events.{
  started_as, message_start, delta_text, text_delta, block_stop, stream_event, message_event,
  result_entry, result_event, observe, stream_id, field, observe_all,
}
use cantelop_sdk.ClaudeView.Observe.Entries.{Kept, put-Kept, change_first-Kept, drop-Kept}

-- At most 256 entries, none too long, and no two with the same id in the same run.
pub record IsConversation (entries : List ConversationEntry) : Type 0 where
  pub few : length entries ≤ max_entries
  pub kept : Kept entries

module _ {U : Type 0} (format : Format U) where
  record Holds (s : Observed U) : Type 0 where
    entries_kept : Kept s.entries

  put-Holds :
      (s : Observed U) (entry : ConversationEntry) (append : Bool)
      → Holds s
      → Holds (put s entry append)
  put-Holds s entry append h = record { entries_kept = put-Kept s entry append h.entries_kept }

  if_Holds : (test : Bool) (s t : Observed U) → Holds s → Holds t → Holds (if test then s else t)
  if_Holds true s t h k = h
  if_Holds false s t h k = k

  put_slot-Holds :
      (s : Observed U) (prefix text : Text) (found : Option ℕ)
      → Holds s
      → Holds (put_slot format s prefix text found)
  unfolding put_slot
  put_slot-Holds s prefix text none h = h
  put_slot-Holds s prefix text (some index) h = put-Holds s _ false h

  put_matched-Holds :
      (s : Observed U) (prefix : Text) (i : ℕ) (text : Text) (ids : List Text)
      (match : Option ConversationEntry)
      → Holds s
      → Holds (put_matched format s prefix i text ids match)
  unfolding put_matched
  put_matched-Holds s prefix i text ids (some match) h = put-Holds s _ false h
  put_matched-Holds s prefix i text ids none h = put_slot-Holds s prefix text _ h

  text_block-Holds :
      (s : Observed U) (prefix : Text) (i : ℕ) (v : Option Value)
      → Holds s
      → Holds (text_block format s prefix i v)
  unfolding text_block
  text_block-Holds s prefix i (some (string text)) h =
      put_matched-Holds s prefix i (codes text) _ _ h
  text_block-Holds s prefix i _ h = h

  tool_use-Holds :
      (s : Observed U) (block : Members) (v : Option Value)
      → Holds s
      → Holds (tool_use format s block v)
  unfolding tool_use
  tool_use-Holds s block (some (string id)) h = put-Holds s _ false h
  tool_use-Holds s block _ h = h

  tool_result-Holds :
      (s : Observed U) (block : Members) (v : Option Value)
      → Holds s
      → Holds (tool_result format s block v)
  unfolding tool_result
  tool_result-Holds s block (some (string id)) h = put-Holds s _ false h
  tool_result-Holds s block _ h = h

  content_block-Holds :
      (s : Observed U) (prefix : Text) (i : ℕ) (block : Option Members)
      → Holds s
      → Holds (content_block format s prefix i block)
  unfolding content_block
  content_block-Holds s prefix i none h = h
  content_block-Holds s prefix i (some block) h =
      if_Holds (equals "text" (get "type" block)) _ _
        (text_block-Holds s prefix i (get "text" block) h)
        (if_Holds (equals "tool_use" (get "type" block)) _ _
          (tool_use-Holds s block (get "id" block) h)
          (if_Holds (equals "tool_result" (get "type" block)) _ _
            (tool_result-Holds s block (get "tool_use_id" block) h) h))

  content_blocks-Holds :
      (s : Observed U) (prefix : Text) (i : ℕ) (blocks : Elements)
      → Holds s
      → Holds (content_blocks format s prefix i blocks)
  unfolding content_blocks
  content_blocks-Holds s prefix i no_elements h = h
  content_blocks-Holds s prefix i (element block blocks) h =
      content_blocks-Holds (content_block format s prefix i (as_record (some block))) prefix (suc i)
        blocks (content_block-Holds s prefix i (as_record (some block)) h)

  content-Holds :
      (s : Observed U) (prefix : Text) (v : Option Value)
      → Holds s
      → Holds (content format s prefix v)
  unfolding content
  content-Holds s prefix (some (array blocks)) h = content_blocks-Holds s prefix 0 blocks h
  content-Holds s prefix _ h = h

  started_as-Holds :
      (s : Observed U) (stream : Members) (v : Option Value)
      → Holds s
      → Holds (started_as format s stream v)
  unfolding started_as
  started_as-Holds s stream (some (string id)) h =
      let started : Holds (record s { assistant_id = some (codes id) }) = record {
        entries_kept = h.entries_kept;
      } in
      if_Holds (equals "message_start" (get "type" stream)) _ _ started h
  started_as-Holds s stream _ h = h

  message_start-Holds :
      (s : Observed U) (stream : Members) (m : Option Members)
      → Holds s
      → Holds (message_start format s stream m)
  unfolding message_start
  message_start-Holds s stream none h = h
  message_start-Holds s stream (some message) h = started_as-Holds s stream _ h

  delta_text-Holds :
      (s : Observed U) (id : Text) (delta : Members) (v : Option Value)
      → Holds s
      → Holds (delta_text format s id delta v)
  unfolding delta_text
  delta_text-Holds s id delta (some (string text)) h =
      if_Holds (equals "text_delta" (get "type" delta)) _ _ (put-Holds s _ true h) h
  delta_text-Holds s id delta _ h = h

  text_delta-Holds :
      (s : Observed U) (id : Text) (delta : Option Members)
      → Holds s
      → Holds (text_delta format s id delta)
  unfolding text_delta
  text_delta-Holds s id none h = h
  text_delta-Holds s id (some delta) h = delta_text-Holds s id delta _ h

  block_stop-Holds : (s : Observed U) (id : Text) → Holds s → Holds (block_stop format s id)
  unfolding block_stop
  block_stop-Holds s id h = record {
    entries_kept = change_first-Kept _ _ s.entries (λ e fits. fits) (λ e hit. refl) h.entries_kept;
  }

  stream_event-Holds :
      (s : Observed U) (stream : Option Members) → Holds s → Holds (stream_event format s stream)
  unfolding stream_event
  stream_event-Holds s none h = h
  stream_event-Holds s (some stream) h =
      let started = message_start format s stream (as_record (get "message" stream)) in
      let id = stream_id format started stream in
      let begun = message_start-Holds s stream (as_record (get "message" stream)) h in
      if_Holds (equals "content_block_delta" (get "type" stream)) _ _
        (text_delta-Holds started id (as_record (get "delta" stream)) begun)
        (if_Holds (equals "content_block_stop" (get "type" stream)) _ _
          (block_stop-Holds started id begun) begun)

  message_event-Holds :
      (s : Observed U) (event : Members) (m : Option Members)
      → Holds s
      → Holds (message_event format s event m)
  unfolding message_event
  message_event-Holds s event m h =
      let blocks = field format "content" m in
      if_Holds (equals "assistant" (get "type" event)) _ _
        (content-Holds s
          (text_or format (codes "assistant")
            (or_else (coalesce (field format "id" m)) (coalesce (get "uuid" event))))
          blocks h)
        (if_Holds (equals "user" (get "type" event)) _ _
          (content-Holds s (text_or format (codes "user") (coalesce (get "uuid" event))) blocks h)
          h)

  result_entry-Holds :
      (s : Observed U) (event : Members) (v : Option Value)
      → Holds s
      → Holds (result_entry format s event v)
  unfolding result_entry
  result_entry-Holds s event (some (string text)) h =
      if_Holds
        (any (λ (e : ConversationEntry). text_eq e.run_id s.run_id && is_assistant e.role)
          s.entries)
        _ _ h (put-Holds s _ false h)
  result_entry-Holds s event _ h = h

  result_event-Holds :
      (s : Observed U) (event : Members) → Holds s → Holds (result_event format s event)
  unfolding result_event
  result_event-Holds s event h =
      let told = result_entry format s event (get "result" event) in
      let entered : Holds (record told { usage = some (format.usage_of event) }) = record {
        entries_kept = (result_entry-Holds s event (get "result" event) h).entries_kept;
      } in
      if_Holds (equals "result" (get "type" event)) _ _ entered h

  keep_latest-IsConversation : (s : Observed U) → Holds s → IsConversation (keep_latest s).entries
  unfolding keep_latest
  keep_latest-IsConversation s h = elim (Bool-cases (ltb max_entries (length s.entries))) [
    | inl many ↦ rw many (record {
      few = omega (arith, length-drop {0} (length s.entries - max_entries) s.entries);
      kept = drop-Kept (length s.entries - max_entries) s.entries h.entries_kept;
    })
    | inr few ↦ rw few (record { few = ground arith; kept = h.entries_kept })
  ]

  observe-IsConversation :
      (s : Observed U) (event : Members) → Holds s → IsConversation (observe format s event).entries
  unfolding observe
  observe-IsConversation s event h =
      let streams = equals "stream_event" (get "type" event) in
      let streamed = if streams then stream_event format s (as_record (get "event" event)) else s in
      let message = message_event format streamed event (as_record (get "message" event)) in
      keep_latest-IsConversation (result_event format message event) (
        result_event-Holds message event (
          message_event-Holds streamed event (as_record (get "message" event))
            (if_Holds streams _ _ (stream_event-Holds s (as_record (get "event" event)) h) h)))

  -- However many events are observed, the entries stay a conversation.
  pub observe_all-IsConversation :
      (s : Observed U) (events : List Members)
      → IsConversation s.entries
      → IsConversation (observe_all format s events).entries
  unfolding observe_all
  observe_all-IsConversation s [] h = h
  observe_all-IsConversation s (event ∷ events) h =
      observe_all-IsConversation (observe format s event) events
        (observe-IsConversation s event (record { entries_kept = h.kept }))
