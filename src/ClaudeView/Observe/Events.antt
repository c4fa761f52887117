-- ===== src/ClaudeView/Observe/Events.antt =====
-- src/harnesses/claude-view.ts: the kinds of events, in `observeClaude`.
use cantelop_sdk.Prelude.{
  codes, true, false, ◌&&◌, Option, none, some, List, [], ◌∷◌, ◌++◌, any, if◌then◌else◌, String,
}
use cantelop_sdk.Stream.{Text, text_eq}
use cantelop_sdk.Protocol.Values.{Value, string, Members, get, as_record, equals}
use cantelop_sdk.ClaudeView.{ConversationEntry, assistant, EntryStatus}
use cantelop_sdk.ClaudeView.Observe.{
  Format, Observed, change_first, or_else, coalesce, put, keep_latest, is_assistant,
  failed_or_completed, text_or,
}
use cantelop_sdk.ClaudeView.Observe.Blocks.{content}

module _ {U : Type 0} (format : Format U) where
  unfoldable pub started_as : Observed U → Members → Option Value → Observed U
  started_as s stream (some (string id)) =
      if equals "message_start" (get "type" stream)
      then record s { assistant_id = some (codes id) }
      else s
  started_as s stream _ = s

  unfoldable pub message_start : Observed U → Members → Option Members → Observed U
  unfolding started_as
  message_start s stream none = s
  message_start s stream (some message) = started_as s stream (get "id" message)

  unfoldable pub delta_text : Observed U → Text → Members → Option Value → Observed U
  delta_text s id delta (some (string text)) =
      if equals "text_delta" (get "type" delta)
      then put s
          (record {
            id = id;
            run_id = s.run_id;
            role = assistant;
            text = codes text;
            tool_name = none;
            status = EntryStatus.streaming;
          })
          true
      else s
  delta_text s id delta _ = s

  unfoldable pub text_delta : Observed U → Text → Option Members → Observed U
  unfolding delta_text
  text_delta s id none = s
  text_delta s id (some delta) = delta_text s id delta (get "text" delta)

  unfoldable pub block_stop : Observed U → Text → Observed U
  block_stop s id = record s {
    entries =
        change_first (λ e. text_eq e.id id && text_eq e.run_id s.run_id)
          (λ (e : ConversationEntry). record e { status = EntryStatus.completed }) s.entries;
  }

  unfoldable pub stream_id : Observed U → Members → Text
  stream_id s stream =
      (elim s.assistant_id [ none ↦ codes "stream" | some id ↦ id ])
      ++ 58 ∷ text_or format (codes "0") (coalesce (get "index" stream))

  -- What a `stream_event` does.
  unfoldable pub stream_event : Observed U → Option Members → Observed U
  unfolding message_start text_delta block_stop stream_id
  stream_event s none = s
  stream_event s (some stream) =
      let started = message_start s stream (as_record (get "message" stream)) in
      let id = stream_id started stream in
      if equals "content_block_delta" (get "type" stream)
      then text_delta started id (as_record (get "delta" stream))
      else if equals "content_block_stop" (get "type" stream)
      then block_stop started id
      else started

  unfoldable pub field : String → Option Members → Option Value
  field name none = none
  field name (some ms) = get name ms

  unfoldable pub message_event : Observed U → Members → Option Members → Observed U
  unfolding content field
  message_event s event message =
      if equals "assistant" (get "type" event)
      then content format s
          (text_or format (codes "assistant")
            (or_else (coalesce (field "id" message)) (coalesce (get "uuid" event))))
          (field "content" message)
      else if equals "user" (get "type" event)
      then content format s (text_or format (codes "user") (coalesce (get "uuid" event)))
          (field "content" message)
      else s

  unfoldable pub result_entry : Observed U → Members → Option Value → Observed U
  result_entry s event (some (string text)) =
      if any (λ (e : ConversationEntry). text_eq e.run_id s.run_id && is_assistant e.role) s.entries
      then s
      else put s
          (record {
            id = s.run_id ++ codes ":result";
            run_id = s.run_id;
            role = assistant;
            text = codes text;
            tool_name = none;
            status = failed_or_completed (get "is_error" event);
          })
          false
  result_entry s event _ = s

  unfoldable pub result_event : Observed U → Members → Observed U
  unfolding result_entry
  result_event s event =
      if equals "result" (get "type" event)
      then record (result_entry s event (get "result" event)) {
        usage = some (format.usage_of event);
      }
      else s

  unfoldable pub observe : Observed U → Members → Observed U
  unfolding stream_event message_event result_event
  observe s event =
      let streamed =
        if equals "stream_event" (get "type" event)
        then stream_event s (as_record (get "event" event))
        else s in
      let message = message_event streamed event (as_record (get "message" event)) in
      keep_latest (result_event message event)

  unfoldable pub observe_all : Observed U → List Members → Observed U
  observe_all s [] = s
  observe_all s (event ∷ events) = observe_all (observe s event) events
