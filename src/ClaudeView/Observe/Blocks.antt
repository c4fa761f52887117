-- ===== src/ClaudeView/Observe/Blocks.antt =====
-- src/harnesses/claude-view.ts: the blocks of a message, in `observeClaude`.
use cantelop_sdk.Prelude.{
  starts_with, codes, ℕ, suc, false, ◌&&◌, Option, none, some, List, [], ◌∷◌, ◌++◌, map, filter,
  length, ltb, if◌then◌else◌,
}
use cantelop_sdk.Stream.{Text, text_eq}
use cantelop_sdk.Protocol.Values.{
  Value, null, string, array, object, Elements, no_elements, element, Members, no_members, get,
  as_record, equals,
}
use cantelop_sdk.ClaudeView.{ConversationEntry, assistant, tool, EntryStatus, clip}
use cantelop_sdk.ClaudeView.Observe.{
  Format, Observed, entry_max_bytes, find, coalesce, put, has, slot, free_index, is_assistant,
  failed_or_completed, text_or,
}

module _ {U : Type 0} (format : Format U) where
  -- The ids of the run's entries that belong to the message.
  slots_taken : Observed U → Text → List Text
  slots_taken s prefix =
      map (λ e. e.id)
        (filter
          (λ (e : ConversationEntry).
            text_eq e.run_id s.run_id && starts_with (prefix ++ 58 ∷ []) e.id)
          s.entries)

  abbrev completed_text : Observed U → Text → Text → ConversationEntry
  completed_text s id text = record {
    id = id;
    run_id = s.run_id;
    role = assistant;
    text = text;
    tool_name = none;
    status = EntryStatus.completed;
  }

  unfoldable pub put_slot : Observed U → Text → Text → Option ℕ → Observed U
  put_slot s prefix text none = s
  put_slot s prefix text (some index) = put s (completed_text s (slot prefix index) text) false

  unfoldable pub put_matched :
      Observed U → Text → ℕ → Text → List Text → Option ConversationEntry → Observed U
  unfolding put_slot
  put_matched s prefix i text ids (some match) = put s (completed_text s match.id text) false
  put_matched s prefix i text ids none =
      put_slot s prefix text (free_index (suc (length ids)) ids prefix i)

  unfoldable pub text_block : Observed U → Text → ℕ → Option Value → Observed U
  unfolding slots_taken put_matched
  text_block s prefix i (some (string text)) =
      let ids = slots_taken s prefix in
      put_matched s prefix i (codes text) ids (
        find
          (λ e.
            text_eq e.run_id s.run_id
            && is_assistant e.role
            && has ids e.id
            && text_eq e.text (clip (codes text) entry_max_bytes))
          s.entries)
  text_block s prefix i _ = s

  unfoldable pub tool_use : Observed U → Members → Option Value → Observed U
  tool_use s block (some (string id)) =
      put s
        (record {
          id = codes id;
          run_id = s.run_id;
          role = tool;
          text =
              format.stringify
                (elim (coalesce (get "input" block)) [ none ↦ object no_members | some v ↦ v ]);
          tool_name = some (text_or format (codes "tool") (coalesce (get "name" block)));
          status = EntryStatus.streaming;
        })
        false
  tool_use s block _ = s

  result_text : Option Value → Text
  result_text (some (string text)) = codes text
  result_text (some null) = format.stringify (string "")
  result_text (some v) = format.stringify v
  result_text none = format.stringify (string "")

  -- `previous?.toolName ? { toolName: previous.toolName } : {}`.
  known_tool : Option ConversationEntry → Option Text
  known_tool (some e) = elim e.tool_name [
    | none ↦ none
    | some name ↦ if ltb 0 (length name) then some name else none
  ]
  known_tool none = none

  unfoldable pub tool_result : Observed U → Members → Option Value → Observed U
  unfolding result_text known_tool
  tool_result s block (some (string id)) =
      put s
        (record {
          id = codes id;
          run_id = s.run_id;
          role = tool;
          text = result_text (get "content" block);
          tool_name =
              known_tool
                (find (λ e. text_eq e.id (codes id) && text_eq e.run_id s.run_id) s.entries);
          status = failed_or_completed (get "is_error" block);
        })
        false
  tool_result s block _ = s

  -- One round of the loop over the blocks of a message.
  unfoldable pub content_block : Observed U → Text → ℕ → Option Members → Observed U
  unfolding text_block tool_use tool_result
  content_block s prefix i none = s
  content_block s prefix i (some block) =
      if equals "text" (get "type" block)
      then text_block s prefix i (get "text" block)
      else if equals "tool_use" (get "type" block)
      then tool_use s block (get "id" block)
      else if equals "tool_result" (get "type" block)
      then tool_result s block (get "tool_use_id" block)
      else s

  unfoldable pub content_blocks : Observed U → Text → ℕ → Elements → Observed U
  unfolding content_block
  content_blocks s prefix i no_elements = s
  content_blocks s prefix i (element block blocks) =
      content_blocks (content_block s prefix i (as_record (some block))) prefix (suc i) blocks

  unfoldable pub content : Observed U → Text → Option Value → Observed U
  unfolding content_blocks
  content s prefix (some (array blocks)) = content_blocks s prefix 0 blocks
  content s prefix _ = s
