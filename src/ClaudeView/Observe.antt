-- ===== src/ClaudeView/Observe.antt =====
-- src/harnesses/claude-view.ts: the state that `observeClaude` changes, which reduces a native event to the entries of the
-- conversation. Events are parsed JSON values. `Format` is the text that a template or `JSON.stringify`
-- makes of a value, and the usage that an event tells.
pub mod Blocks
pub mod Events
pub mod Slots
pub mod Entries
pub mod History
use cantelop_sdk.Prelude.{
  codes, ℕ, suc, ◌+◌, ◌-◌, ◌*◌, Bool, true, false, not, ◌&&◌, ◌||◌, Option, none, some, List, [],
  ◌∷◌, ◌++◌, map, any, filter, length, drop, ltb, if◌then◌else◌, ◌==◌, zero, natural,
}
use cantelop_sdk.Stream.{Text, text_eq}
use cantelop_sdk.Stream.Decimal.{decimal}
use cantelop_sdk.Protocol.Values.{
  Value, null, boolean, string, number, array, object, Elements, no_elements, element, Members,
  no_members, get, as_record, equals,
}
use cantelop_sdk.ClaudeView.{ConversationEntry, Role, assistant, tool, EntryStatus, clip}

abbrev pub entry_max_bytes : ℕ
entry_max_bytes = 8 * 1024

abbrev pub max_entries : ℕ
max_entries = 256

pub record Format (U : Type 0) : Type 0 where
  pub to_text : Value → Text
  pub stringify : Value → Text
  pub usage_of : Members → U

-- The state as far as it is observed; `run_id` is the id of the run under way.
pub record Observed (U : Type 0) : Type 0 where
  pub run_id : Text
  pub entries : List ConversationEntry
  pub assistant_id : Option Text
  pub usage : Option U
  pub truncated : Bool

abbrev pub same_key : ConversationEntry → ConversationEntry → Bool
same_key e entry = text_eq e.id entry.id && text_eq e.run_id entry.run_id

unfoldable pub find : (ConversationEntry → Bool) → List ConversationEntry → Option ConversationEntry
find test [] = none
find test (e ∷ entries) = let further = find test entries in if test e then some e else further

-- Changes the first entry that the test finds.
unfoldable pub change_first :
    (ConversationEntry → Bool)
    → (ConversationEntry → ConversationEntry)
    → List ConversationEntry
    → List ConversationEntry
change_first test change [] = []
change_first test change (e ∷ entries) =
    let further = change_first test change entries in
    if test e then change e ∷ entries else e ∷ further

abbrev pub or_else {ℓ} : {A : Type ℓ} → Option A → Option A → Option A
or_else none other = other
or_else (some a) other = some a

-- `Object.assign(previous, entry, { text })`: a tool's name that the new entry lacks stays.
abbrev pub assign : ConversationEntry → Text → ConversationEntry → ConversationEntry
assign entry text previous = record entry {
  text = text;
  tool_name = or_else entry.tool_name previous.tool_name;
}

abbrev appended : Bool → Option ConversationEntry → Text → Text
appended true (some previous) text = previous.text ++ text
appended true none text = text
appended false previous text = text

-- `value ?? undefined`: null and a missing value alike.
abbrev pub coalesce : Option Value → Option Value
coalesce (some null) = none
coalesce other = other

module _ {U : Type 0} where
  put_text : Observed U → ConversationEntry → Option ConversationEntry → Text → Observed U
  put_text s entry (some previous) text = record s {
    entries =
        change_first (λ e. same_key e entry) (assign entry (clip text entry_max_bytes)) s.entries;
    truncated = s.truncated || not (text_eq (clip text entry_max_bytes) text);
  }
  put_text s entry none text = record s {
    entries = s.entries ++ record entry { text = clip text entry_max_bytes } ∷ [];
    truncated = s.truncated || not (text_eq (clip text entry_max_bytes) text);
  }

  unfoldable pub put : Observed U → ConversationEntry → Bool → Observed U
  unfolding put_text
  put s entry append =
      let previous = find (λ e. same_key e entry) s.entries in
      put_text s entry previous (appended append previous entry.text)

  -- The last lines: the oldest entries beyond the bound leave.
  unfoldable pub keep_latest : Observed U → Observed U
  keep_latest s =
      if ltb max_entries (length s.entries)
      then record s { entries = drop (length s.entries - max_entries) s.entries; truncated = true }
      else s

abbrev pub has : List Text → Text → Bool
has ids id = any (λ i. text_eq i id) ids

-- `${prefix}:${index}`.
unfoldable pub slot : Text → ℕ → Text
slot prefix index = prefix ++ 58 ∷ decimal index

-- `while (ids.has(…)) index++`, with fuel; `none` means that the fuel ran out.
unfoldable pub free_index : ℕ → List Text → Text → ℕ → Option ℕ
free_index zero ids prefix index = none
free_index (suc fuel) ids prefix index =
    let further = free_index fuel ids prefix (suc index) in
    if has ids (slot prefix index) then further else some index

abbrev pub is_assistant : Role → Bool
is_assistant assistant = true
is_assistant _ = false

abbrev pub truthy : Option Value → Bool
truthy none = false
truthy (some null) = false
truthy (some (boolean b)) = b
truthy (some (number (natural n))) = ltb 0 n
truthy (some (string s)) = ltb 0 (length (codes s))
truthy (some _) = true

abbrev pub failed_or_completed : Option Value → EntryStatus
failed_or_completed error = if truthy error then EntryStatus.failed else EntryStatus.completed

module _ {U : Type 0} (format : Format U) where
  -- `String(value ?? fallback)`.
  abbrev pub text_or : Text → Option Value → Text
  text_or fallback none = fallback
  text_or fallback (some v) = format.to_text v
