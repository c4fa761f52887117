-- ===== src/ClaudeView.antt =====
-- src/harnesses/claude-view.ts: the bounded public view of a Claude Session. A text is the list of
-- its code points. The usage of a run is a parameter with the text that JSON gives it.
mod Json
pub mod Clip
pub mod Eviction
pub mod Complete
pub mod Observe
mod Examples
use cantelop_sdk.Prelude.{
  codes, ℕ, ◌+◌, ◌-◌, ◌*◌, Bool, true, false, ◌||◌, Option, none, some, List, [], ◌∷◌, ◌++◌, map,
  any, length, drop, ltb, leb, if◌then◌else◌, Thrown, error, Result, ok, err, String,
}
use cantelop_sdk.Stream.{Text, byte_length, utf8_size}
use cantelop_sdk.Stream.Decimal.{decimal}
use Json.{quote, boolean_text, array, object, member}

abbrev pub view_items : ℕ
view_items = 32

abbrev pub view_input_text_bytes : ℕ
view_input_text_bytes = 1024

abbrev pub view_max_bytes : ℕ
view_max_bytes = 48 * 1024

pub data InputStatus : Type 0 where
  accepted delivering running completed failed cancelled interrupted : InputStatus

pub data RunStatus : Type 0 where
  running finishing cancelling completed failed cancelled interrupted : RunStatus

pub data Role : Type 0 where
  user assistant tool system : Role

pub data EntryStatus : Type 0 where
  streaming completed interrupted failed : EntryStatus

pub record ViewInput : Type 0 where
  pub id : Text
  pub run_id : Text
  pub text : Text
  pub status : InputStatus
  pub reason : Option Text

pub record ViewRun : Type 0 where
  pub id : Text
  pub input_ids : List Text
  pub status : RunStatus
  pub error : Option Text

pub record ConversationEntry : Type 0 where
  pub id : Text
  pub run_id : Text
  pub role : Role
  pub text : Text
  pub tool_name : Option Text
  pub status : EntryStatus

pub record SessionView (U : Type 0) : Type 0 where
  pub revision : ℕ
  pub conversation_id : Text
  pub inputs : List ViewInput
  pub run : Option ViewRun
  pub entries : List ConversationEntry
  pub usage : Option U
  pub truncated : Bool

-- The fields of the durable state that the view reads, the inputs without their private ones.
pub record ViewedState (U : Type 0) : Type 0 where
  pub revision : ℕ
  pub conversation_id : Text
  pub messages : List ViewInput
  pub run : Option ViewRun
  pub entries : List ConversationEntry
  pub usage : Option U
  pub truncated : Bool

-- The loop of `clip`: what is kept behind `size` bytes.
unfoldable pub clip_from : ℕ → ℕ → Text → Text
clip_from bytes size [] = []
clip_from bytes size (character ∷ rest) =
    let kept = clip_from bytes (size + utf8_size character) rest in
    if ltb bytes (size + utf8_size character) then [] else character ∷ kept

unfoldable pub clip : Text → ℕ → Text
clip text bytes = if leb (byte_length text) bytes then text else clip_from bytes 0 text

input_status_text : InputStatus → String
input_status_text InputStatus.accepted = "accepted"
input_status_text InputStatus.delivering = "delivering"
input_status_text InputStatus.running = "running"
input_status_text InputStatus.completed = "completed"
input_status_text InputStatus.failed = "failed"
input_status_text InputStatus.cancelled = "cancelled"
input_status_text InputStatus.interrupted = "interrupted"

run_status_text : RunStatus → String
run_status_text RunStatus.running = "running"
run_status_text RunStatus.finishing = "finishing"
run_status_text RunStatus.cancelling = "cancelling"
run_status_text RunStatus.completed = "completed"
run_status_text RunStatus.failed = "failed"
run_status_text RunStatus.cancelled = "cancelled"
run_status_text RunStatus.interrupted = "interrupted"

role_text : Role → String
role_text user = "user"
role_text assistant = "assistant"
role_text tool = "tool"
role_text system = "system"

entry_status_text : EntryStatus → String
entry_status_text EntryStatus.streaming = "streaming"
entry_status_text EntryStatus.completed = "completed"
entry_status_text EntryStatus.interrupted = "interrupted"
entry_status_text EntryStatus.failed = "failed"

abbrev optional_member : String → Option Text → List Text
optional_member name none = []
optional_member name (some value) = member name value ∷ []

abbrev quoted_optional : String → Option Text → List Text
quoted_optional name none = []
quoted_optional name (some value) = member name (quote value) ∷ []

abbrev word : String → Text
word s = quote (codes s)

unfoldable pub input_json : ViewInput → Text
unfolding input_status_text quote member object
input_json i = object (
    member "id" (quote i.id)
    ∷ member "runId" (quote i.run_id)
    ∷ member "text" (quote i.text)
    ∷ member "status" (word (input_status_text i.status))
    ∷ quoted_optional "reason" i.reason)

unfoldable pub run_json : Option ViewRun → Text
unfolding run_status_text quote member object array
run_json none = codes "null"
run_json (some r) = object (
    member "id" (quote r.id)
    ∷ member "inputIds" (array (map quote r.input_ids))
    ∷ member "status" (word (run_status_text r.status))
    ∷ quoted_optional "error" r.error)

unfoldable pub entry_json : ConversationEntry → Text
unfolding entry_status_text role_text quote member object
entry_json e = object (
    member "id" (quote e.id)
      ∷ member "runId" (quote e.run_id)
      ∷ member "role" (word (role_text e.role))
      ∷ member "text" (quote e.text)
      ∷ quoted_optional "toolName" e.tool_name
    ++ member "status" (word (entry_status_text e.status)) ∷ [])

-- `m.reason ? { reason: m.reason } : {}`.
abbrev if_nonempty : Option Text → Option Text
if_nonempty none = none
if_nonempty (some []) = none
if_nonempty (some (c ∷ cs)) = some (c ∷ cs)

unfoldable pub view_input : ViewInput → ViewInput
unfolding clip
view_input m = record m { text = clip m.text view_input_text_bytes; reason = if_nonempty m.reason }

-- `slice(-count)`.
unfoldable pub last_items {ℓ} : {A : Type ℓ} → ℕ → List A → List A
last_items count xs = drop (length xs - count) xs

abbrev is_long : ViewInput → Bool
is_long m = ltb view_input_text_bytes (byte_length m.text)

module _ {U : Type 0} (usage_text : U → Text) where
  abbrev usage_members : Option U → List Text
  usage_members none = []
  usage_members (some u) = member "usage" (usage_text u) ∷ []

  unfoldable pub view_json : SessionView U → Text
  view_json v = object (
      member "version" (codes "1")
        ∷ member "revision" (decimal v.revision)
        ∷ member "conversationId" (quote v.conversation_id)
        ∷ member "inputs" (array (map input_json v.inputs))
        ∷ member "run" (run_json v.run)
        ∷ member "entries" (array (map entry_json v.entries))
        ∷ usage_members v.usage
      ++ member "truncated" (boolean_text v.truncated) ∷ [])

  -- The view before the loop.
  unfoldable pub full_view : ViewedState U → SessionView U
  unfolding last_items view_input
  full_view s = record {
    revision = s.revision;
    conversation_id = s.conversation_id;
    inputs = map view_input (last_items view_items s.messages);
    run = s.run;
    entries = last_items view_items s.entries;
    usage = s.usage;
    truncated =
        s.truncated
        || ltb view_items (length s.messages)
        || ltb view_items (length s.entries)
        || any is_long s.messages;
  }

  -- The size behind one round of the loop: the flag turns from "false" to "true", and `evicted`
  -- leaves with the comma that stood between it and the items that follow.
  abbrev shrunk {ℓ} : {A : Type ℓ} → Bool → ℕ → Text → List A → ℕ
  shrunk truncated size evicted [] = size - (if truncated then 0 else 1) - byte_length evicted
  shrunk truncated size evicted (_ ∷ _) =
      size - (if truncated then 0 else 1) - (byte_length evicted + 1)

  -- The loop: entries leave first, then inputs, each from the front.
  unfoldable pub evict :
      SessionView U → List ConversationEntry → List ViewInput → Bool → ℕ → Result (SessionView U)
  evict v [] [] truncated size =
      if ltb view_max_bytes size
      then err (error "Claude view exceeds limit")
      else ok (record v { entries = []; inputs = []; truncated = truncated })
  evict v [] (i ∷ inputs) truncated size =
      let rest = evict v [] inputs true (shrunk truncated size (input_json i) inputs) in
      if ltb view_max_bytes size
      then rest
      else ok (record v { entries = []; inputs = i ∷ inputs; truncated = truncated })
  evict v (e ∷ entries) inputs truncated size =
      let rest = evict v entries inputs true (shrunk truncated size (entry_json e) entries) in
      if ltb view_max_bytes size
      then rest
      else ok (record v { entries = e ∷ entries; inputs = inputs; truncated = truncated })

  unfoldable pub claude_view : ViewedState U → Result (SessionView U)
  unfolding full_view evict
  claude_view s =
      let v = full_view s in evict v v.entries v.inputs v.truncated (byte_length (view_json v))
