-- ===== src/Output.antt =====
-- src/output.ts: the handoff of Session output to the platform's collector, over a cursor buffer.
-- What JSON encodes, and how large the text is in bytes, is a parameter: `encode` is
-- `JSON.stringify`, with `none` where it throws or gives `undefined`.
mod Bounds
mod Examples
use cantelop_sdk.Prelude.{
  ℕ, ◌+◌, ◌*◌, String, Bool, true, false, Option, none, some, List, [], ◌∷◌, leb, ltb,
  if◌then◌else◌, Thrown, type_error,
}
use cantelop_sdk.CursorBuffer
use cantelop_sdk.CursorBuffer.{Limits, Buffer, Outcome, failed, parked, Acknowledged, Read}

pub record Json (V : Type 0) : Type 0 where
  pub encode : V → Option String
  pub byte_length : String → ℕ
  pub parse : String → V

-- A buffered event; `none` is `null` in `event` and an absent field in `view`.
pub record OutputEvent (V : Type 0) : Type 0 where
  pub cursor : ℕ
  pub message_id : String
  pub event : Option V
  pub view : Option V

abbrev pub max_event_bytes : ℕ
max_event_bytes = 64 * 1024

abbrev pub output_limits : Limits
output_limits = record { max_pending = 256; max_pending_bytes = 1024 * 1024; max_batch = 64 }

-- A call of `publish` is rejected, waits for room, or has appended its event and waits for the
-- acknowledgment that settles it.
pub data Publication : Type 0 where
  rejected : Thrown → Publication
  waiting : Publication
  published : List ℕ → Publication

module _ {V : Type 0} (json : Json V) where
  pub new_output : Buffer (OutputEvent V)
  new_output = CursorBuffer.empty output_limits "Session output"

  unfoldable pub output_event : String → Bool → String → ℕ → OutputEvent V
  output_event message_id projection encoded cursor = record {
    cursor = cursor;
    message_id = message_id;
    event = if projection then none else some (json.parse encoded);
    view = if projection then some (json.parse encoded) else none;
  }

  -- The part of `publish` from its loop on: run at the call, and again by a publisher woken.
  append_if_room :
      Buffer (OutputEvent V)
      → (ℕ → OutputEvent V)
      → ℕ
      → Option Thrown
      → ℕ
      → Buffer (OutputEvent V) × Publication
  append_if_room b make bytes (some reason) producer = (b, rejected reason)
  append_if_room b make bytes none producer =
      let (b', woken) = CursorBuffer.append b make bytes producer in (b', published woken)

  as_publication :
      Buffer (OutputEvent V) × Option (Outcome (OutputEvent V))
      → Buffer (OutputEvent V) × Publication
  as_publication (b, some (failed reason)) = (b, rejected reason)
  as_publication (b, _) = (b, waiting)

  unfoldable pub publish_encoded :
      Buffer (OutputEvent V)
      → (ℕ → OutputEvent V)
      → ℕ
      → Option Thrown
      → ℕ
      → Buffer (OutputEvent V) × Publication
  unfolding append_if_room as_publication
  publish_encoded b make bytes aborted producer =
      if CursorBuffer.has_capacity b bytes
      then append_if_room b make bytes aborted producer
      else as_publication (CursorBuffer.wait_for_capacity b bytes aborted producer)

  unserializable : Thrown
  unserializable = type_error "Session output event must be JSON serializable"

  too_large : Thrown
  too_large = type_error "Session output event exceeds 65536 bytes"

  publish_text :
      Buffer (OutputEvent V)
      → String
      → Option String
      → Option Thrown
      → Bool
      → ℕ
      → Buffer (OutputEvent V) × Publication
  unfolding unserializable too_large
  publish_text b message_id none aborted projection producer = (b, rejected unserializable)
  publish_text b message_id (some encoded) aborted projection producer =
      let bytes = json.byte_length encoded in
      if ltb max_event_bytes bytes
      then (b, rejected too_large)
      else publish_encoded b (output_event message_id projection encoded) bytes aborted producer

  unfoldable pub publish :
      Buffer (OutputEvent V)
      → String
      → V
      → Option Thrown
      → Bool
      → ℕ
      → Buffer (OutputEvent V) × Publication
  unfolding publish_text
  publish b message_id event aborted projection producer =
      publish_text b message_id (json.encode event) aborted projection producer
