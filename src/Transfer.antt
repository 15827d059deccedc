-- ===== src/Transfer.antt =====
-- crates/client/src/transfer.rs: the shared state, the handle's methods and the control channel.
pub mod Receive
pub mod Send
pub mod Channel
pub mod Chunks
pub mod Slabs
pub mod Frames
pub mod Limit
pub mod Delivery
pub mod Intact
pub mod Complete
pub mod Slots
pub mod Codec
pub mod Examples
use file_send.Prelude.{
  if◌then◌else◌, contains, Text, nat_key, text_key, ℕ, Option, some, List, [], ◌∷◌, ◌++◌, map,
}
use file_send.HashMap.{HashMap, insert, remove}
use file_send.Wire.{Json}
use file_send.Protocol.{FileStart, Control, encode_control, decode_control}
use file_send.Streams.{
  set_remove, Outgoing, Incoming, no_outgoing, enqueue_accepted, schedule, cancel_outgoing,
  Progress,
}

abbrev pub max_concurrent : ℕ
max_concurrent = 4

-- The browser's `File`: its properties and the bytes that its slices read.
pub record File (F : Type 0) : Type 0 where
  pub name : Text
  pub size : F
  pub mime : Text
  pub bytes : List ℕ

-- The part of `Shared` that changes.
pub record Shared (F : Type 0) : Type 0 where
  pub incoming : HashMap ℕ (Incoming F)
  pub outgoing : Outgoing (File F)

-- What a data channel's message holds.
pub data MessageData : Type 0 where
  string : Text → MessageData
  binary : List ℕ → MessageData

-- What the handlers do besides: frames on the control channel, callbacks of the page, streams that
-- start, channels that close and files that are saved (their bytes, mime type and name).
pub data Effect (F : Type 0) : Type 0 where
  send_control : Text → Effect F
  on_offer : FileStart F → Effect F
  on_recv_progress : Progress F → Effect F
  on_recv_complete : ℕ → Text → Effect F
  on_send_progress : ℕ → Text → F → F → Effect F
  on_rejected : ℕ → Effect F
  on_cancelled : ℕ → Effect F
  on_aborted : ℕ → Effect F
  spawn_send : ℕ → File F → Effect F
  close_channel : Effect F
  trigger_download : List ℕ → Text → Text → Effect F

module _ {F : Type 0} where
  abbrev pub new : Shared F
  new = record { incoming = []; outgoing = no_outgoing }

  unfoldable pub meta_of : ℕ → File F → FileStart F
  meta_of id file = record { id = id; name = file.name; size = file.size; mime = file.mime }

  -- `for (sid, file) in started { spawn_local(..) }`.
  unfoldable pub spawn_all : List (ℕ × File F) → List (Effect F)
  spawn_all started = map (λ e. spawn_send e.0 e.1) started

module _ {F : Type 0} (json : Json (Control F)) where
  unfoldable pub offer_files : Shared F → List (ℕ × File F) → Shared F × List (Effect F)
  offer_files s [] = (s, [])
  offer_files s ((id, file) ∷ files) =
      let out = s.outgoing in
      let offered = record s { outgoing = record out { offered = insert out.offered id file } } in
      let (after, effects) = offer_files offered files in
      (after, send_control (encode_control json (Control.offer (meta_of id file))) ∷ effects)

  unfoldable pub accept : Shared F → ℕ → Shared F × List (Effect F)
  accept s id = (s, send_control (encode_control json (Control.accept id)) ∷ [])

  unfoldable pub reject : Shared F → ℕ → Shared F × List (Effect F)
  reject s id = (s, send_control (encode_control json (Control.reject id)) ∷ [])

  unfoldable pub cancel : Shared F → ℕ → Shared F × List (Effect F)
  cancel s id = (
    record s { incoming = remove s.incoming id },
    send_control (encode_control json (Control.cancel id)) ∷ [],
  )

  unfoldable pub abort : Shared F → ℕ → Shared F × List (Effect F)
  abort s id = (
    record s { outgoing = cancel_outgoing s.outgoing id },
    send_control (encode_control json (Control.abort id)) ∷ [],
  )

  -- The arms of the `match` of `install_ctrl_router`.
  unfoldable pub on_control : Shared F → Option (Control F) → Shared F × List (Effect F)
  on_control s (some (Control.offer meta)) = (s, on_offer meta ∷ [])
  on_control s (some (Control.accept id)) =
      let (out, started) = schedule (enqueue_accepted s.outgoing id) max_concurrent in
      (record s { outgoing = out }, spawn_all started)
  on_control s (some (Control.reject id)) =
      let out = s.outgoing in
      (record s { outgoing = record out { offered = remove out.offered id } }, on_rejected id ∷ [])
  on_control s (some (Control.cancel id)) =
      (record s { outgoing = cancel_outgoing s.outgoing id }, on_cancelled id ∷ [])
  on_control s (some (Control.abort id)) =
      (record s { incoming = remove s.incoming id }, on_aborted id ∷ [])
  on_control s _ = (s, [])

  unfoldable pub ctrl_router : Shared F → MessageData → Shared F × List (Effect F)
  ctrl_router s (string message) = on_control s (decode_control json message)
  ctrl_router s (binary bytes) = (s, [])

module _ {F : Type 0} where
  -- The end of `send_file_on_channel`, when `send_file` has ended.
  unfoldable pub stream_ended : Shared F → ℕ → File F → Shared F × List (Effect F)
  stream_ended s id file =
      let out = s.outgoing in
      let was_cancelled = contains out.cancelled id in
      let cleared =
        if was_cancelled then record out { cancelled = set_remove out.cancelled id } else out in
      let report =
        if was_cancelled
        then close_channel ∷ []
        else on_send_progress id file.name file.size file.size ∷ [] in
      let (after, started) =
        schedule (record cleared { active = set_remove cleared.active id }) max_concurrent in
      (record s { outgoing = after }, report ++ spawn_all started)
