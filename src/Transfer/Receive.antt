-- ===== src/Transfer/Receive.antt =====
-- crates/client/src/transfer.rs: the router of one file's channel and the end of a download.
use file_send.Prelude.{
  if◌then◌else◌, length, Text, nat_key, text_key, ℕ, Bool, Option, none, some, List, [], ◌∷◌, ◌++◌,
  map,
}
use file_send.HashMap.{HashMap, get, insert, remove}
use file_send.Float.{F64}
use file_send.Wire.{Json}
use file_send.Protocol.{FileStart, Control, decode_control}
use file_send.Protocol.Ranges.{flatten}
use file_send.Streams.{Incoming, new_incoming, account_chunk, finalize_decision}
use file_send.Transfer.{
  Shared, MessageData, string, binary, Effect, on_recv_progress, on_recv_complete, close_channel,
  trigger_download,
}

module _ {F : Type 0} ⦃f64 : F64 F⦄ where
  -- `Uint8Array::length`, as the float that the account takes.
  unfoldable pub len_of : List ℕ → F
  len_of bytes = f64.of_nat (length bytes)

  -- `entry(id).or_default()`.
  unfoldable pub entry_or_default : HashMap ℕ (Incoming F) → ℕ → Incoming F
  entry_or_default map id = elim (get map id) [ none ↦ new_incoming | some inc ↦ inc ]

  -- `.meta.get_or_insert(meta)`.
  unfoldable pub with_meta : Incoming F → FileStart F → Incoming F
  with_meta inc meta = elim inc.meta [ none ↦ record inc { meta = some meta } | some m ↦ inc ]

  unfoldable pub on_start : Shared F → FileStart F → Shared F
  on_start s meta = record s {
    incoming = insert s.incoming meta.id (with_meta (entry_or_default s.incoming meta.id) meta);
  }

  -- `built` is whether the browser makes a Blob and `linked` whether it makes a URL of it.
  unfoldable pub trigger : Bool → List ℕ → Text → Text → List (Effect F)
  trigger linked bytes mime name = if linked then trigger_download bytes mime name ∷ [] else []

  unfoldable pub finalize_recv : Shared F → ℕ → Bool → Bool → Shared F × List (Effect F)
  finalize_recv s id built linked = elim (get s.incoming id) [
    | none ↦ (s, [])
    | some inc ↦
        (let after = record s { incoming = remove s.incoming id } in
          elim ((finalize_decision inc).1) [
            | none ↦ (after, [])
            | some meta ↦
                (if built
                  then (
                    after,
                    trigger linked (flatten inc.chunks) meta.mime meta.name
                        ++ on_recv_complete meta.id meta.name ∷ [],
                  )
                  else (after, []))
          ])
  ]

  -- The chunk arm: `none` in `cur` or in the map makes it a no-op.
  unfoldable pub on_chunk : Shared F → ℕ → List ℕ → F → Shared F × List (Effect F)
  on_chunk s id bytes now = elim (get s.incoming id) [
    | none ↦ (s, [])
    | some inc ↦
        (let pushed = record inc { chunks = inc.chunks ++ bytes ∷ [] } in
          let (after, progress) = account_chunk pushed (len_of bytes) now in
          (
            record s { incoming = insert s.incoming id after },
            elim progress [ none ↦ [] | some p ↦ on_recv_progress p ∷ [] ],
          ))
  ]

  -- The frames of one channel: `cur` is the id that its `Start` named. `none` is a frame that does
  -- not decode.
  unfoldable pub on_frame :
      Shared F → Option ℕ → Option (Control F) → Bool → Bool → Shared F × Option ℕ × List (Effect F)
  on_frame s cur (some (Control.start meta)) built linked = (on_start s meta, some meta.id, [])
  on_frame s cur (some (Control.end_frame e)) built linked = elim cur [
    | none ↦ (s, none, close_channel ∷ [])
    | some id ↦
        (let (after, effects) = finalize_recv s id built linked in
          (after, some id, effects ++ close_channel ∷ []))
  ]
  on_frame s cur _ built linked = (s, cur, [])

module _ {F : Type 0} ⦃f64 : F64 F⦄ (json : Json (Control F)) where
  -- The closure of `install_recv_router`. `now` is what `now_ms` answers.
  unfoldable pub recv_router :
      Shared F → Option ℕ → MessageData → F → Bool → Bool → Shared F × Option ℕ × List (Effect F)
  recv_router s cur (string message) now built linked =
      on_frame s cur (decode_control json message) built linked
  recv_router s none (binary bytes) now built linked = (s, none, [])
  recv_router s (some id) (binary bytes) now built linked =
      let (after, effects) = on_chunk s id bytes now in (after, some id, effects)
