-- ===== src/Exchange/Failed.antt =====
-- The end of a stream of transfer.rs that failed, on the sender's page of app.rs.
use file_send.Prelude.{
  contains, nat_key, text_key, ℕ, ◌≡◌, refl, Bool, true, false, Option, some, List, [],
}
use file_send.Float.{F64}
use file_send.Wire.{Json}
use file_send.Protocol.{Control}
use file_send.Rows.{Row, frac, done}
use file_send.Rows.Lookup.{state_of}
use file_send.Transfer.{File, Shared, Effect, stream_ended}
use file_send.Transfer.Send.{World, send_file, send_frame, and_then}
use file_send.Transfer.Channel.{send_file_on_channel}
use file_send.Exchange.{handle_all}
use file_send.Exchange.Done.{stream_ended-done}

-- On a channel that opens, a stream that fails at its first frame, with nothing sent, ends like one that went well: its row
-- is done, whatever the rows were, if nobody cancelled the file and the fraction of the size in
-- itself is at least 1.
pub failed_stream_done :
    {F : Type 0} ⦃f64 : F64 F⦄ (is_finite : F → Bool) (json : Json (Control F)) (w : World) (id : ℕ)
    (file : File F) (mms : Option F) (later : Shared F) (items : List (Row F))
    → w.send_ok 0 ≡ false
    → contains later.outgoing.cancelled id ≡ false
    → f64.le (f64.of_nat 1) (frac file.size file.size) ≡ true
    → (after : Shared F) × (effects : List (Effect F)) × (send_file_on_channel is_finite json w id
          file mms true later
        ≡ some (after, [], effects))
      × (state_of (handle_all effects items) id false ≡ some done)
unfolding send_file_on_channel send_file send_frame and_then
failed_stream_done is_finite json w id file mms later items refused running whole = (
  (stream_ended later id file).0,
  (stream_ended later id file).1,
  rw refused refl,
  stream_ended-done later id file items running whole,
)
