-- ===== src/Exchange.antt =====
-- crates/client/src/app.rs with transfer.rs: what a page does with the callbacks of its transfer and
-- with the frames of the control channel.
pub mod Refused
pub mod Accepted
pub mod Done
pub mod Failed
mod Examples
use file_send.Prelude.{◌>>=◌, Text, nat_key, text_key, ℕ, Option, none, some, List, [], ◌∷◌, ◌++◌}
use file_send.Float.{F64}
use file_send.Wire.{Json}
use file_send.Protocol.{Control}
use file_send.Rows.{Row}
use file_send.Rows.Changes.{
  Change, offer_in, progress_in, complete_in, progress_out, rejected_out, cancelled_out, cancel_in,
  apply,
}
use file_send.Transfer.{
  File, string, Effect, send_control, on_offer, on_recv_progress, on_recv_complete,
  on_send_progress, on_rejected, on_cancelled, on_aborted, spawn_send, close_channel,
  trigger_download, ctrl_router,
}
use file_send.App.{Page, with_transfer}

module _ {F : Type 0} ⦃f64 : F64 F⦄ where
  -- `handlers` of app.rs: the change of the rows that each callback makes.
  unfoldable pub handler : Effect F → List (Row F) → List (Row F)
  handler (on_offer meta) items = apply (offer_in meta) items
  handler (on_recv_progress (id, name, size, received, speed)) items =
      apply (progress_in id name received size speed) items
  handler (on_recv_complete id name) items = apply (complete_in id name) items
  handler (on_send_progress id name sent total) items =
      apply (progress_out id name sent total) items
  handler (on_rejected id) items = apply (rejected_out id) items
  handler (on_cancelled id) items = apply (cancelled_out id) items
  handler (on_aborted id) items = apply (cancel_in id) items
  handler _ items = items

  unfoldable pub handle_all : List (Effect F) → List (Row F) → List (Row F)
  unfolding handler
  handle_all [] items = items
  handle_all (e ∷ es) items = handle_all es (handler e items)

  module _ (json : Json (Control F)) where
    -- A message of the control channel, and the callbacks that it leads to.
    unfoldable pub hears : Page F → Text → Page F × List (Effect F)
    unfolding handle_all with_transfer
    hears p message =
        let (after, effects) = with_transfer p (λ t. ctrl_router json t (string message)) in
        (record after { items = handle_all effects after.items }, effects)

    unfoldable pub hears_all : Page F → List Text → Page F × List (Effect F)
    hears_all p [] = (p, [])
    hears_all p (message ∷ messages) =
        let (q, effects) = hears p message in
        let (after, more) = hears_all q messages in (after, effects ++ more)

-- The frames that effects put on the control channel, which keeps their order.
unfoldable pub controls : {F : Type 0} → List (Effect F) → List Text
controls [] = []
controls (send_control message ∷ es) = message ∷ controls es
controls (_ ∷ es) = controls es
