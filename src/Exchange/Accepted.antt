-- ===== src/Exchange/Accepted.antt =====
-- One file from the page that offers it to the page that accepts it: app.rs and transfer.rs.
use file_send.Prelude.{
  contains, false, Option-cases, inl, inr, lt→ltb, length, Text, nat_key, text_key, ℕ, ◌+◌, ◌^◌,
  ◌≤◌, ◌<◌, ◌≡◌, refl, ap, ◌∙◌, true, none, some, List, [], ◌∷◌, ◌++◌, arith,
}
use file_send.HashMap.{get, insert, remove}
use file_send.HashMap.Laws.{get-insert}
use file_send.Float.{F64}
use file_send.Wire.{Json}
use file_send.Protocol.{chunk_size, slab_size, Control, encode_control, decode_control}
use file_send.Rows.{done, offered, active}
use file_send.Rows
use file_send.Rows.Lookup.{state_of}
use file_send.Rows.Changes.{offer_in, accept_in, apply, concerns, next_state}
use file_send.Streams.{Outgoing, schedule, schedule_loop, enqueue_accepted}
use file_send.Transfer.{
  max_concurrent, File, Shared, Effect, send_control, on_offer, spawn_send, spawn_all, meta_of,
  offer_files, on_control, ctrl_router,
}
use file_send.Transfer
use file_send.App.{Page, add_files, on_files, offer_now, on_accept, with_transfer}
use file_send.Transfer.Send.{World, complete, Sent, send_file}
use file_send.Transfer.Delivery.{saved, deliver}
use file_send.Transfer.Complete.{arrivals, sent_of, complete_frames, transfer_completes}
use file_send.Transfer.{MessageData, stream_ended}
use file_send.Rows.{frac}
use file_send.Exchange.Done.{own_change, stream_ended-done, deliver_done}
use file_send.Exchange.{hears_all, controls, handler, handle_all, hears}

-- An accepted file starts at once where none waits and a slot is free.
accepted_starts :
    {P : Type 0} (out : Outgoing P) (id : ℕ) (file : P)
    → get out.offered id ≡ some file
    → out.queue ≡ []
    → length out.active < max_concurrent
    → (schedule (enqueue_accepted out id) max_concurrent).1 ≡ (id, file) ∷ []
unfolding schedule schedule_loop enqueue_accepted
accepted_starts out id file waits idle free =
    let queued : enqueue_accepted out id
        ≡ record out { offered = remove out.offered id; queue = (id, file) ∷ [] } =
      rw (waits, enqueue_accepted) (rw idle refl) in
    rw (queued, schedule) (rw (lt→ltb (length out.active) max_concurrent free, schedule_loop) refl)

accepted_cancelled :
    {P : Type 0} (out : Outgoing P) (id : ℕ)
    → (schedule (enqueue_accepted out id) max_concurrent).0.cancelled ≡ out.cancelled
unfolding schedule enqueue_accepted
accepted_cancelled out id = elim (Option-cases (get out.offered id)) [
  | inl e ↦ rw (e, enqueue_accepted) refl
  | inr (file, e) ↦ rw (e, enqueue_accepted) refl
]

module _ {F : Type 0} ⦃f64 : F64 F⦄ (json : Json (Control F)) where
  abbrev pub offer_text : ℕ → File F → Text
  offer_text id file = encode_control json (Control.offer (meta_of id file))

  abbrev pub accept_text : ℕ → Text
  accept_text id = encode_control json (Control.accept id)

  -- The sender's page: the offer goes out.
  offers :
      (p : Page F) (t : Shared F) (file : File F)
      → p.transfer ≡ some t
      → p.is_open ≡ true
      → let (after, effects) = on_files json p (file ∷ []) in
        (effects ≡ send_control (offer_text p.next_id file) ∷ [])
        × (after.transfer
            ≡ some (record t {
              outgoing = record t.outgoing { offered = insert t.outgoing.offered p.next_id file };
            }))
  unfolding on_files offer_now with_transfer offer_files add_files
  offers p t file there ready = rw (there, ready) (refl, refl)

  -- The receiver's page hears it.
  hears-offer :
      (p : Page F) (t : Shared F) (id : ℕ) (file : File F)
      → p.transfer ≡ some t
      → state_of p.items id true ≡ none
      → let (after, effects) = hears json p (offer_text id file) in
        (after.transfer ≡ some t) × (state_of after.items id true ≡ some offered)
  unfolding hears handle_all handler with_transfer ctrl_router on_control decode_control
      encode_control meta_of concerns next_state
  hears-offer p t id file there new =
      rw (there, json.reads_back (Control.offer (meta_of id file)))
        (
          refl,
          own_change (offer_in (meta_of id file)) p.items id true (ground arith)
              ∙ ap (next_state (offer_in (meta_of id file))) new,
        )

  hears-accept :
      (p : Page F) (t : Shared F) (id : ℕ) (file : File F)
      → p.transfer ≡ some t
      → get t.outgoing.offered id ≡ some file
      → t.outgoing.queue ≡ []
      → length t.outgoing.active < max_concurrent
      → let (after, effects) = hears json p (accept_text id) in
        (effects ≡ spawn_send id file ∷ [])
        × ((x : Shared F) × (after.transfer ≡ some x)
            × (x.outgoing.cancelled ≡ t.outgoing.cancelled))
  unfolding hears with_transfer ctrl_router on_control decode_control encode_control spawn_all
  hears-accept p t id file there waits idle free =
      rw (there, json.reads_back (Control.accept id))
        (
          ap spawn_all (accepted_starts t.outgoing id file waits idle free),
          (
            record t { outgoing = (schedule (enqueue_accepted t.outgoing id) max_concurrent).0 },
            refl,
            accepted_cancelled t.outgoing id,
          ),
        )

  hears_all-single :
      (p : Page F) (message : Text)
      → (hears_all json p (message ∷ [])
          ≡ ((hears json p message).0, (hears json p message).1 ++ []))
  unfolding hears_all
  hears_all-single p message = refl

  -- The receiver's page, once it has accepted.
  accepts :
      (p : Page F) (t : Shared F) (id : ℕ)
      → p.transfer ≡ some t
      → let (after, effects) = on_accept json p id in
        (effects ≡ send_control (accept_text id) ∷ [])
        × (after.transfer ≡ some t)
        × (after.items ≡ Rows.accept p.items id)
  unfolding on_accept with_transfer Transfer.accept
  accepts p t id there = rw there (refl, refl, refl)

  -- A file goes from one page to the other. The sender adds it while its control channel is open,
  -- with no file waiting for a slot, a slot free and no cancellation of its id; the receiver has no
  -- row and no entry for the id, and accepts it. Then the sender's page sends the offer alone, the
  -- receiver's page shows it as offered, `on_accept` answers with the one frame and makes the row
  -- active, and that frame makes the sender's page start the stream of this very file and of no
  -- other one; a stream that ends in the state that this leaves makes the sender's row done. Where
  -- the stream is complete, in messages of at least one byte and at most `CHUNK_SIZE`, and all of
  -- its frames arrive, the receiver saves the file once, byte for byte, under its name and type,
  -- and its row is done. The file's `size` is the number of its bytes and leaves room for a slab in
  -- a 64-bit word, and the fraction of the size in itself is at least 1.
  pub accepted_file_arrives :
      (a b : Page F) (ta tb : Shared F) (file : File F) (w : World) (chunk : ℕ) (r : Sent F)
      (timed : List (MessageData × F))
      → a.transfer ≡ some ta
      → a.is_open ≡ true
      → ta.outgoing.queue ≡ []
      → length ta.outgoing.active < max_concurrent
      → b.transfer ≡ some tb
      → state_of b.items a.next_id true ≡ none
      → get tb.incoming a.next_id ≡ none
      → 0 < chunk
      → chunk ≤ chunk_size
      → f64.to_nat file.size ≡ length file.bytes
      → length file.bytes + slab_size ≤ 2 ^ 64
      → send_file json w a.next_id file chunk ≡ some r
      → r.ending ≡ complete
      → sent_of timed ≡ r.frames
      → contains ta.outgoing.cancelled a.next_id ≡ false
      → f64.le (f64.of_nat 1) (frac file.size file.size) ≡ true
      → let id = a.next_id in
        let (sender, out) = on_files json a (file ∷ []) in
        let (asked, silent) = hears_all json b (controls out) in
        let (receiver, back) = on_accept json asked id in
        let (sending, started) = hears_all json sender (controls back) in
        (controls out ≡ offer_text id file ∷ [])
        × (state_of asked.items id true ≡ some offered)
        × (controls back ≡ accept_text id ∷ [])
        × (state_of receiver.items id true ≡ some active)
        × (started ≡ spawn_send id file ∷ [])
        × ((t : Shared F) × (sending.transfer ≡ some t)
            × (state_of (handle_all (stream_ended t id file).1 sending.items) id false ≡ some done))
        × ((t : Shared F) × (receiver.transfer ≡ some t)
            × let effects = deliver json id file t none (arrivals timed) in
              (saved effects ≡ (file.bytes, file.mime, file.name) ∷ [])
              × (state_of (handle_all effects receiver.items) id true ≡ some done))
  unfolding controls apply concerns next_state
  accepted_file_arrives a b ta tb file w chunk r timed at ready idle free bt new absent pos small
        sized word ran full arrived running whole =
      let id = a.next_id in
      let (views, cut, frames) =
        complete_frames json id file w chunk r pos small sized word ran full in
      let (out, held) = offers a ta file at ready in
      let (kept, shown) = hears-offer b tb id file bt new in
      let asked = (hears json b (offer_text id file)).0 in
      let (back, still, items) = accepts asked tb id kept in
      let sender = (on_files json a (file ∷ [])).0 in
      let (starts, (x, kept', same)) =
        hears-accept sender
          (record ta {
            outgoing = record ta.outgoing { offered = insert ta.outgoing.offered id file };
          })
          id file held (ground (arith, get-insert ta.outgoing.offered id id file)) idle free in
      rw (out, hears_all-single b (offer_text id file))
        (
          refl,
          shown,
          ap controls back,
          ap (λ rows. state_of rows id true) items
              ∙ own_change (accept_in id) asked.items id true (ground arith)
              ∙ ap (next_state {F = F} (accept_in id)) shown,
          ap (λ es. (hears_all json sender (controls es)).1) back
              ∙ ap (λ q. q.1) (hears_all-single sender (accept_text id))
              ∙ ap (λ es. es ++ []) starts,
          (
            x,
            ap (λ es. (hears_all json sender (controls es)).0.transfer) back
                ∙ ap (λ q. q.0.transfer) (hears_all-single sender (accept_text id))
                ∙ kept',
            stream_ended-done x id file _ (ap (λ c. contains c id) same ∙ running) whole,
          ),
          (
            tb,
            still,
            (
              transfer_completes json id file w chunk r timed tb pos small sized word ran full
                  arrived absent,
              deliver_done json id file timed tb views absent (arrived ∙ frames)
                  (on_accept json asked id).0.items,
            ),
          ),
        )
