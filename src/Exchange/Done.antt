-- ===== src/Exchange/Done.antt =====
-- The receiver's page of app.rs while the frames of a file arrive: its row ends as done.
use mathlib.Core.List.{nil≢cons, head-eq_of_cons-eq, tail-eq_of_cons-eq}
use file_send.Prelude.{
  contains, false, append-nil, nat_key, text_key, ℕ, ◌≡◌, refl, sym, ap, ◌∙◌, subst, Bool, true,
  Option, none, some, List, [], ◌∷◌, ◌++◌, map, arith,
}
use file_send.HashMap.{get, remove}
use file_send.Float.{F64}
use file_send.Wire.{Json}
use file_send.Protocol.{Control}
use file_send.Protocol.Ranges.{flatten}
use file_send.Streams.{finalize_decision}
use file_send.Rows.{frac, Row, done}
use file_send.Rows.Lookup.{state_of}
use file_send.Rows.Changes.{progress_out, Change, complete_in, apply, concerns, next_state}
use file_send.Transfer.{
  spawn_all, stream_ended, File, Shared, MessageData, binary, Effect, trigger_download,
  on_recv_complete, close_channel, meta_of,
}
use file_send.Transfer.Receive.{recv_router, on_frame, on_start, finalize_recv, trigger}
use file_send.Transfer.Frames.{final_frame, whole_file}
use file_send.Transfer.Delivery.{Arrival, deliver, end_routed, message}
use file_send.Transfer.Intact.{Holds, chunk_open, start_opens, on_start-Holds}
use file_send.Transfer.Complete.{arrivals, sent_of}
use file_send.Exchange.{handler, handle_all}
use file_send.Rows.Refines.{apply_refines}

-- A change gives the row it is about its next state.
pub own_change :
    {F : Type 0} ⦃f64 : F64 F⦄ (change : Change F) (items : List (Row F)) (id : ℕ) (side : Bool)
    → concerns change id side ≡ true
    → state_of (apply change items) id side ≡ next_state change (state_of items id side)
own_change change items id side own = apply_refines change items id side ∙ rw own refl

handle_all-append :
    {F : Type 0} ⦃f64 : F64 F⦄ (es fs : List (Effect F)) (items : List (Row F))
    → handle_all (es ++ fs) items ≡ handle_all fs (handle_all es items)
unfolding handle_all
handle_all-append [] fs items = refl
handle_all-append (e ∷ es) fs items = handle_all-append es fs (handler e items)

handle_all-spawn_all :
    {F : Type 0} ⦃f64 : F64 F⦄ (started : List (ℕ × File F)) (items : List (Row F))
    → handle_all (spawn_all started) items ≡ items
unfolding handle_all spawn_all handler
handle_all-spawn_all [] items = refl
handle_all-spawn_all (e ∷ started) items = handle_all-spawn_all started items

-- The end of a stream that nobody cancelled: the row of the sender is done, whatever the rows were.
pub stream_ended-done :
    {F : Type 0} ⦃f64 : F64 F⦄ (t : Shared F) (id : ℕ) (file : File F) (items : List (Row F))
    → contains t.outgoing.cancelled id ≡ false
    → f64.le (f64.of_nat 1) (frac file.size file.size) ≡ true
    → state_of (handle_all (stream_ended t id file).1 items) id false ≡ some done
unfolding stream_ended handle_all handler concerns next_state
stream_ended-done {F} t id file items running full =
    let report : Change F = progress_out id file.name file.size file.size in
    rw running (
      ap (λ rows. state_of rows id false) (handle_all-spawn_all _ (apply report items))
      ∙ own_change report items id false (ground arith)
      ∙ rw full refl)

module _ {F : Type 0} ⦃f64 : F64 F⦄ (json : Json (Control F)) (id : ℕ) (file : File F) where
  -- Whatever the rows are, the row of the download is done after these effects.
  abbrev Completes : List (Effect F) → Type 0
  Completes es = (items : List (Row F)) → state_of (handle_all es items) id true ≡ some done

  ending_row :
      (s : Shared F) (bytes : List ℕ) (now : F)
      → Holds json id file s bytes
      → (s' : Shared F) × (effects : List (Effect F)) × (recv_router json s
            (some id)
            (final_frame json id)
            now
            true
            true
          ≡ (s', some id, effects))
        × Completes effects
  unfolding on_frame finalize_recv finalize_decision Holds trigger meta_of handle_all handler apply
      concerns next_state
  ending_row s bytes now (inc, e, meta, held) = (
    record s { incoming = remove s.incoming id },
    trigger_download (flatten inc.chunks) file.mime file.name
        ∷ on_recv_complete id file.name
        ∷ close_channel
        ∷ [],
    end_routed json id file s (some id) now true true ∙ rw (e, meta, on_frame, finalize_recv) refl,
    (λ items. own_change (complete_in id file.name) items id true (ground arith)),
  )

  -- One message before others that complete it, and the last one.
  first_step :
      (s s' : Shared F) (cur cur' : Option ℕ) (m : MessageData) (now : F)
      (effects : List (Effect F)) (later : List (Arrival F))
      → recv_router json s cur m now true true ≡ (s', cur', effects)
      → Completes (deliver json id file s' cur' later)
      → Completes (deliver json id file s cur (message m now true true ∷ later))
  unfolding deliver
  first_step s s' cur cur' m now effects later routed h items =
      let rest = deliver json id file s' cur' later in
      ap (λ q. state_of (handle_all (q.2 ++ deliver json id file q.0 q.1 later) items) id true)
        routed
      ∙ ap (λ rows. state_of rows id true) (handle_all-append effects rest items)
      ∙ h (handle_all effects items)

  last_step :
      (s s' : Shared F) (m : MessageData) (now : F) (effects : List (Effect F))
      → recv_router json s (some id) m now true true ≡ (s', some id, effects)
      → Completes effects
      → Completes (deliver json id file s (some id) (message m now true true ∷ []))
  unfolding deliver
  last_step s s' m now effects routed h items =
      ap (λ q. state_of (handle_all (q.2 ++ []) items) id true) routed
      ∙ ap (λ es. state_of (handle_all es items) id true) (append-nil effects)
      ∙ h items

  row_done :
      (timed : List (MessageData × F)) (s : Shared F) (bytes : List ℕ) (views : List (List ℕ))
      → Holds json id file s bytes
      → sent_of timed ≡ map binary views ++ final_frame json id ∷ []
      → Completes (deliver json id file s (some id) (arrivals timed))
  unfolding arrivals sent_of
  row_done [] s bytes [] holds expected = absurd (nil≢cons expected)
  row_done [] s bytes (v ∷ views) holds expected = absurd (nil≢cons expected)
  row_done ((m, now) ∷ []) s bytes [] holds expected =
      let (s', effects, routed, finished) = ending_row s bytes now holds in
      subst (λ q. Completes (deliver json id file s (some id) (message q now true true ∷ [])))
        (sym (head-eq_of_cons-eq expected)) (last_step s s' _ now effects routed finished)
  row_done ((m, now) ∷ e ∷ timed) s bytes [] holds expected =
      absurd (nil≢cons (sym (tail-eq_of_cons-eq expected)))
  row_done ((m, now) ∷ timed) s bytes (v ∷ views) holds expected =
      let (s', effects, routed, nothing, held) =
        chunk_open json id file s bytes v now true true holds in
      subst
        (λ q.
          Completes (deliver json id file s (some id) (message q now true true ∷ arrivals timed)))
        (sym (head-eq_of_cons-eq expected))
        (first_step s s' _ _ _ now effects _ routed
          (row_done timed s' (bytes ++ v) views held (tail-eq_of_cons-eq expected)))

  -- Where all frames of a file arrive, the row of the receiver is done in the end, whatever the
  -- rows were.
  pub deliver_done :
      (timed : List (MessageData × F)) (s : Shared F) (views : List (List ℕ))
      → get s.incoming id ≡ none
      → sent_of timed ≡ whole_file json id file views
      → Completes (deliver json id file s none (arrivals timed))
  unfolding arrivals sent_of whole_file
  deliver_done [] s views absent expected = absurd (nil≢cons expected)
  deliver_done ((m, now) ∷ timed) s views absent expected =
      subst
        (λ q. Completes (deliver json id file s none (message q now true true ∷ arrivals timed)))
        (sym (head-eq_of_cons-eq expected))
        (first_step s (on_start s (meta_of id file)) _ _ _ now [] _
          (start_opens json id file s now true true absent)
          (row_done timed (on_start s (meta_of id file)) [] views
            (on_start-Holds json id file s absent) (tail-eq_of_cons-eq expected)))
