-- ===== src/Transfer/Complete.antt =====
-- From the sender's file to the receiver's download: transfer.rs, end to end.
use mathlib.Core.List.{nil≢cons, head-eq_of_cons-eq, tail-eq_of_cons-eq}
use file_send.Prelude.{
  length, nat_key, text_key, ℕ, ◌+◌, ◌^◌, ◌≤◌, ◌<◌, ◌≡◌, refl, sym, ap, ◌∙◌, subst, true, none,
  some, List, [], ◌∷◌, ◌++◌, map, append_assoc, append-nil,
}
use file_send.HashMap.{get}
use file_send.Float.{F64}
use file_send.Wire.{Json}
use file_send.Protocol.{chunk_size, slab_size, Control}
use file_send.Protocol.Ranges.{flatten}
use file_send.Transfer.{File, Shared, MessageData, binary, meta_of}
use file_send.Transfer.Receive.{on_start}
use file_send.Transfer.Send.{World, complete, Sent, send_file}
use file_send.Transfer.Frames.{final_frame, whole_file, Begins, send_file-Begins}
use file_send.Transfer.Delivery.{
  Arrival, message, messages, saved, AtMost, deliver, quiet, step_saved,
}
use file_send.Transfer.Intact.{
  Holds, chunk_open, end_open, start_opens, on_start-Holds, deliver_intact,
}

-- Messages that arrive at some times, where the browser makes the Blob and its URL.
unfoldable pub arrivals : {F : Type 0} → List (MessageData × F) → List (Arrival F)
arrivals [] = []
arrivals ((m, now) ∷ timed) = message m now true true ∷ arrivals timed

unfoldable pub sent_of : {F : Type 0} → List (MessageData × F) → List MessageData
sent_of timed = map (λ e. e.0) timed

messages-arrivals :
    {F : Type 0} (timed : List (MessageData × F)) → messages (arrivals timed) ≡ sent_of timed
unfolding messages arrivals sent_of
messages-arrivals [] = refl
messages-arrivals ((m, now) ∷ timed) = ap (m ∷◌) (messages-arrivals timed)

some-injective : {A : Type 0} (a b : A) → some a ≡ some b → a ≡ b
some-injective a b e = ap (λ o. elim o [ some x ↦ x | none ↦ a ]) e

module _ {F : Type 0} ⦃f64 : F64 F⦄ (json : Json (Control F)) (id : ℕ) (file : File F) where
  opened_all :
      (timed : List (MessageData × F)) (s : Shared F) (bytes : List ℕ) (views : List (List ℕ))
      → Holds json id file s bytes
      → sent_of timed ≡ map binary views ++ final_frame json id ∷ []
      → saved (deliver json id file s (some id) (arrivals timed))
        ≡ (bytes ++ flatten views, file.mime, file.name) ∷ []
  unfolding arrivals sent_of flatten
  opened_all [] s bytes [] holds expected = absurd (nil≢cons expected)
  opened_all [] s bytes (v ∷ views) holds expected = absurd (nil≢cons expected)
  opened_all ((m, now) ∷ timed) s bytes [] holds expected =
      let (s', effects, routed, kept) = end_open json id file s bytes now true true holds in
      subst
        (λ q.
          saved (deliver json id file s (some id) (message q now true true ∷ arrivals timed))
          ≡ (bytes ++ [], file.mime, file.name) ∷ [])
        (sym (head-eq_of_cons-eq expected))
        (step_saved json id file s s' _ _ _ now true true effects (arrivals timed) routed
          ∙ ap (λ q. saved effects ++ q)
              (quiet json id file (arrivals timed) s' (some id)
                (messages-arrivals timed ∙ tail-eq_of_cons-eq expected))
          ∙ append-nil (saved effects)
          ∙ kept
          ∙ ap (λ q. (q, file.mime, file.name) ∷ []) (sym (append-nil bytes)))
  opened_all ((m, now) ∷ timed) s bytes (v ∷ views) holds expected =
      let (s', effects, routed, nothing, held) =
        chunk_open json id file s bytes v now true true holds in
      subst
        (λ q.
          saved (deliver json id file s (some id) (message q now true true ∷ arrivals timed))
          ≡ (bytes ++ (v ++ flatten views), file.mime, file.name) ∷ [])
        (sym (head-eq_of_cons-eq expected))
        (step_saved json id file s s' _ _ _ now true true effects (arrivals timed) routed
          ∙ ap (λ q. q ++ saved (deliver json id file s' (some id) (arrivals timed))) nothing
          ∙ opened_all timed s' (bytes ++ v) views held (tail-eq_of_cons-eq expected)
          ∙ ap (λ q. (q, file.mime, file.name) ∷ []) (append_assoc bytes v (flatten views)))

  -- A file whose frames all arrive, and which nobody cancels, is saved once, byte for byte.
  pub deliver_saves :
      (timed : List (MessageData × F)) (s : Shared F) (views : List (List ℕ))
      → get s.incoming id ≡ none
      → sent_of timed ≡ whole_file json id file views
      → saved (deliver json id file s none (arrivals timed))
        ≡ (flatten views, file.mime, file.name) ∷ []
  unfolding arrivals sent_of whole_file saved
  deliver_saves [] s views absent expected = absurd (nil≢cons expected)
  deliver_saves ((m, now) ∷ timed) s views absent expected =
      subst
        (λ q.
          saved (deliver json id file s none (message q now true true ∷ arrivals timed))
          ≡ (flatten views, file.mime, file.name) ∷ [])
        (sym (head-eq_of_cons-eq expected))
        (step_saved json id file s (on_start s (meta_of id file)) none _ _ now true true []
            (arrivals timed) (start_opens json id file s now true true absent)
          ∙ opened_all timed (on_start s (meta_of id file)) [] views
              (on_start-Holds json id file s absent) (tail-eq_of_cons-eq expected))

  -- End to end. The sender may be cancelled or fail at any point, the channel may lose the end of
  -- what was sent, and the receiver may cancel at any point: it saves nothing, or once exactly the
  -- sender's file. The file's `size` is the number of its bytes and leaves room for a slab in a
  -- 64-bit word, its messages have at least one byte and at most `CHUNK_SIZE`, and the receiver has
  -- no entry for the id at first.
  pub transfer_integrity :
      (w : World) (chunk : ℕ) (r : Sent F)
      → (later : List (Arrival F)) (lost : List MessageData) (s : Shared F) → 0 < chunk
      → chunk ≤ chunk_size
      → f64.to_nat file.size ≡ length file.bytes
      → length file.bytes + slab_size ≤ 2 ^ 64
      → send_file json w id file chunk ≡ some r
      → messages later ++ lost ≡ r.frames
      → get s.incoming id ≡ none
      → AtMost (file.bytes, file.mime, file.name) (saved (deliver json id file s none later))
  unfolding Begins
  transfer_integrity w chunk r later lost s pos small sized word ran arrived absent =
      let (r', e, (views, more, cut, frames, full, smalls)) =
        send_file-Begins json w id file chunk pos small sized word in
      let same : r ≡ r' = some-injective r r' (sym ran ∙ e) in
      subst (λ b. AtMost (b, file.mime, file.name) (saved (deliver json id file s none later))) cut
        (deliver_intact json id file later s views (lost ++ more) absent (
          sym (append_assoc (messages later) lost more)
          ∙ ap (λ q. q ++ more) (arrived ∙ ap (λ x. x.frames) same)
          ∙ frames))

  -- The frames of a run that is complete.
  pub complete_frames :
      (w : World) (chunk : ℕ) (r : Sent F)
      → 0 < chunk
      → chunk ≤ chunk_size
      → f64.to_nat file.size ≡ length file.bytes
      → length file.bytes + slab_size ≤ 2 ^ 64
      → send_file json w id file chunk ≡ some r
      → r.ending ≡ complete
      → (views : List (List ℕ)) × (flatten views ≡ file.bytes)
        × (r.frames ≡ whole_file json id file views)
  unfolding Begins
  complete_frames w chunk r pos small sized word ran done =
      let (r', e, (views, more, cut, frames, full, smalls)) =
        send_file-Begins json w id file chunk pos small sized word in
      let same : r ≡ r' = some-injective r r' (sym ran ∙ e) in
      let nothing_more : more ≡ [] = full (ap (λ x. x.ending) (sym same) ∙ done) in
      let all_frames : r'.frames ≡ whole_file json id file views =
        sym (append-nil r'.frames) ∙ ap (λ q. r'.frames ++ q) (sym nothing_more) ∙ frames in
      (views, cut, ap (λ x. x.frames) same ∙ all_frames)

  -- A file whose stream is complete, neither cancelled nor failed, in messages of at least one byte
  -- and at most `CHUNK_SIZE`, on a channel that loses nothing, to a receiver that has no entry for
  -- its id, is saved once, byte for byte, where the browser makes the Blob and its URL. The file's
  -- `size` is the number of its bytes and leaves room for a slab in a 64-bit word.
  pub transfer_completes :
      (w : World) (chunk : ℕ) (r : Sent F) (timed : List (MessageData × F)) (s : Shared F)
      → 0 < chunk
      → chunk ≤ chunk_size
      → f64.to_nat file.size ≡ length file.bytes
      → length file.bytes + slab_size ≤ 2 ^ 64
      → send_file json w id file chunk ≡ some r
      → r.ending ≡ complete
      → sent_of timed ≡ r.frames
      → get s.incoming id ≡ none
      → saved (deliver json id file s none (arrivals timed))
        ≡ (file.bytes, file.mime, file.name) ∷ []
  transfer_completes w chunk r timed s pos small sized word ran done arrived absent =
      let (views, cut, frames) = complete_frames w chunk r pos small sized word ran done in
      subst
        (λ b. saved (deliver json id file s none (arrivals timed)) ≡ (b, file.mime, file.name) ∷ [])
        cut (deliver_saves timed s views absent (arrived ∙ frames))
