-- ===== src/Transfer/Intact.antt =====
-- A file that the receiver of transfer.rs saves is the file that was sent.
use mathlib.Core.List.{head-eq_of_cons-eq, tail-eq_of_cons-eq}
use file_send.Prelude.{
  if◌then◌else◌, Option-cases, Text, nat_key, text_key, ℕ, ◌≡◌, refl, sym, ap, ◌∙◌, subst, inl, inr,
  Bool, true, false, ◌&&◌, none, some, List, [], ◌∷◌, ◌++◌, map, append_assoc, append-nil,
}
use file_send.HashMap.{get, insert, remove}
use file_send.Float.{F64}
use file_send.Wire.{Json}
use file_send.Protocol.{Control, encode_control, decode_control}
use file_send.Protocol.Ranges.{flatten}
use file_send.Streams.{Incoming, new_incoming, account_chunk, finalize_decision}
use file_send.Streams.Speed.{update_speed-keeps}
use file_send.Transfer.{
  File, Shared, MessageData, binary, Effect, on_recv_progress, on_recv_complete, close_channel,
  trigger_download, meta_of,
}
use file_send.Transfer.Receive.{
  len_of, entry_or_default, with_meta, on_start, trigger, finalize_recv, on_chunk, on_frame,
  recv_router,
}
use file_send.Transfer.Frames.{start_frame, final_frame, whole_file, flatten-snoc}
use file_send.Transfer.Delivery.{
  Arrival, message, dropped, messages, saved, AtMost, deliver, quiet, no_more, get-removed,
  get-inserted, step_saved, end_routed, closed,
}

module _ {F : Type 0} ⦃f64 : F64 F⦄ (json : Json (Control F)) (id : ℕ) (file : File F) where
  -- The entry of the file, with some of its bytes.
  unfoldable pub Holds : Shared F → List ℕ → Type 0
  Holds s bytes =
      (inc : Incoming F) × (get s.incoming id ≡ some inc)
      × (inc.meta ≡ some (meta_of id file))
      × (flatten inc.chunks ≡ bytes)

  pub chunk_open :
      (s : Shared F) (bytes v : List ℕ) (now : F) (built linked : Bool)
      → Holds s bytes
      → (s' : Shared F) × (effects : List (Effect F)) × (recv_router json s
            (some id)
            (binary v)
            now
            built
            linked
          ≡ (s', some id, effects))
        × (saved effects ≡ [])
        × Holds s' (bytes ++ v)
  unfolding recv_router on_chunk Holds account_chunk saved
  chunk_open s bytes v now built linked (inc, e, meta, held) =
      let pushed : Incoming F = record inc { chunks = inc.chunks ++ v ∷ [] } in
      let acc = account_chunk pushed (len_of v) now in
      let (same_meta, same_chunks, same_received) =
        update_speed-keeps (record pushed { received = f64.add pushed.received (len_of v) })
          (len_of v) now in
      (
        record s { incoming = insert s.incoming id acc.0 },
        elim acc.1 [ none ↦ [] | some p ↦ on_recv_progress p ∷ [] ],
        rw (e, recv_router, on_chunk) refl,
        elim (Option-cases acc.1) [ inl n ↦ rw (n) refl | inr (p, n) ↦ rw (n) refl ],
        (
          acc.0,
          get-inserted json id file s.incoming acc.0,
          same_meta ∙ meta,
          ap flatten same_chunks ∙ flatten-snoc inc.chunks v ∙ ap (λ q. q ++ v) held,
        ),
      )

  pub end_open :
      (s : Shared F) (bytes : List ℕ) (now : F) (built linked : Bool)
      → Holds s bytes
      → (s' : Shared F) × (effects : List (Effect F)) × (recv_router json s
            (some id)
            (final_frame json id)
            now
            built
            linked
          ≡ (s', some id, effects))
        × (saved effects ≡ (if built && linked then (bytes, file.mime, file.name) ∷ [] else []))
  unfolding on_frame finalize_recv finalize_decision Holds saved trigger meta_of
  end_open s bytes now true true (inc, e, meta, held) = (
    record s { incoming = remove s.incoming id },
    trigger_download (flatten inc.chunks) file.mime file.name
        ∷ on_recv_complete id file.name
        ∷ close_channel
        ∷ [],
    end_routed json id file s (some id) now true true ∙ rw (e, meta, on_frame, finalize_recv) refl,
    ap (λ b. (b, file.mime, file.name) ∷ []) held,
  )
  end_open s bytes now true false (inc, e, meta, held) = (
    record s { incoming = remove s.incoming id },
    on_recv_complete id file.name ∷ close_channel ∷ [],
    end_routed json id file s (some id) now true false ∙ rw (e, meta, on_frame, finalize_recv) refl,
    refl,
  )
  end_open s bytes now false linked (inc, e, meta, held) = (
    record s { incoming = remove s.incoming id },
    close_channel ∷ [],
    end_routed json id file s (some id) now false linked
        ∙ rw (e, meta, on_frame, finalize_recv) refl,
    refl,
  )

  at_most_if :
      (b : Bool) (bytes : List ℕ)
      → AtMost (bytes, file.mime, file.name) (if b then (bytes, file.mime, file.name) ∷ [] else [])
  at_most_if true bytes = inr refl
  at_most_if false bytes = inl refl

  AtMost-≡ :
      (x : List ℕ × Text × Text) (xs ys : List (List ℕ × Text × Text))
      → xs ≡ ys
      → AtMost x ys
      → AtMost x xs
  AtMost-≡ x xs ys e h = subst (λ q. AtMost x q) (sym e) h

  -- From `Start` on: at most the file is saved.
  opened :
      (later : List (Arrival F)) (s : Shared F) (bytes : List ℕ) (views : List (List ℕ))
      → (more : List MessageData) → Holds s bytes
      → messages later ++ more ≡ map binary views ++ final_frame json id ∷ []
      → AtMost
          (bytes ++ flatten views, file.mime, file.name)
          (saved (deliver json id file s (some id) later))
  unfolding messages saved deliver flatten
  opened [] s bytes views more holds expected = inl refl
  opened (dropped ∷ later) s bytes views more holds expected =
      inl (closed json id file later _ views more (get-removed json id file s.incoming) expected)
  opened (message m now built linked ∷ later) s bytes [] more holds expected =
      let (s', effects, routed, kept) = end_open s bytes now built linked holds in
      subst
        (λ q.
          AtMost (bytes ++ [], file.mime, file.name)
            (saved (deliver json id file s (some id) (message q now built linked ∷ later))))
        (sym (head-eq_of_cons-eq expected))
        (AtMost-≡ _ _ _
          (step_saved json id file s s' _ _ _ now built linked effects later routed
            ∙ ap (λ q. saved effects ++ q)
                (quiet json id file later s' (some id)
                  (no_more json id file (messages later) more (tail-eq_of_cons-eq expected)))
            ∙ append-nil (saved effects)
            ∙ kept)
          (subst
            (λ q.
              AtMost (q, file.mime, file.name)
                (if built && linked then (bytes, file.mime, file.name) ∷ [] else []))
            (sym (append-nil bytes)) (at_most_if (built && linked) bytes)))
  opened (message m now built linked ∷ later) s bytes (v ∷ views) more holds expected =
      let (s', effects, routed, nothing, held) = chunk_open s bytes v now built linked holds in
      subst
        (λ q.
          AtMost (bytes ++ (v ++ flatten views), file.mime, file.name)
            (saved (deliver json id file s (some id) (message q now built linked ∷ later))))
        (sym (head-eq_of_cons-eq expected))
        (AtMost-≡ _ _ _
          (step_saved json id file s s' _ _ _ now built linked effects later routed
            ∙ ap (λ q. q ++ saved (deliver json id file s' (some id) later)) nothing)
          (subst
            (λ q.
              AtMost (q, file.mime, file.name) (saved (deliver json id file s' (some id) later)))
            (append_assoc bytes v (flatten views))
            (opened later s' (bytes ++ v) views more held (tail-eq_of_cons-eq expected))))

  pub start_opens :
      (s : Shared F) (now : F) (built linked : Bool)
      → get s.incoming id ≡ none
      → recv_router json s none (start_frame json id file) now built linked
        ≡ (on_start s (meta_of id file), some id, [])
  unfolding recv_router decode_control encode_control on_frame meta_of
  start_opens s now built linked absent =
      ap (λ c. on_frame s none c built linked) (json.reads_back (Control.start (meta_of id file)))

  pub on_start-Holds :
      (s : Shared F) → get s.incoming id ≡ none → Holds (on_start s (meta_of id file)) []
  unfolding Holds on_start meta_of entry_or_default with_meta new_incoming flatten
  on_start-Holds s absent = (
    record new_incoming { meta = some (meta_of id file) },
    get-inserted json id file s.incoming _ ∙ rw (absent, entry_or_default) refl,
    refl,
    refl,
  )

  -- Over an ordered channel that may lose its end, whatever else happens to the file, and however
  -- the browser answers: of the frames of a file, the receiver saves nothing, or once exactly the
  -- bytes of the file, under its name and type.
  pub deliver_intact :
      (later : List (Arrival F)) (s : Shared F) (views : List (List ℕ)) (more : List MessageData)
      → get s.incoming id ≡ none
      → messages later ++ more ≡ whole_file json id file views
      → AtMost (flatten views, file.mime, file.name) (saved (deliver json id file s none later))
  unfolding messages saved deliver whole_file
  deliver_intact [] s views more absent expected = inl refl
  deliver_intact (dropped ∷ later) s views more absent expected =
      deliver_intact later _ views more (get-removed json id file s.incoming) expected
  deliver_intact (message m now built linked ∷ later) s views more absent expected =
      subst
        (λ q.
          AtMost (flatten views, file.mime, file.name)
            (saved (deliver json id file s none (message q now built linked ∷ later))))
        (sym (head-eq_of_cons-eq expected))
        (AtMost-≡ _ _ _
          (step_saved json id file s (on_start s (meta_of id file)) none _ _ now built linked []
            later (start_opens s now built linked absent))
          (opened later (on_start s (meta_of id file)) [] views more (on_start-Holds s absent)
            (tail-eq_of_cons-eq expected)))
