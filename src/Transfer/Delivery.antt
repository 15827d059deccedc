-- ===== src/Transfer/Delivery.antt =====
-- What the receiver of transfer.rs saves of the frames of one channel.
use mathlib.Core.List.{head-eq_of_cons-eq, tail-eq_of_cons-eq}
use file_send.Prelude.{
  Text, nat_key, text_key, ℕ, ◌≡◌, refl, sym, ap, ◌∙◌, subst, ◌⊎◌, if_pos, Bool, Option, none, some,
  List, [], ◌∷◌, ◌++◌, map,
}
use file_send.HashMap.{HashMap, get, insert, remove}
use file_send.HashMap.Laws.{get-insert, get-remove}
use file_send.Float.{F64}
use file_send.Wire.{Json}
use file_send.Protocol.{Control, encode_control, decode_control}
use file_send.Streams.{Incoming}
use file_send.Transfer.{
  File, Shared, MessageData, binary, Effect, send_control, on_offer, on_recv_progress,
  on_recv_complete, on_send_progress, on_rejected, on_cancelled, on_aborted, spawn_send,
  close_channel, trigger_download,
}
use file_send.Transfer.Receive.{finalize_recv, on_chunk, on_frame, recv_router}
use file_send.Transfer.Frames.{final_frame}

-- What reaches the receiver: a message of the channel, with the time and the browser's answers; or a
-- local `cancel` or the peer's `Abort`, which drop the entry of the file.
pub data Arrival (F : Type 0) : Type 0 where
  message : MessageData → F → Bool → Bool → Arrival F
  dropped : Arrival F

-- The messages among what arrives.
unfoldable pub messages : {F : Type 0} → List (Arrival F) → List MessageData
messages [] = []
messages (message m now built linked ∷ later) = m ∷ messages later
messages (dropped ∷ later) = messages later

-- The files that are saved: bytes, mime type and name.
unfoldable pub saved : {F : Type 0} → List (Effect F) → List (List ℕ × Text × Text)
saved [] = []
saved (trigger_download bytes mime name ∷ es) = (bytes, mime, name) ∷ saved es
saved (_ ∷ es) = saved es

-- Nothing is saved, or the one file.
abbrev pub AtMost : List ℕ × Text × Text → List (List ℕ × Text × Text) → Type 0
AtMost x xs = (xs ≡ []) ⊎ (xs ≡ x ∷ [])

module _ {F : Type 0} where
  saved-append : (es fs : List (Effect F)) → saved (es ++ fs) ≡ saved es ++ saved fs
  unfolding saved
  saved-append [] fs = refl
  saved-append (send_control t ∷ es) fs = saved-append es fs
  saved-append (on_offer m ∷ es) fs = saved-append es fs
  saved-append (on_recv_progress p ∷ es) fs = saved-append es fs
  saved-append (on_recv_complete i n ∷ es) fs = saved-append es fs
  saved-append (on_send_progress i n a b ∷ es) fs = saved-append es fs
  saved-append (on_rejected i ∷ es) fs = saved-append es fs
  saved-append (on_cancelled i ∷ es) fs = saved-append es fs
  saved-append (on_aborted i ∷ es) fs = saved-append es fs
  saved-append (spawn_send i f ∷ es) fs = saved-append es fs
  saved-append (close_channel ∷ es) fs = saved-append es fs
  saved-append (trigger_download b m n ∷ es) fs = ap ((b, m, n) ∷◌) (saved-append es fs)

module _ {F : Type 0} ⦃f64 : F64 F⦄ (json : Json (Control F)) (id : ℕ) (file : File F) where
  -- The effects of what arrives on the channel of file `id`.
  unfoldable pub deliver : Shared F → Option ℕ → List (Arrival F) → List (Effect F)
  deliver s cur [] = []
  deliver s cur (message m now built linked ∷ later) =
      let (s', cur', effects) = recv_router json s cur m now built linked in
      effects ++ deliver s' cur' later
  deliver s cur (dropped ∷ later) = deliver (record s { incoming = remove s.incoming id }) cur later

  -- No message, nothing saved.
  pub quiet :
      (later : List (Arrival F)) (s : Shared F) (cur : Option ℕ)
      → messages later ≡ []
      → saved (deliver s cur later) ≡ []
  unfolding deliver saved messages
  quiet [] s cur h = refl
  quiet (message m now built linked ∷ later) s cur h = absurd (cc (h))
  quiet (dropped ∷ later) s cur h = quiet later _ cur h

  pub no_more : (ms more : List MessageData) → ms ++ more ≡ [] → ms ≡ []
  no_more [] more h = refl
  no_more (m ∷ ms) more h = absurd (cc (h))

  pub get-removed : (map : HashMap ℕ (Incoming F)) → get (remove map id) id ≡ none
  get-removed map = get-remove map id id ∙ if_pos (nat_key.same id id) refl none (get map id)

  pub get-inserted :
      (map : HashMap ℕ (Incoming F)) (inc : Incoming F) → get (insert map id inc) id ≡ some inc
  get-inserted map inc =
      get-insert map id id inc ∙ if_pos (nat_key.same id id) refl (some inc) (get map id)

  -- One message: what its effects save, and what the later arrivals do.
  pub step_saved :
      (s s' : Shared F) (cur cur' : Option ℕ) (m : MessageData) (now : F) (built linked : Bool)
      → (effects : List (Effect F)) (later : List (Arrival F))
      → recv_router json s cur m now built linked ≡ (s', cur', effects)
      → saved (deliver s cur (message m now built linked ∷ later))
        ≡ saved effects ++ saved (deliver s' cur' later)
  unfolding deliver
  step_saved s s' cur cur' m now built linked effects later e =
      ap (λ q. saved (q.2 ++ deliver q.0 q.1 later)) e
      ∙ saved-append effects (deliver s' cur' later)

  pub end_routed :
      (s : Shared F) (cur : Option ℕ) (now : F) (built linked : Bool)
      → recv_router json s cur (final_frame json id) now built linked
        ≡ on_frame s cur (some (Control.end_frame (record { id = id }))) built linked
  unfolding recv_router decode_control encode_control
  end_routed s cur now built linked =
      ap (λ c. on_frame s cur c built linked)
        (json.reads_back (Control.end_frame (record { id = id })))

  end_closed :
      (s : Shared F) (now : F) (built linked : Bool)
      → get s.incoming id ≡ none
      → recv_router json s (some id) (final_frame json id) now built linked
        ≡ (s, some id, close_channel ∷ [])
  unfolding on_frame finalize_recv
  end_closed s now built linked e =
      end_routed s (some id) now built linked ∙ rw (e, on_frame, finalize_recv) refl

  chunk_closed :
      (s : Shared F) (v : List ℕ) (now : F) (built linked : Bool)
      → get s.incoming id ≡ none
      → recv_router json s (some id) (binary v) now built linked ≡ (s, some id, [])
  unfolding recv_router on_chunk
  chunk_closed s v now built linked e = rw (e, recv_router, on_chunk) refl

  -- Without an entry nothing is saved: late bytes and a late `End` are ignored.
  pub closed :
      (later : List (Arrival F)) (s : Shared F) (views : List (List ℕ)) (more : List MessageData)
      → get s.incoming id ≡ none
      → messages later ++ more ≡ map binary views ++ final_frame json id ∷ []
      → saved (deliver s (some id) later) ≡ []
  unfolding messages saved deliver
  closed [] s views more absent expected = refl
  closed (dropped ∷ later) s views more absent expected =
      closed later _ views more (get-removed s.incoming) expected
  closed (message m now built linked ∷ later) s [] more absent expected =
      subst (λ q. saved (deliver s (some id) (message q now built linked ∷ later)) ≡ [])
        (sym (head-eq_of_cons-eq expected))
        (step_saved s s _ _ _ now built linked _ later (end_closed s now built linked absent)
          ∙ quiet later s (some id) (no_more (messages later) more (tail-eq_of_cons-eq expected)))
  closed (message m now built linked ∷ later) s (v ∷ views) more absent expected =
      subst (λ q. saved (deliver s (some id) (message q now built linked ∷ later)) ≡ [])
        (sym (head-eq_of_cons-eq expected))
        (step_saved s s _ _ _ now built linked _ later (chunk_closed s v now built linked absent)
          ∙ closed later s views more absent (tail-eq_of_cons-eq expected))
