-- ===== src/App/Opening.antt =====
-- The files that wait for a connection in app.rs are offered when it opens.
use file_send.Rows.Refines.{apply_refines}
use file_send.Prelude.{
  ◌==◌, if◌then◌else◌, contains, nat_key, text_key, ℕ, ◌≡◌, refl, ap, ◌∙◌, true, false, ◌&&◌,
  Option, none, some, List, [], ◌∷◌, map, arith,
}
use file_send.Float.{F64}
use file_send.Wire.{Json}
use file_send.Protocol.{Control, encode_control}
use file_send.Rows.{
  TransferState, pending, offered, active, done, declined, cancelled, Row, mark_offered,
}
use file_send.Rows.Lookup.{state_of}
use file_send.Rows.Changes.{offer_out, apply, concerns, next_state}
use file_send.Transfer.{File, Shared, Effect, send_control, meta_of, offer_files}
use file_send.App.{Page, mark_all_offered, with_transfer, offer_now, channel_opens}

-- The frame that offers a file.
abbrev pub offer_frame : {F : Type 0} → Json (Control F) → ℕ × File F → Effect F
offer_frame json e = send_control (encode_control json (Control.offer (meta_of e.0 e.1)))

-- A row that is pending becomes offered.
abbrev pub promote : Option TransferState → Option TransferState
promote (some pending) = some offered
promote o = o

promote_twice : (o : Option TransferState) → promote (promote o) ≡ promote o
promote_twice none = refl
promote_twice (some pending) = refl
promote_twice (some offered) = refl
promote_twice (some active) = refl
promote_twice (some done) = refl
promote_twice (some declined) = refl
promote_twice (some cancelled) = refl

abbrev pub ids : {F : Type 0} → List (ℕ × File F) → List ℕ
ids files = map (λ e. e.0) files

promote-next_state :
    (F : Type 0) ⦃f64 : F64 F⦄ (o : Option TransferState) (id : ℕ)
    → next_state {F = F} (offer_out id) o ≡ promote o
unfolding next_state
promote-next_state F none id = refl
promote-next_state F (some pending) id = refl
promote-next_state F (some offered) id = refl
promote-next_state F (some active) id = refl
promote-next_state F (some done) id = refl
promote-next_state F (some declined) id = refl
promote-next_state F (some cancelled) id = refl

module _ {F : Type 0} ⦃f64 : F64 F⦄ where
  mark_offered-promote :
      (items : List (Row F)) (id j : ℕ)
      → state_of (mark_offered items id) j false
        ≡ (if id == j then promote (state_of items j false) else state_of items j false)
  unfolding apply concerns
  mark_offered-promote items id j =
      let one_key : (id == j && true) ≡ (id == j) = ground arith in
      apply_refines (offer_out id) items j false
      ∙ ap
          (λ b.
            if b
            then next_state {F = F} (offer_out id) (state_of items j false)
            else state_of items j false)
          one_key
      ∙ ap (λ q. if id == j then q else state_of items j false)
          (promote-next_state F (state_of items j false) id)

  mark_all_offered-promote :
      (items : List (Row F)) (files : List (ℕ × File F)) (j : ℕ)
      → state_of (mark_all_offered items files) j false ≡ (
          if contains (ids files) j
          then promote (state_of items j false)
          else state_of items j false)
  unfolding mark_all_offered contains
  mark_all_offered-promote items [] j = refl
  mark_all_offered-promote items ((id, file) ∷ files) j = ground (
    arith,
    mark_all_offered-promote (mark_offered items id) files j,
    mark_offered-promote items id j,
    promote_twice (state_of items j false),
  )

module _ {F : Type 0} ⦃f64 : F64 F⦄ (json : Json (Control F)) where
  offer_files-frames :
      (files : List (ℕ × File F)) (t : Shared F)
      → (offer_files json t files).1 ≡ map (offer_frame json) files
  unfolding offer_files
  offer_files-frames [] t = refl
  offer_files-frames ((id, file) ∷ files) t =
      ap (offer_frame json (id, file) ∷◌) (offer_files-frames files _)

  -- When the control channel of a transfer opens, the files that waited are offered, each once and in the order in
  -- which they were added; none waits any more, and of the outgoing rows exactly theirs go from
  -- pending to offered.
  pub channel_opens_offers :
      (p : Page F) (t : Shared F) (j : ℕ)
      → p.transfer ≡ some t
      → let (after, effects) = channel_opens json p in
        (after.pending ≡ [])
        × (effects ≡ map (offer_frame json) p.pending)
        × (state_of after.items j false ≡ (
            if contains (ids p.pending) j
            then promote (state_of p.items j false)
            else state_of p.items j false))
  unfolding channel_opens offer_now with_transfer contains
  channel_opens_offers p t j here = go p.pending refl
    where
      go :
          (files : List (ℕ × File F))
          → p.pending ≡ files
          → ((channel_opens json p).0.pending ≡ [])
            × ((channel_opens json p).1 ≡ map (offer_frame json) p.pending)
            × (state_of (channel_opens json p).0.items j false ≡ (
                if contains (ids p.pending) j
                then promote (state_of p.items j false)
                else state_of p.items j false))
      go [] e = rw (e) (refl, refl, refl)
      go (f ∷ fs) e =
          rw (e, here)
            (refl, offer_files-frames (f ∷ fs) t, mark_all_offered-promote p.items (f ∷ fs) j)
